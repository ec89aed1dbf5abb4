-- ===== src/Lms/Results.antt =====
-- What a function with error codes has done when it returned LMS_OK.
use sec_lms.Prelude.{◌≡◌, refl, Bool, true, false, arith}
use sec_lms.Lms.{Error, Result, ok, err, ◌>>=◌, guard, or_fail}

-- The call, and the rest of the function, both succeeded.
pub record Went {ℓ κ} {V : Type ℓ} {W : Type κ} (m : Result V) (rest : V → Result W) (b : W)
    : Type (ℓ ⊔ κ) where
  pub value : V
  pub call : m ≡ ok value
  pub after : rest value ≡ ok b

pub >>=-Went {ℓ κ} :
    {V : Type ℓ} {W : Type κ} (m : Result V) (rest : V → Result W) (b : W)
    → (m >>= rest) ≡ ok b
    → Went m rest b
>>=-Went (ok v) rest b e = record { value = v; call = refl; after = e }
>>=-Went (err x) rest b e = absurd (ground arith)

pub or_fail_inv {ℓ} :
    {V : Type ℓ} (m : Result V) (x : Error) (v : V) → or_fail m x ≡ ok v → m ≡ ok v
or_fail_inv (ok w) x v e = e
or_fail_inv (err y) x v e = absurd (ground arith)

pub guard_inv : (test : Bool) (x : Error) → guard test x ≡ ok tt → test ≡ true
guard_inv true x e = refl
guard_inv false x e = absurd (ground arith)

-- The call succeeded, with a value of which `P` holds.
abbrev pub Gives {ℓ} : {V : Type ℓ} → (V → Type 0) → Result V → Type 0
Gives P (ok v) = P v
Gives P (err x) = ⊥

pub Gives-bind {ℓ κ} :
    {V : Type ℓ} {W : Type κ} (P : V → Type 0) (Q : W → Type 0) (m : Result V) (rest : V → Result W)
    → Gives P m
    → ((v : V) → P v → Gives Q (rest v))
    → Gives Q (m >>= rest)
Gives-bind P Q (ok v) rest g k = k v g
Gives-bind P Q (err x) rest g k = g

pub Gives_map {ℓ} :
    {V : Type ℓ} (P Q : V → Type 0) (m : Result V) → Gives P m → ((v : V) → P v → Q v) → Gives Q m
Gives_map P Q (ok v) g k = k v g
Gives_map P Q (err x) g k = g

pub Gives-or_fail {ℓ} :
    {V : Type ℓ} (P : V → Type 0) (m : Result V) (x : Error) → Gives P m → Gives P (or_fail m x)
Gives-or_fail P (ok v) x g = g
Gives-or_fail P (err y) x g = g

pub Gives-value {ℓ} :
    {V : Type ℓ} (P : V → Type 0) (m : Result V) → Gives P m → (v : V) × (m ≡ ok v) × P v
Gives-value P (ok v) g = (v, refl, g)
Gives-value P (err x) g = absurd g
