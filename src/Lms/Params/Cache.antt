-- ===== src/Lms/Params/Cache.antt =====
-- The one-entry caches of lms_get_lms_param and lms_get_lmots_param (src/lms_params.c).
use sec_lms.Prelude.{
  ℕ, ◌≡◌, refl, Bool, true, ◌&&◌, ◌==◌, if◌then◌else◌, if_cases, sym, and_true, subst, ==_iff,
}
use sec_lms.Lms.{Result, ok, err}
use sec_lms.Lms.Params.{LmsParam, LmotsParam, lms_param, lmots_param}

-- A cache: its type, its valid flag, its entry.
pub record Cache {ℓ} (P : Type ℓ) : Type ℓ where
  pub type : ℕ
  pub valid : Bool
  pub entry : P

module _ {ℓ} {P : Type ℓ} (table : ℕ → Result P) where
  -- What the code stores after a look-up that found a row.
  abbrev store : Cache P → ℕ → Result P → Cache P
  store c type (ok r) = record { type = type; valid = true; entry = r }
  store c type (err e) = c

  -- The body of both functions: the entry if it is of this type, else the table.
  pub lookup : Cache P → ℕ → Cache P × Result P
  lookup c type =
      if c.valid && c.type == type then (c, ok c.entry) else (store c type (table type), table type)

  -- A valid entry is the table's row.
  abbrev pub IsConsistent : Cache P → Type ℓ
  IsConsistent c = c.valid ≡ true → table c.type ≡ ok c.entry

  store-IsConsistent :
      (c : Cache P) (type : ℕ) (r : Result P)
      → table type ≡ r
      → IsConsistent c
      → IsConsistent (store c type r)
  store-IsConsistent c type (ok r) e h = λ _. e
  store-IsConsistent c type (err x) e h = h

  -- A look-up through a consistent cache gives what the table gives, an error included, and leaves a
  -- consistent cache.
  pub lookup-table :
      (c : Cache P) (type : ℕ)
      → IsConsistent c
      → IsConsistent (lookup c type).0 × ((lookup c type).1 ≡ table type)
  unfolding lookup
  lookup-table c type h =
      if_cases (λ (r : Cache P × Result P). IsConsistent r.0 × (r.1 ≡ table type))
        (c.valid && c.type == type) (λ hit. (h, hit_row hit))
        (λ _. (store-IsConsistent c type (table type) refl h, refl))
    where
      hit_row : (c.valid && c.type == type) ≡ true → ok c.entry ≡ table type
      hit_row hit =
          let (v, e) = and_true hit in
          subst (λ k. ok c.entry ≡ table k) ((==_iff c.type type).0 e) (sym (h v))

-- lms_get_lms_param and lms_get_lmots_param.
abbrev pub lms_get_lms_param : Cache LmsParam → ℕ → Cache LmsParam × Result LmsParam
lms_get_lms_param = lookup lms_param

abbrev pub lms_get_lmots_param : Cache LmotsParam → ℕ → Cache LmotsParam × Result LmotsParam
lms_get_lmots_param = lookup lmots_param
