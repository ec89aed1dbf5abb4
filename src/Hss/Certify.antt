-- ===== src/Hss/Certify.antt =====
-- What sign_child_certificate of src/hss.c adds to a chain of levels.
use sec_lms.Prelude.{ℕ, suc, ◌<◌, ◌≡◌, ◌≢◌, refl, sym, subst, List, ℕ_discrete, arith}
use sec_lms.Lms.{PrivateKey, PublicKey}
use sec_lms.Lms.Hash.{HashLib}
use sec_lms.Hss.{HssPrivateKey, put, put_self, put_ne}
use sec_lms.Hss.Ready.{Level, LevelAt, Certified, Chained}
use sec_lms.Hss.Build.{SignedChild}

-- To prove something of every level: of one, and of the others.
pub cases2 : (P : ℕ → Type 0) (one : ℕ) → P one → ((i : ℕ) → i ≢ one → P i) → (i : ℕ) → P i
cases2 P one own other i = elim (ℕ_discrete i one) [
  | yes e ↦ subst P (sym e) own
  | no n ↦ other i n
]

module _ (lib : HashLib) where
  pub Level-at :
      {a a' b b' : ℕ} {g g' : List ℕ} {priv priv' : PrivateKey} {key key' : PublicKey}
      → a' ≡ a
      → b' ≡ b
      → g' ≡ g
      → priv' ≡ priv
      → key' ≡ key
      → Level lib a b g priv key
      → Level lib a' b' g' priv' key'
  Level-at ea eb e f u v = rw (ea, eb, e, f, u) v

  module _ (k : HssPrivateKey) (parent : ℕ) (key : PrivateKey) (signature : List ℕ)
      (c : Chained lib (suc parent) k) where
    abbrev signed : HssPrivateKey
    signed = record k { keys = put k.keys parent key; cert = put k.cert parent signature }

    signed-Chained :
        Level lib
          (k.lms_types parent)
          (k.lmots_types parent)
          (k.generation parent)
          key
          (k.pubs parent)
        → Certified lib (k.pubs parent) (k.pubs (suc parent)) signature
        → Chained lib (suc (suc parent)) signed
    signed-Chained level certified = record {
      some_level = c.some_level;
      bounded = c.bounded;
      level =
          cases2 (λ i. i < k.levels → LevelAt lib signed i) parent
            (λ lt. Level-at refl refl refl (put_self k.keys parent key) refl level)
            (λ i n lt. Level-at refl refl refl (put_ne k.keys parent key i n) refl (c.level i lt));
      certified =
          cases2
            (λ i.
              suc i < suc (suc parent) → Certified lib (k.pubs i) (k.pubs (suc i)) (signed.cert i))
            parent (λ lt. subst C (sym (put_self k.cert parent signature)) certified)
            (λ i n lt.
              subst (Certified lib (k.pubs i) (k.pubs (suc i)))
                (sym (put_ne k.cert parent signature i n)) (c.certified i (omega arith)));
    }
      where
        C : List ℕ → Type 0
        C = Certified lib (k.pubs parent) (k.pubs (suc parent))

  -- One more level is certified.
  pub SignedChild-Chained :
      (k : HssPrivateKey) (parent : ℕ) (k' : HssPrivateKey)
      → Chained lib (suc parent) k
      → SignedChild lib k parent k'
      → Chained lib (suc (suc parent)) k'
  SignedChild-Chained k parent k' c s =
      subst (Chained lib (suc (suc parent))) (sym s.result)
        (signed-Chained k parent s.key s.signature c s.level s.certified)
