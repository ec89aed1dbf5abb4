-- ===== src/Hss/Renew.antt =====
-- The renewal of a level and of those below it, in refresh_level_if_exhausted of src/hss.c.
use sec_lms.Prelude.{
  ℕ, suc, ◌+◌, ◌^◌, ◌≤◌, ◌<◌, ◌≡◌, ◌≢◌, refl, sym, ◌∙◌, ap, ap₂, inl, inr, subst, List, length,
  none, arith, ℕ_discrete, ltb, ◌==◌, if◌then◌else◌,
}
use sec_lms.Prelude.Bytes.{Bytes, value}
use sec_lms.Lms.{Result, ok, err, invalid, exhausted, ◌>>=◌, or_fail, PrivateKey, PublicKey}
use sec_lms.Lms.Results.{Gives, Gives-bind, Gives-or_fail, Gives_map}
use sec_lms.Lms.Params.{matching_params}
use sec_lms.Lms.Hash.{HashLib, IsHashLib}
use sec_lms.Lms.Ots.{software}
use sec_lms.Lms.Verify.Correct.{public_key}
use sec_lms.Hss.{HssPrivateKey, put, put_self, put_ne}
use sec_lms.Hss.Counter.{increment_generation, Counted, increment_generation-Counted}
use sec_lms.Hss.Levels.{build_level, sign_child_certificate, renew}
use sec_lms.Hss.Ready.{Left, Forward, Advance, Level, LevelAt, Chained}
use sec_lms.Hss.Certify.{cases2, Level-at, SignedChild-Chained}
use sec_lms.Hss.Build.{
  built, new_key, new_key-Pair, build_level_lem, SignedChild, sign_child_certificate-SignedChild,
}

-- To prove something of every level: of a level, of its parent, of the others.
cases3 :
    (P : ℕ → Type 0) (parent : ℕ)
    → P (suc parent)
    → P parent
    → ((i : ℕ) → i ≢ suc parent → i ≢ parent → P i)
    → (i : ℕ) → P i
cases3 P parent child own other i = elim (ℕ_discrete i (suc parent)) [
  | yes e ↦ subst P (sym e) child
  | no n ↦ elim (ℕ_discrete i parent) [ yes e ↦ subst P (sym e) own | no m ↦ other i n m ]
]

-- How many generations the renewal of one level, and of all below a parent, uses.
abbrev pub used_at : ℕ → ℕ → ℕ
used_at level i = if i == level then 1 else 0

abbrev pub used_below : ℕ → ℕ → ℕ
used_below parent i = if ltb parent i then 1 else 0

-- A generation that is not the last one.
abbrev pub Later : List ℕ → List ℕ → Type 0
Later g g' = (value g' ≡ value g + 1) × Bytes g' × (length g' ≡ 32)

Counted-Later :
    (g : List ℕ) (r : Result (List ℕ))
    → Counted 1 g r
    → length g ≡ 32
    → value g + 1 < 256 ^ 32
    → Gives (Later g) r
Counted-Later g (ok g') (v, b, l) len lt = (v, b, l ∙ len)
Counted-Later g (err code) (e, le) len lt = absurd (omega (arith, ap (λ n. 256 ^ n) len))

module _ (lib : HashLib) where
  -- The levels below `parent` are renewed, and the first `n` are certified.
  pub record Renewed (n parent fresh_q : ℕ) (used : ℕ → ℕ) (k k' : HssPrivateKey) : Type 0 where
    pub chained : Chained lib n k'
    pub advance : Advance used k k'
    pub above : (i : ℕ) → i < parent → k'.keys i ≡ k.keys i
    pub signer : (k'.keys parent).q ≤ (k.keys parent).q + 1
    pub fresh : suc parent < n → (k'.keys (suc parent)).q ≤ fresh_q

  module _ (h : IsHashLib lib) (big : 0xffff ≤ lib.size_max) (k : HssPrivateKey) (parent : ℕ)
      (c : Chained lib (suc parent) k) (lt : suc parent < k.levels) where
    child : LevelAt lib k (suc parent)
    child = c.level (suc parent) lt

    known :
        matching_params (k.lms_types (suc parent)) (k.lmots_types (suc parent))
        ≡ ok (child.lms, child.p)
    known = ap₂ matching_params (sym child.lms_same) (sym child.lmots_same) ∙ child.pair.known

    -- The key with the next generation, built but not certified.
    abbrev moved : List ℕ → HssPrivateKey
    moved g = record k { generation = put k.generation (suc parent) g }

    abbrev child_key : List ℕ → PrivateKey
    child_key g = new_key lib (moved g) (suc parent) child.lms

    abbrev child_pub : List ℕ → PublicKey
    child_pub g = public_key lib (child_key g) child.lms child.p

    abbrev next : List ℕ → HssPrivateKey
    next g = built lib (moved g) (suc parent) child.lms child.p

    module _ (g : List ℕ) (later : Later (k.generation (suc parent)) g) where
      own_key : (next g).keys parent ≡ k.keys parent
      own_key = put_ne k.keys (suc parent) (child_key g) parent (omega arith)

      new-Level :
          Level lib
            (k.lms_types (suc parent))
            (k.lmots_types (suc parent))
            g
            (child_key g)
            (child_pub g)
      new-Level = record {
        lms = child.lms;
        p = child.p;
        pair = new_key-Pair lib h big (moved g) (suc parent) child.lms child.p known;
        lms_same = refl;
        lmots_same = refl;
        bytes = later.1;
        length_generation = later.2;
      }

      -- The level is built, and its parent is to certify it.
      next-Chained : Chained lib (suc parent) (next g)
      next-Chained = record {
        some_level = c.some_level;
        bounded = c.bounded;
        level =
            cases2 (λ i. i < k.levels → LevelAt lib (next g) i) (suc parent)
              (λ lt.
                Level-at lib refl refl (put_self k.generation (suc parent) g)
                  (put_self k.keys (suc parent) (child_key g))
                  (put_self k.pubs (suc parent) (child_pub g)) new-Level)
              (λ i n lt.
                Level-at lib refl refl (put_ne k.generation (suc parent) g i n)
                  (put_ne k.keys (suc parent) (child_key g) i n)
                  (put_ne k.pubs (suc parent) (child_pub g) i n) (c.level i lt));
        certified = λ i lt.
            rw
              (
                put_ne k.pubs (suc parent) (child_pub g) i (omega arith),
                put_ne k.pubs (suc parent) (child_pub g) (suc i) (omega arith),
              )
              (c.certified i lt);
      }

      -- The certificate is made: the level is renewed.
      module _ (key : PrivateKey) (signature : List ℕ)
          (q_next : key.q ≡ (k.keys parent).q + 1) where
        abbrev done : HssPrivateKey
        done = record (next g) {
          keys = put (next g).keys parent key;
          cert = put k.cert parent signature;
        }

        key_child : done.keys (suc parent) ≡ child_key g
        key_child =
            put_ne (next g).keys parent key (suc parent) (omega arith)
            ∙ put_self k.keys (suc parent) (child_key g)

        key_own : done.keys parent ≡ key
        key_own = put_self (next g).keys parent key

        key_other : (i : ℕ) → i ≢ suc parent → i ≢ parent → done.keys i ≡ k.keys i
        key_other i n m =
            put_ne (next g).keys parent key i m ∙ put_ne k.keys (suc parent) (child_key g) i n

        forward :
            (i : ℕ) → Forward (k.generation i) (k.keys i).q (done.generation i) (done.keys i).q
        forward =
            cases3 (λ i. Forward (k.generation i) (k.keys i).q (done.generation i) (done.keys i).q)
              parent (rw (put_self k.generation (suc parent) g) (inl (omega (arith, later.0))))
              (rw (put_ne k.generation (suc parent) g parent (omega arith), key_own)
                (inr (refl, omega (arith, q_next))))
              (λ i n m.
                rw (put_ne k.generation (suc parent) g i n, key_other i n m)
                  (inr (refl, omega arith)))

        at_most :
            (i : ℕ) → value (done.generation i) ≤ value (k.generation i) + used_at (suc parent) i
        at_most =
            cases3
              (λ i. value (done.generation i) ≤ value (k.generation i) + used_at (suc parent) i)
              parent (rw (put_self k.generation (suc parent) g) (used_one (later.0)))
              (rw (put_ne k.generation (suc parent) g parent (omega arith)) (omega arith))
              (λ i n m. rw (put_ne k.generation (suc parent) g i n) (omega arith))
          where
            used_one :
                value g ≡ value (k.generation (suc parent)) + 1
                → value g ≤ value (k.generation (suc parent)) + used_at (suc parent) (suc parent)
            used_one e = ground arith

        done-Renewed :
            Chained lib (suc (suc parent)) done
            → Renewed (suc (suc parent)) parent 0 (used_at (suc parent)) k done
        done-Renewed chained = record {
          chained = chained;
          advance = record {
            levels = refl;
            root = put_ne k.pubs (suc parent) (child_pub g) 0 (omega arith);
            lms_types = refl;
            lmots_types = refl;
            forward = forward;
            at_most = at_most;
          };
          above = λ i lt. key_other i (omega arith) (omega arith);
          signer = omega (arith, ap (λ x. x.q) key_own, q_next);
          fresh = λ lt. omega (arith, ap (λ x. x.q) key_child);
        }

    -- The three steps for one level.
    pub renew-Renewed :
        Left (k.keys parent)
        → value (k.generation (suc parent)) + 1 < 256 ^ 32
        → Gives
            (Renewed (suc (suc parent)) parent 0 (used_at (suc parent)) k)
            (renew lib software none k parent)
    unfolding renew
    renew-Renewed left room =
        Gives-bind (Later generation) P (or_fail (increment_generation generation) exhausted)
          (λ g. or_fail (build_level lib software none (moved g) (suc parent)) invalid >>= λ b.
            or_fail (sign_child_certificate lib software none b parent) exhausted)
          (Gives-or_fail (Later generation) (increment_generation generation) exhausted (
            Counted-Later generation (increment_generation generation)
              (increment_generation-Counted generation child.bytes) child.length_generation room))
          certify
      where
        generation : List ℕ
        generation = k.generation (suc parent)

        P : HssPrivateKey → Type 0
        P = Renewed (suc (suc parent)) parent 0 (used_at (suc parent)) k

        finish :
            (g : List ℕ) (later : Later generation g) (k' : HssPrivateKey)
            → SignedChild lib (next g) parent k'
            → P k'
        finish g later k' s = subst P (sym s.result) (
            done-Renewed g later s.key s.signature (s.next ∙ ap (λ x. x.q + 1) (own_key g later)) (
              subst (Chained lib (suc (suc parent))) s.result
                (SignedChild-Chained lib (next g) parent k' (next-Chained g later) s)))

        certify :
            (g : List ℕ)
            → Later generation g
            → Gives P (
                or_fail (build_level lib software none (moved g) (suc parent)) invalid >>= λ b.
                or_fail (sign_child_certificate lib software none b parent) exhausted)
        certify g later =
            rw (build_level_lem lib h big (moved g) (suc parent) child.lms child.p known) (
              Gives-or_fail P (sign_child_certificate lib software none (next g) parent) exhausted (
                Gives_map (SignedChild lib (next g) parent) P
                  (sign_child_certificate lib software none (next g) parent)
                  (sign_child_certificate-SignedChild lib h big (next g) parent lt
                    ((next-Chained g later).level parent (omega arith))
                    ((next-Chained g later).level (suc parent) lt)
                    (subst Left (sym (own_key g later)) left))
                  (finish g later)))
