-- ===== src/Hss/Refresh.antt =====
-- refresh_level_if_exhausted of src/hss.c, without backends.
use sec_lms.Prelude.{
  ℕ, zero, suc, ◌+◌, ◌-◌, ◌^◌, ◌≤◌, ◌<◌, ◌≡◌, ◌⊎◌, refl, sym, ◌∙◌, ap, inl, inr, subst, none, arith,
  ltb, if◌then◌else◌, if_cases, lt→ltb, dec_lt,
}
use native.Mathlib.Nat.{pow-le-pow_right}
use sec_lms.Prelude.Bytes.{value}
use sec_lms.Lms.{Result, ok, err, invalid, exhausted, ◌>>=◌, or_fail}
use sec_lms.Lms.Results.{Gives, Gives-bind, Gives-or_fail, Gives_map}
use sec_lms.Lms.Params.Matching.{matching_params-parts, lms_param_bounds}
use sec_lms.Lms.Hash.{HashLib, IsHashLib}
use sec_lms.Lms.Ots.{software}
use sec_lms.Hss.{HssPrivateKey}
use sec_lms.Hss.Levels.{lms_capacity, renew, renew_from, refresh_level_if_exhausted}
use sec_lms.Hss.Ready.{Left, Advance, Advance-refl, Advance-trans, LevelAt, Chained, Ready}
use sec_lms.Hss.Build.{Left-bound, bound_Left}
use sec_lms.Hss.Renew.{Renewed, used_at, used_below, renew-Renewed}

two_leaves : (height : ℕ) → 0 < height → 2 ≤ 2 ^ height
two_leaves height lt = pow-le-pow_right {n = 2} (omega arith) lt

used_sum : (parent i : ℕ) → used_at (suc parent) i + used_below (suc parent) i ≤ used_below parent i
used_sum parent i = ground arith

used_past : (parent i : ℕ) → suc parent < i → used_at (suc parent) i ≡ 0
used_past parent i lt = ground arith

used_one : (level i : ℕ) → level + used_below level i ≤ suc level
used_one level i = ground arith

-- Some level, from `level` up to the root, has a leaf left.
abbrev pub Available : HssPrivateKey → ℕ → Type 0
Available k zero = Left (k.keys zero)
Available k (suc level) = Left (k.keys (suc level)) ⊎ Available k level

module _ (lib : HashLib) where
  -- In a new tree two leaves are left.
  pub new_Left : (k : HssPrivateKey) (i : ℕ) → LevelAt lib k i → (k.keys i).q ≤ 1 → Left (k.keys i)
  new_Left k i v le =
      let (l, o, same) =
        matching_params-parts (k.keys i).lms_type (k.keys i).lmots_type v.lms v.p v.pair.known in
      let (w, hi, n, lo) = lms_param_bounds (k.keys i).lms_type v.lms l in
      bound_Left lib v.lms v.p (k.keys i) (k.pubs i) v.pair
        (omega (arith, two_leaves v.lms.height lo))

  -- One level, then those below it.
  Renewed-trans :
      (k next k' : HssPrivateKey) (parent : ℕ)
      → Renewed lib (suc (suc parent)) parent 0 (used_at (suc parent)) k next
      → Renewed lib next.levels (suc parent) 1 (used_below (suc parent)) next k'
      → Renewed lib k.levels parent 1 (used_below parent) k k'
  Renewed-trans k next k' parent r s = record {
    chained = subst (λ n. Chained lib n k') r.advance.levels s.chained;
    advance =
        Advance-trans (used_at (suc parent)) (used_below (suc parent)) (used_below parent) k next k'
          r.advance s.advance (used_sum parent);
    above = λ i lt. s.above i (omega arith) ∙ r.above i lt;
    signer = omega (arith, ap (λ x. x.q) (s.above parent (omega arith)), r.signer);
    fresh = λ lt. omega (arith, s.signer, r.fresh (omega arith));
  }

  module _ (h : IsHashLib lib) (big : 0xffff ≤ lib.size_max) where
    -- The loop over the levels below `parent`.
    renew_from-Renewed :
        (count : ℕ) (k : HssPrivateKey) (parent : ℕ)
        → parent + suc count ≡ k.levels
        → Chained lib (suc parent) k
        → Left (k.keys parent)
        → ((i : ℕ) → parent < i → i < k.levels → value (k.generation i) + 1 < 256 ^ 32)
        → Gives
            (Renewed lib k.levels parent 1 (used_below parent) k)
            (renew_from lib software none count k parent)
    renew_from-Renewed zero k parent sum c left room = record {
      chained = subst (λ n. Chained lib n k) (omega arith) c;
      advance =
          Advance-trans (λ i. 0) (λ i. 0) (used_below parent) k k k (Advance-refl k)
            (Advance-refl k) (λ i. omega arith);
      above = λ i lt. refl;
      signer = omega arith;
      fresh = λ lt. absurd (omega arith);
    }
    renew_from-Renewed (suc count) k parent sum c left room =
        Gives-bind P Q (renew lib software none k parent)
          (λ next. renew_from lib software none count next (suc parent))
          (renew-Renewed lib h big k parent c (omega arith) left
            (room (suc parent) (omega arith) (omega arith)))
          λ next r.
            Gives_map (Renewed lib next.levels (suc parent) 1 (used_below (suc parent)) next) Q
              (renew_from lib software none count next (suc parent))
              (renew_from-Renewed count next (suc parent) (omega (arith, r.advance.levels))
                r.chained
                (new_Left next (suc parent)
                  (r.chained.level (suc parent) (omega (arith, r.advance.levels)))
                  (omega (arith, r.fresh (omega arith))))
                (λ i lt below. omega (
                  arith,
                  r.advance.at_most i,
                  used_past parent i lt,
                  room i (omega arith) (omega (arith, r.advance.levels)),
                )))
              (λ k' s. Renewed-trans k next k' parent r s)
      where
        P : HssPrivateKey → Type 0
        P = Renewed lib (suc (suc parent)) parent 0 (used_at (suc parent)) k

        Q : HssPrivateKey → Type 0
        Q = Renewed lib k.levels parent 1 (used_below parent) k

    -- What refresh_level_if_exhausted leaves: every invariant, and a leaf of the level.
    pub record Refreshed (level : ℕ) (k k' : HssPrivateKey) : Type 0 where
      pub ready : Ready lib k'
      pub left : Left (k'.keys level)
      pub advance : Advance (λ i. level) k k'

    unchanged :
        (level : ℕ) (k : HssPrivateKey) (again : Result HssPrivateKey)
        → Ready lib k
        → Left (k.keys level)
        → Gives (Refreshed level k) (
            or_fail (lms_capacity (k.keys level)) invalid >>= λ cap.
            if ltb (k.keys level).q cap then ok k else again)
    unchanged level k again c left =
        Gives-bind (λ cap. (k.keys level).q < cap) (Refreshed level k)
          (or_fail (lms_capacity (k.keys level)) invalid)
          (λ cap. if ltb (k.keys level).q cap then ok k else again)
          (Gives-or_fail (λ cap. (k.keys level).q < cap) (lms_capacity (k.keys level)) invalid left)
          λ cap lt. rw (lt→ltb (k.keys level).q cap lt) (record {
            ready = c;
            left = left;
            advance =
                Advance-trans (λ i. 0) (λ i. 0) (λ i. level) k k k (Advance-refl k) (Advance-refl k)
                  (λ i. omega arith);
          })

    exhausted_level :
        (level : ℕ) (k : HssPrivateKey) (again : Result HssPrivateKey) (v : LevelAt lib k level)
        → 2 ^ v.lms.height ≤ (k.keys level).q
        → (or_fail (lms_capacity (k.keys level)) invalid >>= λ cap.
            if ltb (k.keys level).q cap then ok k else again)
          ≡ again
    exhausted_level level k again v le =
        rw
          ((matching_params-parts (k.keys level).lms_type (k.keys level).lmots_type v.lms v.p
            v.pair.known).0)
          (if_cases (λ r. r ≡ again) (ltb (k.keys level).q (2 ^ v.lms.height))
            (λ e. absurd (ground arith)) (λ e. refl))

    leaf_cases :
        (level : ℕ) (k : HssPrivateKey) (v : LevelAt lib k level)
        → Left (k.keys level) ⊎ (2 ^ v.lms.height ≤ (k.keys level).q)
    leaf_cases level k v = elim (dec_lt (k.keys level).q (2 ^ v.lms.height)) [
      | yes lt ↦ inl (bound_Left lib v.lms v.p (k.keys level) (k.pubs level) v.pair lt)
      | no ge ↦ inr (omega arith)
    ]

    full :
        (level : ℕ) (k : HssPrivateKey) (v : LevelAt lib k level)
        → (Left (k.keys level) → ⊥)
        → 2 ^ v.lms.height ≤ (k.keys level).q
    full level k v used = elim (leaf_cases level k v) [
      | inl left ↦ absurd (used left)
      | inr le ↦ le
    ]

    higher :
        (level : ℕ) (k : HssPrivateKey) (v : LevelAt lib k (suc level))
        → 2 ^ v.lms.height ≤ (k.keys (suc level)).q
        → Available k (suc level)
        → Available k level
    higher level k v full (inr available) = available
    higher level k v full (inl left) = absurd (
        omega
          (arith, Left-bound lib v.lms v.p (k.keys (suc level)) (k.pubs (suc level)) v.pair left))

    -- The branch of an exhausted level.
    abbrev renewed : ℕ → HssPrivateKey → Result HssPrivateKey
    renewed level k =
        or_fail (refresh_level_if_exhausted lib software none level k) exhausted >>= λ next.
        renew_from lib software none (next.levels - suc level) next level

    -- After the level above, this one and those below it.
    renew_rest :
        (level : ℕ) (k : HssPrivateKey)
        → suc level < k.levels
        → ((i : ℕ) → i < k.levels → value (k.generation i) + suc level < 256 ^ 32)
        → (next : HssPrivateKey) → Refreshed level k next
        → Gives
            (Refreshed (suc level) k)
            (renew_from lib software none (next.levels - suc level) next level)
    renew_rest level k lt room next r =
        Gives_map (Renewed lib next.levels level 1 (used_below level) next)
          (Refreshed (suc level) k)
          (renew_from lib software none (next.levels - suc level) next level)
          (renew_from-Renewed (next.levels - suc level) next level (omega (arith, r.advance.levels))
            above r.left
            (λ i deep below.
              omega (arith, r.advance.at_most i, room i (omega (arith, r.advance.levels)))))
          λ k' s. record {
            ready = subst (λ n. Chained lib n k') (sym s.advance.levels) s.chained;
            left =
                new_Left k' (suc level)
                  (s.chained.level (suc level) (omega (arith, s.advance.levels, r.advance.levels)))
                  (s.fresh (omega (arith, r.advance.levels)));
            advance =
                Advance-trans (λ i. level) (used_below level) (λ i. suc level) k next k' r.advance
                  s.advance (used_one level);
          }
      where
        above : Chained lib (suc level) next
        above = record {
          some_level = r.ready.some_level;
          bounded = r.ready.bounded;
          level = r.ready.level;
          certified = λ i small. r.ready.certified i (omega (arith, r.advance.levels));
        }

    -- Where a level up to the root has a leaf left and no generation is near its end, the level has a
    -- leaf afterwards.
    pub refresh_level_if_exhausted-Refreshed :
        (level : ℕ) (k : HssPrivateKey)
        → level < k.levels
        → Ready lib k
        → Available k level
        → ((i : ℕ) → i < k.levels → value (k.generation i) + level < 256 ^ 32)
        → Gives (Refreshed level k) (refresh_level_if_exhausted lib software none level k)
    unfolding refresh_level_if_exhausted
    refresh_level_if_exhausted-Refreshed zero k lt c left room =
        unchanged zero k (err exhausted) c left
    refresh_level_if_exhausted-Refreshed (suc level) k lt c available room =
        elim (leaf_cases (suc level) k (c.level (suc level) lt)) [
          | inl left ↦ unchanged (suc level) k (renewed level k) c left
          | inr full ↦
              subst (Gives (Refreshed (suc level) k))
                (sym
                  (exhausted_level (suc level) k (renewed level k) (c.level (suc level) lt) full))
                (Gives-bind (Refreshed level k) (Refreshed (suc level) k)
                  (or_fail (refresh_level_if_exhausted lib software none level k) exhausted)
                  (λ next. renew_from lib software none (next.levels - suc level) next level)
                  (Gives-or_fail (Refreshed level k)
                    (refresh_level_if_exhausted lib software none level k) exhausted
                    (refresh_level_if_exhausted-Refreshed level k (omega arith) c
                      (higher level k (c.level (suc level) lt) full available)
                      (λ i below. omega (arith, room i below))))
                  (renew_rest level k lt room))
        ]

    -- Without backends, with hash functions that give what they promise, in a key with all its
    -- invariants: where no level from `level` up to the root has a leaf left,
    -- refresh_level_if_exhausted fails with LMS_ERR_EXHAUSTED.
    pub refresh_level_if_exhausted-exhausted :
        (level : ℕ) (k : HssPrivateKey)
        → level < k.levels
        → Ready lib k
        → ((i : ℕ) → i ≤ level → Left (k.keys i) → ⊥)
        → refresh_level_if_exhausted lib software none level k ≡ err exhausted
    unfolding refresh_level_if_exhausted
    refresh_level_if_exhausted-exhausted zero k lt c used =
        exhausted_level zero k (err exhausted) (c.level zero lt)
          (full zero k (c.level zero lt) (used zero (omega arith)))
    refresh_level_if_exhausted-exhausted (suc level) k lt c used =
        exhausted_level (suc level) k (renewed level k) (c.level (suc level) lt)
          (full (suc level) k (c.level (suc level) lt) (used (suc level) (omega arith)))
        ∙ ap
            (λ r. or_fail r exhausted >>= λ next.
              renew_from lib software none (next.levels - suc level) next level)
            (refresh_level_if_exhausted-exhausted level k (omega arith) c
              (λ i le. used i (omega arith)))
