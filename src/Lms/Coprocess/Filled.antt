-- ===== src/Lms/Coprocess/Filled.antt =====
-- Buffers of nodes that agree with the Merkle tree, and how the loops of lms_coprocess_build
-- (src/lms_coprocess.c) fill one.
use native.Mathlib.Nat.{pow-le-pow_right}
use sec_lms.Prelude.{
  ℕ, zero, suc, ◌+◌, ◌-◌, ◌*◌, ◌/◌, ◌^◌, ◌≤◌, ◌<◌, ◌≡◌, ◌≢◌, refl, sym, subst, ◌∙◌, ap, inl, inr,
  false, List, [], arith, Bool-cases, leb, leb→le, ◌==◌, if_cases, eq→==, ==_iff, length,
}
use sec_lms.Lms.{ok, HashAlg, PrivateKey}
use sec_lms.Lms.Results.{Gives}
use sec_lms.Lms.Params.{LmsParam, LmotsParam, matching_params}
use sec_lms.Lms.Hash.{HashLib, IsHashLib, lms_hash_parts, lms_hash_parts-digest}
use sec_lms.Lms.Ots.{software, prefix, d_leaf, lmots_public_from_private}
use sec_lms.Lms.Ots.Spec.{chain_ends, key_of}
use sec_lms.Lms.Ots.Refine.{lmots_public_from_private_lem}
use sec_lms.Lms.Tree.Laws.{
  AtLevel, node, internal-ok, leaf_room, children, inner_level, leaf_level, pow_double, zero_add,
  add_suc, suc_add,
}
use sec_lms.Lms.Sign.{sibling}
use sec_lms.Lms.Verify.Path.{siblings, sibling-AtLevel, parent-AtLevel}
use sec_lms.Lms.Coprocess.{Nodes, store, build_leaves, build_internal, siblings_from}

-- A node's level, and the levels below it.
pub record Located (height num : ℕ) : Type 0 where
  pub depth : ℕ
  pub level : ℕ
  pub sum : depth + level ≡ height
  pub at_level : AtLevel level num

not_le : (a b : ℕ) → leb a b ≡ false → b < a
not_le a b h = ground arith

level_le : (k k' r : ℕ) → AtLevel k r → AtLevel k' r → k' ≤ k
level_le k k' r l l' = elim (Bool-cases (leb k' k)) [
  | inl e ↦ leb→le _ _ e
  | inr e ↦ absurd (
      omega (
        arith,
        l.1,
        l'.0,
        pow-le-pow_right {n = 2} (omega arith) {i = suc k} {j = k'} (not_le _ _ e),
      ))
]

-- A number is on one level only.
pub level_unique : (k k' r : ℕ) → AtLevel k r → AtLevel k' r → k ≡ k'
level_unique k k' r l l' = omega (arith, level_le k k' r l l', level_le k' k r l' l)

after : (r num : ℕ) → (num == r) ≡ false → r ≤ num → suc r ≤ num
after r num e h = ground arith

-- Every number from 1 to the last leaf is on a level.
pub located : (height num : ℕ) → 1 ≤ num → num < 2 ^ (suc height) → Located height num
located zero num lo hi = record { depth = 0; level = 0; sum = refl; at_level = (lo, hi) }
located (suc h) num lo hi = elim (Bool-cases (leb (2 ^ suc h) num)) [
  | inl e ↦ record {
    depth = 0;
    level = suc h;
    sum = zero_add (suc h);
    at_level = (leb→le _ _ e, hi);
  }
  | inr e ↦
      let l = located h num lo (not_le _ _ e) in
      record {
        depth = suc l.depth;
        level = l.level;
        sum = suc_add l.depth l.level ∙ ap suc l.sum;
        at_level = l.at_level;
      }
]

-- The nodes from `lo` on have their values.
abbrev pub Filled : ℕ → (ℕ → ℕ → List ℕ) → ℕ → Nodes → Type 0
Filled height at lo nodes =
    (d k num : ℕ) → d + k ≡ height → AtLevel k num → lo ≤ num → nodes num ≡ at d num

pub store_self : (nodes : Nodes) (num : ℕ) (value : List ℕ) → store nodes num value num ≡ value
store_self nodes num value = rw (eq→== {a = num} refl) refl

pub store_ne :
    (nodes : Nodes) (num m : ℕ) (value : List ℕ) → m ≢ num → store nodes num value m ≡ nodes m
store_ne nodes num m value ne =
    if_cases (λ (r : List ℕ). r ≡ nodes m) (m == num) (λ e. absurd (ne (ground arith))) (λ _. refl)

pub pow_pos : (k : ℕ) → 1 ≤ 2 ^ k
pow_pos zero = omega arith
pow_pos (suc k) = omega (arith, pow_double k, pow_pos k)

-- The siblings that are looked up are those of the tree.
pub siblings_from-siblings :
    (height : ℕ) (at : ℕ → ℕ → List ℕ) (nodes : Nodes)
    → Filled height at 1 nodes
    → (k d num : ℕ) → d + k ≡ height
    → AtLevel k num
    → siblings_from nodes k num ≡ siblings at k d num
siblings_from-siblings height at nodes f zero d num e l = refl
siblings_from-siblings height at nodes f (suc k) d num e l = rw (
  f d (suc k) (sibling num) e (sibling-AtLevel k num l)
      (omega (arith, (sibling-AtLevel k num l).0, pow_pos (suc k))),
  siblings_from-siblings height at nodes f k (suc d) (num / 2) (sym (add_suc d k) ∙ e)
      (parent-AtLevel k num l),
)

add_zero : (n : ℕ) → n + 0 ≡ n
add_zero n = omega arith

next_add : (n m : ℕ) → (n + 1) + m ≡ n + suc m
next_add n m = omega arith

cancel : (base q : ℕ) → (base + q) - base ≡ q
cancel base q = omega arith

before : (base q num : ℕ) → (num == base + q) ≡ false → num < base + (q + 1) → num < base + q
before base q num e h = ground arith

module _ (lib : HashLib) (h : IsHashLib lib) (big : 0xffff ≤ lib.size_max) (priv : PrivateKey)
    (lms : LmsParam) (p : LmotsParam)
    (known : matching_params priv.lms_type priv.lmots_type ≡ ok (lms, p))
    (len_I : length priv.I ≡ 16) where
  abbrev alg : HashAlg
  alg = lms.hash_alg

  abbrev base : ℕ
  base = 2 ^ lms.height

  abbrev at : ℕ → ℕ → List ℕ
  at d num = node lib priv alg p base d num

  -- The leaves before leaf `q` have their values.
  abbrev pub Leaves : ℕ → Nodes → Type 0
  Leaves q nodes = (num : ℕ) → base ≤ num → num < base + q → nodes num ≡ at 0 num

  pub leaf_hash :
      (q : ℕ)
      → lms_hash_parts lib
          (prefix priv.I (base + q) d_leaf)
          (key_of lib alg priv.I q (chain_ends lib alg priv q p))
          []
          []
          alg
        ≡ ok (at 0 (base + q))
  unfolding node
  leaf_hash q = rw (cancel base q) (
      lms_hash_parts-digest lib h (prefix priv.I (base + q) d_leaf)
        (key_of lib alg priv.I q (chain_ends lib alg priv q p)) [] [] alg
        (leaf_room lib h big priv lms p known len_I (base + q) q))

  store-Leaves :
      (q : ℕ) (nodes : Nodes)
      → Leaves q nodes
      → Leaves (q + 1) (store nodes (base + q) (at 0 (base + q)))
  store-Leaves q nodes f num lo hi = elim (Bool-cases (num == base + q)) [
    | inl e ↦ rw ((==_iff _ _).0 e) (store_self nodes (base + q) (at 0 (base + q)))
    | inr e ↦ rw e (f num lo (before base q num e hi))
  ]

  pub build_leaves-Leaves :
      (k q : ℕ) (nodes : Nodes)
      → Leaves q nodes
      → Gives (Leaves (q + k)) (
          build_leaves lib software
            (lmots_public_from_private lib software)
            priv
            priv.I
            alg
            base
            k
            q
            nodes)
  unfolding build_leaves
  build_leaves-Leaves zero q nodes f = rw (add_zero q) f
  build_leaves-Leaves (suc k) q nodes f =
      rw (lmots_public_from_private_lem lib h big priv lms p known len_I q) (
        rw (leaf_hash q)
          (rw (← next_add q k) (build_leaves-Leaves k (q + 1) _ (store-Leaves q nodes f))))

  -- From filled leaves: the tree's levels, once the leaves are there.
  pub Leaves-Filled : (nodes : Nodes) → Leaves base nodes → Filled lms.height at base nodes
  Leaves-Filled nodes f zero k num e l lo = f num lo (
      omega (arith, pow_double lms.height, subst (λ m. num < 2 ^ suc m) (sym (zero_add k) ∙ e) l.1))
  Leaves-Filled nodes f (suc d) k num e l lo =
      absurd (omega (arith, inner_level d k lms.height num e l))

  -- One internal node, from its children.
  store-Filled :
      (d k r : ℕ) (nodes : Nodes)
      → Filled lms.height at (suc r) nodes
      → suc d + k ≡ lms.height
      → AtLevel k r
      → Filled lms.height at r (store nodes r (at (suc d) r))
  store-Filled d k r nodes f e l d' k' num e' l' lo = elim (Bool-cases (num == r)) [
    | inl same ↦
        rw (same, (==_iff _ _).0 same)
          (ap (λ m. at m r)
            (omega (arith, level_unique k k' r l (subst (AtLevel k') ((==_iff _ _).0 same) l'))))
    | inr other ↦ rw other (f d' k' num e' l' (after r num other lo))
  ]

  -- A round of the loop, with the rest of the loop.
  build_one :
      (d k r : ℕ) (nodes : Nodes)
      → Filled lms.height at (suc (suc r)) nodes
      → d + k ≡ lms.height
      → AtLevel k (suc r)
      → suc r < base
      → ((d' : ℕ)
          → suc d' + k ≡ lms.height
          → Gives (Filled lms.height at 1) (
              build_internal lib software priv.I alg r (store nodes (suc r) (at (suc d') (suc r)))))
      → Gives (Filled lms.height at 1) (build_internal lib software priv.I alg (suc r) nodes)
  unfolding build_internal
  build_one zero k r nodes f e l lt rest =
      absurd (omega (arith, leaf_level k lms.height (suc r) e l))
  build_one (suc d) k r nodes f e l lt rest =
      let below = children k (suc r) l in
      rw
        (
          f d (suc k) (suc r * 2) (add_suc d k ∙ e) below.0 (omega arith),
          f d (suc k) (suc r * 2 + 1) (add_suc d k ∙ e) below.1 (omega arith),
        )
        (rw (internal-ok lib h big priv lms p known len_I d (suc r)) (rest d e))

  pub build_internal-Filled :
      (r : ℕ) (nodes : Nodes)
      → r < base
      → Filled lms.height at (suc r) nodes
      → Gives (Filled lms.height at 1) (build_internal lib software priv.I alg r nodes)
  unfolding build_internal
  build_internal-Filled zero nodes lt f = f
  build_internal-Filled (suc r) nodes lt f =
      let l = located lms.height (suc r) (omega arith) (omega (arith, pow_double lms.height)) in
      build_one l.depth l.level r nodes f l.sum l.at_level lt λ d e.
        build_internal-Filled r (store nodes (suc r) (at (suc d) (suc r))) (omega arith)
          (store-Filled d l.level (suc r) nodes f e l.at_level)
