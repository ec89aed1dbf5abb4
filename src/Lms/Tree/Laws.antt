-- ===== src/Lms/Tree/Laws.antt =====
-- The recursion of src/lms_tree.c reaches the leaves within the height of the tree, and computes
-- the hashes of the Merkle tree.
use native.Mathlib.Nat.{pow-suc}
use sec_lms.Prelude.{
  ℕ, zero, suc, ◌+◌, ◌-◌, ◌*◌, ◌^◌, ◌≤◌, ◌<◌, ◌≡◌, sym, subst, ◌∙◌, inl, false, List, [], ◌++◌,
  length, leb, arith, length-append, le→leb,
}
use sec_lms.Prelude.Bytes.{put_be32, put_be16}
use sec_lms.Lms.{ok, HashAlg, PrivateKey}
use sec_lms.Lms.Params.{LmsParam, LmotsParam, lms_param, matching_params}
use sec_lms.Lms.Params.Matching.{matching_params-parts}
use sec_lms.Lms.Hash.{HashLib, IsHashLib, Hashable, digest, length-digest, lms_hash_parts-digest}
use sec_lms.Lms.Ots.{software, prefix, d_leaf, d_intr, d_pblc}
use sec_lms.Lms.Ots.Spec.{chain_ends, key_of}
use sec_lms.Lms.Ots.Refine.{lmots_public_from_private_lem}
use sec_lms.Lms.Tree.{lms_leaf, lms_internal_node, tree_node_at, lms_tree_node}

pub pow_double : (k : ℕ) → 2 ^ (suc k) ≡ 2 ^ k * 2
pow_double k = pow-suc 2 k

pub back : (base num : ℕ) → base ≤ num → base + (num - base) ≡ num
back base num h = omega arith

-- The nodes of level `k`, the root being level 0.
abbrev pub AtLevel : ℕ → ℕ → Type 0
AtLevel k num = (2 ^ k ≤ num) × (num < 2 ^ (suc k))

pub zero_add : (n : ℕ) → 0 + n ≡ n
zero_add n = omega arith

pub suc_add : (n m : ℕ) → suc n + m ≡ suc (n + m)
suc_add n m = omega arith

pub add_suc : (n m : ℕ) → n + suc m ≡ suc n + m
add_suc n m = omega arith

pub pow_le : (d k : ℕ) → 2 ^ k ≤ 2 ^ (d + k)
pow_le zero k = rw (zero_add k) (omega arith)
pow_le (suc d) k = rw (suc_add d k, pow-suc) (omega (arith, pow_le d k))

-- The value of a node with `d` levels below it: the hash of a one-time key, or of two children.
unfoldable pub node : HashLib → PrivateKey → HashAlg → LmotsParam → ℕ → ℕ → ℕ → List ℕ
node lib priv alg p base zero num = digest lib alg (
    prefix priv.I num d_leaf
    ++ (key_of lib alg priv.I (num - base) (chain_ends lib alg priv (num - base) p) ++ []))
node lib priv alg p base (suc d) num = digest lib alg (
    prefix priv.I num d_intr
    ++ (node lib priv alg p base d (num * 2) ++ (node lib priv alg p base d (num * 2 + 1) ++ [])))

pub leaf_level : (k h num : ℕ) → 0 + k ≡ h → AtLevel k num → 2 ^ h ≤ num
leaf_level k h num e at_k = subst (λ m. 2 ^ m ≤ num) (sym (zero_add k) ∙ e) at_k.0

pub inner_level : (d k h num : ℕ) → suc d + k ≡ h → AtLevel k num → num < 2 ^ h
inner_level d k h num e at_k =
    subst (λ m. num < 2 ^ m) (add_suc d k ∙ e) (omega (arith, pow_le d (suc k), at_k.1))

pub not_leb : (a b : ℕ) → b < a → leb a b ≡ false
not_leb a b h = ground arith

-- The children of a node, and its parent, are one level on.
pub children :
    (k num : ℕ) → AtLevel k num → AtLevel (suc k) (num * 2) × AtLevel (suc k) (num * 2 + 1)
children k num (lo, hi) = (
  (omega (arith, pow_double k), omega (arith, pow_double k, pow_double (suc k))),
  (omega (arith, pow_double k), omega (arith, pow_double k, pow_double (suc k))),
)

module _ (lib : HashLib) (h : IsHashLib lib) (big : 0xffff ≤ lib.size_max) (priv : PrivateKey)
    (lms : LmsParam) (p : LmotsParam)
    (known : matching_params priv.lms_type priv.lmots_type ≡ ok (lms, p))
    (len_I : length priv.I ≡ 16) where
  abbrev alg : HashAlg
  alg = lms.hash_alg

  abbrev base : ℕ
  base = 2 ^ lms.height

  abbrev at : ℕ → ℕ → List ℕ
  at d num = node lib priv alg p base d num

  pub length-prefix : (q d : ℕ) → length (prefix priv.I q d) ≡ 22
  length-prefix q d = omega (arith, length-append priv.I (put_be32 q ++ put_be16 d))

  pub length-node : (d num : ℕ) → length (at d num) ≡ 32
  unfolding node
  length-node zero num = length-digest lib h alg _
  length-node (suc d) num = length-digest lib h alg _

  pub lms_known : lms_param priv.lms_type ≡ ok lms
  lms_known = (matching_params-parts _ _ lms p known).0

  pub leaf_room :
      (num q : ℕ)
      → Hashable lib (
          length (prefix priv.I num d_leaf)
          + length (key_of lib alg priv.I q (chain_ends lib alg priv q p))
          + 0
          + 0)
  leaf_room num q = (
    omega (
      arith,
      big,
      length-prefix num d_leaf,
      length-digest lib h alg
          (prefix priv.I q d_pblc ++ (chain_ends lib alg priv q p ++ ([] ++ []))),
    ),
    inl (
        omega (
          arith,
          length-prefix num d_leaf,
          length-digest lib h alg
              (prefix priv.I q d_pblc ++ (chain_ends lib alg priv q p ++ ([] ++ []))),
        )),
  )

  leaf-ok : (num : ℕ) → base ≤ num → lms_leaf lib software priv (num - base) ≡ ok (at 0 num)
  unfolding lms_leaf node
  leaf-ok num le =
      rw (lms_known, known)
        (rw (lmots_public_from_private_lem lib h big priv lms p known len_I (num - base)) (
          rw (back base num le) (
            lms_hash_parts-digest lib h (prefix priv.I num d_leaf)
              (key_of lib alg priv.I (num - base) (chain_ends lib alg priv (num - base) p)) [] []
              alg (leaf_room num (num - base)))))

  pub internal-ok :
      (d num : ℕ)
      → lms_internal_node lib software priv.I alg num (at d (num * 2)) (at d (num * 2 + 1))
        ≡ ok (at (suc d) num)
  unfolding lms_internal_node node
  internal-ok d num =
      lms_hash_parts-digest lib h (prefix priv.I num d_intr) (at d (num * 2)) (at d (num * 2 + 1))
        [] alg
        (
          omega (
            arith,
            big,
            length-prefix num d_intr,
            length-node d (num * 2),
            length-node d (num * 2 + 1),
          ),
          inl (
              omega (
                arith,
                length-prefix num d_intr,
                length-node d (num * 2),
                length-node d (num * 2 + 1),
              )),
        )

  -- With the levels below a node as fuel, and with more, the recursion gives the node's value.
  tree_node_at-node :
      (fuel d k num : ℕ)
      → d ≤ fuel
      → d + k ≡ lms.height
      → AtLevel k num
      → tree_node_at lib software fuel priv alg base num ≡ ok (at d num)
  unfolding tree_node_at
  tree_node_at-node zero zero k num le e at_k =
      rw (le→leb (leaf_level k lms.height num e at_k))
        (leaf-ok num (leaf_level k lms.height num e at_k))
  tree_node_at-node (suc fuel) zero k num le e at_k =
      rw (le→leb (leaf_level k lms.height num e at_k))
        (leaf-ok num (leaf_level k lms.height num e at_k))
  tree_node_at-node zero (suc d) k num le e at_k = absurd (omega arith)
  tree_node_at-node (suc fuel) (suc d) k num le e at_k =
      rw (not_leb base num (inner_level d k lms.height num e at_k)) (
        rw
          (
            tree_node_at-node fuel d (suc k) (num * 2) (omega arith) (add_suc d k ∙ e)
                (children k num at_k).0,
            tree_node_at-node fuel d (suc k) (num * 2 + 1) (omega arith) (add_suc d k ∙ e)
                (children k num at_k).1,
          )
          (internal-ok d num))

  -- Without backends, with a key of known types of one hash function and an I of 16 bytes: for each
  -- node number of a level `k` of the tree, with `d` levels below it, lms_tree_node ends within the
  -- height of the tree and gives the node's value in the Merkle tree of the one-time keys.
  pub lms_tree_node-node :
      (d k num : ℕ)
      → d + k ≡ lms.height
      → AtLevel k num
      → lms_tree_node lib software priv num ≡ ok (at d num)
  unfolding lms_tree_node
  lms_tree_node-node d k num e at_k =
      rw (lms_known, known) (tree_node_at-node lms.height d k num (omega arith) e at_k)
