-- ===== src/Lms/Coprocess/Correct.antt =====
-- The co-processor of src/lms_coprocess.c against the recursion of src/lms_tree.c, without backends.
use sec_lms.Prelude.{
  ℕ, suc, ◌+◌, ◌-◌, ◌*◌, ◌^◌, ◌≤◌, ◌<◌, ◌≡◌, refl, sym, subst, ◌∙◌, ap, true, not, List, replicate,
  none, length, arith, ltb, ◌==◌, ◌||◌, take-length, eq→==, lt→ltb,
}
use sec_lms.Prelude.Bytes.{same_bytes_refl}
use sec_lms.Lms.{Result, ok, ◌>>=◌, HashAlg, PrivateKey}
use sec_lms.Lms.Results.{Gives, Gives-bind, Gives_map}
use sec_lms.Lms.Params.{LmsParam, LmotsParam, matching_params}
use sec_lms.Lms.Params.Matching.{lms_param_bounds}
use sec_lms.Lms.Hash.{HashLib, IsHashLib}
use sec_lms.Lms.Ots.{software, lmots_public_from_private}
use sec_lms.Lms.Ots.Spec.{chain_ends, key_of}
use sec_lms.Lms.Ots.Refine.{lmots_public_from_private_lem}
use sec_lms.Lms.Tree.{lms_tree_node}
use sec_lms.Lms.Tree.Laws.{node, lms_known, lms_tree_node-node, zero_add, pow_double}
use sec_lms.Lms.Sign.{auth_path}
use sec_lms.Lms.Verify.Path.{siblings, auth_path-siblings, climb-siblings}
use sec_lms.Lms.Verify.Correct.{leaf_AtLevel}
use sec_lms.Lms.Coprocess.{
  Tree, max_height, tree_init, build, tree_root, tree_node, tree_auth_path, root_from_kv,
  tree_verify, Nodes, build_leaves, build_internal,
}
use sec_lms.Lms.Coprocess.Filled.{
  Filled, Leaves, Located, located, siblings_from-siblings, leaf_hash, build_leaves-Leaves,
  Leaves-Filled, build_internal-Filled, pow_pos,
}

in_tree : (b num : ℕ) → 1 ≤ num → num < b * 2 → not (num == 0 || ltb (b * 2 - 1) num) ≡ true
in_tree b num lo hi = ground arith

add_zero : (n : ℕ) → n + 0 ≡ n
add_zero n = omega arith

last : (b : ℕ) → 1 ≤ b → b ≡ suc (b - 1)
last b h = omega arith

module _ (lib : HashLib) (h : IsHashLib lib) (big : 0xffff ≤ lib.size_max) (priv : PrivateKey)
    (lms : LmsParam) (p : LmotsParam)
    (known : matching_params priv.lms_type priv.lmots_type ≡ ok (lms, p))
    (len_I : length priv.I ≡ 16) (small : lms.height ≤ max_height) where
  abbrev alg : HashAlg
  alg = lms.hash_alg

  abbrev base : ℕ
  base = 2 ^ lms.height

  abbrev at : ℕ → ℕ → List ℕ
  at d num = node lib priv alg p base d num

  -- A tree of the key, with all its nodes.
  record Built (t : Tree) : Type 0 where
    lms_type : t.lms_type ≡ priv.lms_type
    height : t.height ≡ lms.height
    leaf_count : t.leaf_count ≡ base
    I : t.I ≡ priv.I
    nodes : Filled lms.height at 1 t.nodes

  -- lms_coprocess_tree_init, then lms_coprocess_build with the default source.
  abbrev pub built : Result Tree
  built = tree_init priv.lms_type priv.I >>= λ t. build lib software t priv none

  facts : (priv.lms_type < 2 ^ 32) × (lms.height ≤ 25) × (lms.n ≡ 32) × (0 < lms.height)
  facts = lms_param_bounds priv.lms_type lms (lms_known lib h big priv lms p known len_I)

  has_height : not (lms.height == 0 || ltb max_height lms.height) ≡ true
  has_height = ground (arith, facts)

  has_leaves : not (base == 0) ≡ true
  has_leaves = ground (arith, pow_pos lms.height)

  abbrev empty : Tree
  empty = record {
    lms_type = priv.lms_type;
    height = lms.height;
    n = lms.n;
    leaf_count = base;
    I = priv.I;
    nodes = λ num. replicate 32 0;
  }

  built-Built : Gives Built built
  unfolding tree_init build
  built-Built = rw (lms_known lib h big priv lms p known len_I) (
      rw (has_height) (
        rw (has_leaves, take-length 16 priv.I len_I, eq→== {a = priv.lms_type} refl, known)
          (Gives-bind (Leaves lib h big priv lms p known len_I base) Built _ _ leaves λ nodes f.
            Gives-bind (Filled lms.height at 1) Built _ _ (inner nodes f) λ nodes' g. record {
              lms_type = refl;
              height = refl;
              leaf_count = refl;
              I = refl;
              nodes = g;
            })))
    where
      start : Leaves lib h big priv lms p known len_I 0 empty.nodes
      start num lo hi = absurd (omega arith)

      leaves : Gives (Leaves lib h big priv lms p known len_I base) (
          build_leaves lib software
            (lmots_public_from_private lib software)
            priv
            priv.I
            alg
            base
            base
            0
            empty.nodes)
      leaves =
          subst
            (λ b. Gives (Leaves lib h big priv lms p known len_I b) (
              build_leaves lib software (lmots_public_from_private lib software) priv priv.I alg
                base base 0 empty.nodes))
            (zero_add base)
            (build_leaves-Leaves lib h big priv lms p known len_I base 0 empty.nodes start)

      inner :
          (nodes : Nodes)
          → Leaves lib h big priv lms p known len_I base nodes
          → Gives (Filled lms.height at 1) (build_internal lib software priv.I alg (base - 1) nodes)
      inner nodes f =
          build_internal-Filled lib h big priv lms p known len_I (base - 1) nodes
            (omega (arith, pow_pos lms.height))
            (subst (λ b. Filled lms.height at b nodes) (last base (pow_pos lms.height))
              (Leaves-Filled lib h big priv lms p known len_I nodes f))

  -- The look-ups in a tree are the values that the recursion computes.
  abbrev pub Agrees : Tree → Type 0
  Agrees t =
      (tree_root t ≡ lms_tree_node lib software priv 1)
      × ((num : ℕ)
          → 1 ≤ num
          → num < 2 ^ suc lms.height
          → tree_node t num ≡ lms_tree_node lib software priv num)
      × ((q : ℕ)
          → q < base
          → tree_auth_path t q ≡ auth_path lib software lms.height priv (base + q))

  auth_path-Built :
      (t : Tree) (q : ℕ)
      → Built t
      → q < base
      → tree_auth_path t q ≡ ok (siblings at lms.height 0 (base + q))
  unfolding tree_auth_path
  auth_path-Built t q b lt =
      rw (b.leaf_count, has_leaves, b.height, lt→ltb _ _ lt)
        (ap ok (
          siblings_from-siblings lms.height at t.nodes b.nodes lms.height 0 (base + q)
            (zero_add lms.height) (leaf_AtLevel lms.height q lt)))

  Built-Agrees : (t : Tree) → Built t → Agrees t
  unfolding tree_root tree_node tree_auth_path
  Built-Agrees t b = (root, one, path)
    where
      value :
          (num : ℕ)
          → Located lms.height num
          → 1 ≤ num
          → ok (t.nodes num) ≡ lms_tree_node lib software priv num
      value num l lo =
          ap ok (b.nodes l.depth l.level num l.sum l.at_level lo)
          ∙ sym (
              lms_tree_node-node lib h big priv lms p known len_I l.depth l.level num l.sum
                l.at_level)

      root : tree_root t ≡ lms_tree_node lib software priv 1
      root =
          rw (b.leaf_count, has_leaves)
            (value 1
              (located lms.height 1 (omega arith)
                (omega (arith, pow_double lms.height, pow_pos lms.height)))
              (omega arith))

      one :
          (num : ℕ)
          → 1 ≤ num
          → num < 2 ^ suc lms.height
          → tree_node t num ≡ lms_tree_node lib software priv num
      one num lo hi =
          rw (b.leaf_count, has_leaves)
            (rw (in_tree base num lo (omega (arith, pow_double lms.height)))
              (value num (located lms.height num lo hi) lo))

      path :
          (q : ℕ)
          → q < base
          → tree_auth_path t q ≡ auth_path lib software lms.height priv (base + q)
      path q lt =
          auth_path-Built t q b lt
          ∙ sym (
              auth_path-siblings lib h big priv lms p known len_I lms.height 0 (base + q)
                (zero_add lms.height) (leaf_AtLevel lms.height q lt))

  root-Built : (t : Tree) → Built t → tree_root t ≡ ok (at lms.height 1)
  unfolding tree_root
  root-Built t b =
      rw (b.leaf_count, has_leaves)
        (ap ok
          (b.nodes lms.height 0 1 (add_zero lms.height) (omega arith, omega arith) (omega arith)))

  root_from_kv-Built :
      (t : Tree) (q : ℕ)
      → Built t
      → q < base
      → root_from_kv lib software t q
          (key_of lib alg priv.I q (chain_ends lib alg priv q p))
          (siblings at lms.height 0 (base + q))
        ≡ ok (at lms.height 1)
  unfolding root_from_kv
  root_from_kv-Built t q b lt =
      rw (b.leaf_count, has_leaves, lt→ltb _ _ lt, b.lms_type, b.I, b.height)
        (rw (lms_known lib h big priv lms p known len_I) (
          rw (leaf_hash lib h big priv lms p known len_I q) (
            climb-siblings lib h big priv lms p known len_I lms.height 0 (base + q)
              (zero_add lms.height) (leaf_AtLevel lms.height q lt))))

  -- Without backends, a key of known types of one hash function, with a tree of at most 10 levels and an
  -- I of 16 bytes: lms_coprocess_tree_init and lms_coprocess_build succeed, and in the tree that
  -- they give, the root, every node and every authentication path that are looked up are those
  -- that lms_tree_node and the loop of lms_do_sign compute.
  pub built-Agrees : Gives Agrees built
  built-Agrees = Gives_map Built Agrees built built-Built Built-Agrees

  -- Without backends, for a key of known types of one hash function, with a tree of at most 10 levels
  -- and an I of 16 bytes, in the tree that lms_coprocess_tree_init and lms_coprocess_build give: for
  -- each leaf, lms_coprocess_verify accepts its one-time public key with the authentication path that
  -- lms_coprocess_auth_path gives.
  pub built-verify :
      (q : ℕ)
      → q < base
      → Gives
          (λ t.
            (lmots_public_from_private lib software priv q >>= λ K.
            tree_auth_path t q >>= λ path. tree_verify lib software t q K path)
            ≡ ok tt)
          built
  unfolding tree_verify
  built-verify q lt = Gives_map Built _ built built-Built λ t b.
      rw (lmots_public_from_private_lem lib h big priv lms p known len_I q)
        (rw (auth_path-Built t q b lt) (accepts t b))
    where
      accepts :
          (t : Tree)
          → Built t
          → tree_verify lib software t q
              (key_of lib alg priv.I q (chain_ends lib alg priv q p))
              (siblings at lms.height 0 (base + q))
            ≡ ok tt
      accepts t b =
          rw (root_from_kv-Built t q b lt, root-Built t b)
            (rw (same_bytes_refl (at lms.height 1)) refl)
