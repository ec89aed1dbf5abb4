-- ===== src/Lms/Subtree/Context.antt =====
-- The context of src/lms_subtree.c: its sublevels and their buffers.
use sec_lms.Prelude.{
  ℕ, zero, suc, ◌+◌, ◌-◌, ◌*◌, ◌^◌, ◌%◌, Bool, false, not, List, Option, none, take, replicate, ltb,
  ◌==◌, ◌||◌, if◌then◌else◌,
}
use sec_lms.Lms.{invalid, Result, ok, ◌>>=◌, ◌>>◌, guard, or_fail, i_len, HashAlg, PrivateKey}
use sec_lms.Lms.Params.{lms_param}
use sec_lms.Lms.Coprocess.{OtsPub, Nodes}
use sec_lms.Lms.Subtree.{Subtree, lms_max_height, min_j}
use sec_lms.Lms.Subtree.Config.{TreeConfig, nodes_bytes, subtree_bytes}

-- lms_sublevel_t. Where `has_upcoming` is not set, `upcoming` has no buffers.
pub record Sublevel : Type 0 where
  pub active : Subtree
  pub upcoming : Subtree
  pub has_upcoming : Bool

-- lms_tree_ctx_t, with the callbacks as optional functions of what they are called with. `alloc`
-- tells whether the allocator gives a buffer of a size.
pub record TreeCtx : Type 0 where
  pub lms_type : ℕ
  pub height : ℕ
  pub n : ℕ
  pub subtree_size : ℕ
  pub sublevels : ℕ
  pub top_subtree_size : ℕ
  pub hash_alg : HashAlg
  pub I : List ℕ
  pub levels : ℕ → Sublevel
  pub ots_pub : Option OtsPub
  pub leaf_fn : Option (PrivateKey → ℕ → Result (List ℕ))
  pub alloc : ℕ → Bool

-- A buffer after memset.
abbrev pub zeroed : ℕ → Nodes
zeroed n i = replicate n 0

abbrev pub empty_subtree : Subtree
empty_subtree = record {
  height = 0;
  level = 0;
  levels_below = 0;
  tree_height = 0;
  left_leaf = 0;
  current_index = 0;
  nodes = zeroed 0;
  stack = zeroed 0;
}

abbrev pub empty_sublevel : Sublevel
empty_sublevel = record { active = empty_subtree; upcoming = empty_subtree; has_upcoming = false }

-- subtree_init_buffers, with a stack.
abbrev pub init_buffers : (ℕ → Bool) → ℕ → ℕ → ℕ → ℕ → ℕ → ℕ → Result Subtree
init_buffers alloc sub_h level levels_below tree_height left_leaf n = do
  guard (alloc (nodes_bytes sub_h n)) invalid
  guard (sub_h == 0 || alloc (sub_h * n)) invalid
  ok (record {
    height = sub_h;
    level = level;
    levels_below = levels_below;
    tree_height = tree_height;
    left_leaf = left_leaf;
    current_index = 0;
    nodes = zeroed n;
    stack = zeroed n;
  })

-- `levels[s] = value`.
abbrev pub set_level : (ℕ → Sublevel) → ℕ → Sublevel → ℕ → Sublevel
set_level levels s value i = if i == s then value else levels i

-- The body of the loop over the sublevels.
abbrev pub init_level : (ℕ → Bool) → TreeConfig → ℕ → ℕ → Result Sublevel
init_level alloc config top s = do
  let j = config.subtree_size
  let has_upcoming = ltb (s + 1) config.sublevels
  let sub_h = if has_upcoming then j else top
  active ←
      or_fail (init_buffers alloc sub_h (s * j + sub_h) (s * j) config.height 0 config.n) invalid
  upcoming ←
      if has_upcoming
      then or_fail
          (init_buffers alloc sub_h (s * j + sub_h) (s * j) config.height (2 ^ sub_h) config.n)
          invalid
      else ok empty_subtree
  ok (record { active = active; upcoming = upcoming; has_upcoming = has_upcoming })

-- The loop: `count` sublevels from `s` on.
abbrev pub init_levels :
    ℕ → (ℕ → Bool) → TreeConfig → ℕ → ℕ → (ℕ → Sublevel) → Result (ℕ → Sublevel)
init_levels zero alloc config top s levels = ok levels
init_levels (suc count) alloc config top s levels = init_level alloc config top s >>= λ sublevel.
    init_levels count alloc config top (suc s) (set_level levels s sublevel)

-- lms_tree_ctx_init. `size` is the size of an lms_sublevel_t. Where a buffer is refused, C frees those
-- that it has been given; the model gives the error alone.
unfoldable pub tree_ctx_init : ℕ → TreeConfig → List ℕ → Option OtsPub → (ℕ → Bool) → Result TreeCtx
tree_ctx_init size config I ots_pub alloc = do
  guard
      (not (
        config.sublevels == 0
        || ltb config.subtree_size min_j
        || config.n == 0
        || config.height == 0
        || ltb lms_max_height config.height))
      invalid
  let top =
      (config.height + 2 ^ 32 - (config.sublevels - 1) * config.subtree_size % 2 ^ 32) % 2 ^ 32
  lms ← or_fail (lms_param config.lms_type) invalid
  guard (alloc (config.sublevels * size)) invalid
  levels ← init_levels config.sublevels alloc config top 0 (λ s. empty_sublevel)
  ok (record {
    lms_type = config.lms_type;
    height = config.height;
    n = config.n;
    subtree_size = config.subtree_size;
    sublevels = config.sublevels;
    top_subtree_size = top;
    hash_alg = lms.hash_alg;
    I = take i_len I;
    levels = levels;
    ots_pub = ots_pub;
    leaf_fn = none;
    alloc = alloc;
  })

-- lms_subtree_set_leaf_fn.
abbrev pub set_leaf_fn : TreeCtx → Option (PrivateKey → ℕ → Result (List ℕ)) → TreeCtx
set_leaf_fn ctx fn = record ctx { leaf_fn = fn }

-- The loop of lms_tree_ctx_allocated_bytes. A subtree has a stack unless its height is 0.
abbrev pub bytes_from : ℕ → TreeCtx → ℕ → ℕ
bytes_from zero ctx s = 0
bytes_from (suc count) ctx s =
    let level = ctx.levels s in
    let bytes = subtree_bytes level.active.height ctx.n in
    let upcoming = if level.has_upcoming then bytes else 0 in
    bytes + upcoming + bytes_from count ctx (suc s)

-- lms_tree_ctx_allocated_bytes.
unfoldable pub allocated_bytes : ℕ → TreeCtx → ℕ
allocated_bytes size ctx = ctx.sublevels * size + bytes_from ctx.sublevels ctx 0
