-- ===== src/Lms/Subtree/Config.antt =====
-- The configurator of src/lms_subtree.c: which subtrees fit the memory.
use sec_lms.Prelude.{
  ℕ, zero, suc, ◌+◌, ◌-◌, ◌*◌, ◌/◌, ◌^◌, Bool, true, false, not, ltb, leb, ◌==◌, ◌||◌, ◌&&◌,
  if◌then◌else◌,
}
use sec_lms.Lms.{invalid, Result, ok, ◌>>=◌, ◌>>◌, guard, or_fail}
use sec_lms.Lms.Params.{lms_param}
use sec_lms.Lms.Subtree.{lms_max_height, min_j}

-- lms_tree_fit_t and lms_tree_config_t.
pub data Fit : Type 0 where
  fit_none over_budget within_budget : Fit

pub record TreeConfig : Type 0 where
  pub lms_type : ℕ
  pub height : ℕ
  pub n : ℕ
  pub subtree_size : ℕ
  pub sublevels : ℕ
  pub est_memory : ℕ
  pub fit : Fit

-- subtree_nodes_bytes. With at most 25 levels all sizes are far below 2^64.
abbrev pub nodes_bytes : ℕ → ℕ → ℕ
nodes_bytes sub_h n = 2 ^ suc sub_h * n

-- lms_tree_updates_generated and lms_tree_updates_required.
abbrev pub updates_generated : ℕ → ℕ → ℕ
updates_generated height subtree =
    if subtree == 0
    then 0
    else if leb height subtree
    then 2 ^ height
    else 2 ^ (((height + subtree - 1) / subtree - 1) * subtree)

abbrev pub updates_required : ℕ → ℕ → ℕ
updates_required height subtree = if subtree == 0 then 0 else (height + subtree - 1) / subtree + 1

-- The number of sublevels in lms_tree_estimate_memory, at least one, and the height of the top subtree.
abbrev pub sublevels_of : ℕ → ℕ → ℕ
sublevels_of height j =
    let sublevels = (height + j - 1) / j in if sublevels == 0 then 1 else sublevels

abbrev pub top_size : ℕ → ℕ → ℕ → ℕ
top_size height sublevels j = height - (sublevels - 1) * j

-- The bytes of one subtree.
abbrev pub subtree_bytes : ℕ → ℕ → ℕ
subtree_bytes sub_h n = nodes_bytes sub_h n + sub_h * n

-- The loop over the sublevels from `s` on, `count` of them; the last is the top one.
abbrev pub memory_from : ℕ → ℕ → ℕ → ℕ → ℕ → ℕ
memory_from zero sublevels j top n = 0
memory_from (suc count) sublevels j top n =
    let rest = memory_from count sublevels j top n in
    if count == 0 then subtree_bytes top n + rest else subtree_bytes j n + subtree_bytes j n + rest

-- lms_tree_estimate_memory: the bytes, and the number of sublevels.
unfoldable pub estimate_memory : ℕ → ℕ → ℕ → ℕ × ℕ
estimate_memory height j n =
    if j == 0 || n == 0
    then (0, 0)
    else let sublevels = sublevels_of height j in
      (memory_from sublevels sublevels j (top_size height sublevels j) n, sublevels)

-- The variables of the loop in lms_tree_configure.
pub record Scan : Type 0 where
  pub found_over : Bool
  pub found_within : Bool
  pub best_mem : ℕ
  pub best_levels : ℕ
  pub best_j : ℕ

abbrev pub take_size : Bool → Bool → ℕ → ℕ → ℕ → Scan
take_size over within mem levels j = record {
  found_over = over;
  found_within = within;
  best_mem = mem;
  best_levels = levels;
  best_j = j;
}

-- The body of the loop, for a size `j` of `levels` sublevels that takes `mem` bytes.
abbrev pub scan_one : ℕ → ℕ → ℕ → ℕ → Scan → Scan
scan_one target j mem levels s =
    if ltb target mem
    then (if (s.found_over || s.found_within) && ltb s.best_mem mem
        then s
        else take_size true s.found_within mem levels j)
    else if s.found_within
        && (ltb s.best_levels levels || ((levels == s.best_levels) && ltb s.best_mem mem))
    then s
    else take_size s.found_over true mem levels j

-- The loop: `count` sizes from `j` on.
abbrev pub scan_from : ℕ → ℕ → ℕ → ℕ → ℕ → Scan → Scan
scan_from zero target height n j s = s
scan_from (suc count) target height n j s =
    let (mem, levels) = estimate_memory height j n in
    scan_from count target height n (suc j) (scan_one target j mem levels s)

-- lms_tree_configure.
unfoldable pub tree_configure : ℕ → ℕ → Result TreeConfig
tree_configure lms_type target = do
  lms ← or_fail (lms_param lms_type) invalid
  guard (not (lms.height == 0 || lms.n == 0 || ltb lms_max_height lms.height)) invalid
  let s = scan_from (lms.height - 1) target lms.height lms.n min_j (take_size false false 0 0 0)
  guard (s.found_over || s.found_within) invalid
  ok (record {
    lms_type = lms_type;
    height = lms.height;
    n = lms.n;
    subtree_size = s.best_j;
    sublevels = s.best_levels;
    est_memory = s.best_mem;
    fit = if s.found_within then within_budget else over_budget;
  })
