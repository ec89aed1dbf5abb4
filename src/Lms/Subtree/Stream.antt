-- ===== src/Lms/Subtree/Stream.antt =====
-- lms_tree_add_next_node of src/lms_subtree.c: which nodes are there after some of the leaves.
use sec_lms.Prelude.{
  ℕ, zero, suc, ◌+◌, ◌-◌, ◌*◌, ◌/◌, ◌%◌, ◌^◌, ◌≤◌, ◌<◌, ◌≡◌, ◌≢◌, inl, inr, refl, sym, subst, ◌∙◌,
  ap, Bool, true, false, not, List, arith, Bool-cases, leb, ltb, ◌==◌, ◌||◌, if_cases, ℕ_discrete,
  lt→ltb,
}
use sec_lms.Lms.{ok, HashAlg}
use sec_lms.Lms.Results.{Gives, Gives-bind}
use sec_lms.Lms.Hash.{HashLib}
use sec_lms.Lms.Ots.{software}
use sec_lms.Lms.Tree.{lms_internal_node}
use sec_lms.Lms.Tree.Laws.{AtLevel, pow_double, zero_add}
use sec_lms.Lms.Verify.Path.{parent-AtLevel}
use sec_lms.Lms.Coprocess.{Nodes, store}
use sec_lms.Lms.Coprocess.Filled.{Filled, level_unique, store_self, store_ne, pow_pos}
use sec_lms.Lms.Subtree.{Subtree, local_to_global, merge, add_next_node, lms_max_height}

-- The ancestor `d` levels above a node.
abbrev pub half : ℕ → ℕ → ℕ
half zero num = num
half (suc d) num = half d num / 2

-- Where the ancestor is even, the next node has the same ancestors above it.
half_next :
    (i num d : ℕ)
    → half i (num + 1) ≡ half i num + 1
    → half i num % 2 ≡ 0
    → i < d
    → half d (num + 1) ≡ half d num
half_next i num zero e even lt = absurd (omega arith)
half_next i num (suc d) e even lt = elim (ℕ_discrete d i) [
  | yes same ↦ subst (λ m. half m (num + 1) / 2 ≡ half m num / 2) (sym same) (omega arith)
  | no other ↦ ap (λ m. m / 2) (half_next i num d e even (omega arith))
]

half_pow : (d k : ℕ) → half d (2 ^ (d + k)) ≡ 2 ^ k
half_pow zero k = ap (λ m. 2 ^ m) (zero_add k)
half_pow (suc d) k =
    omega (arith, half_pow d (suc k), pow_double k, ap (λ m. half d (2 ^ m)) (shift d k))
  where
    shift : (d k : ℕ) → suc d + k ≡ d + suc k
    shift d k = omega arith

not_root : (k seq : ℕ) → (2 ^ suc k + seq == 1) ≡ false
not_root k seq = ground (arith, pow_double k, pow_pos k)

even_node : (m seq p : ℕ) → p * 2 + seq ≡ m → (seq % 2 == 0) ≡ true → m % 2 ≡ 0
even_node m seq p e even = grind arith

odd_node : (m seq p : ℕ) → p * 2 + seq ≡ m → (seq % 2 == 0) ≡ false → m % 2 ≡ 1
odd_node m seq p e odd = grind arith

even_left : (m : ℕ) → m % 2 ≡ 1 → m - 1 ≡ m / 2 * 2
even_left m odd = omega arith

odd_right : (m : ℕ) → m % 2 ≡ 1 → m ≡ m / 2 * 2 + 1
odd_right m odd = omega arith

module _ (lib : HashLib) (I : List ℕ) (alg : HashAlg) (H th lv ll : ℕ) (at : ℕ → ℕ → List ℕ)
    (step : (d k num : ℕ)
      → suc d + k ≡ H
      → AtLevel k num
      → lms_internal_node lib software I alg
          (local_to_global th H lv ll num)
          (at d (num * 2))
          (at d (num * 2 + 1))
        ≡ ok (at (suc d) num)) where
  -- All nodes below which every leaf lies before `num` have their values, and the stack holds the
  -- left nodes that wait for their siblings.
  pub record Streamed (num : ℕ) (nodes stack : Nodes) : Type 0 where
    pub complete : (d k m : ℕ) → d + k ≡ H → AtLevel k m → m < half d num → nodes m ≡ at d m
    pub waiting : (d : ℕ) → d < H → half d num % 2 ≡ 1 → stack d ≡ at d (half d num - 1)

  -- The same while leaf `num` is merged, up to `i` levels above it.
  record Merging (num i : ℕ) (cur : List ℕ) (nodes stack : Nodes) : Type 0 where
    carry : (d : ℕ) → d ≤ i → half d (num + 1) ≡ half d num + 1
    right : (d : ℕ) → d < i → half d num % 2 ≡ 1
    merged : (d k m : ℕ) → d + k ≡ H → AtLevel k m → d ≤ i → m ≤ half d num → nodes m ≡ at d m
    before : (d k m : ℕ) → d + k ≡ H → AtLevel k m → m < half d num → nodes m ≡ at d m
    waiting : (d : ℕ) → i ≤ d → d < H → half d num % 2 ≡ 1 → stack d ≡ at d (half d num - 1)
    current : cur ≡ at i (half i num)

  -- The subtree stands where the section says.
  pub record Placed (sub : Subtree) : Type 0 where
    pub height : sub.height ≡ H
    pub tree_height : sub.tree_height ≡ th
    pub level : sub.level ≡ lv
    pub left_leaf : sub.left_leaf ≡ ll

  at_root :
      (num i : ℕ) (cur : List ℕ) (nodes stack : Nodes)
      → i ≡ H
      → Merging num i cur nodes stack
      → Streamed (num + 1) nodes stack
  at_root num i cur nodes stack e g = record {
    complete =
        λ d k m s l lt. g.merged d k m s l (omega arith) (omega (arith, g.carry d (omega arith)));
    waiting = λ d lt odd. absurd (omega (arith, g.carry d (omega arith), g.right d (omega arith)));
  }

  -- A left node is kept on the stack.
  at_left :
      (num i : ℕ) (cur : List ℕ) (nodes stack : Nodes)
      → i < H
      → half i num % 2 ≡ 0
      → Merging num i cur nodes stack
      → Streamed (num + 1) nodes (store stack i cur)
  at_left num i cur nodes stack lt even g = record {
    complete = λ d k m s l below. elim (Bool-cases (leb d i)) [
      | inl e ↦ g.merged d k m s l (le d i e) (omega (arith, g.carry d (le d i e)))
      | inr e ↦
          g.before d k m s l
            (omega (arith, half_next i num d (g.carry i (omega arith)) even (gt d i e)))
    ];
    waiting = λ d small odd. elim (ℕ_discrete d i) [
      | yes e ↦
          subst (λ x. store stack i cur x ≡ at x (half x (num + 1) - 1)) (sym e)
            (store_self stack i cur
              ∙ g.current
              ∙ ap (at i) (omega (arith, g.carry i (omega arith))))
      | no n ↦ elim (Bool-cases (leb d i)) [
        | inl e ↦
            absurd (omega (arith, g.carry d (le d i e), g.right d (omega (arith, le d i e, n))))
        | inr e ↦
            store_ne stack i d cur n
            ∙ g.waiting d (omega (arith, gt d i e)) small
                (omega (arith, half_next i num d (g.carry i (omega arith)) even (gt d i e)))
            ∙ ap (λ x. at d (x - 1))
                (sym (half_next i num d (g.carry i (omega arith)) even (gt d i e)))
      ]
    ];
  }
    where
      le : (a b : ℕ) → leb a b ≡ true → a ≤ b
      le a b e = ground arith

      gt : (a b : ℕ) → leb a b ≡ false → b < a
      gt a b e = ground arith

  -- A right node is merged with the left one.
  at_right :
      (num i k : ℕ) (cur : List ℕ) (nodes stack : Nodes)
      → suc i + k ≡ H
      → AtLevel k (half (suc i) num)
      → half i num % 2 ≡ 1
      → Merging num i cur nodes stack
      → Merging num
          (suc i)
          (at (suc i) (half (suc i) num))
          (store nodes (half (suc i) num) (at (suc i) (half (suc i) num)))
          stack
  at_right num i k cur nodes stack sum level odd g = record {
    carry = λ d le. elim (ℕ_discrete d (suc i)) [
      | yes e ↦
          subst (λ x. half x (num + 1) ≡ half x num + 1) (sym e)
            (omega (arith, g.carry i (omega arith)))
      | no n ↦ g.carry d (omega arith)
    ];
    right = λ d lt. elim (ℕ_discrete d i) [
      | yes e ↦ subst (λ x. half x num % 2 ≡ 1) (sym e) odd
      | no n ↦ g.right d (omega arith)
    ];
    merged = λ d k' m s l le small. elim (ℕ_discrete m parent) [
      | yes e ↦ here d k' m s l e
      | no n ↦ store_ne nodes parent m value n ∙ elim (ℕ_discrete d (suc i)) [
        | yes e ↦ g.before d k' m s l (
            subst (λ x. m < half x num) (sym e)
              (omega (arith, n, subst (λ x. m ≤ half x num) e small)))
        | no other ↦ g.merged d k' m s l (omega arith) small
      ]
    ];
    before = λ d k' m s l small. elim (ℕ_discrete m parent) [
      | yes e ↦ here d k' m s l e
      | no n ↦ store_ne nodes parent m value n ∙ g.before d k' m s l small
    ];
    waiting = λ d le lt o. g.waiting d (omega arith) lt o;
    current = refl;
  }
    where
      parent : ℕ
      parent = half (suc i) num

      value : List ℕ
      value = at (suc i) (half (suc i) num)

      here :
          (d k' m : ℕ)
          → d + k' ≡ H
          → AtLevel k' m
          → m ≡ parent
          → store nodes parent value m ≡ at d m
      here d k' m s l e =
          subst (λ x. store nodes parent value x ≡ at d x) (sym e)
            (store_self nodes parent value
              ∙ ap (λ x. at x parent)
                  (omega (arith, level_unique k k' parent level (subst (AtLevel k') e l))))

  -- What a call has left.
  abbrev After : ℕ → Subtree → Type 0
  After num s = Placed s × Streamed (num + 1) s.nodes s.stack

  merged_node :
      (num i k : ℕ) (cur : List ℕ) (sub : Subtree)
      → suc i + k ≡ H
      → Placed sub
      → AtLevel k (half (suc i) num)
      → half i num % 2 ≡ 1
      → Merging num i cur sub.nodes sub.stack
      → lms_internal_node lib software I alg
          (local_to_global sub.tree_height sub.height sub.level sub.left_leaf (half (suc i) num))
          (sub.stack i)
          cur
        ≡ ok (at (suc i) (half (suc i) num))
  merged_node num i k cur sub sum v level odd g =
      rw
        (
          v.tree_height,
          v.height,
          v.level,
          v.left_leaf,
          g.waiting i (omega arith) (omega arith) odd,
          g.current,
        )
        (rw (even_left (half i num) odd) (
          ap
            (λ x.
              lms_internal_node lib software I alg (local_to_global th H lv ll (half (suc i) num))
                (at i (half i num / 2 * 2)) (at i x))
            (odd_right (half i num) odd)
          ∙ step i k (half (suc i) num) sum level))

  merge-After :
      (num k i seq : ℕ) (cur : List ℕ) (sub : Subtree)
      → i + k ≡ H
      → Placed sub
      → AtLevel k (half i num)
      → 2 ^ k + seq ≡ half i num
      → Merging num i cur sub.nodes sub.stack
      → Gives (After num) (merge lib software k i seq cur I alg sub)
  unfolding merge
  merge-After num zero i seq cur sub sum v level here g =
      (v, at_root num i cur sub.nodes sub.stack (omega arith) g)
  merge-After num (suc k) i seq cur sub sum v level here g = rw (not_root k seq) (
      if_cases (Gives (After num)) (seq % 2 == 0)
        (λ e. (
          record {
            height = v.height;
            tree_height = v.tree_height;
            level = v.level;
            left_leaf = v.left_leaf;
          },
          at_left num i cur sub.nodes sub.stack (omega arith)
              (even_node (half i num) seq (2 ^ k) (omega (arith, here, pow_double k)) e) g,
        ))
        λ e.
          let odd = odd_node (half i num) seq (2 ^ k) (omega (arith, here, pow_double k)) e in
          let up = parent-AtLevel k (half i num) level in
          rw (here) (
            rw (merged_node num i k cur sub (omega arith) v up odd g) (
              merge-After num k (suc i) (seq / 2) (at (suc i) (half (suc i) num))
                (record sub {
                  nodes = store sub.nodes (half (suc i) num) (at (suc i) (half (suc i) num));
                })
                (omega arith)
                (record {
                  height = v.height;
                  tree_height = v.tree_height;
                  level = v.level;
                  left_leaf = v.left_leaf;
                })
                up (omega (arith, here, pow_double k))
                (at_right num i k cur sub.nodes sub.stack (omega arith) up odd g))))

  -- The leaf `num` is written.
  leaf-Merging :
      (num : ℕ) (leaf : List ℕ) (nodes stack : Nodes)
      → AtLevel H num
      → leaf ≡ at 0 num
      → Streamed num nodes stack
      → Merging num 0 leaf (store nodes num leaf) stack
  leaf-Merging num leaf nodes stack level e g = record {
    carry = first;
    right = λ d lt. absurd (omega arith);
    merged = λ d k m s l le small. elim (ℕ_discrete m num) [
      | yes same ↦ here d k m s l same
      | no n ↦ store_ne nodes num m leaf n ∙ g.complete d k m s l (under d m (omega arith) n small)
    ];
    before = λ d k m s l small. elim (ℕ_discrete m num) [
      | yes same ↦ here d k m s l same
      | no n ↦ store_ne nodes num m leaf n ∙ g.complete d k m s l small
    ];
    waiting = λ d le lt odd. g.waiting d lt odd;
    current = e;
  }
    where
      first : (d : ℕ) → d ≤ 0 → half d (num + 1) ≡ half d num + 1
      first zero le = refl
      first (suc d) le = absurd (omega arith)

      here : (d k m : ℕ) → d + k ≡ H → AtLevel k m → m ≡ num → store nodes num leaf m ≡ at d m
      here d k m s l same =
          subst (λ x. store nodes num leaf x ≡ at d x) (sym same)
            (store_self nodes num leaf
              ∙ e
              ∙ ap (λ x. at x num)
                  (omega (arith, level_unique H k num level (subst (AtLevel k) same l))))

      under : (d m : ℕ) → d ≡ 0 → m ≢ num → m ≤ half d num → m < half d num
      under d m z n le =
          subst (λ x. m < half x num) (sym z) (omega (arith, n, subst (λ x. m ≤ half x num) z le))

  -- No leaf is there yet.
  pub none-Streamed : (nodes stack : Nodes) → Streamed (2 ^ H) nodes stack
  none-Streamed nodes stack = record {
    complete =
        λ d k m s l lt. absurd (omega (arith, l.0, half_pow d k, ap (λ x. half d (2 ^ x)) s));
    waiting = λ d lt odd. absurd (
        omega (
          arith,
          half_pow d (suc (H - suc d)),
          pow_double (H - suc d),
          ap (λ x. half d (2 ^ x)) (rest d lt),
        ));
  }
    where
      rest : (d : ℕ) → d < H → d + suc (H - suc d) ≡ H
      rest d lt = omega arith

  -- All leaves are there.
  pub Streamed-Filled :
      (nodes stack : Nodes) → Streamed (2 ^ H * 2) nodes stack → Filled H at 1 nodes
  Streamed-Filled nodes stack g d k m s l lo = g.complete d k m s l (
      omega (
        arith,
        l.1,
        half_pow d (suc k),
        pow_double H,
        ap (λ x. half d (2 ^ x)) (more d k s),
        ap (half d) (pow_double H),
      ))
    where
      more : (d k : ℕ) → d + k ≡ H → d + suc k ≡ suc H
      more d k s = omega arith

  -- What lms_tree_add_next_node gives for leaf `ci`.
  pub record Next (ci : ℕ) (r : Subtree × Bool) : Type 0 where
    pub placed : Placed r.0
    pub streamed : Streamed (2 ^ H + ci + 1) r.0.nodes r.0.stack
    pub index : r.0.current_index ≡ ci + 1
    pub done : r.1 ≡ leb (2 ^ H) (ci + 1)

  sizes_ok : 0 < H → H ≤ lms_max_height → not (H == 0 || ltb lms_max_height H) ≡ true
  sizes_ok pos le = ground arith

  pub add_next_node-Next :
      (ci : ℕ) (sub : Subtree) (leaf : List ℕ)
      → 0 < H
      → H ≤ lms_max_height
      → Placed sub
      → sub.current_index ≡ ci
      → ci < 2 ^ H
      → leaf ≡ at 0 (2 ^ H + ci)
      → Streamed (2 ^ H + ci) sub.nodes sub.stack
      → Gives (Next ci) (add_next_node lib software sub leaf I alg 32)
  unfolding add_next_node
  add_next_node-Next ci sub leaf pos le v index lt e g =
      rw (v.height, sizes_ok pos le, index)
        (rw (lt→ltb ci (2 ^ H) lt) (
          Gives-bind (After (2 ^ H + ci)) (Next ci) (merge lib software H 0 ci leaf I alg start)
            (λ merged. ok (record merged { current_index = ci + 1 }, leb (2 ^ H) (ci + 1)))
            (merge-After (2 ^ H + ci) H 0 ci leaf start (zero_add H)
              (record {
                height = refl;
                tree_height = v.tree_height;
                level = v.level;
                left_leaf = v.left_leaf;
              })
              (omega arith, omega (arith, pow_double H)) refl
              (leaf-Merging (2 ^ H + ci) leaf sub.nodes sub.stack
                (omega arith, omega (arith, pow_double H)) e g))
            λ merged (w, s). record {
              placed = record {
                height = w.height;
                tree_height = w.tree_height;
                level = w.level;
                left_leaf = w.left_leaf;
              };
              streamed = s;
              index = refl;
              done = refl;
            }))
    where
      start : Subtree
      start = record sub {
        height = H;
        current_index = ci;
        nodes = store sub.nodes (2 ^ H + ci) leaf;
      }
