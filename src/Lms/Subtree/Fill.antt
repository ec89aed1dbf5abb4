-- ===== src/Lms/Subtree/Fill.antt =====
-- The loops of subtree_build_bottom and subtree_build_upper of src/lms_subtree.c.
use sec_lms.Prelude.{
  ℕ, zero, suc, ◌+◌, ◌*◌, ◌^◌, ◌≤◌, ◌<◌, ◌≡◌, refl, sym, subst, ◌∙◌, Bool, true, false, List, arith,
  leb, if◌then◌else◌,
}
use sec_lms.Lms.{ok, err, invalid, or_fail, PrivateKey}
use sec_lms.Lms.Results.{Gives, Gives-bind, Gives-or_fail, Gives_map}
use sec_lms.Lms.Hash.{HashLib}
use sec_lms.Lms.Ots.{software}
use sec_lms.Lms.Tree.{lms_internal_node}
use sec_lms.Lms.Tree.Laws.{AtLevel}
use sec_lms.Lms.Coprocess.{Nodes}
use sec_lms.Lms.Coprocess.Filled.{Filled, pow_pos}
use sec_lms.Lms.Subtree.{Subtree, local_to_global, add_next_node, lms_max_height}
use sec_lms.Lms.Subtree.Context.{TreeCtx}
use sec_lms.Lms.Subtree.Cache.{compute_leaf, bottom_from, upper_from}
use sec_lms.Lms.Subtree.Stream.{
  Streamed, Placed, Next, none-Streamed, Streamed-Filled, add_next_node-Next,
}

complete : (H i : ℕ) → i + 1 ≡ 2 ^ H → leb (2 ^ H) (i + 1) ≡ true
complete H i e = ground arith

module _ (lib : HashLib) (ctx : TreeCtx) (n_32 : ctx.n ≡ 32) (H th lv ll : ℕ) (at : ℕ → ℕ → List ℕ)
    (step : (d k num : ℕ)
      → suc d + k ≡ H
      → AtLevel k num
      → lms_internal_node lib software ctx.I ctx.hash_alg
          (local_to_global th H lv ll num)
          (at d (num * 2))
          (at d (num * 2 + 1))
        ≡ ok (at (suc d) num))
    (pos : 0 < H) (le : H ≤ lms_max_height) where
  abbrev P : Subtree → Type 0
  P = Placed lib ctx.I ctx.hash_alg H th lv ll at step

  -- A complete subtree.
  pub record Built (sub : Subtree) : Type 0 where
    pub placed : P sub
    pub filled : Filled H at 1 sub.nodes

  -- Before leaf `i`.
  pub record Loop (i : ℕ) (sub : Subtree) (done : Bool) : Type 0 where
    placed : P sub
    streamed : Streamed lib ctx.I ctx.hash_alg H th lv ll at step (2 ^ H + i) sub.nodes sub.stack
    index : sub.current_index ≡ i
    ready : i ≡ 2 ^ H → done ≡ true

  pub begin : (sub : Subtree) → P sub → sub.current_index ≡ 0 → Loop 0 sub false
  begin sub v e = record {
    placed = v;
    streamed =
        subst (λ m. Streamed lib ctx.I ctx.hash_alg H th lv ll at step m sub.nodes sub.stack)
          (omega arith)
          (none-Streamed lib ctx.I ctx.hash_alg H th lv ll at step sub.nodes sub.stack);
    index = e;
    ready = λ z. absurd (omega (arith, pow_pos H));
  }

  next :
      (i : ℕ) (r : Subtree × Bool)
      → Next lib ctx.I ctx.hash_alg H th lv ll at step i r
      → Loop (suc i) r.0 r.1
  next i r n = record {
    placed = n.placed;
    streamed =
        subst (λ m. Streamed lib ctx.I ctx.hash_alg H th lv ll at step m r.0.nodes r.0.stack)
          (omega arith) n.streamed;
    index = omega (arith, n.index);
    ready = λ e. n.done ∙ complete H i (omega arith);
  }

  finish :
      (i : ℕ) (sub : Subtree) (done : Bool)
      → i ≡ 2 ^ H
      → Loop i sub done
      → Gives Built (if done then ok sub else err invalid)
  finish i sub done e l = rw (l.ready e) (record {
    placed = l.placed;
    filled = Streamed-Filled lib ctx.I ctx.hash_alg H th lv ll at step sub.nodes sub.stack (
        subst (λ m. Streamed lib ctx.I ctx.hash_alg H th lv ll at step m sub.nodes sub.stack)
          (omega arith) l.streamed);
  })

  -- One leaf, with the value that it has in the tree.
  add :
      (i : ℕ) (sub : Subtree) (done : Bool) (leaf : List ℕ)
      → i < 2 ^ H
      → Loop i sub done
      → leaf ≡ at 0 (2 ^ H + i)
      → Gives
          (λ r. Loop (suc i) r.0 r.1)
          (or_fail (add_next_node lib software sub leaf ctx.I ctx.hash_alg ctx.n) invalid)
  add i sub done leaf lt l e =
      subst
        (λ n.
          Gives (λ r. Loop (suc i) r.0 r.1)
            (or_fail (add_next_node lib software sub leaf ctx.I ctx.hash_alg n) invalid))
        (sym n_32)
        (Gives-or_fail (λ r. Loop (suc i) r.0 r.1)
          (add_next_node lib software sub leaf ctx.I ctx.hash_alg 32) invalid
          (Gives_map (Next lib ctx.I ctx.hash_alg H th lv ll at step i) (λ r. Loop (suc i) r.0 r.1)
            (add_next_node lib software sub leaf ctx.I ctx.hash_alg 32)
            (add_next_node-Next lib ctx.I ctx.hash_alg H th lv ll at step i sub leaf pos le l.placed
              l.index lt e l.streamed)
            (next i)))

  pub upper_from-Built :
      (roots : Nodes)
      → ((i : ℕ) → i < 2 ^ H → roots i ≡ at 0 (2 ^ H + i))
      → (count i : ℕ) (sub : Subtree) (done : Bool) → i + count ≡ 2 ^ H
      → Loop i sub done
      → Gives Built (upper_from lib software count ctx roots i sub done)
  unfolding upper_from
  upper_from-Built roots values zero i sub done sum l = finish i sub done (omega arith) l
  upper_from-Built roots values (suc count) i sub done sum l =
      Gives-bind (λ r. Loop (suc i) r.0 r.1) Built
        (or_fail (add_next_node lib software sub (roots i) ctx.I ctx.hash_alg ctx.n) invalid)
        (λ r. upper_from lib software count ctx roots (suc i) r.0 r.1)
        (add i sub done (roots i) (omega arith) l (values i (omega arith)))
        λ r l'. upper_from-Built roots values count (suc i) r.0 r.1 (omega arith) l'

  pub bottom_from-Built :
      (priv : PrivateKey)
      → ((i : ℕ) → i < 2 ^ H → compute_leaf lib software ctx priv (ll + i) ≡ ok (at 0 (2 ^ H + i)))
      → (count i : ℕ) (sub : Subtree) (done : Bool) → i + count ≡ 2 ^ H
      → Loop i sub done
      → Gives Built (bottom_from lib software count ctx priv ll i sub done)
  unfolding bottom_from
  bottom_from-Built priv values zero i sub done sum l = finish i sub done (omega arith) l
  bottom_from-Built priv values (suc count) i sub done sum l = rw (values i (omega arith)) (
      Gives-bind (λ r. Loop (suc i) r.0 r.1) Built
        (or_fail (add_next_node lib software sub (at 0 (2 ^ H + i)) ctx.I ctx.hash_alg ctx.n)
          invalid)
        (λ r. bottom_from lib software count ctx priv ll (suc i) r.0 r.1)
        (add i sub done (at 0 (2 ^ H + i)) (omega arith) l refl)
        λ r l'. bottom_from-Built priv values count (suc i) r.0 r.1 (omega arith) l')
