-- ===== src/Lms/Subtree/Sized.antt =====
-- The loop of lms_tree_ctx_init (src/lms_subtree.c) over the sublevels.
use sec_lms.Prelude.{
  ℕ, zero, suc, ◌+◌, ◌*◌, ◌^◌, ◌<◌, ◌≡◌, ◌∙◌, refl, sym, ap, subst, Bool, true, ltb, ◌==◌, ◌||◌,
  if◌then◌else◌, if_cases, ℕ_discrete, arith,
}
use sec_lms.Lms.{ok, invalid, or_fail}
use sec_lms.Lms.Results.{Gives, Gives-bind, Gives-or_fail, Gives_map}
use sec_lms.Lms.Subtree.Config.{TreeConfig, nodes_bytes}
use sec_lms.Lms.Subtree.Context.{
  Sublevel, empty_sublevel, empty_subtree, init_buffers, set_level, init_level, init_levels,
}
use sec_lms.Lms.Subtree.Held.{size, set_level_self, set_level_ne}

module _ (alloc : ℕ → Bool) (gives : (b : ℕ) → alloc b ≡ true) where
  or_true : (b : Bool) → (b || true) ≡ true
  or_true b = ground arith

  init_buffers-height :
      (k level levels_below height left n : ℕ)
      → Gives (λ sub. sub.height ≡ k) (init_buffers alloc k level levels_below height left n)
  init_buffers-height k level levels_below height left n =
      rw (gives (nodes_bytes k n), gives (k * n)) (rw (or_true (k == 0)) refl)

  module _ (config : TreeConfig) (top : ℕ) where
    abbrev S : ℕ
    S = config.sublevels

    abbrev j : ℕ
    j = config.subtree_size

    abbrev sub_h : ℕ → ℕ
    sub_h s = if ltb (s + 1) S then j else top

    -- A sublevel whose subtrees have the height that belongs to its place.
    abbrev Sized : ℕ → Sublevel → Type 0
    Sized s l = (l.active.height ≡ sub_h s) × (suc s < S → l.upcoming.height ≡ sub_h s)

    init_upcoming :
        (s k level levels_below height left n : ℕ)
        → Gives
            (λ sub. suc s < S → sub.height ≡ k)
            (if ltb (s + 1) S
              then or_fail (init_buffers alloc k level levels_below height left n) invalid
              else ok empty_subtree)
    init_upcoming s k level levels_below height left n =
        if_cases (λ m. Gives (λ sub. suc s < S → sub.height ≡ k) m) (ltb (s + 1) S)
          (λ e.
            Gives_map (λ sub. sub.height ≡ k) (λ sub. suc s < S → sub.height ≡ k)
              (or_fail (init_buffers alloc k level levels_below height left n) invalid)
              (Gives-or_fail (λ sub. sub.height ≡ k)
                (init_buffers alloc k level levels_below height left n) invalid
                (init_buffers-height k level levels_below height left n))
              (λ sub same lt. same))
          (λ e lt. absurd (ground arith))

    init_level-Sized : (s : ℕ) → Gives (Sized s) (init_level alloc config top s)
    init_level-Sized s =
        Gives-bind (λ sub. sub.height ≡ sub_h s) (Sized s) _ _
          (Gives-or_fail (λ sub. sub.height ≡ sub_h s) _ invalid
            (init_buffers-height (sub_h s) (s * j + sub_h s) (s * j) config.height 0 config.n))
          λ active same.
            Gives-bind (λ sub. suc s < S → sub.height ≡ sub_h s) (Sized s) _ _
              (init_upcoming s (sub_h s) (s * j + sub_h s) (s * j) config.height (2 ^ sub_h s)
                config.n)
              λ upcoming other. (same, other)

    init_levels-Sized :
        (count s : ℕ) (levels : ℕ → Sublevel)
        → s + count ≡ S
        → ((i : ℕ) → i < s → Sized i (levels i))
        → Gives (λ r. (i : ℕ) → i < S → Sized i (r i)) (init_levels count alloc config top s levels)
    init_levels-Sized zero s levels sum g = λ i lt. g i (omega (arith, sum))
    init_levels-Sized (suc count) s levels sum g =
        Gives-bind (Sized s) (λ r. (i : ℕ) → i < S → Sized i (r i)) (init_level alloc config top s)
          (λ v. init_levels count alloc config top (suc s) (set_level levels s v))
          (init_level-Sized s)
          λ v sized.
            init_levels-Sized count (suc s) (set_level levels s v) (omega (arith, sum)) λ i lt.
              elim (ℕ_discrete i s) [
                | yes e ↦
                    subst (λ x. Sized x (set_level levels s v x)) (sym e)
                      (subst (Sized s) (sym (set_level_self levels s v)) sized)
                | no n ↦
                    subst (Sized i) (sym (set_level_ne levels s v i n)) (g i (omega (arith, n)))
              ]

    -- The loop over the sublevels.
    pub all_sized :
        Gives
          (λ r.
            (i : ℕ)
            → i < S
            → ((r i).active.height ≡ size S j top i)
              × (suc i < S → (r i).upcoming.height ≡ size S j top i))
          (init_levels S alloc config top 0 (λ s. empty_sublevel))
    all_sized =
        Gives_map (λ r. (i : ℕ) → i < S → Sized i (r i)) _
          (init_levels S alloc config top 0 (λ s. empty_sublevel))
          (init_levels-Sized S 0 (λ s. empty_sublevel) (omega arith) (λ i lt. absurd (omega arith)))
          λ r sized i lt. let (a, u) = sized i lt in (a ∙ as_size i, λ next. u next ∙ as_size i)
      where
        as_size : (i : ℕ) → sub_h i ≡ size S j top i
        as_size i = ap (λ x. if ltb x S then j else top) (omega arith)
