-- ===== src/SecState/Commit/Reliable.antt =====
-- Hardware on which state_commit of fw/lms_sec_state.c cannot fail.
use sec_lms.Prelude.{ℕ, ◌+◌, ◌≤◌, ◌<◌, ◌^◌, ◌≡◌, refl, Bool, true, false, List, some, leb, arith}
use sec_lms.SecState.{Device, Sec, SlotId, slot_a, slot_b, slot_num, other}
use sec_lms.SecState.Commit.{fused_commit, state_commit}
use sec_lms.SecState.Commit.Laws.{installed, commit_finish-eq}

-- Hardware with the fused command. `counter` is the monotonic counter of 32 bits in its state. In a
-- state that works, and until the counter is at its end, the command steps the counter by one,
-- answers with the transaction and the tag, and leaves a state that works.
pub record IsReliable {H : Type 0} (dev : Device H) : Type 1 where
  pub counter : H → ℕ
  pub Works : H → Type 0
  pub step : H → ℕ → ℕ → ℕ → H
  pub tag : H → ℕ → ℕ → ℕ → List ℕ
  pub capable : (h : H) → Works h → dev.cap_state_commit h ≡ true
  pub steps :
      (h : H) (st ctr aad : ℕ)
      → Works h
      → counter h + 1 < 2 ^ 32
      → Works (step h st ctr aad) × (counter (step h st ctr aad) ≡ counter h + 1)
  pub commits :
      (h : H) (st ctr aad : ℕ)
      → Works h
      → counter h + 1 < 2 ^ 32
      → dev.state_commit h st ctr aad ≡ (step h st ctr aad, some (counter h + 1, tag h st ctr aad))

module _ {H : Type 0} (dev : Device H) (w : IsReliable dev) where
  -- The hardware works, its counter is not behind the transaction in memory, and it is not at its
  -- end.
  abbrev pub InStep : Sec H → Type 0
  InStep s = w.Works s.hw × (s.last_tx ≤ w.counter s.hw) × (w.counter s.hw + 1 < 2 ^ 32)

  -- What a commit that cannot fail gives.
  abbrev pub Done : ℕ → ℕ → Sec H → Sec H × Bool → Type 0
  Done st ctr s (t, good) =
      (good ≡ true)
      × (t.state ≡ st)
      × (t.ctr ≡ ctr)
      × w.Works t.hw
      × (t.last_tx ≤ w.counter t.hw)
      × (w.counter t.hw ≡ w.counter s.hw + 1)

  installed-Done :
      (s : Sec H) (i : SlotId) (st ctr tx : ℕ) (tag : List ℕ) (s0 : Sec H)
      → w.Works s.hw
      → tx ≤ w.counter s.hw
      → w.counter s.hw ≡ w.counter s0.hw + 1
      → Done st ctr s0 (installed s i st ctr tx tag, true)
  installed-Done s slot_a st ctr tx tag s0 works le e = (refl, refl, refl, works, le, e)
  installed-Done s slot_b st ctr tx tag s0 works le e = (refl, refl, refl, works, le, e)

  not_leb : (a b : ℕ) → b < a → leb a b ≡ false
  not_leb a b h = ground arith

  pub state_commit-Done :
      (s : Sec H) (st ctr : ℕ) → InStep s → Done st ctr s (state_commit dev s st ctr)
  unfolding state_commit fused_commit
  state_commit-Done s st ctr (works, le, room) =
      let i = other s.active in
      let after : Sec H = record s { hw = w.step s.hw st ctr (slot_num i) } in
      let tag = w.tag s.hw st ctr (slot_num i) in
      let (works', stepped) = w.steps s.hw st ctr (slot_num i) works room in
      rw (w.capable s.hw works) (
        rw (w.commits s.hw st ctr (slot_num i) works room, fused_commit)
          (rw
            (
              w.commits s.hw st ctr (slot_num i) works room,
              commit_finish-eq after i st ctr (w.counter s.hw + 1) tag,
            )
            (rw (not_leb (w.counter s.hw + 1) s.last_tx (omega arith)) (
              installed-Done after i st ctr (w.counter s.hw + 1) tag s works'
                (omega (arith, stepped)) stepped))))
