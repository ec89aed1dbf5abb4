-- ===== src/SecState/Progress.antt =====
-- With hardware that commits and a signature that succeeds, sec_sign of fw/lms_sec_state.c releases
-- the next index.
use sec_lms.Prelude.{
  ℕ, ◌+◌, ◌^◌, ◌≤◌, ◌<◌, ◌≡◌, refl, Bool, true, not, some, leb, ◌==◌, ◌||◌, arith, if_cases,
}
use sec_lms.SecState.{Device, Sec, error_locked, idle, reserved}
use sec_lms.SecState.Commit.{state_commit}
use sec_lms.SecState.Commit.Reliable.{IsReliable, InStep, state_commit-Done}
use sec_lms.SecState.Sign.{Signed, released, next_q, sec_sign, reserve_and_sign, sign_reserved}

module _ {H : Type 0} (dev : Device H) (w : IsReliable dev) where
  -- A call that released `q` and left the device ready for `q + 1`.
  abbrev pub Released : ℕ → Signed H → Type 0
  Released q r = (released r ≡ some q) × (r.0.state ≡ idle) × (r.0.ctr ≡ q + 1)

  -- A signature that succeeds in this hardware state, and leaves it working, its counter neither
  -- set back nor at its end.
  abbrev pub Succeeds : ℕ → (ℕ → H → H × Bool) → H → Type 0
  Succeeds q f h =
      ((f q h).1 ≡ true)
      × w.Works (f q h).0
      × (w.counter h ≤ w.counter (f q h).0)
      × (w.counter (f q h).0 + 1 < 2 ^ 32)

  next_q_eq : (q : ℕ) → q + 1 < 2 ^ 32 → next_q q ≡ q + 1
  next_q_eq q h = omega arith

  sign_reserved-Released :
      (q : ℕ) (f : ℕ → H → H × Bool) (s : Sec H)
      → q + 1 < 2 ^ 32
      → Succeeds q f s.hw
      → s.last_tx ≤ w.counter s.hw
      → Released q (sign_reserved dev (some f) q s)
  unfolding sign_reserved
  sign_reserved-Released q f s hq (good, works, kept, room) le =
      let t : Sec H = record s { hw = (f q s.hw).0 } in
      let done = state_commit-Done dev w t idle (q + 1) (works, omega arith, room) in
      rw (next_q_eq q hq) (rw (good) (rw (done.0) (refl, done.1, done.2)))

  -- On reliable hardware in a state that works, whose counter is not behind the transaction in memory
  -- and is not at its end, with an idle device whose key is loaded, a counter below the limit, a limit
  -- below 2^32, and a signature with this counter that succeeds in the hardware state after the
  -- reservation, and leaves it working with a counter neither set back nor at its end: sec_sign
  -- releases the counter as its index, and leaves the device idle at the next.
  pub sec_sign-Released :
      (max_ctr : ℕ) (f : ℕ → H → H × Bool) (s : Sec H)
      → InStep dev w s
      → s.state ≡ idle
      → s.key_loaded ≡ true
      → s.ctr < max_ctr
      → max_ctr < 2 ^ 32
      → Succeeds s.ctr f (state_commit dev s reserved s.ctr).0.hw
      → Released s.ctr (sec_sign dev max_ctr (some f) s)
  unfolding sec_sign reserve_and_sign
  sec_sign-Released max_ctr f s fits ready loaded room small good =
      let done = state_commit-Done dev w s reserved s.ctr fits in
      if_cases P (s.state == error_locked) (λ e. absurd (ground arith))
        λ _.
          if_cases P (not (s.state == idle)) (λ e. absurd (ground arith))
            λ _.
              if_cases P (not s.key_loaded) (λ e. absurd (ground arith))
                λ _.
                  if_cases P (max_ctr == 0 || leb max_ctr s.ctr) (λ e. absurd (ground arith))
                    λ _. rw (done.0) (sign_reserved-Released s.ctr f _ (omega arith) good (done.4))
    where
      P : Signed H → Type 0
      P = Released s.ctr
