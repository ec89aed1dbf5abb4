-- ===== src/SecState/Limits.antt =====
-- What the counter of fw/lms_sec_state.c does at its limits: the burn of the greatest index, and a
-- boot that accepts no record.
use sec_lms.Prelude.{
  ℕ, ◌+◌, ◌%◌, ◌^◌, ◌<◌, ◌≤◌, ◌≡◌, refl, ◌∙◌, Bool, true, not, List, ◌++◌, arith, subst, ◌==◌, ◌||◌,
  leb, some, sym, if_cases,
}
use sec_lms.SecState.{
  Device, SlotId, slot_a, slot_b, Sec, slot, error_locked, idle, reserved, booting,
}
use sec_lms.SecState.Record.{encode_body, rec_state, rec_ctr, rec_tx, rec_valid, slots_all_zero}
use sec_lms.SecState.Record.Laws.{encode_body_fields, rec_valid-Examined}
use sec_lms.SecState.Commit.Reliable.{IsReliable, InStep, state_commit-Done}
use sec_lms.SecState.Commit.{state_commit}
use sec_lms.SecState.Sign.{
  DoSign, Signed, released, run_sign, next_q, sec_sign, sign_reserved, reserve_and_sign,
}
use sec_lms.SecState.Boot.{adopt, restore, no_record, mark_initialized, recover, choose}
use sec_lms.SecState.Uart.{commit_allowed}
use sec_lms.SecState.Safety.{Rejected}

-- Idle, with this counter.
abbrev pub IdleAt : {H : Type 0} → ℕ → Sec H → Type 0
IdleAt c t = (t.state ≡ idle) × (t.ctr ≡ c)

module _ {H : Type 0} (dev : Device H) where
  -- Where the burn cannot fail, a boot from a reserved record goes on at the next index, modulo
  -- 2 ^ 32.
  restore-reserved :
      (w : IsReliable dev) (s : Sec H) (i : SlotId) (valid_a valid_b : Bool)
      → InStep dev w (adopt s i valid_a valid_b)
      → rec_state (slot s i).bytes ≡ reserved
      → IdleAt ((rec_ctr (slot s i).bytes + 1) % 2 ^ 32) (restore dev s i valid_a valid_b)
  unfolding restore
  restore-reserved w s i valid_a valid_b fits e =
      if_cases (IdleAt next) (rec_state (slot s i).bytes == reserved)
        (λ _.
          let done = state_commit-Done dev w (adopt s i valid_a valid_b) idle next fits in
          rw (done.0) (done.1, done.2))
        (λ ne. absurd (ground arith))
    where
      next : ℕ
      next = (rec_ctr (slot s i).bytes + 1) % 2 ^ 32

  -- The whitelist lets an idle device, at any counter of 32 bits, commit a reservation of index
  -- 2^32 - 1. On reliable hardware in a state that works, whose counter is neither behind the
  -- transaction of that record nor at its end, a boot that chooses a slot with this record leaves the
  -- device idle at index 0.
  pub restore-greatest :
      (w : IsReliable dev) (s : Sec H) (i : SlotId) (valid_a valid_b : Bool) (ctr tx : ℕ)
      (rest : List ℕ)
      → w.Works s.hw
      → tx ≤ w.counter s.hw
      → w.counter s.hw + 1 < 2 ^ 32
      → ctr < 2 ^ 32
      → (slot s i).bytes ≡ encode_body reserved 0xffff_ffff tx ++ rest
      → (commit_allowed idle ctr reserved 0xffff_ffff ≡ true)
        × IdleAt 0 (restore dev s i valid_a valid_b)
  unfolding commit_allowed
  restore-greatest w s i valid_a valid_b ctr tx rest works le room small e =
      let (_, st, c, t) =
        encode_body_fields reserved 0xffff_ffff tx rest (omega arith) (omega arith) (omega arith) in
      let next : rec_ctr (slot s i).bytes ≡ 0xffff_ffff = rw e c in
      let now : rec_tx (slot s i).bytes ≡ tx = rw e t in
      (
        ground arith,
        subst (λ k. IdleAt k (restore dev s i valid_a valid_b)) (omega arith)
            (restore-reserved w s i valid_a valid_b (works, omega (arith, now, le), room)
              (rw e st)),
      )

  sign_reserved-counter :
      (q r : ℕ) (f : DoSign H) (s : Sec H) → released (sign_reserved dev f r s) ≡ some q → q ≡ r
  unfolding sign_reserved
  sign_reserved-counter q r f s =
      if_cases P (run_sign f r s).1
        (λ _.
          if_cases P (state_commit dev (run_sign f r s).0 idle (next_q r)).1 (λ _ e. ground arith)
            (λ _ e. ground arith))
        (λ _ e. ground arith)
    where
      P : Signed H → Type 0
      P x = released x ≡ some q → q ≡ r

  reserve_and_sign-counter :
      (q : ℕ) (f : DoSign H) (s : Sec H) → released (reserve_and_sign dev f s) ≡ some q → q ≡ s.ctr
  unfolding reserve_and_sign
  reserve_and_sign-counter q f s =
      if_cases P (state_commit dev s reserved s.ctr).1
        (λ _. sign_reserved-counter q s.ctr f (state_commit dev s reserved s.ctr).0)
        (λ _ e. ground arith)
    where
      P : Signed H → Type 0
      P x = released x ≡ some q → q ≡ s.ctr

  -- Only an idle device releases an index, and it is its counter.
  sec_sign-idle :
      (max_ctr q : ℕ) (f : DoSign H) (s : Sec H)
      → released (sec_sign dev max_ctr f s) ≡ some q
      → (s.state ≡ idle) × (q ≡ s.ctr)
  unfolding sec_sign
  sec_sign-idle max_ctr q f s =
      if_cases P (s.state == error_locked) (λ _ e. ground arith)
        λ _.
          if_cases P (not (s.state == idle)) (λ _ e. ground arith)
            λ ready.
              if_cases P (not s.key_loaded) (λ _ e. ground arith)
                λ _.
                  if_cases P (max_ctr == 0 || leb max_ctr s.ctr) (λ _ e. ground arith)
                    λ _ e. (ground arith, reserve_and_sign-counter q f s e)
    where
      P : Signed H → Type 0
      P x = released x ≡ some q → (s.state ≡ idle) × (q ≡ s.ctr)

  marked : (t : Sec H) → (mark_initialized t).state ≡ t.state
  marked t =
      if_cases (λ (x : Sec H). x.state ≡ t.state) (t.state == error_locked || t.state == booting)
        (λ _. refl) (λ _. refl)

  -- What a boot makes of two slots that it rejects.
  no_record-idle :
      (t : Sec H)
      → t.state ≡ booting
      → (mark_initialized (no_record t)).state ≡ idle
      → (t.factory_locked ≡ true)
        × (slots_all_zero t ≡ true)
        × ((mark_initialized (no_record t)).ctr ≡ 0)
  unfolding no_record
  no_record-idle t b =
      if_cases P t.factory_locked
        (λ l. if_cases P (slots_all_zero t) (λ z _. (l, z, refl)) (λ _ e. ground arith))
        (λ _ e. absurd (omega (arith, b, sym (marked t) ∙ e)))
    where
      P : Sec H → Type 0
      P x =
          (mark_initialized x).state ≡ idle
          → (t.factory_locked ≡ true) × (slots_all_zero t ≡ true) × ((mark_initialized x).ctr ≡ 0)

  recover-no_record :
      (s : Sec H) (P : Sec H → Type 0)
      → Rejected dev (s.a.bytes) slot_a
      → Rejected dev (s.b.bytes) slot_b
      → ((t : Sec H)
          → t.state ≡ s.state
          → t.factory_locked ≡ s.factory_locked
          → slots_all_zero t ≡ slots_all_zero s
          → P (mark_initialized (no_record t)))
      → P (recover dev s)
  unfolding recover choose
  recover-no_record s P ra rb k =
      let s1 = (rec_valid dev s (s.a.bytes) slot_a).0 in
      let xa = rec_valid-Examined dev s (s.a.bytes) slot_a in
      let xb = rec_valid-Examined dev s1 (s.b.bytes) slot_b in
      rw (ra s, rb s1)
        (k _ (xb.state ∙ xa.state) (xb.factory_locked ∙ xa.factory_locked)
          (rw (xb.a, xa.a, xb.b, xa.b) refl))

  -- Where the recovery of sec_boot, from the booting state, finds in each slot bytes that no state of
  -- the device accepts, sec_sign after it releases an index only where the device was initialised and
  -- both slots are zero. Then the index is 0, whatever the counter was.
  pub recover-Rejected :
      (s : Sec H) (max_ctr q : ℕ) (f : DoSign H)
      → s.state ≡ booting
      → Rejected dev (s.a.bytes) slot_a
      → Rejected dev (s.b.bytes) slot_b
      → released (sec_sign dev max_ctr f (recover dev s)) ≡ some q
      → (s.factory_locked ≡ true) × (slots_all_zero s ≡ true) × (q ≡ 0)
  recover-Rejected s max_ctr q f b ra rb e =
      let (ready, same) = sec_sign-idle max_ctr q f (recover dev s) e in
      recover-no_record s P ra rb
        (λ t st l z r c.
          let (locked, zeros, start) = no_record-idle t (st ∙ b) r in
          (sym l ∙ locked, sym z ∙ zeros, c ∙ start))
        ready same
    where
      P : Sec H → Type 0
      P x =
          x.state ≡ idle
          → q ≡ x.ctr
          → (s.factory_locked ≡ true) × (slots_all_zero s ≡ true) × (q ≡ 0)
