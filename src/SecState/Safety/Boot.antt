-- ===== src/SecState/Safety/Boot.antt =====
-- sec_boot of fw/lms_sec_state.c keeps the safety invariant.
use sec_lms.Prelude.{
  ℕ, ◌+◌, ◌%◌, ◌^◌, ◌≤◌, ◌≡◌, refl, inl, inr, sym, subst, ◌∙◌, Bool, true, false, not, List, ◌||◌,
  ◌&&◌, take, arith, ◌==◌, if◌then◌else◌, if_cases,
}
use sec_lms.SecState.{
  Build, Device, SlotId, slot_a, slot_b, Sec, slot, booting, error_locked, idle, reserved,
  exhausted, pending,
}
use sec_lms.SecState.Record.{rec_valid, rec_state, rec_ctr, slots_all_zero}
use sec_lms.SecState.Record.Laws.{rec_valid-Examined}
use sec_lms.SecState.Commit.{state_commit}
use sec_lms.SecState.Keys.{load_keys, i_len}
use sec_lms.SecState.Boot.{
  Choice, chosen, no_slot, conflict, choose, lock, adopt, restore, no_record, settle,
  mark_initialized, recover, boot_keyed, sec_boot,
}
use sec_lms.SecState.Safety.{Resumes, Safe}
use sec_lms.SecState.Safety.Commit.{Safe-of_bytes, state_commit-Safe}

abbrev verdict : Bool → Bool → SlotId → Bool
verdict valid_a valid_b slot_a = valid_a
verdict valid_a valid_b slot_b = valid_b

-- A slot is chosen only if its record is valid.
chosen_valid :
    (a b : List ℕ) (valid_a valid_b : Bool) (i : SlotId)
    → choose a b valid_a valid_b ≡ chosen i
    → verdict valid_a valid_b i ≡ true
unfolding choose
chosen_valid a b true true slot_a e = refl
chosen_valid a b true true slot_b e = refl
chosen_valid a b true false slot_a e = refl
chosen_valid a b true false slot_b e = cc
chosen_valid a b false true slot_a e = cc
chosen_valid a b false true slot_b e = refl
chosen_valid a b false false i e = cc

module _ {H : Type 0} (dev : Device H) (n : ℕ) where
  lock-Safe : {s : Sec H} → Safe dev n s → Safe dev n (lock s)
  lock-Safe v = Safe-of_bytes dev v refl refl (λ _ nl. absurd (nl refl))

  restore-Safe :
      (s : Sec H) (i : SlotId) (valid_a valid_b : Bool)
      → Safe dev n s
      → s.state ≡ booting
      → Resumes n (slot s i).bytes
      → Safe dev n (restore dev s i valid_a valid_b)
  unfolding restore
  restore-Safe s i valid_a valid_b v boots (burnt, held) =
      if_cases (Safe dev n) (rec_state rec == reserved) burning λ e.
        if_cases (Safe dev n) (rec_state rec == pending)
          (λ _. held_by _ refl refl (held (ground arith)))
          λ _.
            if_cases (Safe dev n) (rec_state rec == idle || rec_state rec == exhausted)
              (λ _. held_by _ refl refl (held (ground arith))) (λ _. lock-Safe adopted)
    where
      rec : List ℕ
      rec = (slot s i).bytes

      adopted : Safe dev n (adopt s i valid_a valid_b)
      adopted = Safe-of_bytes dev v refl refl (λ nb. absurd (nb boots))

      held_by :
          (t : Sec H) → t.a.bytes ≡ s.a.bytes → t.b.bytes ≡ s.b.bytes → n ≤ t.ctr → Safe dev n t
      held_by t a b bound = Safe-of_bytes dev v a b (λ _ _. bound)

      burn : Sec H × Bool
      burn = state_commit dev (adopt s i valid_a valid_b) idle ((rec_ctr rec + 1) % 2 ^ 32)

      burning :
          (rec_state rec == reserved) ≡ true → Safe dev n (if burn.1 then burn.0 else lock burn.0)
      burning e =
          let (bound, small) = burnt (ground arith) in
          let w : Safe dev n burn.0 =
            state_commit-Safe dev n _ idle _ adopted (omega arith) (omega arith)
              (λ r. absurd (omega arith)) (omega arith) in
          if_cases (Safe dev n) burn.1 (λ _. w) (λ _. lock-Safe w)

  no_record-Safe : (s : Sec H) → Safe dev n s → Safe dev n (no_record s)
  unfolding no_record
  no_record-Safe s v =
      if_cases (Safe dev n) s.factory_locked
        (λ _.
          if_cases (Safe dev n) (slots_all_zero s)
            (λ z. Safe-of_bytes dev v refl refl (λ _ _. omega (arith, v.started z)))
            (λ _. lock-Safe v))
        (λ _. v)

  settle-Safe :
      (s : Sec H) (c : Choice) (valid_a valid_b : Bool)
      → Safe dev n s
      → s.state ≡ booting
      → ((i : SlotId) → c ≡ chosen i → Resumes n (slot s i).bytes)
      → Safe dev n (settle dev s c valid_a valid_b)
  settle-Safe s (chosen i) valid_a valid_b v boots r =
      restore-Safe s i valid_a valid_b v boots (r i refl)
  settle-Safe s no_slot valid_a valid_b v boots r = no_record-Safe s v
  settle-Safe s conflict valid_a valid_b v boots r = lock-Safe v

  mark_initialized-Safe : (s : Sec H) → Safe dev n s → Safe dev n (mark_initialized s)
  mark_initialized-Safe s v =
      if_cases (Safe dev n) (s.state == error_locked || s.state == booting) (λ _. v)
        (λ _. Safe-of_bytes dev v refl refl v.counter)

  module _ (s : Sec H) where
    -- After the first validation, and after both.
    abbrev first : Sec H × Bool
    first = rec_valid dev s (s.a.bytes) slot_a

    abbrev second : Sec H × Bool
    second = rec_valid dev first.0 (s.b.bytes) slot_b

    abbrev examined : Sec H
    examined = record (second.0) {
      a = record (second.0.a) { boot_valid = first.1 };
      b = record (second.0.b) { boot_valid = second.1 };
    }

    module _ (v : Safe dev n s) (boots : s.state ≡ booting) where
      examined_a : examined.a.bytes ≡ s.a.bytes
      examined_a =
          (rec_valid-Examined dev first.0 (s.b.bytes) slot_b).a
          ∙ (rec_valid-Examined dev s (s.a.bytes) slot_a).a

      examined_b : examined.b.bytes ≡ s.b.bytes
      examined_b =
          (rec_valid-Examined dev first.0 (s.b.bytes) slot_b).b
          ∙ (rec_valid-Examined dev s (s.a.bytes) slot_a).b

      examined_state : examined.state ≡ booting
      examined_state =
          (rec_valid-Examined dev first.0 (s.b.bytes) slot_b).state
          ∙ (rec_valid-Examined dev s (s.a.bytes) slot_a).state
          ∙ boots

      -- A slot whose record was accepted holds a record that resumes at the bound.
      accepted :
          (i : SlotId) → verdict first.1 second.1 i ≡ true → Resumes n (slot examined i).bytes
      accepted slot_a valid = elim (v.slots slot_a) [
        | inl rejected ↦ let r = rejected s in cc
        | inr ok ↦ subst (Resumes n) (sym examined_a) ok
      ]
      accepted slot_b valid = elim (v.slots slot_b) [
        | inl rejected ↦ let r = rejected first.0 in cc
        | inr ok ↦ subst (Resumes n) (sym examined_b) ok
      ]

      recover-Safe : Safe dev n (recover dev s)
      unfolding recover
      recover-Safe = mark_initialized-Safe _ (
          settle-Safe examined _ first.1 second.1
            (Safe-of_bytes dev v examined_a examined_b (λ nb. absurd (nb examined_state)))
            examined_state
            (λ i e. accepted i (chosen_valid (s.a.bytes) (s.b.bytes) first.1 second.1 i e)))

  boot_keyed-Safe :
      (build : Build) (s : Sec H)
      → Safe dev n s
      → s.state ≡ booting
      → Safe dev n (boot_keyed dev build s)
  unfolding boot_keyed
  boot_keyed-Safe build s v e =
      if_cases (Safe dev n) (not build.test_mode && s.wrapped_valid)
        (λ _.
          if_cases (Safe dev n) (dev.unwrap_seed s.hw s.wrapped_blob).1
            (λ _. recover-Safe _ unwrapped e) (λ _. lock-Safe unwrapped))
        (λ _. recover-Safe s v e)
    where
      unwrapped :
          Safe dev n
            (record s { hw = (dev.unwrap_seed s.hw s.wrapped_blob).0; factory_locked = true })
      unwrapped = Safe-of_bytes dev v refl refl v.counter

  -- sec_boot of a safe state of bound `n` leaves a safe state of bound `n`, whichever slots
  -- are valid, whatever the hardware answers, in both builds.
  pub sec_boot-Safe :
      (build : Build) (s : Sec H) (I : List ℕ) → Safe dev n s → Safe dev n (sec_boot dev build s I)
  unfolding sec_boot load_keys
  sec_boot-Safe build s I v =
      if_cases (Safe dev n) (not (load_keys dev started).1)
        (λ _. lock-Safe (boots (load_keys dev started).0 refl refl refl))
        (λ _.
          boot_keyed-Safe build _
            (boots (record ((load_keys dev started).0) { key_loaded = true }) refl refl refl) refl)
    where
      started : Sec H
      started = record s { state = booting; key_I = take i_len I }

      boots :
          (t : Sec H)
          → t.a.bytes ≡ s.a.bytes
          → t.b.bytes ≡ s.b.bytes
          → t.state ≡ booting
          → Safe dev n t
      boots t a b e = Safe-of_bytes dev v a b (λ nb. absurd (nb e))
