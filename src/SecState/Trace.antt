-- ===== src/SecState/Trace.antt =====
-- Histories of the signing state (fw/lms_sec_state.c): calls of sec_sign, UART commands, loss of
-- power at any point of a signature, and reloads of the persisted slots, for one active key.
use sec_lms.Prelude.{
  ℕ, ◌+◌, ◌^◌, ◌≤◌, ◌<◌, ◌≡◌, refl, sym, ◌⊎◌, inl, inr, true, List, [], ◌∷◌, Option, none, some,
  subst, arith,
}
use sec_lms.SecState.{Build, Device, SlotId, slot_a, slot_b, Sec, sec_init, idle, ok, reserved}
use sec_lms.SecState.Record.{slots_all_zero}
use sec_lms.SecState.Record.Laws.{rec_valid_magic}
use sec_lms.SecState.Commit.{state_commit}
use sec_lms.SecState.Sign.{DoSign, Signed, released, run_sign, sec_sign}
use sec_lms.SecState.Uart.{decode_sub, sec_handle_uart_cmd, load_slot}
use sec_lms.SecState.Uart.Laws.{Tame, sec_handle_uart_cmd-Safe}
use sec_lms.SecState.Safety.{Rejected, SlotSafe, Safe}
use sec_lms.SecState.Safety.Commit.{state_commit-Safe}
use sec_lms.SecState.Safety.Sign.{After, sec_sign-After, run_sign-Safe}

-- The indices of a history, the last first.
abbrev pub push : Option ℕ → List ℕ → List ℕ
push none qs = qs
push (some q) qs = q ∷ qs

-- Every index is below `n`.
abbrev pub Below : ℕ → List ℕ → Type 0
Below n [] = Unit
Below n (q ∷ qs) = (q < n) × Below n qs

-- Each index is greater than all that were released before it.
abbrev pub Descending : List ℕ → Type 0
Descending [] = Unit
Descending (q ∷ qs) = Below q qs × Descending qs

module _ {H : Type 0} (dev : Device H) (build : Build) where
  -- A slot comes back as it was stored, or damaged, so that no state of the device accepts it.
  abbrev pub Survives : List ℕ → List ℕ → SlotId → Type 0
  Survives stored back i = (back ≡ stored) ⊎ Rejected dev back i

  -- Power-up: sec_init, and NVM_LOAD of both slots.
  abbrev pub reload : Sec H → H → List ℕ → List ℕ → Sec H
  reload raw h a b = load_slot (load_slot (sec_init raw h) slot_a a) slot_b b

  -- One event, with the index that it releases.
  pub data Step (s : Sec H) : Option ℕ → Sec H → Type 0 where
    signs :
        (max_ctr : ℕ) (f : DoSign H)
        → max_ctr < 2 ^ 32
        → Step s (released (sec_sign dev max_ctr f s)) (sec_sign dev max_ctr f s).0
    cut_off :
        (f : DoSign H)
        → s.state ≡ idle
        → s.ctr + 1 < 2 ^ 32
        → Step s none (run_sign f s.ctr (state_commit dev s reserved s.ctr).0).0
    commands :
        (sub : ℕ) (params : List ℕ)
        → Tame (decode_sub sub) params
        → Step s none (sec_handle_uart_cmd dev build s sub params).0
    power_cycle :
        (raw : Sec H) (h : H) (a b : List ℕ)
        → Survives s.a.bytes a slot_a
        → Survives s.b.bytes b slot_b
        → (slots_all_zero (reload raw h a b) ≡ true → slots_all_zero s ≡ true)
        → Step s none (reload raw h a b)

  pub data Reach (s : Sec H) : List ℕ → Sec H → Type 0 where
    here : Reach s [] s
    next :
        {qs : List ℕ} {r : Option ℕ} {t u : Sec H}
        → Reach s qs t
        → Step t r u
        → Reach s (push r qs) u

  Below-mono : {n m : ℕ} (qs : List ℕ) → n ≤ m → Below n qs → Below m qs
  Below-mono [] h b = tt
  Below-mono (q ∷ qs) h b = (omega arith, Below-mono qs h b.1)

  -- The invariant of a history, with a bound of what it released.
  record Inv (qs : List ℕ) (s : Sec H) : Type 0 where
    bound : ℕ
    safe : Safe dev bound s
    below : Below bound qs
    fresh : Descending qs

  -- A device whose slots are zero has released nothing.
  pub sec_init-Safe : (raw : Sec H) (h : H) → Safe dev 0 (sec_init raw h)
  unfolding sec_init
  sec_init-Safe raw h = record {
    counter = λ _ _. omega arith;
    slots = elim [
      | slot_a ↦ inl (λ t. rec_valid_magic dev t _ slot_a (omega arith))
      | slot_b ↦ inl (λ t. rec_valid_magic dev t _ slot_b (omega arith))
    ];
    started = λ _. refl;
  }

  After-Inv :
      (n : ℕ) (qs : List ℕ) (r : Signed H)
      → After dev n r
      → Below n qs
      → Descending qs
      → Inv (push (released r) qs) r.0
  After-Inv n qs (t, ok, q) (h, v) b d = record {
    bound = q + 1;
    safe = v;
    below = (omega arith, Below-mono qs (omega arith) b);
    fresh = (Below-mono qs h b, d);
  }
  After-Inv n qs (t, c, q) v b d = record { bound = n; safe = v; below = b; fresh = d }

  reload-Safe :
      (n : ℕ) (s raw : Sec H) (h : H) (a b : List ℕ)
      → Survives s.a.bytes a slot_a
      → Survives s.b.bytes b slot_b
      → (slots_all_zero (reload raw h a b) ≡ true → slots_all_zero s ≡ true)
      → Safe dev n s
      → Safe dev n (reload raw h a b)
  unfolding sec_init
  reload-Safe n s raw h a b sa sb z v = record {
    counter = λ nb _. absurd (nb refl);
    slots = elim [
      | slot_a ↦ kept slot_a s.a.bytes a sa (v.slots slot_a)
      | slot_b ↦ kept slot_b s.b.bytes b sb (v.slots slot_b)
    ];
    started = λ e. v.started (z e);
  }
    where
      kept :
          (i : SlotId) (stored back : List ℕ)
          → Survives stored back i
          → SlotSafe dev n stored i
          → SlotSafe dev n back i
      kept i stored back (inl e) w = subst (λ rec. SlotSafe dev n rec i) (sym e) w
      kept i stored back (inr r) w = inl r

  Step-Inv :
      {qs : List ℕ} {s : Sec H} {r : Option ℕ} {t : Sec H}
      → Step s r t
      → Inv qs s
      → Inv (push r qs) t
  Step-Inv {qs} {s = s} (signs max_ctr f small) i =
      After-Inv i.bound qs (sec_sign dev max_ctr f s)
        (sec_sign-After dev i.bound max_ctr f s small i.safe) i.below i.fresh
  Step-Inv {s = s} (cut_off f e small) i = record {
    bound = i.bound;
    safe = run_sign-Safe dev i.bound s.ctr f _ (
        state_commit-Safe dev i.bound s reserved s.ctr i.safe (omega arith) (omega arith)
          (λ _. small) (i.safe.counter (omega arith) (omega arith)));
    below = i.below;
    fresh = i.fresh;
  }
  Step-Inv {s = s} (commands sub params tame) i = record {
    bound = i.bound;
    safe = sec_handle_uart_cmd-Safe dev i.bound build s sub params tame i.safe;
    below = i.below;
    fresh = i.fresh;
  }
  Step-Inv {s = s} (power_cycle raw h a b sa sb z) i = record {
    bound = i.bound;
    safe = reload-Safe i.bound s raw h a b sa sb z i.safe;
    below = i.below;
    fresh = i.fresh;
  }

  Reach-Inv : {s : Sec H} {qs : List ℕ} {t : Sec H} → Inv [] s → Reach s qs t → Inv qs t
  Reach-Inv i here = i
  Reach-Inv i (next r st) = Step-Inv st (Reach-Inv i r)

  -- From a power-up with slots of zeros, through any sequence of sec_sign calls (with a limit below
  -- 2^32), of signatures cut off after their reservation, of UART commands other than NVM_LOAD and
  -- INJECT_TAG (a COMMIT being of a counter below 2^32 - 1), and of power cycles after which each slot
  -- comes back as it was stored or so that no state accepts it, and the two slots are zero only if they
  -- were before: each released index is greater than all that were released before it, and an
  -- idle device's counter is above all of them.
  pub released_once :
      (raw : Sec H) (h : H) {qs : List ℕ} {t : Sec H}
      → Reach (sec_init raw h) qs t
      → Descending qs × (t.state ≡ idle → Below t.ctr qs)
  released_once raw h {qs} {t} r =
      let i =
        Reach-Inv (record { bound = 0; safe = sec_init-Safe raw h; below = tt; fresh = tt }) r in
      (i.fresh, λ e. Below-mono qs (i.safe.counter (omega arith) (omega arith)) i.below)
