-- ===== src/SecState/Safety.antt =====
-- The safety of the signing state (fw/lms_sec_state.c): the invariant behind "Release(σ_q) implies
-- Committed(CTR >= q+1)". `n` is a bound of the released indices: all of them are below `n`.
pub mod Commit
pub mod Sign
pub mod Boot
use sec_lms.Prelude.{ℕ, ◌+◌, ◌^◌, ◌≤◌, ◌<◌, ◌≡◌, ◌≢◌, ◌⊎◌, true, false, List}
use sec_lms.SecState.{Device, SlotId, Sec, slot, booting, error_locked, reserved}
use sec_lms.SecState.Record.{rec_valid, rec_state, rec_ctr, slots_all_zero}

-- The counter that a boot from this record gives is at least `n`.
abbrev pub Resumes : ℕ → List ℕ → Type 0
Resumes n rec =
    (rec_state rec ≡ reserved → (n ≤ rec_ctr rec + 1) × (rec_ctr rec + 1 < 2 ^ 32))
    × (rec_state rec ≢ reserved → n ≤ rec_ctr rec)

module _ {H : Type 0} (dev : Device H) where
  -- No state of the device accepts these bytes in this slot.
  abbrev pub Rejected : List ℕ → SlotId → Type 0
  Rejected rec i = (t : Sec H) → (rec_valid dev t rec i).1 ≡ false

  abbrev pub SlotSafe : ℕ → List ℕ → SlotId → Type 0
  SlotSafe n rec i = Rejected rec i ⊎ Resumes n rec

  -- The counter in memory and the records in both slots resume at `n` or later, and slots of zeros
  -- are those of a device that has released nothing.
  pub record Safe (n : ℕ) (s : Sec H) : Type 0 where
    pub counter : s.state ≢ booting → s.state ≢ error_locked → n ≤ s.ctr
    pub slots : (i : SlotId) → SlotSafe n (slot s i).bytes i
    pub started : slots_all_zero s ≡ true → n ≡ 0
