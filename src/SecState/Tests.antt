-- ===== src/SecState/Tests.antt =====
-- A simulated device, tests of the signing state on it, and the theorems at concrete inputs.
use sec_lms.Prelude.{
  ℕ, zero, ◌+◌, ◌%◌, ◌≤◌, ◌<◌, ◌^◌, ◌≡◌, refl, ap, true, false, List, [], ◌∷◌, ◌++◌, Option, some,
  replicate, take, arith,
}
use sec_lms.Prelude.Bytes.{get_be32}
use sec_lms.SecState.{
  Build, Device, SlotId, Sec, Slot, booting, slot_a, slot_b, sec_init, idle, reserved,
}
use sec_lms.SecState.Record.{
  encode_body, magic_state, rec_state, rec_ctr, rec_tx, rec_valid, compute_tag, slots_all_zero,
}
use sec_lms.SecState.Record.Laws.{encode_body_fields, rec_valid_magic}
use sec_lms.SecState.Commit.{state_commit}
use sec_lms.SecState.Commit.Laws.{Outcome, state_commit-Outcome}
use sec_lms.SecState.Sign.{DoSign, Signed, released, sec_sign}
use sec_lms.SecState.Boot.{sec_boot, recover, restore, choose, no_record}
use sec_lms.SecState.Uart.{sec_handle_uart_cmd, commit_allowed}
use sec_lms.SecState.Uart.Laws.{commit_allowed_lem, sec_handle_uart_cmd-Safe}
use sec_lms.SecState.Safety.{Safe, Rejected}
use sec_lms.SecState.Safety.Sign.{After, sec_sign-After}
use sec_lms.SecState.Safety.Boot.{sec_boot-Safe}
use sec_lms.SecState.Trace.{
  Reach, here, next, signs, commands, push, Below, Descending, sec_init-Safe, released_once,
}
use sec_lms.SecState.Commit.Reliable.{IsReliable, InStep, state_commit-Done}
use sec_lms.SecState.Progress.{Released, Succeeds, sec_sign-Released}
use sec_lms.SecState.Limits.{IdleAt, restore-greatest, recover-Rejected}

sum : List ℕ → ℕ
sum [] = 0
sum (x ∷ xs) = x + sum xs

-- The hardware is its monotonic counter of 32 bits; a tag is a checksum.
abbrev mac : List ℕ → List ℕ
mac msg = replicate 32 (sum msg % 251)

abbrev answer : ℕ → ℕ → ℕ → ℕ → ℕ × Option (ℕ × List ℕ)
answer tx st ctr aad = (tx, some (tx, take 16 (mac (encode_body st ctr tx ++ (aad ∷ [])))))

abbrev sim : Device ℕ
sim = record {
  cap_state_commit = λ h. true;
  state_commit = λ h st ctr aad. answer ((h + 1) % 2 ^ 32) st ctr aad;
  mc_step = λ h. ((h + 1) % 2 ^ 32, some ((h + 1) % 2 ^ 32));
  mc_load = λ h v. (v, true);
  hmac_kstate = λ h msg. (h, some (mac msg));
  key_slot_load_test = λ h k key. (h, true);
  seed_load_test = λ h k key. (h, true);
  seed_load_safe = λ h key. (h, true);
  wrap_seed = λ h. (h, some (replicate 48 7));
  unwrap_seed = λ h blob. (h, true);
  rnd = λ h n. (h, replicate n 9);
  trng_fault = λ h. false;
  sha256 = λ msg. replicate 32 (sum msg % 251);
}

abbrev test_build : Build
test_build = record { test_mode = true; rnd_trng = false }

abbrev no_slot_yet : Slot
no_slot_yet = record { bytes = []; valid = false; boot_valid = false; diag = 0 }

abbrev raw : Sec ℕ
raw = record {
  hw = 0;
  a = no_slot_yet;
  b = no_slot_yet;
  active = slot_b;
  state = 9;
  ctr = 9;
  last_tx = 9;
  factory_locked = true;
  key_loaded = true;
  keygen_pending = true;
  helper = [];
  wrapped_blob = [];
  wrapped_valid = false;
  key_I = [];
  key_index = 9;
}

-- Power-up, FACTORY_INIT, BOOT, a signature, a signature that is cut off after the reservation.
abbrev powered : Sec ℕ
powered = sec_init raw 0

abbrev made : Sec ℕ
made = (sec_handle_uart_cmd sim test_build powered 6 []).0

abbrev booted : Sec ℕ
booted = (sec_handle_uart_cmd sim test_build made 5 []).0

abbrev signer : DoSign ℕ
signer = some (λ q h. (h + 1, true))

abbrev first : Signed ℕ
first = sec_sign sim 100 signer booted

abbrev history : Reach sim test_build powered (push (released first) []) first.0
history =
    next (next (next here (commands 6 [] tt)) (commands 5 [] tt)) (signs 100 signer (omega arith))

released_once_example :
    Descending (push (released first) [])
    × (first.0.state ≡ idle → Below first.0.ctr (push (released first) []))
released_once_example = released_once sim test_build raw 0 history

sec_sign-After_example : After sim 0 (sec_sign sim 100 signer powered)
sec_sign-After_example =
    sec_sign-After sim 0 100 signer powered (omega arith) (sec_init-Safe sim test_build raw 0)

sec_boot-Safe_example : Safe sim 0 (sec_boot sim test_build powered (replicate 16 3))
sec_boot-Safe_example =
    sec_boot-Safe sim 0 test_build powered (replicate 16 3) (sec_init-Safe sim test_build raw 0)

sec_handle_uart_cmd-Safe_example : Safe sim 0 (sec_handle_uart_cmd sim test_build powered 6 []).0
sec_handle_uart_cmd-Safe_example =
    sec_handle_uart_cmd-Safe sim 0 test_build powered 6 [] tt (sec_init-Safe sim test_build raw 0)

state_commit-Outcome_example : Outcome powered reserved 5 (state_commit sim powered reserved 5)
state_commit-Outcome_example = state_commit-Outcome sim powered reserved 5

commit_allowed_lem_example : (5 ≤ 6) × (reserved ≡ reserved → 5 < 6)
unfolding commit_allowed
commit_allowed_lem_example = commit_allowed_lem reserved 5 idle 6 refl

encode_body_fields_example :
    let rec = encode_body reserved 7 3 ++ [] in
    (get_be32 rec 0 ≡ magic_state)
    × (rec_state rec ≡ reserved)
    × (rec_ctr rec ≡ 7)
    × (rec_tx rec ≡ 3)
encode_body_fields_example =
    encode_body_fields reserved 7 3 [] (omega arith) (omega arith) (omega arith)

sim-IsReliable : IsReliable sim
sim-IsReliable = record {
  counter = λ h. h;
  Works = λ h. Unit;
  step = λ h st ctr aad. h + 1;
  tag = λ h st ctr aad. take 16 (mac (encode_body st ctr (h + 1) ++ (aad ∷ [])));
  capable = λ h works. refl;
  steps = λ h st ctr aad works room. (tt, refl);
  commits = λ h st ctr aad works room. ap (λ tx. answer tx st ctr aad) (omega arith);
}

abbrev greatest : Sec ℕ
greatest = record powered {
  hw = 5;
  a = record no_slot_yet { bytes = encode_body reserved 0xffff_ffff 1 ++ replicate 16 0 };
}

restore-greatest_example :
    (commit_allowed idle 4 reserved 0xffff_ffff ≡ true)
    × IdleAt 0 (restore sim greatest slot_a true false)
unfolding sim-IsReliable
restore-greatest_example =
    restore-greatest sim sim-IsReliable greatest slot_a true false 4 1 (replicate 16 0) tt
      (omega arith) (omega arith) (omega arith) refl

-- A signature that steps the counter, in the state after a reservation.
steps_on :
    (s : Sec ℕ)
    → InStep sim sim-IsReliable s
    → s.hw + 3 < 2 ^ 32
    → Succeeds sim sim-IsReliable s.ctr
        (λ q h. (h + 1, true))
        (state_commit sim s reserved s.ctr).0.hw
unfolding sim-IsReliable
steps_on s fits room =
    let done = state_commit-Done sim sim-IsReliable s reserved s.ctr fits in
    (refl, tt, omega arith, omega (arith, done.5))

-- A device that was at index 7 comes back with slots of zeros.
abbrev zeroed : Sec ℕ
zeroed = record raw {
  hw = 20;
  a = record no_slot_yet { bytes = replicate 80 0 };
  b = record no_slot_yet { bytes = replicate 80 0 };
  state = booting;
  ctr = 7;
}

zeros-Rejected : (i : SlotId) → Rejected sim (replicate 80 0) i
zeros-Rejected i t = rec_valid_magic sim t (replicate 80 0) i (omega arith)

signed_again : Released sim sim-IsReliable 0 (sec_sign sim 32 signer (recover sim zeroed))
unfolding recover choose rec_valid compute_tag no_record sim-IsReliable
signed_again =
    sec_sign-Released sim sim-IsReliable 32 (λ q h. (h + 1, true)) (recover sim zeroed) fits refl
      refl (omega arith) (omega arith) (steps_on (recover sim zeroed) fits (omega arith))
  where
    fits : InStep sim sim-IsReliable (recover sim zeroed)
    fits = (tt, omega arith, omega arith)

recover-Rejected_example :
    (zeroed.factory_locked ≡ true) × (slots_all_zero zeroed ≡ true) × (zero ≡ 0)
recover-Rejected_example =
    recover-Rejected sim zeroed 32 0 signer refl (zeros-Rejected slot_a) (zeros-Rejected slot_b)
      (signed_again.0)

abbrev ready : Sec ℕ
ready = record raw { state = idle; ctr = 5; last_tx = 0 }

sec_sign-Released_example :
    Released sim sim-IsReliable 5 (sec_sign sim 32 (some λ q h. (h + 1, true)) ready)
unfolding sim-IsReliable
sec_sign-Released_example =
    sec_sign-Released sim sim-IsReliable 32 (λ q h. (h + 1, true)) ready
      (tt, omega arith, omega arith) refl refl (omega arith) (omega arith)
      (steps_on ready (tt, omega arith, omega arith) (omega arith))
