-- ===== src/SecState/Sign.antt =====
-- sec_sign of fw/lms_sec_state.c: reserve, sign, commit, and the burn when one of them fails.
use sec_lms.Prelude.{
  ℕ, ◌+◌, ◌%◌, ◌^◌, Bool, false, not, Option, none, some, leb, ◌==◌, ◌||◌, if◌then◌else◌,
}
use sec_lms.SecState.{
  Device, Sec, error_locked, idle, reserved, exhausted, Code, ok, busy, err_locked, err_commit,
  err_path, err_exhausted,
}
use sec_lms.SecState.Commit.{state_commit}

-- The callback `do_sign`, which may be null: it signs with index `q` and answers whether it
-- returned LMS_OK. It reaches the domain only through the hardware.
abbrev pub DoSign : Type 0 → Type 0
DoSign H = Option (ℕ → H → H × Bool)

-- What sec_sign leaves: the domain, the code, and `*q_out`.
abbrev pub Signed : Type 0 → Type 0
Signed H = Sec H × Code × ℕ

-- The index whose signature leaves the device.
abbrev pub released : {H : Type 0} → Signed H → Option ℕ
released (t, ok, q) = some q
released (t, other, q) = none

-- `q + 1u`.
abbrev pub next_q : ℕ → ℕ
next_q q = (q + 1) % 2 ^ 32

-- `(do_sign != 0) ? do_sign(q, ctx) : LMS_ERR_INVALID`.
module _ {H : Type 0} where
  abbrev pub run_sign : DoSign H → ℕ → Sec H → Sec H × Bool
  run_sign none q s = (s, false)
  run_sign (some f) q s = let (h, good) = f q s.hw in (record s { hw = h }, good)

module _ {H : Type 0} (dev : Device H) where
  -- After the reservation: the signature, the commit before its release, or the burn.
  unfoldable pub sign_reserved : DoSign H → ℕ → Sec H → Signed H
  sign_reserved do_sign q s =
      let (s1, signed) = run_sign do_sign q s in
      let (s2, committed) = state_commit dev s1 idle (next_q q) in
      let (s3, _) = state_commit dev s2 idle (next_q q) in
      if signed
      then (if committed then (s2, ok, q) else (s3, err_commit, 0))
      else ((state_commit dev s1 idle (next_q q)).0, err_path, 0)

  -- Commit first, sign after; if the reservation fails, the index is burnt.
  unfoldable pub reserve_and_sign : DoSign H → Sec H → Signed H
  reserve_and_sign do_sign s =
      let (s1, reserving) = state_commit dev s reserved s.ctr in
      if reserving
      then sign_reserved do_sign s.ctr s1
      else ((state_commit dev s1 idle (next_q s.ctr)).0, err_commit, 0)

  -- sec_sign.
  unfoldable pub sec_sign : ℕ → DoSign H → Sec H → Signed H
  sec_sign max_ctr do_sign s =
      if s.state == error_locked
      then (s, err_locked, 0)
      else if not (s.state == idle)
      then (s, busy, 0)
      else if not s.key_loaded
      then (s, err_locked, 0)
      else if max_ctr == 0 || leb max_ctr s.ctr
      then (record s { state = exhausted }, err_exhausted, 0)
      else reserve_and_sign do_sign s
