-- ===== src/SecState/Uart.antt =====
-- sec_handle_uart_cmd of fw/lms_sec_state.c: the subcommands, the whitelist of commits, and the
-- 32-byte response.
pub mod Laws
use sec_lms.Prelude.{
  ℕ, zero, suc, ◌+◌, ◌-◌, ◌*◌, ◌%◌, ◌^◌, Bool, true, false, not, ◌||◌, List, [], ◌∷◌, ◌++◌, take,
  drop, replicate, set, ltb, leb, ◌==◌, if◌then◌else◌,
}
use sec_lms.Prelude.Bytes.{byte, put_be32, get_be32}
use sec_lms.SecState.{
  Build, Device, SlotId, slot_a, slot_b, slot_num, Sec, slot, put_slot, error_locked, idle,
  reserved, exhausted, pending, booting, state_rec_len, Code, ok, busy, err_locked, err_commit,
  err_auth, err_param, err_unsupported, code_num,
}
use sec_lms.SecState.Keys.{sec_factory_init, wrapped_len}
use sec_lms.SecState.Commit.{state_commit}
use sec_lms.SecState.Boot.{sec_boot}

-- The byte `sub` of a command, SEC_SUB_*.
pub data Sub : Type 0 where
  commit read_active read_slot inject_tag boot factory_init get_state nvm_load : Sub
  nvm_read mc_load wrap_load wrapped_read_lo wrapped_read_hi : Sub
  unknown : ℕ → Sub

-- The comparisons of sec_handle_uart_cmd.
abbrev pub decode_sub : ℕ → Sub
decode_sub n =
    if n == 0x01
    then commit
    else if n == 0x02
    then read_active
    else if n == 0x03
    then read_slot
    else if n == 0x04
    then inject_tag
    else if n == 0x06
    then factory_init
    else if n == 0x05
    then boot
    else if n == 0x07
    then get_state
    else if n == 0x08
    then nvm_load
    else if n == 0x09
    then nvm_read
    else if n == 0x0a
    then mc_load
    else if n == 0x0b
    then wrap_load
    else if n == 0x0c
    then wrapped_read_lo
    else if n == 0x0d
    then wrapped_read_hi
    else unknown n

-- `response[at + i] = bytes[i]`; what falls outside of the 32 bytes is not kept.
abbrev pub write_at : List ℕ → ℕ → List ℕ → List ℕ
write_at r at [] = r
write_at r at (x ∷ xs) = write_at (set r at x) (at + 1) xs

-- The number of a flag.
abbrev pub flag : Bool → ℕ
flag true = 1
flag false = 0

-- The writes of sec_factory_init to the response, in their order, as index and value.
abbrev pub factory_writes_from : List ℕ → List ℕ → ℕ → ℕ → List (ℕ × ℕ)
factory_writes_from helper wrapped i zero = []
factory_writes_from helper wrapped i (suc n) =
    (20 + i, byte helper i)
    ∷ (28 + i, if ltb i 4 then byte wrapped i else 0)
    ∷ factory_writes_from helper wrapped (i + 1) n

unfoldable pub factory_writes : List ℕ → List ℕ → List (ℕ × ℕ)
factory_writes helper wrapped = (4, 0x46) ∷ factory_writes_from helper wrapped 0 8

abbrev apply_writes : List ℕ → List (ℕ × ℕ) → List ℕ
apply_writes r [] = r
apply_writes r ((i, v) ∷ ws) = apply_writes (set r i v) ws

-- sec_uart_commit_allowed.
unfoldable pub commit_allowed : ℕ → ℕ → ℕ → ℕ → Bool
commit_allowed state ctr new_state new_ctr =
    if state == idle
    then (if new_state == reserved
          || new_state == pending
          || new_state == idle
          || new_state == exhausted
        then leb ctr new_ctr
        else false)
    else if state == reserved
    then (if new_state == idle then ltb ctr new_ctr else false)
    else if state == pending
    then (if new_state == idle then leb ctr new_ctr else false)
    else false

-- What a command leaves: the domain, the code that it returns, and the response.
abbrev pub Reply : Type 0 → Type 0
Reply H = Sec H × Code × List ℕ

module _ {H : Type 0} where
  -- The write of SEC_SUB_NVM_LOAD.
  abbrev pub load_slot : Sec H → SlotId → List ℕ → Sec H
  load_slot s i rec = put_slot s i (record (slot s i) { bytes = rec; valid = true })

module _ {H : Type 0} (dev : Device H) where
  abbrev valid_bits : Sec H → ℕ
  valid_bits s = flag (s.a.valid) + 2 * flag (s.b.valid)

  -- The response before the command is looked at.
  abbrev head_of : Sec H → ℕ → List ℕ
  head_of s sub = sub ∷ 0 ∷ 0 ∷ valid_bits s ∷ replicate 28 0

  abbrev reply_code : Code → List ℕ → List ℕ
  reply_code c r = set r 2 (code_num c)

  abbrev refuse : Sec H → Code → List ℕ → Reply H
  refuse s c r = (s, c, reply_code c r)

  -- SEC_SUB_COMMIT.
  unfoldable pub uart_commit : Sec H → List ℕ → List ℕ → Reply H
  uart_commit s params r =
      let new_state = get_be32 params 0 % 2 ^ 16 in
      let new_ctr = get_be32 params 4 in
      let (s', done) = state_commit dev s new_state new_ctr in
      let r' =
        write_at (write_at (write_at r 4 (put_be32 s'.last_tx)) 8 (put_be32 s'.state)) 12
          (put_be32 s'.ctr) in
      if s.state == error_locked
      then refuse s err_locked r
      else if s.state == booting
      then refuse s busy r
      else if ltb new_ctr s.ctr || not (commit_allowed s.state s.ctr new_state new_ctr)
      then refuse s err_commit r
      else if done
      then (s', ok, set r' 3 (valid_bits s'))
      else (s', err_commit, set (reply_code err_commit r) 3 (valid_bits s'))

  -- SEC_SUB_READ_ACTIVE, and the end of READ_SLOT and NVM_READ.
  abbrev show_slot : Sec H → SlotId → List ℕ → List ℕ
  show_slot s i r = write_at r 4 (take 28 (slot s i).bytes)

  -- SEC_SUB_READ_SLOT and SEC_SUB_NVM_READ.
  abbrev show_valid : Sec H → SlotId → List ℕ → Reply H
  show_valid s i r = if (slot s i).valid then (s, ok, show_slot s i r) else refuse s err_param r

  uart_read : Sec H → List ℕ → List ℕ → Reply H
  uart_read s params r =
      if ltb 1 (byte params 0)
      then refuse s err_param r
      else if byte params 0 == 0
      then show_valid s slot_a r
      else show_valid s slot_b r

  -- `^= 0xff` at the first byte of the tag.
  abbrev flip_tag : List ℕ → List ℕ
  flip_tag rec = set rec 48 (255 - byte rec 48)

  abbrev uart_inject : Build → Sec H → List ℕ → Reply H
  uart_inject build s r =
      let x = slot s s.active in
      if build.test_mode
      then (put_slot s s.active (record x { bytes = flip_tag x.bytes }), ok, r)
      else refuse s err_unsupported r

  -- The response of FACTORY_INIT.
  abbrev factory_reply : Sec H → List ℕ → Code → Reply H
  factory_reply s r ok =
      (s, ok, reply_code ok (apply_writes r (factory_writes s.helper s.wrapped_blob)))
  factory_reply s r c = (s, c, reply_code c r)

  uart_factory : Build → Sec H → List ℕ → List ℕ → Reply H
  uart_factory build s params r =
      let (s', c) = sec_factory_init dev build s params in factory_reply s' r c

  -- The fields that BOOT and GET_STATE both show.
  abbrev show_state : Sec H → List ℕ → List ℕ
  show_state s r =
      write_at (write_at r 4 (put_be32 s.state ++ (put_be32 s.ctr ++ put_be32 s.last_tx))) 20
        (flag s.factory_locked ∷ flag s.key_loaded ∷ flag s.keygen_pending ∷ slot_num s.active ∷ [])

  uart_boot : Build → Sec H → List ℕ → List ℕ → Reply H
  uart_boot build s params r =
      let s' = sec_boot dev build s params in
      (
        s',
        ok,
        write_at (show_state s' r) 24
            (flag (s'.a.boot_valid) ∷ flag (s'.b.boot_valid) ∷ s'.a.diag ∷ s'.b.diag ∷ []),
      )

  abbrev uart_nvm_load : Sec H → List ℕ → List ℕ → Reply H
  uart_nvm_load s params r =
      let rec = take state_rec_len (drop 1 params) in
      let i : SlotId = if byte params 0 == 0 then slot_a else slot_b in
      let s' = load_slot s i rec in
      if ltb 1 (byte params 0) then refuse s err_param r else (s', ok, set r 3 (valid_bits s'))

  uart_mc_load : Sec H → List ℕ → List ℕ → Reply H
  uart_mc_load s params r =
      let (h, good) = dev.mc_load s.hw (get_be32 params 0) in
      if good then (record s { hw = h }, ok, r) else refuse (record s { hw = h }) err_auth r

  abbrev show_blob : Sec H → List ℕ → List ℕ → Reply H
  show_blob s part r = if s.wrapped_valid then (s, ok, write_at r 4 part) else refuse s err_param r

  -- sec_handle_uart_cmd, after `response` is cleared and its first bytes are set.
  pub dispatch : Build → Sec H → Sub → List ℕ → List ℕ → Reply H
  dispatch build s commit params r = uart_commit s params r
  dispatch build s read_active params r = (s, ok, show_slot s s.active r)
  dispatch build s read_slot params r = uart_read s params r
  dispatch build s inject_tag params r = uart_inject build s r
  dispatch build s factory_init params r = uart_factory build s params r
  dispatch build s boot params r = uart_boot build s params r
  dispatch build s get_state params r = (s, ok, show_state s r)
  dispatch build s nvm_load params r = uart_nvm_load s params r
  dispatch build s nvm_read params r = uart_read s params r
  dispatch build s mc_load params r = uart_mc_load s params r
  dispatch build s wrap_load params r =
      (record s { wrapped_blob = take wrapped_len params; wrapped_valid = true }, ok, r)
  dispatch build s wrapped_read_lo params r = show_blob s (take 28 s.wrapped_blob) r
  dispatch build s wrapped_read_hi params r = show_blob s (take 20 (drop 28 s.wrapped_blob)) r
  dispatch build s (unknown n) params r = refuse s err_unsupported r

  -- sec_handle_uart_cmd, from the byte of the subcommand.
  pub sec_handle_uart_cmd : Build → Sec H → ℕ → List ℕ → Reply H
  sec_handle_uart_cmd build s sub params = dispatch build s (decode_sub sub) params (head_of s sub)
