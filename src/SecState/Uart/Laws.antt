-- ===== src/SecState/Uart/Laws.antt =====
-- The commands of sec_handle_uart_cmd (fw/lms_sec_state.c) keep the safety invariant, but for those
-- that put bytes of the host into a slot.
use sec_lms.Prelude.{
  ℕ, ◌+◌, ◌%◌, ◌^◌, ◌≤◌, ◌<◌, ◌≡◌, refl, true, not, ◌||◌, List, ltb, ◌==◌, if_cases, ◌∙◌, take,
  drop, arith,
}
use sec_lms.Prelude.Bytes.{byte, get_be32}
use sec_lms.SecState.{
  Build, Device, SlotId, slot_a, slot_b, Sec, slot, error_locked, reserved, booting, Code, ok,
}
use sec_lms.SecState.Keys.Laws.{Quiet, sec_factory_init-Quiet}
use sec_lms.SecState.Commit.{state_commit}
use sec_lms.SecState.Uart.{
  Sub, commit, read_active, read_slot, inject_tag, boot, factory_init, get_state, nvm_load,
  nvm_read, mc_load, wrap_load, wrapped_read_lo, wrapped_read_hi, unknown, commit_allowed, Reply,
  uart_commit, uart_read, show_valid, factory_reply, uart_factory, uart_boot, uart_mc_load,
  show_blob, dispatch, decode_sub, sec_handle_uart_cmd,
}
use sec_lms.SecState.Safety.{Safe}
use sec_lms.SecState.Safety.Commit.{Safe-of_bytes, state_commit-Safe}
use sec_lms.SecState.Safety.Boot.{sec_boot-Safe}

-- The commands that do not write a slot from outside. A commit names a counter that can still be
-- burnt: its successor is a 32-bit number.
abbrev pub Tame : Sub → List ℕ → Type 0
Tame commit params = get_be32 params 4 + 1 < 2 ^ 32
Tame nvm_load params = ⊥
Tame inject_tag params = ⊥
Tame other params = Unit

-- What the whitelist of COMMIT allows never lets the counter fall, and lets it grow from RESERVED.
pub commit_allowed_lem :
    (state ctr new_state new_ctr : ℕ)
    → commit_allowed state ctr new_state new_ctr ≡ true
    → (ctr ≤ new_ctr) × (state ≡ reserved → ctr < new_ctr)
unfolding commit_allowed
commit_allowed_lem state ctr new_state new_ctr h = (ground arith, ground arith)

module _ {H : Type 0} (dev : Device H) (n : ℕ) where
  abbrev SafeReply : Reply H → Type 0
  SafeReply r = Safe dev n r.0

  uart_commit-Safe :
      (s : Sec H) (params r : List ℕ)
      → get_be32 params 4 + 1 < 2 ^ 32
      → Safe dev n s
      → SafeReply (uart_commit dev s params r)
  unfolding uart_commit
  uart_commit-Safe s params r small v =
      if_cases SafeReply (s.state == error_locked) (λ _. v)
        λ unlocked.
          if_cases SafeReply (s.state == booting) (λ _. v)
            λ ready.
              if_cases SafeReply
                (ltb (get_be32 params 4) s.ctr
                  || not (
                      commit_allowed s.state s.ctr (get_be32 params 0 % 2 ^ 16)
                        (get_be32 params 4)))
                (λ _. v)
                λ fits.
                  if_cases SafeReply
                    (state_commit dev s (get_be32 params 0 % 2 ^ 16) (get_be32 params 4)).1
                    (λ _. done (ground arith) (v.counter (ground arith) (ground arith)))
                    (λ _. done (ground arith) (v.counter (ground arith) (ground arith)))
    where
      done :
          s.ctr ≤ get_be32 params 4
          → n ≤ s.ctr
          → Safe dev n (state_commit dev s (get_be32 params 0 % 2 ^ 16) (get_be32 params 4)).0
      done grows bound =
          state_commit-Safe dev n s _ _ v (omega arith) (omega arith) (λ _. small) (omega arith)

  show_valid-Safe :
      (s : Sec H) (i : SlotId) (r : List ℕ) → Safe dev n s → SafeReply (show_valid dev s i r)
  show_valid-Safe s i r v = if_cases SafeReply ((slot s i).valid) (λ _. v) (λ _. v)

  uart_read-Safe :
      (s : Sec H) (params r : List ℕ) → Safe dev n s → SafeReply (uart_read dev s params r)
  unfolding uart_read
  uart_read-Safe s params r v =
      if_cases SafeReply (ltb 1 (byte params 0)) (λ _. v)
        λ _.
          if_cases SafeReply (byte params 0 == 0) (λ _. show_valid-Safe s slot_a r v)
            (λ _. show_valid-Safe s slot_b r v)

  Quiet-Safe : {s t : Sec H} → Quiet s t → Safe dev n s → Safe dev n t
  Quiet-Safe q v =
      Safe-of_bytes dev v q.a q.b
        (λ nb nl. rw q.ctr (v.counter (λ e. nb (q.state ∙ e)) (λ e. nl (q.state ∙ e))))

  factory_reply-Safe :
      (s : Sec H) (r : List ℕ) (c : Code) → Safe dev n s → SafeReply (factory_reply dev s r c)
  factory_reply-Safe s r ok v = v
  factory_reply-Safe s r c v = v

  uart_factory-Safe :
      (build : Build) (s : Sec H) (params r : List ℕ)
      → Safe dev n s
      → SafeReply (uart_factory dev build s params r)
  unfolding uart_factory
  uart_factory-Safe build s params r v =
      factory_reply-Safe _ r _ (Quiet-Safe (sec_factory_init-Quiet dev build s params) v)

  uart_mc_load-Safe :
      (s : Sec H) (params r : List ℕ) → Safe dev n s → SafeReply (uart_mc_load dev s params r)
  unfolding uart_mc_load
  uart_mc_load-Safe s params r v =
      if_cases SafeReply (dev.mc_load s.hw (get_be32 params 0)).1 (λ _. loaded) (λ _. loaded)
    where
      loaded : Safe dev n (record s { hw = (dev.mc_load s.hw (get_be32 params 0)).0 })
      loaded = Safe-of_bytes dev v refl refl v.counter

  show_blob-Safe : (s : Sec H) (part r : List ℕ) → Safe dev n s → SafeReply (show_blob dev s part r)
  show_blob-Safe s part r v = if_cases SafeReply s.wrapped_valid (λ _. v) (λ _. v)

  dispatch-Safe :
      (build : Build) (s : Sec H) (sub : Sub) (params r : List ℕ)
      → Tame sub params
      → Safe dev n s
      → SafeReply (dispatch dev build s sub params r)
  unfolding dispatch uart_boot
  dispatch-Safe build s commit params r t v = uart_commit-Safe s params r t v
  dispatch-Safe build s read_active params r t v = v
  dispatch-Safe build s read_slot params r t v = uart_read-Safe s params r v
  dispatch-Safe build s inject_tag params r t v = absurd t
  dispatch-Safe build s boot params r t v = sec_boot-Safe dev n build s params v
  dispatch-Safe build s factory_init params r t v = uart_factory-Safe build s params r v
  dispatch-Safe build s get_state params r t v = v
  dispatch-Safe build s nvm_load params r t v = absurd t
  dispatch-Safe build s nvm_read params r t v = uart_read-Safe s params r v
  dispatch-Safe build s mc_load params r t v = uart_mc_load-Safe s params r v
  dispatch-Safe build s wrap_load params r t v = Safe-of_bytes dev v refl refl v.counter
  dispatch-Safe build s wrapped_read_lo params r t v = show_blob-Safe s (take 28 s.wrapped_blob) r v
  dispatch-Safe build s wrapped_read_hi params r t v =
      show_blob-Safe s (take 20 (drop 28 s.wrapped_blob)) r v
  dispatch-Safe build s (unknown c) params r t v = v

  -- Every UART command but NVM_LOAD and INJECT_TAG, a COMMIT being of a counter below 2^32 - 1, leaves
  -- a safe state of bound `n` safe with bound `n`.
  pub sec_handle_uart_cmd-Safe :
      (build : Build) (s : Sec H) (sub : ℕ) (params : List ℕ)
      → Tame (decode_sub sub) params
      → Safe dev n s
      → Safe dev n (sec_handle_uart_cmd dev build s sub params).0
  unfolding sec_handle_uart_cmd
  sec_handle_uart_cmd-Safe build s sub params t v =
      dispatch-Safe build s (decode_sub sub) params _ t v
