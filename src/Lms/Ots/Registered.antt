-- ===== src/Lms/Ots/Registered.antt =====
-- The backends of src/lm_ots.c: the function pointers that lmots_*_backend_set and
-- lms_intr_backend_set register.
use sec_lms.Prelude.{ℕ, List, [], Option, none}
use sec_lms.Lms.{Result, HashAlg}

-- A chain backend: I, hash, q, i, start, steps, value.
abbrev pub ChainBackend : Type 0
ChainBackend = List ℕ → HashAlg → ℕ → ℕ → ℕ → ℕ → List ℕ → Result (List ℕ)

abbrev pub DeriveBackend : Type 0
DeriveBackend = List ℕ → HashAlg → ℕ → ℕ → ℕ → ℕ → Result (List ℕ)

-- The backends, each registered or not, as functions of what they are called with. `stale` are the
-- bytes of the stack behind the 32 bytes that a coefficient backend writes to `Q`.
pub record Backends : Type 0 where
  pub keygen_chain : Option ChainBackend
  pub verify_chain : Option ChainBackend
  pub sign_chain : Option ChainBackend
  pub keygen_derive : Option DeriveBackend
  pub keygen : Option (List ℕ → HashAlg → ℕ → ℕ → Result (List ℕ))
  pub sign : Option (List ℕ → HashAlg → ℕ → ℕ → List ℕ → Result (List ℕ))
  pub verify_ots : Option (List ℕ → HashAlg → ℕ → ℕ → List ℕ → List ℕ → Result (List ℕ))
  pub verify_leaf : Option (List ℕ → HashAlg → ℕ → ℕ → List ℕ → List ℕ → ℕ → Result (List ℕ))
  pub sign_derive : Option DeriveBackend
  pub sign_randomizer : Option (List ℕ → HashAlg → ℕ → Result (List ℕ))
  pub intr : Option (List ℕ → HashAlg → ℕ → List ℕ → List ℕ → Result (List ℕ))
  pub message_hash : Option (List ℕ → HashAlg → ℕ → List ℕ → List ℕ → Result (List ℕ))
  pub coefficients : Option (List ℕ → HashAlg → ℕ → List ℕ → List ℕ → ℕ → Result (List ℕ × List ℕ))
  pub stale : List ℕ

-- No backend is registered, as after start-up.
abbrev pub software : Backends
software = record {
  keygen_chain = none;
  verify_chain = none;
  sign_chain = none;
  keygen_derive = none;
  keygen = none;
  sign = none;
  verify_ots = none;
  verify_leaf = none;
  sign_derive = none;
  sign_randomizer = none;
  intr = none;
  message_hash = none;
  coefficients = none;
  stale = [];
}
