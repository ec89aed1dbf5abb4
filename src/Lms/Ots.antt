-- ===== src/Lms/Ots.antt =====
-- LM-OTS of src/lm_ots.c: private values, chains, key generation, signature and verification, with
-- the backends that may take over a part of the work.
pub mod Registered
pub mod Spec
pub mod Chain
pub mod Refine
pub mod RoundTrip
use sec_lms.Prelude.{
  ℕ, zero, suc, ◌+◌, ◌-◌, ◌*◌, ◌%◌, ◌^◌, Bool, true, false, List, [], ◌∷◌, ◌++◌, Option, none, some,
  take, drop, length, leb, ◌==◌, ◌&&◌,
}
use sec_lms.Prelude.Bytes.{byte, put_be32, put_be16, get_be32}
use sec_lms.Lms.{
  Error, invalid, buffer_too_small, verify, Result, ok, err, ◌>>=◌, ◌>>◌, guard, or_fail, lms_n,
  HashAlg, same_alg, PrivateKey,
}
pub use sec_lms.Lms.Ots.Registered.{Backends, ChainBackend, DeriveBackend, software}
use sec_lms.Lms.Params.{LmotsParam, lmots_param, private_hash_alg, ots_len}
use sec_lms.Lms.Coef.{coef, checksum}
use sec_lms.Lms.Hash.{HashLib, lms_hash, lms_hash_parts}

-- D_MESG, D_PBLC, D_LEAF, D_INTR and LMOTS_C_PRG_DOMAIN.
abbrev pub d_mesg : ℕ
d_mesg = 0x8181

abbrev pub d_pblc : ℕ
d_pblc = 0x8080

abbrev pub d_leaf : ℕ
d_leaf = 0x8282

abbrev pub d_intr : ℕ
d_intr = 0x8383

abbrev pub c_prg_domain : ℕ
c_prg_domain = 0x8585

-- I, a word and a short: the common prefix of all hash inputs.
abbrev pub prefix : List ℕ → ℕ → ℕ → List ℕ
prefix I q domain = I ++ (put_be32 q ++ put_be16 domain)

-- `for (i = from; i < from + count; i++)`, with the values of 32 bytes one behind the other.
abbrev pub collect : ℕ → ℕ → (ℕ → Result (List ℕ)) → Result (List ℕ)
collect zero i f = ok []
collect (suc k) i f = f i >>= λ v. collect k (i + 1) f >>= λ rest. ok (v ++ rest)

-- The coefficients `0 .. p - 1`.
abbrev pub all_coefs : ℕ → ℕ → List ℕ → ℕ → List ℕ
all_coefs zero i Q w = []
all_coefs (suc k) i Q w = coef Q i w ∷ all_coefs k (i + 1) Q w

module _ (lib : HashLib) (be : Backends) where
  -- lmots_private_value.
  unfoldable pub lmots_private_value : PrivateKey → ℕ → ℕ → Result (List ℕ)
  lmots_private_value priv q i = do
    guard (leb i 0xffff) invalid
    alg ← or_fail (private_hash_alg priv) invalid
    or_fail (lms_hash lib alg (prefix priv.I q i ++ (0xff ∷ priv.seed)) lms_n) invalid

  -- lmots_randomizer.
  unfoldable pub lmots_randomizer : PrivateKey → ℕ → Result (List ℕ)
  lmots_randomizer priv q = do
    alg ← or_fail (private_hash_alg priv) invalid
    elim be.sign_randomizer [
      | some f ↦ f priv.I alg q
      | none ↦ or_fail (lms_hash lib alg (prefix priv.I q c_prg_domain ++ priv.seed) lms_n) invalid
    ]

  -- The loop of lmots_chain_compute: `k` hashes from step `j` on.
  unfoldable pub chain_loop : List ℕ → HashAlg → ℕ → ℕ → ℕ → ℕ → List ℕ → Result (List ℕ)
  chain_loop I alg q i j zero value = ok value
  chain_loop I alg q i j (suc k) value =
      or_fail (lms_hash lib alg (prefix I q i ++ ((j % 256) ∷ value)) lms_n) invalid >>= λ next.
      chain_loop I alg q i (j + 1) k next

  -- lmots_chain_compute, without its counters of calls and steps.
  unfoldable pub lmots_chain_compute : ChainBackend
  lmots_chain_compute I alg q i start steps value = do
    guard (leb i 0xffff && leb start 0xff && leb steps 0xff && leb (start + steps) 0xff) invalid
    chain_loop I alg q i start steps value

  -- lmots_keygen_chain_compute, lmots_verify_chain_compute and lmots_sign_chain_compute, which
  -- differ in the backend.
  abbrev pub chain_with : Option ChainBackend → ChainBackend
  chain_with none I alg q i start steps value = lmots_chain_compute I alg q i start steps value
  chain_with (some f) I alg q i start steps value = f I alg q i start steps value

  -- lmots_message_hash: the 32 bytes of Q.
  unfoldable pub lmots_message_hash : List ℕ → HashAlg → ℕ → List ℕ → List ℕ → Result (List ℕ)
  lmots_message_hash I alg q C message = elim be.message_hash [
    | some f ↦ f I alg q C message
    | none ↦ or_fail (lms_hash_parts lib (prefix I q d_mesg ++ C) message [] [] alg) invalid
  ]

  -- Q with its checksum behind it, and the coefficients.
  abbrev pub with_checksum : LmotsParam → List ℕ → List ℕ × List ℕ
  with_checksum p Q =
      let full = Q ++ put_be16 (checksum Q p.n p.w p.ls) in (full, all_coefs p.p 0 full p.w)

  abbrev software_coefs :
      LmotsParam → List ℕ → HashAlg → ℕ → List ℕ → List ℕ → Result (List ℕ × List ℕ)
  software_coefs p I alg q C message = do
    Q ← or_fail (lmots_message_hash I alg q C message) invalid
    ok (with_checksum p Q)

  abbrev hardware_coefs :
      Result (List ℕ × List ℕ) → Result (List ℕ × List ℕ) → Result (List ℕ × List ℕ)
  hardware_coefs (ok (Q, cs)) rest = ok (Q ++ be.stale, cs)
  hardware_coefs (err e) rest = rest

  -- The block "coef_backend: one hardware call yields Q + coefficients" of sign and verification.
  -- On the software path the coefficients are those of Q.
  unfoldable pub q_and_coefs :
      LmotsParam → ℕ → List ℕ → HashAlg → ℕ → List ℕ → List ℕ → Result (List ℕ × List ℕ)
  q_and_coefs p type I alg q C message = elim be.coefficients [
    | some f ↦ hardware_coefs (f I alg q C message type) (software_coefs p I alg q C message)
    | none ↦ software_coefs p I alg q C message
  ]

  -- One chain of lmots_public_from_private.
  unfoldable pub keygen_value : PrivateKey → HashAlg → ℕ → ℕ → ℕ → Result (List ℕ)
  keygen_value priv alg q w i =
      let steps = 2 ^ w - 1 in
      elim be.keygen_derive [
        | some f ↦ or_fail (f priv.I alg q i 0 steps) invalid
        | none ↦ or_fail (lmots_private_value priv q i) invalid >>= λ v.
            or_fail (chain_with be.keygen_chain priv.I alg q i 0 steps v) invalid
      ]

  -- lmots_public_from_private.
  unfoldable pub lmots_public_from_private : PrivateKey → ℕ → Result (List ℕ)
  lmots_public_from_private priv q = do
    p ← or_fail (lmots_param priv.lmots_type) invalid
    alg ← or_fail (private_hash_alg priv) invalid
    elim be.keygen [
      | some f ↦ f priv.I alg q priv.lmots_type
      | none ↦ collect p.p 0 (keygen_value priv alg q p.w) >>= λ values.
          lms_hash_parts lib (prefix priv.I q d_pblc) values [] [] alg
    ]

  -- One chain of lmots_sign.
  unfoldable pub sign_value : PrivateKey → HashAlg → ℕ → List ℕ → ℕ → ℕ → Result (List ℕ)
  sign_value priv alg q Q w i =
      let a = coef Q i w in
      elim be.sign_derive [
        | some f ↦ or_fail (f priv.I alg q i 0 a) invalid
        | none ↦ or_fail (lmots_private_value priv q i) invalid >>= λ v.
            or_fail (chain_with be.sign_chain priv.I alg q i 0 a v) invalid
      ]

  -- lmots_sign: the bytes that it writes, the type, C and the chain values.
  unfoldable pub lmots_sign : PrivateKey → ℕ → List ℕ → ℕ → Result (List ℕ)
  lmots_sign priv q message signature_len = do
    p ← or_fail (lmots_param priv.lmots_type) invalid
    alg ← or_fail (private_hash_alg priv) invalid
    guard (same_alg p.hash_alg alg) invalid
    guard (leb (ots_len p) signature_len) buffer_too_small
    C ← or_fail (lmots_randomizer priv q) invalid
    (Q, cs) ← q_and_coefs p priv.lmots_type priv.I alg q C message
    y ← elim be.sign [
      | some f ↦ f priv.I alg q priv.lmots_type cs
      | none ↦ collect p.p 0 (sign_value priv alg q Q p.w)
    ]
    ok (put_be32 priv.lmots_type ++ (C ++ y))

  -- One chain of lmots_public_from_signature.
  unfoldable pub verify_value :
      List ℕ → HashAlg → ℕ → List ℕ → List ℕ → LmotsParam → ℕ → Result (List ℕ)
  verify_value I alg q Q y p i =
      let a = coef Q i p.w in
      or_fail
        (chain_with be.verify_chain I alg q i a (2 ^ p.w - 1 - a) (take p.n (drop (i * p.n) y)))
        invalid

  -- The tests at the start of lmots_public_from_signature and lmots_verify_leaf.
  unfoldable pub check_signature : HashAlg → ℕ → List ℕ → Result LmotsParam
  check_signature alg expected signature = do
    p ← or_fail (lmots_param expected) invalid
    guard (length signature == ots_len p) invalid
    guard (get_be32 signature 0 == expected) verify
    guard (same_alg p.hash_alg alg) invalid
    ok p

  -- lmots_public_from_signature.
  unfoldable pub lmots_public_from_signature :
      List ℕ → HashAlg → ℕ → ℕ → List ℕ → List ℕ → Result (List ℕ)
  lmots_public_from_signature I alg q expected message signature = do
    p ← check_signature alg expected signature
    let C = take p.n (drop 4 signature)
    let y = drop (4 + p.n) signature
    (Q, cs) ← q_and_coefs p expected I alg q C message
    elim be.verify_ots [
      | some f ↦ f I alg q expected cs y
      | none ↦ collect p.p 0 (verify_value I alg q Q y p) >>= λ values.
          lms_hash_parts lib (prefix I q d_pblc) values [] [] alg
    ]

  -- lmots_verify_leaf.
  unfoldable pub lmots_verify_leaf :
      List ℕ → HashAlg → ℕ → ℕ → ℕ → List ℕ → List ℕ → Result (List ℕ)
  lmots_verify_leaf I alg q expected node_num message signature = do
    p ← check_signature alg expected signature
    let C = take p.n (drop 4 signature)
    let y = drop (4 + p.n) signature
    (Q, cs) ← q_and_coefs p expected I alg q C message
    elim be.verify_leaf [
      | some f ↦ f I alg q expected cs y node_num
      | none ↦
          or_fail (lmots_public_from_signature I alg q expected message signature) verify >>= λ K.
          lms_hash_parts lib (prefix I node_num d_leaf) K [] [] alg
    ]

  -- lmots_sign_prepare: C and the coefficients.
  abbrev lmots_sign_prepare : PrivateKey → ℕ → List ℕ → Result (List ℕ × List ℕ)
  lmots_sign_prepare priv q message = do
    p ← or_fail (lmots_param priv.lmots_type) invalid
    alg ← or_fail (private_hash_alg priv) invalid
    guard (same_alg p.hash_alg alg) invalid
    C ← or_fail (lmots_randomizer priv q) invalid
    (Q, cs) ← q_and_coefs p priv.lmots_type priv.I alg q C message
    ok (C, cs)

  -- lmots_public_from_signature_prepare: the coefficients.
  abbrev lmots_public_from_signature_prepare :
      List ℕ → HashAlg → ℕ → ℕ → List ℕ → List ℕ → Result (List ℕ)
  lmots_public_from_signature_prepare I alg q expected message C = do
    p ← or_fail (lmots_param expected) invalid
    guard (same_alg p.hash_alg alg) invalid
    (Q, cs) ← q_and_coefs p expected I alg q C message
    ok cs
