-- ===== src/Lms/Ots/Refine.antt =====
-- Without backends LM-OTS of src/lm_ots.c computes the one-time keys and signatures of the
-- specification, and the key that a signature gives back is the signer's.
use sec_lms.Prelude.{
  ℕ, ◌+◌, ◌-◌, ◌*◌, ◌^◌, ◌≤◌, ◌<◌, ◌≡◌, refl, sym, subst, inl, inr, List, [], ◌++◌, length, arith,
  length-append, le→leb, true,
}
use sec_lms.Prelude.Bytes.{put_be32, put_be16}
use sec_lms.Lms.{ok, HashAlg, PrivateKey, same_alg, same_alg_sound, same_alg_refl}
use sec_lms.Lms.Params.{LmsParam, LmotsParam, lmots_param, matching_params, ots_len}
use sec_lms.Lms.Params.Matching.{matching_params-parts}
use sec_lms.Lms.Coef.{coef}
use sec_lms.Lms.Coef.Bounds.{Row, lmots_param-Row, coef-lt}
use sec_lms.Lms.Hash.{
  HashLib, IsHashLib, Hashable, length-digest, lms_hash-digest, lms_hash_parts-digest,
}
use sec_lms.Lms.Ots.{
  software, prefix, c_prg_domain, all_coefs, lmots_private_value, lmots_randomizer,
  lmots_message_hash, q_and_coefs, keygen_value, sign_value, lmots_public_from_private, lmots_sign,
  d_pblc, d_mesg,
}
use sec_lms.Lms.Ots.Spec.{
  chain, private_value, randomizer, full_digest, chain_ends, key_of, signature,
}
use sec_lms.Lms.Ots.Chain.{collect-values, length-values, length-chain, chain_compute-chain}

-- A Winternitz row has at most 265 chains of at most 255 steps.
Row-bounds : (w p ls : ℕ) → Row w p ls → (p ≤ 265) × (2 ^ w - 1 ≤ 255)
Row-bounds w p ls (inl (ew, ep, el)) = rw (ew, ep) (omega arith, omega arith)
Row-bounds w p ls (inr (inl (ew, ep, el))) = rw (ew, ep) (omega arith, omega arith)
Row-bounds w p ls (inr (inr (inl (ew, ep, el)))) = rw (ew, ep) (omega arith, omega arith)
Row-bounds w p ls (inr (inr (inr (ew, ep, el)))) = rw (ew, ep) (omega arith, omega arith)

module _ (lib : HashLib) (h : IsHashLib lib) (big : 0xffff ≤ lib.size_max) (priv : PrivateKey)
    (lms : LmsParam) (p : LmotsParam)
    (known : matching_params priv.lms_type priv.lmots_type ≡ ok (lms, p))
    (len_I : length priv.I ≡ 16) where
  abbrev alg : HashAlg
  alg = lms.hash_alg

  pub ots_known : lmots_param priv.lmots_type ≡ ok p
  ots_known = (matching_params-parts _ _ lms p known).1

  pub n_is_32 : p.n ≡ 32
  n_is_32 = (lmots_param-Row _ p ots_known).1

  pub alg_agree : same_alg p.hash_alg alg ≡ true
  alg_agree =
      rw (same_alg_sound alg p.hash_alg (matching_params-parts _ _ lms p known).2)
        (same_alg_refl p.hash_alg)

  pub bounds : (p.p ≤ 265) × (2 ^ p.w - 1 ≤ 255)
  bounds = Row-bounds p.w p.p p.ls (lmots_param-Row _ p ots_known).0

  private_value-ok :
      (q i : ℕ)
      → i ≤ 0xffff
      → lmots_private_value lib software priv q i ≡ ok (private_value lib alg priv q i)
  unfolding lmots_private_value
  private_value-ok q i hi = rw (le→leb hi, known, lms_hash-digest lib h alg _) refl

  keygen_value-ok :
      (q i : ℕ)
      → i < p.p
      → keygen_value lib software priv alg q p.w i
        ≡ ok (chain lib alg priv.I q i 0 (2 ^ p.w - 1) (private_value lib alg priv q i))
  unfolding keygen_value
  keygen_value-ok q i hi = rw (private_value-ok q i (omega (arith, bounds.0))) (
      rw
        (chain_compute-chain lib alg h software priv.I q i 0 (2 ^ p.w - 1)
          (private_value lib alg priv q i) (omega (arith, bounds.0)) (omega (arith, bounds.1)))
        refl)

  length-prefix : (q d : ℕ) → length (prefix priv.I q d) ≡ 22
  length-prefix q d = omega (arith, length-append priv.I (put_be32 q ++ put_be16 d))

  ends_length : (q : ℕ) → length (chain_ends lib alg priv q p) ≡ p.p * 32
  ends_length q =
      length-values p.p 0 _
        λ i. length-chain lib alg h priv.I q i 0 (2 ^ p.w - 1) _ (length-digest lib h alg _)

  pub ends_room :
      (q d : ℕ)
      → Hashable lib (length (prefix priv.I q d) + length (chain_ends lib alg priv q p) + 0 + 0)
  ends_room q d = (
    omega (arith, big, length-prefix q d, ends_length q, bounds.0),
    inl (omega (arith, length-prefix q d, ends_length q, bounds.0)),
  )

  -- lmots_public_from_private gives the hash of the ends of the key's chains.
  pub lmots_public_from_private_lem :
      (q : ℕ)
      → lmots_public_from_private lib software priv q
        ≡ ok (key_of lib alg priv.I q (chain_ends lib alg priv q p))
  unfolding lmots_public_from_private
  lmots_public_from_private_lem q =
      rw (ots_known, known)
        (rw (collect-values p.p 0 _ _ (λ i hi. keygen_value-ok q i (omega arith))) (
          lms_hash_parts-digest lib h (prefix priv.I q d_pblc) (chain_ends lib alg priv q p) [] []
            alg (ends_room q d_pblc)))

  randomizer-ok : (q : ℕ) → lmots_randomizer lib software priv q ≡ ok (randomizer lib alg priv q)
  unfolding lmots_randomizer
  randomizer-ok q = rw (known) (rw (lms_hash-digest lib h alg _) refl)

  module _ (q : ℕ) (message : List ℕ) (fits : Hashable lib (54 + length message)) where
    abbrev C : List ℕ
    C = randomizer lib alg priv q

    abbrev full : List ℕ
    full = full_digest lib alg p priv.I q C message

    length-message :
        length (prefix priv.I q d_mesg ++ C) + length message + 0 + 0 ≡ 54 + length message
    length-message = omega (
      arith,
      length-append (prefix priv.I q d_mesg) C,
      length-prefix q d_mesg,
      length-digest lib h alg (prefix priv.I q c_prg_domain ++ priv.seed),
    )

    pub q_and_coefs-ok :
        q_and_coefs lib software p priv.lmots_type priv.I alg q C message
        ≡ ok (full, all_coefs p.p 0 full p.w)
    unfolding q_and_coefs lmots_message_hash
    q_and_coefs-ok =
        rw
          (
            lms_hash_parts-digest lib h (prefix priv.I q d_mesg ++ C) message [] [] alg
                (subst (Hashable lib) (sym length-message) fits),
            n_is_32,
          )
          refl

    sign_value-ok :
        (i : ℕ)
        → i < p.p
        → sign_value lib software priv alg q full p.w i
          ≡ ok (chain lib alg priv.I q i 0 (coef full i p.w) (private_value lib alg priv q i))
    unfolding sign_value
    sign_value-ok i hi = rw (private_value-ok q i (omega (arith, bounds.0))) (
        rw
          (chain_compute-chain lib alg h software priv.I q i 0 (coef full i p.w)
            (private_value lib alg priv q i) (omega (arith, bounds.0))
            (omega (arith, bounds.1, coef-lt full i p.w)))
          refl)

    -- Without backends, with a platform that can hash the message, a key of known types of one hash
    -- function and an I of 16 bytes: lmots_sign, given room, writes the specified signature, the type,
    -- the randomizer, and each chain advanced by the digit of the message digest and its checksum.
    pub lmots_sign_lem :
        (room : ℕ)
        → ots_len p ≤ room
        → lmots_sign lib software priv q message room ≡ ok (signature lib alg priv q p message)
    unfolding lmots_sign
    lmots_sign_lem room fit =
        rw (ots_known, known, alg_agree, le→leb fit)
          (rw (randomizer-ok q) (
            rw q_and_coefs-ok
              (rw (collect-values p.p 0 _ _ (λ i hi. sign_value-ok i (omega arith))) refl)))
