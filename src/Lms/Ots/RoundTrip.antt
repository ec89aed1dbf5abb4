-- ===== src/Lms/Ots/RoundTrip.antt =====
-- What lmots_sign of src/lm_ots.c signs, lmots_public_from_signature accepts: it gives back the
-- one-time key.
use sec_lms.Prelude.{
  ℕ, ◌+◌, ◌-◌, ◌*◌, ◌^◌, ◌≤◌, ◌<◌, ◌≡◌, refl, sym, subst, ◌∙◌, ap, List, [], ◌++◌, take, drop,
  length, arith, length-append, take-append, drop-append, eq→==,
}
use sec_lms.Prelude.Bytes.{get_be32-put}
use sec_lms.Lms.{ok, HashAlg, PrivateKey}
use sec_lms.Lms.Params.{LmsParam, LmotsParam, lmots_param, matching_params, ots_len}
use sec_lms.Lms.Coef.{coef}
use sec_lms.Lms.Coef.Bounds.{coef-lt}
use sec_lms.Lms.Hash.{HashLib, IsHashLib, Hashable, length-digest, lms_hash_parts-digest}
use sec_lms.Lms.Ots.{
  software, prefix, c_prg_domain, d_pblc, verify_value, check_signature,
  lmots_public_from_signature,
}
use sec_lms.Lms.Ots.Spec.{
  chain, private_value, randomizer, full_digest, chain_ends, key_of, signature_values, signature,
}
use sec_lms.Lms.Ots.Chain.{
  collect-values, length-values, slice-values, chain-complement, length-chain, chain_compute-chain,
}
use sec_lms.Lms.Ots.Refine.{ots_known, n_is_32, bounds, alg_agree, q_and_coefs-ok, ends_room}

known_below : (type : ℕ) (p : LmotsParam) → lmots_param type ≡ ok p → type < 2 ^ 32
unfolding lmots_param
known_below type p e = ground arith

zero_add : (n : ℕ) → 0 + n ≡ n
zero_add n = omega arith

module _ (lib : HashLib) (h : IsHashLib lib) (big : 0xffff ≤ lib.size_max) (priv : PrivateKey)
    (lms : LmsParam) (p : LmotsParam)
    (known : matching_params priv.lms_type priv.lmots_type ≡ ok (lms, p))
    (len_I : length priv.I ≡ 16) (q : ℕ) (message : List ℕ)
    (fits : Hashable lib (54 + length message)) where
  abbrev alg : HashAlg
  alg = lms.hash_alg

  abbrev C : List ℕ
  C = randomizer lib alg priv q

  abbrev full : List ℕ
  full = full_digest lib alg p priv.I q C message

  abbrev y : List ℕ
  y = signature_values lib alg priv q p message

  abbrev digit : ℕ → ℕ
  digit i = coef full i p.w

  abbrev step_of : ℕ → List ℕ
  step_of i = chain lib alg priv.I q i 0 (digit i) (private_value lib alg priv q i)

  C_length : length C ≡ 32
  C_length = length-digest lib h alg (prefix priv.I q c_prg_domain ++ priv.seed)

  step_length : (i : ℕ) → length (step_of i) ≡ 32
  step_length i = length-chain lib alg h priv.I q i 0 (digit i) _ (length-digest lib h alg _)

  n_32 : p.n ≡ 32
  n_32 = n_is_32 lib h big priv lms p known len_I

  ots_len_32 : ots_len p ≡ 4 + 32 + p.p * 32
  ots_len_32 = rw n_32 refl

  pub length-signature : length (signature lib alg priv q p message) ≡ ots_len p
  length-signature =
      omega
        (arith, ots_len_32, length-append C y, C_length, length-values p.p 0 step_of step_length)

  pub check_signature-ok :
      check_signature lib software alg priv.lmots_type (signature lib alg priv q p message) ≡ ok p
  unfolding check_signature
  check_signature-ok = rw (ots_known lib h big priv lms p known len_I) (
      rw
        (
          eq→== length-signature,
          eq→== (
              get_be32-put priv.lmots_type (C ++ y)
                (known_below _ p (ots_known lib h big priv lms p known len_I))),
          alg_agree lib h big priv lms p known len_I,
        )
        refl)

  limits : (p.p ≤ 265) × (2 ^ p.w - 1 ≤ 255)
  limits = bounds lib h big priv lms p known len_I

  cut : (i : ℕ) → i < p.p → take p.n (drop (i * p.n) y) ≡ step_of i
  cut i hi =
      subst (λ n. take n (drop (i * n) y) ≡ step_of i) (sym n_32)
        (slice-values p.p 0 i step_of step_length hi ∙ ap step_of (zero_add i))

  pub cut_C : take p.n (drop 4 (signature lib alg priv q p message)) ≡ C
  cut_C = subst (λ n. take n (C ++ y) ≡ C) (sym n_32) (take-append 32 C y C_length)

  cut_y : drop (4 + p.n) (signature lib alg priv q p message) ≡ y
  cut_y =
      subst (λ n. drop (4 + n) (signature lib alg priv q p message) ≡ y) (sym n_32)
        (drop-append 32 C y C_length)

  to_end :
      (i : ℕ)
      → chain lib alg priv.I q i (digit i) (2 ^ p.w - 1 - digit i) (step_of i)
        ≡ chain lib alg priv.I q i 0 (2 ^ p.w - 1) (private_value lib alg priv q i)
  to_end i =
      chain-complement lib alg priv.I q i (digit i) (2 ^ p.w) (private_value lib alg priv q i)
        (coef-lt full i p.w)

  -- Each chain is advanced to its end.
  verify_value-ok :
      (i : ℕ)
      → i < p.p
      → verify_value lib software priv.I alg q full y p i
        ≡ ok (chain lib alg priv.I q i 0 (2 ^ p.w - 1) (private_value lib alg priv q i))
  unfolding verify_value
  verify_value-ok i hi = rw (cut i hi) (
      rw
        (chain_compute-chain lib alg h software priv.I q i (digit i) (2 ^ p.w - 1 - digit i)
          (step_of i) (omega (arith, limits.0)) (omega (arith, limits.1, coef-lt full i p.w)))
        (ap ok (to_end i)))

  -- Without backends, with a platform that can hash the message, a key of known types of one hash
  -- function and an I of 16 bytes: lmots_public_from_signature of the specified signature of a
  -- message is the hash of the ends of the key's chains, the one-time public key.
  pub lmots_public_from_signature-signature :
      lmots_public_from_signature lib software priv.I alg q priv.lmots_type message
        (signature lib alg priv q p message)
      ≡ ok (key_of lib alg priv.I q (chain_ends lib alg priv q p))
  unfolding lmots_public_from_signature
  lmots_public_from_signature-signature = rw check_signature-ok (
      rw (cut_C, cut_y)
        (rw (q_and_coefs-ok lib h big priv lms p known len_I q message fits) (
          rw (collect-values p.p 0 _ _ (λ i hi. verify_value-ok i (omega arith))) (
            lms_hash_parts-digest lib h (prefix priv.I q d_pblc) (chain_ends lib alg priv q p) [] []
              alg (ends_room lib h big priv lms p known len_I q d_pblc)))))
