-- ===== src/Lms/Verify/Pair.antt =====
-- A key pair of the scheme as its clients use it: what lms_public_key_generate (src/lms.c) gives,
-- what lms_do_sign (src/lms_sign.c) needs and leaves, and that lms_verify accepts.
use native.Mathlib.Nat.{pow-le-pow_right}
use sec_lms.Prelude.{
  ℕ, zero, suc, ◌+◌, ◌*◌, ◌%◌, ◌^◌, ◌≤◌, ◌<◌, ◌≡◌, refl, ◌∙◌, List, none, length, arith,
}
use sec_lms.Lms.{ok, HashAlg, PrivateKey, PublicKey}
use sec_lms.Lms.Results.{Gives}
use sec_lms.Lms.Params.{LmsParam, LmotsParam, matching_params, total_len}
use sec_lms.Lms.Params.Matching.{lms_param_bounds}
use sec_lms.Lms.Hash.{HashLib, IsHashLib, Hashable}
use sec_lms.Lms.Ots.{software}
use sec_lms.Lms.Tree.{lms_public_key_generate}
use sec_lms.Lms.Tree.Laws.{node, lms_known}
use sec_lms.Lms.Sign.{lms_do_sign}
use sec_lms.Lms.Verify.{lms_verify}
use sec_lms.Lms.Verify.Correct.{public_key, full_length, lms_public_key_generate_lem, sign_verify}

-- The index is no part of the tree.
node_of_q :
    (lib : HashLib) (priv : PrivateKey) (alg : HashAlg) (p : LmotsParam) (base q d num : ℕ)
    → node lib (record priv { q = q }) alg p base d num ≡ node lib priv alg p base d num
unfolding node
node_of_q lib priv alg p base q zero num = refl
node_of_q lib priv alg p base q (suc d) num =
    rw
      (node_of_q lib priv alg p base q d (num * 2), node_of_q lib priv alg p base q d (num * 2 + 1))

no_wrap : (height q : ℕ) → height ≤ 25 → q < 2 ^ height → (q + 1) % 2 ^ 32 ≡ q + 1
no_wrap height q le lt = omega (arith, pow-le-pow_right {n = 2} (omega arith) le)

module _ (lib : HashLib) where
  -- A private key with its public key. All leaves may have been used.
  pub record Pair (lms : LmsParam) (p : LmotsParam) (priv : PrivateKey) (key : PublicKey)
      : Type 0 where
    pub known : matching_params priv.lms_type priv.lmots_type ≡ ok (lms, p)
    pub length_I : length priv.I ≡ 16
    pub key_eq : key ≡ public_key lib priv lms p

  -- A signature that is accepted, and the key with the next index.
  pub record Signs (lms : LmsParam) (p : LmotsParam) (priv : PrivateKey) (key : PublicKey)
      (message : List ℕ) (r : PrivateKey × List ℕ) : Type 0 where
    pub pair : Pair lms p r.0 key
    pub next : r.0.q ≡ priv.q + 1
    pub same_lms : r.0.lms_type ≡ priv.lms_type
    pub same_lmots : r.0.lmots_type ≡ priv.lmots_type
    pub exact : length r.1 ≡ total_len lms p
    pub accepted : lms_verify lib software none key message r.1 ≡ ok tt

  module _ (h : IsHashLib lib) (big : 0xffff ≤ lib.size_max) (lms : LmsParam) (p : LmotsParam)
      (priv : PrivateKey) where
    pub lms_public_key_generate-Pair :
        matching_params priv.lms_type priv.lmots_type ≡ ok (lms, p)
        → length priv.I ≡ 16
        → Gives (Pair lms p priv) (lms_public_key_generate lib software priv)
    lms_public_key_generate-Pair known len_I =
        rw (lms_public_key_generate_lem lib h big priv lms p known len_I)
          (record { known = known; length_I = len_I; key_eq = refl })

    pub lms_do_sign-Signs :
        (key : PublicKey) (message : List ℕ) (room : ℕ)
        → Pair lms p priv key
        → Hashable lib (54 + length message)
        → priv.q < 2 ^ lms.height
        → total_len lms p ≤ room
        → Gives (Signs lms p priv key message) (lms_do_sign lib software none priv message room)
    lms_do_sign-Signs key message room v fits left enough =
        let (made, signed, accepted) =
          sign_verify lib h big priv lms p v.known v.length_I message fits left room enough in
        rw signed (record {
          pair = record { known = v.known; length_I = v.length_I; key_eq = same_key v.key_eq };
          next = small;
          same_lms = refl;
          same_lmots = refl;
          exact = full_length lib h big priv lms p v.known v.length_I message fits left;
          accepted = rw (v.key_eq) accepted;
        })
      where
        same_key :
            key ≡ public_key lib priv lms p
            → key ≡ public_key lib (record priv { q = (priv.q + 1) % 2 ^ 32 }) lms p
        same_key e =
            e
            ∙ rw
                (node_of_q lib priv lms.hash_alg p (2 ^ lms.height) ((priv.q + 1) % 2 ^ 32)
                  lms.height 1)
                refl

        small : (priv.q + 1) % 2 ^ 32 ≡ priv.q + 1
        small =
            no_wrap lms.height priv.q
              (lms_param_bounds priv.lms_type lms
                (lms_known lib h big priv lms p v.known v.length_I)).1
              left
