-- ===== src/Hss/Verify.antt =====
-- hss_verify of src/hss.c.
use sec_lms.Prelude.{
  ℕ, zero, suc, ◌+◌, ◌-◌, ◌%◌, ◌^◌, not, List, take, drop, length, ltb, leb, ◌==◌, ◌||◌,
}
use sec_lms.Prelude.Bytes.{get_be32}
use sec_lms.Lms.{
  invalid, verify, Result, ok, ◌>>=◌, ◌>>◌, guard, or_fail, public_key_len, PublicKey,
}
use sec_lms.Lms.Params.{lms_signature_len}
use sec_lms.Lms.Codec.{public_key_parse}
use sec_lms.Lms.Hash.{HashLib}
use sec_lms.Lms.Ots.{Backends}
use sec_lms.Lms.Verify.{AuthRoot, lms_verify}
use sec_lms.Hss.{HssPublicKey, max_levels}

module _ (lib : HashLib) (be : Backends) (backend : AuthRoot) where
  -- The loop over the certificates: the key that the last one certifies, and what is left of the
  -- signature. A signature length of the tables is below 10000, so that the sum does not overflow.
  abbrev pub follow : ℕ → PublicKey → List ℕ → Result (PublicKey × List ℕ)
  follow zero current rest = ok (current, rest)
  follow (suc count) current rest = do
    let cert_len = lms_signature_len current.lms_type current.lmots_type
    guard (not (cert_len == 0 || ltb (length rest) (cert_len + public_key_len))) invalid
    let child_pub = take public_key_len (drop cert_len rest)
    or_fail (lms_verify lib be backend current child_pub (take cert_len rest)) verify
    next ← or_fail (public_key_parse child_pub) verify
    follow count next (drop public_key_len (drop cert_len rest))

  -- hss_verify: `ok tt` is LMS_OK. The test of `off` behind the loop never fails.
  unfoldable pub hss_verify : HssPublicKey → List ℕ → List ℕ → Result (Unit {0})
  hss_verify key message signature = do
    guard (not (key.levels == 0)) invalid
    guard (leb 4 (length signature)) invalid
    let levels = (get_be32 signature 0 + 1) % 2 ^ 32
    guard (levels == key.levels) verify
    guard (not (levels == 0 || ltb max_levels levels)) verify
    (current, rest) ← follow (levels - 1) key.root_pub (drop 4 signature)
    lms_verify lib be backend current message rest
