-- ===== src/Hss/Sign.antt =====
-- hss_private_key_init, the public key, hss_signature_len and hss_sign of src/hss.c.
use sec_lms.Prelude.{
  ℕ, zero, suc, ◌+◌, ◌-◌, Bool, not, List, [], ◌++◌, drop, take, replicate, length, ltb, leb, ◌==◌,
  ◌||◌, ◌&&◌, if◌then◌else◌,
}
use sec_lms.Prelude.Bytes.{put_be32, get_be32}
use sec_lms.Lms.{
  invalid, buffer_too_small, exhausted, Result, ok, err, ◌>>=◌, ◌>>◌, guard, or_fail, lms_n, i_len,
  seed_len, public_key_len, PrivateKey, PublicKey, same_alg,
}
use sec_lms.Lms.Params.{lms_param, lmots_param, lms_signature_len}
use sec_lms.Lms.Codec.{public_key_serialize, public_key_parse}
use sec_lms.Lms.Hash.{HashLib}
use sec_lms.Lms.Ots.{Backends}
use sec_lms.Lms.Sign.{AuthPath, lms_do_sign}
use sec_lms.Hss.{
  HssPrivateKey, HssPublicKey, put, max_levels, master_seed_len, generation_len, hss_public_key_len,
}
use sec_lms.Hss.Levels.{build_level, sign_child_certificate, refresh_level_if_exhausted}

-- The arrays after memset.
abbrev pub no_key : PrivateKey
no_key = record {
  lms_type = 0;
  lmots_type = 0;
  I = replicate i_len 0;
  seed = replicate seed_len 0;
  q = 0;
}

abbrev pub no_pub : PublicKey
no_pub = record { lms_type = 0; lmots_type = 0; I = replicate i_len 0; root = replicate lms_n 0 }

abbrev pub blank : ℕ → List ℕ → HssPrivateKey
blank levels master_seed = record {
  levels = levels;
  master_seed = take master_seed_len master_seed;
  lms_types = λ i. 0;
  lmots_types = λ i. 0;
  generation = λ i. replicate generation_len 0;
  keys = λ i. no_key;
  pubs = λ i. no_pub;
  cert = λ i. [];
}

-- The loop that requires one hash function, from level `i` on.
abbrev pub same_hash : ℕ → ℕ → (ℕ → ℕ) → (ℕ → ℕ) → Result (Unit {0})
same_hash zero i lms_types lmots_types = ok tt
same_hash (suc count) i lms_types lmots_types = do
  p0 ← or_fail (lms_param (lms_types 0)) invalid
  pi ← or_fail (lms_param (lms_types i)) invalid
  o0 ← or_fail (lmots_param (lmots_types 0)) invalid
  oi ← or_fail (lmots_param (lmots_types i)) invalid
  guard
      (same_alg p0.hash_alg pi.hash_alg
        && same_alg o0.hash_alg oi.hash_alg
        && same_alg p0.hash_alg o0.hash_alg)
      invalid
  same_hash count (suc i) lms_types lmots_types

module _ (lib : HashLib) (be : Backends) (backend : AuthPath) where
  -- The loop that builds the levels from `i` on.
  abbrev pub build_from : ℕ → HssPrivateKey → ℕ → (ℕ → ℕ) → (ℕ → ℕ) → Result HssPrivateKey
  build_from zero priv i lms_types lmots_types = ok priv
  build_from (suc count) priv i lms_types lmots_types =
      or_fail
        (build_level lib be backend
          (record priv {
            lms_types = put priv.lms_types i (lms_types i);
            lmots_types = put priv.lmots_types i (lmots_types i);
          })
          i)
        invalid
      >>= λ next. build_from count next (suc i) lms_types lmots_types

  -- The loop that signs the certificates from level `i` on.
  abbrev pub certify_from : ℕ → HssPrivateKey → ℕ → Result HssPrivateKey
  certify_from zero priv i = ok priv
  certify_from (suc count) priv i =
      or_fail (sign_child_certificate lib be backend priv i) exhausted >>= λ next.
      certify_from count next (suc i)

  -- hss_private_key_init. Where it fails, C leaves the levels that it has built in the key.
  unfoldable pub hss_private_key_init : ℕ → (ℕ → ℕ) → (ℕ → ℕ) → List ℕ → Result HssPrivateKey
  hss_private_key_init levels lms_types lmots_types master_seed = do
    guard (not (levels == 0 || ltb max_levels levels)) invalid
    same_hash (levels - 1) 1 lms_types lmots_types
    built ← build_from levels (blank levels master_seed) 0 lms_types lmots_types
    certify_from (levels - 1) built 0

-- hss_public_key_generate, hss_public_key_serialize, hss_public_key_parse.
abbrev pub hss_public_key_generate : HssPrivateKey → Result HssPublicKey
hss_public_key_generate priv = do
  guard (not (priv.levels == 0)) invalid
  ok (record { levels = priv.levels; root_pub = priv.pubs 0 })

unfoldable pub hss_public_key_serialize : HssPublicKey → ℕ → Result (List ℕ)
hss_public_key_serialize key out_len = do
  guard (leb hss_public_key_len out_len) buffer_too_small
  rest ← public_key_serialize key.root_pub (out_len - 4)
  ok (put_be32 key.levels ++ rest)

unfoldable pub hss_public_key_parse : List ℕ → Result HssPublicKey
hss_public_key_parse bytes = do
  guard (length bytes == hss_public_key_len) invalid
  let levels = get_be32 bytes 0
  guard (not (levels == 0 || ltb max_levels levels)) invalid
  root ← public_key_parse (drop 4 bytes)
  ok (record { levels = levels; root_pub = root })

-- The loop of hss_signature_len from level `i` on; an error is its `return 0`.
abbrev pub certs_len : ℕ → HssPrivateKey → ℕ → Result ℕ
certs_len zero priv i = ok 0
certs_len (suc count) priv i = do
  guard (not (length (priv.cert i) == 0)) invalid
  rest ← certs_len count priv (suc i)
  ok (length (priv.cert i) + public_key_len + rest)

abbrev zero_if_fails : Result ℕ → ℕ
zero_if_fails (ok n) = n
zero_if_fails (err code) = 0

-- hss_signature_len.
unfoldable pub hss_signature_len : HssPrivateKey → ℕ
hss_signature_len priv = zero_if_fails (do
  guard (not (priv.levels == 0)) invalid
  certs ← certs_len (priv.levels - 1) priv 0
  let last = priv.levels - 1
  let final_len = lms_signature_len (priv.lms_types last) (priv.lmots_types last)
  guard (not (final_len == 0)) invalid
  ok (4 + certs + final_len))

-- The loop of hss_sign that writes the certificates, each with the public key that it certifies.
abbrev pub chain_from : ℕ → HssPrivateKey → ℕ → Result (List ℕ)
chain_from zero priv i = ok []
chain_from (suc count) priv i = do
  child_pub ← or_fail (public_key_serialize (priv.pubs (suc i)) public_key_len) invalid
  rest ← chain_from count priv (suc i)
  ok (priv.cert i ++ (child_pub ++ rest))

module _ (lib : HashLib) (be : Backends) (backend : AuthPath) where
  -- `signature_len - off` of two size_t.
  abbrev pub room_after : ℕ → ℕ → ℕ
  room_after room off = if leb off room then room - off else lib.size_max + 1 + room - off

  -- hss_sign: the key afterwards, and the signature. `copied` tells whether malloc gives the copy of
  -- the key; where the function fails, the key is as it was.
  unfoldable pub hss_sign : Bool → HssPrivateKey → List ℕ → ℕ → Result (HssPrivateKey × List ℕ)
  hss_sign copied priv message room = do
    guard (not (priv.levels == 0)) invalid
    let needed = hss_signature_len priv
    guard (not (needed == 0 || ltb room needed)) buffer_too_small
    guard copied invalid
    next ← or_fail (refresh_level_if_exhausted lib be backend (priv.levels - 1) priv) exhausted
    let last = next.levels - 1
    chain ← or_fail (chain_from last next 0) invalid
    let head = put_be32 last ++ chain
    (key, signature) ←
        or_fail
          (lms_do_sign lib be backend (next.keys last) message (room_after room (length head)))
          exhausted
    ok (record next { keys = put next.keys last key }, head ++ signature)
