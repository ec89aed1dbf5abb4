-- ===== src/Lms/Codec.antt =====
-- The encoded keys of src/lms.c: serialize and parse.
pub mod RoundTrip
use sec_lms.Prelude.{
  ℕ, ◌+◌, ◌*◌, ◌^◌, ◌≤◌, ◌<◌, ◌≡◌, refl, ◌∙◌, ap, Bool, true, false, List, [], ◌∷◌, ◌++◌, take,
  drop, length, ltb, leb, ◌==◌, arith, length-append, take-append, drop-append, take-length,
}
use sec_lms.Prelude.Bytes.{put_be32, get_be32}
use sec_lms.Lms.{
  Error, invalid, buffer_too_small, Result, ok, err, ◌>>=◌, ◌>>◌, guard, or_fail, i_len, lms_n,
  seed_len, public_key_len, private_key_len, PublicKey, PrivateKey,
}
use sec_lms.Lms.Params.{LmsParam, LmotsParam, matching_params}

-- lms_private_key_init.
abbrev pub private_key_init : ℕ → ℕ → List ℕ → List ℕ → Result PrivateKey
private_key_init lms_type lmots_type I seed = do
  params ← matching_params lms_type lmots_type
  ok (record {
    lms_type = lms_type;
    lmots_type = lmots_type;
    I = take i_len I;
    seed = take seed_len seed;
    q = 0;
  })

-- lms_public_key_serialize and lms_private_key_serialize: the bytes that are written to `out`.
unfoldable pub public_key_serialize : PublicKey → ℕ → Result (List ℕ)
public_key_serialize key out_len = do
  guard (leb public_key_len out_len) buffer_too_small
  ok (
      put_be32 key.lms_type
      ++ (put_be32 key.lmots_type ++ (take i_len key.I ++ take lms_n key.root)))

pub private_key_serialize : PrivateKey → ℕ → Result (List ℕ)
private_key_serialize priv out_len = do
  guard (leb private_key_len out_len) buffer_too_small
  ok (
      put_be32 priv.lms_type
      ++ (put_be32 priv.lmots_type
          ++ (take i_len priv.I ++ (take seed_len priv.seed ++ put_be32 priv.q))))

-- lms_public_key_parse and lms_private_key_parse.
unfoldable pub public_key_parse : List ℕ → Result PublicKey
public_key_parse bytes = do
  guard (length bytes == public_key_len) invalid
  params ← matching_params (get_be32 bytes 0) (get_be32 bytes 4)
  ok (record {
    lms_type = get_be32 bytes 0;
    lmots_type = get_be32 bytes 4;
    I = take i_len (drop 8 bytes);
    root = take lms_n (drop (8 + i_len) bytes);
  })

pub private_key_parse : List ℕ → Result PrivateKey
private_key_parse bytes = do
  guard (length bytes == private_key_len) invalid
  (lms, ots) ← matching_params (get_be32 bytes 0) (get_be32 bytes 4)
  guard (leb (get_be32 bytes (8 + i_len + seed_len)) (2 ^ lms.height)) invalid
  ok (record {
    lms_type = get_be32 bytes 0;
    lmots_type = get_be32 bytes 4;
    I = take i_len (drop 8 bytes);
    seed = take seed_len (drop (8 + i_len) bytes);
    q = get_be32 bytes (8 + i_len + seed_len);
  })
