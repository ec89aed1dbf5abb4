-- ===== src/Hss/Codec.antt =====
-- hss_public_key_parse of what hss_public_key_serialize of src/hss.c writes.
use sec_lms.Prelude.{
  ℕ, ◌-◌, ◌≤◌, ◌<◌, ◌≡◌, refl, true, not, ◌++◌, take, length, leb, ltb, ◌==◌, ◌||◌, arith,
  length-append, length-take, le→leb, eq→==,
}
use sec_lms.Prelude.Bytes.{put_be32, get_be32-put}
use sec_lms.Lms.{ok, ◌>>=◌}
use sec_lms.Lms.Params.{LmsParam, LmotsParam, matching_params}
use sec_lms.Lms.Codec.{public_key_serialize}
use sec_lms.Lms.Codec.RoundTrip.{IsPublicKey, public_key_parse-serialize}
use sec_lms.Hss.{HssPublicKey, max_levels, hss_public_key_len}
use sec_lms.Hss.Sign.{hss_public_key_serialize, hss_public_key_parse}
use sec_lms.Hss.Ready.{public_bytes}

within_levels : (n : ℕ) → 0 < n → n ≤ max_levels → not (n == 0 || ltb max_levels n) ≡ true
within_levels n pos le = ground arith

room_for_root : (out_len : ℕ) → hss_public_key_len ≤ out_len → leb 56 (out_len - 4) ≡ true
room_for_root out_len le = ground arith

-- A public key of 1 to 8 levels, with the fields of the root key in range and of known types of one
-- hash function, serialized into a buffer that is large enough, is parsed back.
pub hss_public_key_parse-serialize :
    (key : HssPublicKey) (params : LmsParam × LmotsParam) (out_len : ℕ)
    → 0 < key.levels
    → key.levels ≤ max_levels
    → IsPublicKey key.root_pub
    → matching_params key.root_pub.lms_type key.root_pub.lmots_type ≡ ok params
    → hss_public_key_len ≤ out_len
    → (hss_public_key_serialize key out_len >>= hss_public_key_parse) ≡ ok key
unfolding hss_public_key_serialize hss_public_key_parse public_key_serialize
hss_public_key_parse-serialize key params out_len pos le v known enough =
    rw (le→leb enough, room_for_root out_len enough)
      (rw
        (
          eq→== total,
          get_be32-put key.levels (public_bytes key.root_pub) (omega arith),
          within_levels key.levels pos le,
          public_key_parse-serialize key.root_pub params 56 v (omega arith) known,
        )
        refl)
  where
    total : length (put_be32 key.levels ++ public_bytes key.root_pub) ≡ 60
    total = omega (
      arith,
      v.length_I,
      v.length_root,
      length-append (take 16 key.root_pub.I) (take 32 key.root_pub.root),
      length-take 16 key.root_pub.I,
      length-take 32 key.root_pub.root,
    )
