-- ===== src/Lms/Codec/RoundTrip.antt =====
-- Parsing the keys that src/lms.c serializes.
use sec_lms.Prelude.{
  ℕ, ◌+◌, ◌^◌, ◌≤◌, ◌<◌, ◌≡◌, ◌∙◌, List, [], ◌++◌, take, drop, length, arith, length-append,
  take-append, drop-append, take-length, eq→==, le→leb,
}
use sec_lms.Prelude.Bytes.{put_be32, get_be32, get_be32-append, get_be32-put}
use sec_lms.Lms.{ok, ◌>>=◌, public_key_len, private_key_len, PublicKey, PrivateKey}
use sec_lms.Lms.Params.{LmsParam, LmotsParam, matching_params}
use sec_lms.Lms.Codec.{
  public_key_serialize, public_key_parse, private_key_serialize, private_key_parse,
}

-- The arrays have their lengths, and the words are words.
pub record IsPublicKey (key : PublicKey) : Type 0 where
  pub lms_word : key.lms_type < 2 ^ 32
  pub lmots_word : key.lmots_type < 2 ^ 32
  pub length_I : length key.I ≡ 16
  pub length_root : length key.root ≡ 32

pub record IsPrivateKey (priv : PrivateKey) : Type 0 where
  pub lms_word : priv.lms_type < 2 ^ 32
  pub lmots_word : priv.lmots_type < 2 ^ 32
  pub q_word : priv.q < 2 ^ 32
  pub length_I : length priv.I ≡ 16
  pub length_seed : length priv.seed ≡ 32

-- Two words and two arrays, read back.
abbrev two_words : ℕ → ℕ → List ℕ → List ℕ
two_words a b rest = put_be32 a ++ (put_be32 b ++ rest)

two_words_fields :
    (a b : ℕ) (I rest : List ℕ)
    → a < 2 ^ 32
    → b < 2 ^ 32
    → length I ≡ 16
    → let bytes = two_words a b (I ++ rest) in
      (get_be32 bytes 0 ≡ a)
      × (get_be32 bytes 4 ≡ b)
      × (take 16 (drop 8 bytes) ≡ I)
      × (drop 24 bytes ≡ rest)
      × (length bytes ≡ 24 + length rest)
two_words_fields a b I rest ha hb e = (
  omega arith,
  omega arith,
  take-append 16 I rest e,
  drop-append 16 I rest e,
  omega (arith, length-append I rest),
)

module _ (key : PublicKey) (params : LmsParam × LmotsParam) where
  -- Parsing bytes that hold the fields of the key.
  parse_public_fields :
      (bytes : List ℕ)
      → length bytes ≡ 56
      → get_be32 bytes 0 ≡ key.lms_type
      → get_be32 bytes 4 ≡ key.lmots_type
      → take 16 (drop 8 bytes) ≡ key.I
      → take 32 (drop 24 bytes) ≡ key.root
      → matching_params key.lms_type key.lmots_type ≡ ok params
      → public_key_parse bytes ≡ ok key
  unfolding public_key_parse
  parse_public_fields bytes len a b I root known = rw (eq→== len, a, b, known, I, root)

  -- A public key with fields in range, of known types of one hash function, serialized into a buffer
  -- that is large enough, is parsed back.
  pub public_key_parse-serialize :
      (out_len : ℕ)
      → IsPublicKey key
      → public_key_len ≤ out_len
      → matching_params key.lms_type key.lmots_type ≡ ok params
      → (public_key_serialize key out_len >>= public_key_parse) ≡ ok key
  unfolding public_key_serialize
  public_key_parse-serialize out_len v fits known =
      let (a, b, I, rest, len) =
        two_words_fields key.lms_type key.lmots_type key.I key.root v.lms_word v.lmots_word
          v.length_I in
      rw (le→leb fits, take-length 16 key.I v.length_I, take-length 32 key.root v.length_root)
        (parse_public_fields _ (omega arith) a b I (rw rest (take-length 32 key.root v.length_root))
          known)

module _ (priv : PrivateKey) (lms : LmsParam) (ots : LmotsParam) where
  parse_private_fields :
      (bytes : List ℕ)
      → length bytes ≡ 60
      → get_be32 bytes 0 ≡ priv.lms_type
      → get_be32 bytes 4 ≡ priv.lmots_type
      → take 16 (drop 8 bytes) ≡ priv.I
      → take 32 (drop 24 bytes) ≡ priv.seed
      → get_be32 bytes 56 ≡ priv.q
      → matching_params priv.lms_type priv.lmots_type ≡ ok (lms, ots)
      → priv.q ≤ 2 ^ lms.height
      → private_key_parse bytes ≡ ok priv
  unfolding private_key_parse
  parse_private_fields bytes len a b I seed q known bound =
      rw (eq→== len, a, b, known, q, le→leb bound, I, seed)

  -- A private key with fields in range, of known types of one hash function, with an index of at
  -- most 2^h, serialized into a buffer that is large enough, is parsed back.
  pub private_key_parse-serialize :
      (out_len : ℕ)
      → IsPrivateKey priv
      → private_key_len ≤ out_len
      → matching_params priv.lms_type priv.lmots_type ≡ ok (lms, ots)
      → priv.q ≤ 2 ^ lms.height
      → (private_key_serialize priv out_len >>= private_key_parse) ≡ ok priv
  unfolding private_key_serialize
  private_key_parse-serialize out_len v fits known bound =
      let rest = priv.seed ++ put_be32 priv.q in
      let (a, b, I, after, len) =
        two_words_fields priv.lms_type priv.lmots_type priv.I rest v.lms_word v.lmots_word
          v.length_I in
      rw (le→leb fits, take-length 16 priv.I v.length_I, take-length 32 priv.seed v.length_seed)
        (parse_private_fields _ (omega (arith, length-append priv.seed (put_be32 priv.q))) a b I
          (rw after (take-append 32 priv.seed (put_be32 priv.q) v.length_seed))
          (get_be32-append 16 32 priv.I rest v.length_I
            ∙ get_be32-append 32 0 priv.seed (put_be32 priv.q) v.length_seed
            ∙ get_be32-put priv.q [] v.q_word)
          known bound)
