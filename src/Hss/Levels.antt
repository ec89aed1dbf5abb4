-- ===== src/Hss/Levels.antt =====
-- The levels of src/hss.c: deriving, building, certifying and renewing them.
use sec_lms.Prelude.{
  ℕ, zero, suc, ◌+◌, ◌-◌, ◌*◌, ◌^◌, List, [], ◌∷◌, ◌++◌, take, ltb, if◌then◌else◌,
}
use sec_lms.Prelude.Bytes.{put_be32}
use sec_lms.Lms.{
  invalid, exhausted, Result, ok, err, ◌>>=◌, ◌>>◌, guard, or_fail, i_len, lms_n, seed_len,
  public_key_len, PrivateKey,
}
use sec_lms.Lms.Params.{lms_param}
use sec_lms.Lms.Codec.{private_key_init, public_key_serialize}
use sec_lms.Lms.Hash.{HashLib, lms_hash}
use sec_lms.Lms.Ots.{Backends}
use sec_lms.Lms.Tree.{lms_public_key_generate}
use sec_lms.Lms.Sign.{AuthPath, lms_do_sign}
use sec_lms.Hss.{HssPrivateKey, put}
use sec_lms.Hss.Counter.{increment_generation}

-- LMS_MAX_SIGNATURE_LEN.
abbrev pub max_signature_len : ℕ
max_signature_len = 4 + 4 + 32 + 265 * 32 + 4 + 25 * 32

-- lms_capacity. No table has a height of 32 or more, so that the shift does not overflow.
abbrev pub lms_capacity : PrivateKey → Result ℕ
lms_capacity key = do lms ← or_fail (lms_param key.lms_type) invalid; ok (2 ^ lms.height)

module _ (lib : HashLib) (be : Backends) (backend : AuthPath) where
  -- The bytes that are hashed for I, with 0x49, and for the seed, with 0x53.
  abbrev pub material : HssPrivateKey → ℕ → List ℕ → ℕ → List ℕ
  material priv level generation tag =
      priv.master_seed ++ (put_be32 level ++ (generation ++ (tag ∷ [])))

  -- derive_level_material: I and the seed.
  abbrev pub derive_level_material : HssPrivateKey → ℕ → List ℕ → Result (List ℕ × List ℕ)
  derive_level_material priv level generation = do
    lms ← or_fail (lms_param (priv.lms_types level)) invalid
    digest ← or_fail (lms_hash lib lms.hash_alg (material priv level generation 0x49) lms_n) invalid
    seed ←
        or_fail (lms_hash lib lms.hash_alg (material priv level generation 0x53) seed_len) invalid
    ok (take i_len digest, seed)

  -- build_level.
  unfoldable pub build_level : HssPrivateKey → ℕ → Result HssPrivateKey
  build_level priv level = do
    (I, seed) ← or_fail (derive_level_material priv level (priv.generation level)) invalid
    key ← or_fail (private_key_init (priv.lms_types level) (priv.lmots_types level) I seed) invalid
    key_pub ← or_fail (lms_public_key_generate lib be key) invalid
    ok (record priv { keys = put priv.keys level key; pubs = put priv.pubs level key_pub })

  -- sign_child_certificate: the level `parent` signs the public key of the level below it.
  unfoldable pub sign_child_certificate : HssPrivateKey → ℕ → Result HssPrivateKey
  sign_child_certificate priv parent = do
    guard (ltb (suc parent) priv.levels) invalid
    child_pub ← or_fail (public_key_serialize (priv.pubs (suc parent)) public_key_len) invalid
    (key, signature) ←
        or_fail (lms_do_sign lib be backend (priv.keys parent) child_pub max_signature_len)
          exhausted
    ok (record priv { keys = put priv.keys parent key; cert = put priv.cert parent signature })

  -- The three steps that refresh_level_if_exhausted does for a level and for each level below it:
  -- level `parent + 1` gets its next generation.
  unfoldable pub renew : HssPrivateKey → ℕ → Result HssPrivateKey
  renew priv parent = do
    let level = suc parent
    generation ← or_fail (increment_generation (priv.generation level)) exhausted
    built ←
        or_fail
          (build_level (record priv { generation = put priv.generation level generation }) level)
          invalid
    or_fail (sign_child_certificate built parent) exhausted

  -- The loop over the `count` levels below `parent`.
  abbrev pub renew_from : ℕ → HssPrivateKey → ℕ → Result HssPrivateKey
  renew_from zero priv parent = ok priv
  renew_from (suc count) priv parent =
      renew priv parent >>= λ next. renew_from count next (suc parent)

  -- refresh_level_if_exhausted.
  unfoldable pub refresh_level_if_exhausted : ℕ → HssPrivateKey → Result HssPrivateKey
  refresh_level_if_exhausted zero priv = do
    cap ← or_fail (lms_capacity (priv.keys zero)) invalid
    if ltb (priv.keys zero).q cap then ok priv else err exhausted
  refresh_level_if_exhausted (suc level) priv =
      let renewed =
        (or_fail (refresh_level_if_exhausted level priv) exhausted >>= λ next.
        renew_from (next.levels - suc level) next level) in
      or_fail (lms_capacity (priv.keys (suc level))) invalid >>= λ cap.
      if ltb (priv.keys (suc level)).q cap then ok priv else renewed
