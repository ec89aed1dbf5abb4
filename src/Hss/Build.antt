-- ===== src/Hss/Build.antt =====
-- build_level and sign_child_certificate of src/hss.c, without backends.
use sec_lms.Prelude.{
  ℕ, suc, ◌+◌, ◌^◌, ◌≤◌, ◌<◌, ◌≡◌, refl, sym, ◌∙◌, inl, subst, List, take, length, none, arith,
  length-take, length-append, lt→ltb,
}
use sec_lms.Lms.{ok, invalid, exhausted, ◌>>=◌, or_fail, PrivateKey, PublicKey}
use sec_lms.Lms.Results.{Gives, Gives-bind, Gives-or_fail}
use sec_lms.Lms.Params.{
  LmsParam, LmotsParam, lms_param, lmots_param, matching_params, total_len, lms_signature_len,
}
use sec_lms.Lms.Params.Matching.{matching_params-parts, lms_param_bounds}
use sec_lms.Lms.Codec.{public_key_serialize}
use sec_lms.Lms.Hash.{HashLib, IsHashLib, digest, lms_hash-digest, length-digest}
use sec_lms.Lms.Ots.{software}
use sec_lms.Lms.Sign.{lms_do_sign}
use sec_lms.Lms.Tree.Laws.{length-node}
use sec_lms.Lms.Verify.Correct.{public_key, lms_public_key_generate_lem}
use sec_lms.Lms.Verify.Pair.{Pair, Signs, lms_do_sign-Signs}
use sec_lms.Hss.{HssPrivateKey, put}
use sec_lms.Hss.Levels.{max_signature_len, material, build_level, sign_child_certificate}
use sec_lms.Hss.Ready.{Left, public_bytes, Level, LevelAt, Certified}

-- LMS_MAX_SIGNATURE_LEN is the greatest length of a signature.
pub lmots_param_bounds :
    (type : ℕ) (p : LmotsParam)
    → lmots_param type ≡ ok p
    → (p.p ≤ 265) × (p.n ≡ 32) × (type < 2 ^ 32)
unfolding lmots_param
lmots_param_bounds type p e = ground arith

pub total_len-max :
    (a b : ℕ) (lms : LmsParam) (p : LmotsParam)
    → matching_params a b ≡ ok (lms, p)
    → total_len lms p ≤ max_signature_len
total_len-max a b lms p known =
    let (l, o, same) = matching_params-parts a b lms p known in
    within (lms_param_bounds a lms l) (lmots_param_bounds b p o)
  where
    within :
        (a < 2 ^ 32) × (lms.height ≤ 25) × (lms.n ≡ 32) × (0 < lms.height)
        → (p.p ≤ 265) × (p.n ≡ 32) × (b < 2 ^ 32)
        → total_len lms p ≤ max_signature_len
    within (w, hi, n, lo) (pp, m, small) = rw (n, m) (omega arith)

module _ (lib : HashLib) where
  module _ (lms : LmsParam) (p : LmotsParam) (priv : PrivateKey) (key : PublicKey)
      (v : Pair lib lms p priv key) where
    found : lms_param priv.lms_type ≡ ok lms
    found = (matching_params-parts priv.lms_type priv.lmots_type lms p v.known).0

    pub Left-bound : Left priv → priv.q < 2 ^ lms.height
    Left-bound left =
        subst (λ r. Gives (λ cap. priv.q < cap) (or_fail r invalid >>= λ x. ok (2 ^ x.height)))
          found left

    pub bound_Left : priv.q < 2 ^ lms.height → Left priv
    bound_Left lt = rw found lt

    -- The length that hss_verify computes from the public key.
    pub lms_signature_len-Pair : lms_signature_len key.lms_type key.lmots_type ≡ total_len lms p
    unfolding lms_signature_len
    lms_signature_len-Pair = rw (v.key_eq) (rw (v.known) refl)

  -- What build_level puts in a level.
  abbrev pub new_key : HssPrivateKey → ℕ → LmsParam → PrivateKey
  new_key k level lms = record {
    lms_type = k.lms_types level;
    lmots_type = k.lmots_types level;
    I = take 16 (
        take 16
          (digest lib lms.hash_alg (material lib software none k level (k.generation level) 0x49)));
    seed =
        take 32
          (digest lib lms.hash_alg (material lib software none k level (k.generation level) 0x53));
    q = 0;
  }

  abbrev pub built : HssPrivateKey → ℕ → LmsParam → LmotsParam → HssPrivateKey
  built k level lms p = record k {
    keys = put k.keys level (new_key k level lms);
    pubs = put k.pubs level (public_key lib (new_key k level lms) lms p);
  }

  -- The level has signed the public key of the level below it.
  pub record SignedChild (k : HssPrivateKey) (parent : ℕ) (k' : HssPrivateKey) : Type 0 where
    pub key : PrivateKey
    pub signature : List ℕ
    pub result : k' ≡ record k { keys = put k.keys parent key; cert = put k.cert parent signature }
    pub next : key.q ≡ (k.keys parent).q + 1
    pub level :
        Level lib
          (k.lms_types parent)
          (k.lmots_types parent)
          (k.generation parent)
          key
          (k.pubs parent)
    pub certified : Certified lib (k.pubs parent) (k.pubs (suc parent)) signature

  module _ (h : IsHashLib lib) (big : 0xffff ≤ lib.size_max) where
    pub new_key-Pair :
        (k : HssPrivateKey) (level : ℕ) (lms : LmsParam) (p : LmotsParam)
        → matching_params (k.lms_types level) (k.lmots_types level) ≡ ok (lms, p)
        → Pair lib lms p (new_key k level lms) (public_key lib (new_key k level lms) lms p)
    new_key-Pair k level lms p known = record {
      known = known;
      length_I = length_twice;
      key_eq = refl;
    }
      where
        bytes : List ℕ
        bytes =
            digest lib lms.hash_alg (material lib software none k level (k.generation level) 0x49)

        length_twice : length (take 16 (take 16 bytes)) ≡ 16
        length_twice = omega (
          arith,
          length-take 16 (take 16 bytes),
          length-take 16 bytes,
          length-digest lib h lms.hash_alg
              (material lib software none k level (k.generation level) 0x49),
        )

    pub build_level_lem :
        (k : HssPrivateKey) (level : ℕ) (lms : LmsParam) (p : LmotsParam)
        → matching_params (k.lms_types level) (k.lmots_types level) ≡ ok (lms, p)
        → build_level lib software none k level ≡ ok (built k level lms p)
    unfolding build_level
    build_level_lem k level lms p known =
        rw ((matching_params-parts (k.lms_types level) (k.lmots_types level) lms p known).0) (
          rw
            (
              lms_hash-digest lib h lms.hash_alg
                  (material lib software none k level (k.generation level) 0x49),
              lms_hash-digest lib h lms.hash_alg
                  (material lib software none k level (k.generation level) 0x53),
            )
            (rw known (
              rw
                (lms_public_key_generate_lem lib h big (new_key k level lms) lms p known
                  (new_key-Pair k level lms p known).length_I)
                refl)))

    pub length-public_bytes :
        (lms : LmsParam) (p : LmotsParam) (priv : PrivateKey) (key : PublicKey)
        → Pair lib lms p priv key
        → length (public_bytes key) ≡ 56
    length-public_bytes lms p priv key v = rw (v.key_eq) (
        omega (
          arith,
          v.length_I,
          length-append (take 16 priv.I) (take 32 root),
          length-take 16 priv.I,
          length-take 32 root,
          length-node lib h big priv lms p v.known v.length_I lms.height 1,
        ))
      where
        root : List ℕ
        root = (public_key lib priv lms p).root

    pub sign_child_certificate-SignedChild :
        (k : HssPrivateKey) (parent : ℕ)
        → suc parent < k.levels
        → LevelAt lib k parent
        → LevelAt lib k (suc parent)
        → Left (k.keys parent)
        → Gives (SignedChild k parent) (sign_child_certificate lib software none k parent)
    unfolding sign_child_certificate public_key_serialize
    sign_child_certificate-SignedChild k parent lt v below left =
        rw (lt→ltb (suc parent) k.levels lt) (
          Gives-bind
            (Signs lib v.lms v.p (k.keys parent) (k.pubs parent)
              (public_bytes (k.pubs (suc parent))))
            (SignedChild k parent)
            (or_fail
              (lms_do_sign lib software none (k.keys parent) (public_bytes (k.pubs (suc parent)))
                max_signature_len)
              exhausted)
            (λ r. ok (record k { keys = put k.keys parent r.0; cert = put k.cert parent r.1 }))
            (Gives-or_fail
              (Signs lib v.lms v.p (k.keys parent) (k.pubs parent)
                (public_bytes (k.pubs (suc parent))))
              (lms_do_sign lib software none (k.keys parent) (public_bytes (k.pubs (suc parent)))
                max_signature_len)
              exhausted
              (lms_do_sign-Signs lib h big v.lms v.p (k.keys parent) (k.pubs parent)
                (public_bytes (k.pubs (suc parent))) max_signature_len v.pair
                (omega (arith, big, len), inl (omega (arith, len)))
                (Left-bound v.lms v.p (k.keys parent) (k.pubs parent) v.pair left)
                (total_len-max (k.keys parent).lms_type (k.keys parent).lmots_type v.lms v.p
                  v.pair.known)))
            signed)
      where
        len : length (public_bytes (k.pubs (suc parent))) ≡ 56
        len =
            length-public_bytes below.lms below.p (k.keys (suc parent)) (k.pubs (suc parent))
              below.pair

        signed :
            (r : PrivateKey × List ℕ)
            → Signs lib v.lms v.p
                (k.keys parent)
                (k.pubs parent)
                (public_bytes (k.pubs (suc parent)))
                r
            → SignedChild k parent
                (record k { keys = put k.keys parent r.0; cert = put k.cert parent r.1 })
        signed r s = record {
          key = r.0;
          signature = r.1;
          result = refl;
          next = s.next;
          level = record {
            lms = v.lms;
            p = v.p;
            pair = s.pair;
            lms_same = s.same_lms ∙ v.lms_same;
            lmots_same = s.same_lmots ∙ v.lmots_same;
            bytes = v.bytes;
            length_generation = v.length_generation;
          };
          certified = record {
            accepted = s.accepted;
            exact =
                s.exact
                ∙ sym (lms_signature_len-Pair v.lms v.p (k.keys parent) (k.pubs parent) v.pair);
          };
        }
