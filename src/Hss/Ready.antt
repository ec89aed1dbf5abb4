-- ===== src/Hss/Ready.antt =====
-- What holds of the keys of src/hss.c between calls, and what a call leaves.
use sec_lms.Prelude.{
  ℕ, suc, ◌+◌, ◌≤◌, ◌<◌, ◌≡◌, ◌⊎◌, inr, refl, ◌∙◌, List, ◌++◌, take, length, none, arith,
}
use sec_lms.Prelude.Bytes.{put_be32, Bytes, value}
use sec_lms.Lms.{ok, PrivateKey, PublicKey}
use sec_lms.Lms.Results.{Gives}
use sec_lms.Lms.Params.{LmsParam, LmotsParam, lms_signature_len}
use sec_lms.Lms.Hash.{HashLib}
use sec_lms.Lms.Ots.{software}
use sec_lms.Lms.Verify.{lms_verify}
use sec_lms.Lms.Verify.Pair.{Pair}
use sec_lms.Hss.{HssPrivateKey, max_levels}
use sec_lms.Hss.Levels.{lms_capacity}

-- A leaf is left.
abbrev pub Left : PrivateKey → Type 0
Left key = Gives (λ cap. key.q < cap) (lms_capacity key)

-- What public_key_serialize writes.
abbrev pub public_bytes : PublicKey → List ℕ
public_bytes key =
    put_be32 key.lms_type ++ (put_be32 key.lmots_type ++ (take 16 key.I ++ take 32 key.root))

-- The generation is later, or it is the same and the index is no smaller.
abbrev pub Forward : List ℕ → ℕ → List ℕ → ℕ → Type 0
Forward g q g' q' = (value g < value g') ⊎ ((value g ≡ value g') × (q ≤ q'))

pub Forward-trans :
    (g : List ℕ) (q : ℕ) (g' : List ℕ) (q' : ℕ) (g'' : List ℕ) (q'' : ℕ)
    → Forward g q g' q'
    → Forward g' q' g'' q''
    → Forward g q g'' q''
Forward-trans g q g' q' g'' q'' a b = ground arith

-- The second key is a later state of the first. Generation `i` is at most `used i` further.
pub record Advance (used : ℕ → ℕ) (k k' : HssPrivateKey) : Type 0 where
  pub levels : k'.levels ≡ k.levels
  pub root : k'.pubs 0 ≡ k.pubs 0
  pub lms_types : k'.lms_types ≡ k.lms_types
  pub lmots_types : k'.lmots_types ≡ k.lmots_types
  pub forward : (i : ℕ) → Forward (k.generation i) (k.keys i).q (k'.generation i) (k'.keys i).q
  pub at_most : (i : ℕ) → value (k'.generation i) ≤ value (k.generation i) + used i

pub Advance-refl : (k : HssPrivateKey) → Advance (λ i. 0) k k
Advance-refl k = record {
  levels = refl;
  root = refl;
  lms_types = refl;
  lmots_types = refl;
  forward = λ i. inr (refl, omega arith);
  at_most = λ i. omega arith;
}

pub Advance-trans :
    (used more all : ℕ → ℕ) (k k' k'' : HssPrivateKey)
    → Advance used k k'
    → Advance more k' k''
    → ((i : ℕ) → used i + more i ≤ all i)
    → Advance all k k''
Advance-trans used more all k k' k'' a b sum = record {
  levels = b.levels ∙ a.levels;
  root = b.root ∙ a.root;
  lms_types = b.lms_types ∙ a.lms_types;
  lmots_types = b.lmots_types ∙ a.lmots_types;
  forward = λ i.
      Forward-trans (k.generation i) (k.keys i).q (k'.generation i) (k'.keys i).q (k''.generation i)
        (k''.keys i).q (a.forward i) (b.forward i);
  at_most = λ i. omega (arith, a.at_most i, b.at_most i, sum i);
}

module _ (lib : HashLib) where
  -- One level: a key pair of its types, and a counter.
  pub record Level (lms_type lmots_type : ℕ) (generation : List ℕ) (priv : PrivateKey)
      (key : PublicKey) : Type 0 where
    pub lms : LmsParam
    pub p : LmotsParam
    pub pair : Pair lib lms p priv key
    pub lms_same : priv.lms_type ≡ lms_type
    pub lmots_same : priv.lmots_type ≡ lmots_type
    pub bytes : Bytes generation
    pub length_generation : length generation ≡ 32

  abbrev pub LevelAt : HssPrivateKey → ℕ → Type 0
  LevelAt k i = Level (k.lms_types i) (k.lmots_types i) (k.generation i) (k.keys i) (k.pubs i)

  -- A certificate is accepted, and has the length that hss_verify computes.
  pub record Certified (key child : PublicKey) (signature : List ℕ) : Type 0 where
    pub accepted : lms_verify lib software none key (public_bytes child) signature ≡ ok tt
    pub exact : length signature ≡ lms_signature_len key.lms_type key.lmots_type

  -- All levels are built, and the first `n` of them are certified.
  pub record Chained (n : ℕ) (k : HssPrivateKey) : Type 0 where
    pub some_level : 0 < k.levels
    pub bounded : k.levels ≤ max_levels
    pub level : (i : ℕ) → i < k.levels → LevelAt k i
    pub certified : (i : ℕ) → suc i < n → Certified (k.pubs i) (k.pubs (suc i)) (k.cert i)

  -- The state between calls.
  abbrev pub Ready : HssPrivateKey → Type 0
  Ready k = Chained k.levels k
