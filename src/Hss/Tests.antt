-- ===== src/Hss/Tests.antt =====
-- The theorems on src/hss.c at keys of a toy hash library.
use sec_lms.Prelude.{
  ℕ, zero, suc, ◌+◌, ◌-◌, ◌^◌, ◌≤◌, ◌<◌, ◌≡◌, refl, sym, ap, inl, subst, true, List, [], none,
  replicate, arith, get_or,
}
use sec_lms.Prelude.Bytes.{value}
use sec_lms.Lms.{ok, err, exhausted, sha256, ◌>>=◌, PrivateKey}
use sec_lms.Lms.Results.{Gives, Gives-value}
use sec_lms.Lms.Params.{lms_param, lmots_param}
use sec_lms.Lms.Ots.{software}
use sec_lms.Lms.Verify.Correct.{public_key}
use sec_lms.Lms.Tests.{
  toy, toy-IsHashLib, toy_key, toy_lms, toy_ots, toy_known, toy_public, message, fits,
}
use sec_lms.Hss.{HssPrivateKey}
use sec_lms.Hss.Counter.{increment_generation, Counted, increment_generation-Counted}
use sec_lms.Hss.Sign.{
  hss_private_key_init, hss_sign, hss_signature_len, hss_public_key_serialize, hss_public_key_parse,
}
use sec_lms.Hss.Ready.{Left, Ready}
use sec_lms.Hss.Init.{TypesOf, Fresh, hss_private_key_init-Fresh}
use sec_lms.Hss.Refresh.{Available}
use sec_lms.Hss.Accepts.{Signed, public_of, hss_sign-Signed, hss_sign-exhausted}
use sec_lms.Hss.Trust.{Accepted, hss_verify-Accepted}
use sec_lms.Hss.Codec.{hss_public_key_parse-serialize}

toy_types : (i : ℕ) → i < 2 → TypesOf sha256 5 3
unfolding lms_param lmots_param
toy_types i lt = record {
  lms = toy_lms;
  p = toy_ots;
  lms_known = refl;
  lmots_known = refl;
  lms_alg = refl;
  lmots_alg = refl;
}

-- Two levels of height 5.
hss_private_key_init-Fresh_example :
    Gives
      (Fresh sha256 2 (λ i. 5) (λ i. 3) toy_types toy toy-IsHashLib (omega arith))
      (hss_private_key_init toy software none 2 (λ i. 5) (λ i. 3) (replicate 32 1))
hss_private_key_init-Fresh_example =
    hss_private_key_init-Fresh sha256 2 (λ i. 5) (λ i. 3) toy_types toy toy-IsHashLib (omega arith)
      (replicate 32 1) (omega arith) (omega arith)

big : 0xffff ≤ toy.size_max
big = omega arith

abbrev IsFresh : HssPrivateKey → Type 0
IsFresh = Fresh sha256 2 (λ i. 5) (λ i. 3) toy_types toy toy-IsHashLib big

-- The key that initialization gives.
found :
    (k : HssPrivateKey) × (hss_private_key_init toy software none 2
        (λ i. 5)
        (λ i. 3)
        (replicate 32 1)
      ≡ ok k)
    × IsFresh k
found =
    Gives-value IsFresh
      (hss_private_key_init toy software none 2 (λ i. 5) (λ i. 3) (replicate 32 1))
      (hss_private_key_init-Fresh sha256 2 (λ i. 5) (λ i. 3) toy_types toy toy-IsHashLib big
        (replicate 32 1) (omega arith) (omega arith))

toy_hss : HssPrivateKey
toy_hss = found.0

fresh : IsFresh toy_hss
unfolding toy_hss
fresh = found.2

Left-Available : (k : HssPrivateKey) (level : ℕ) → Left (k.keys level) → Available k level
Left-Available k zero left = left
Left-Available k (suc level) left = inl left

available : Available toy_hss (toy_hss.levels - 1)
available =
    Left-Available toy_hss (toy_hss.levels - 1)
      (subst (λ n. Left (toy_hss.keys (n - 1))) (sym fresh.all_levels) fresh.left)

first : (i : ℕ) → i < toy_hss.levels → value (toy_hss.generation i) + 8 ≤ 256 ^ 32
first i lt = omega (arith, ap value (fresh.first_generation i))

hss_sign-Signed_example :
    Gives
      (Signed toy toy_hss message)
      (hss_sign toy software none true toy_hss message (hss_signature_len toy_hss))
hss_sign-Signed_example =
    hss_sign-Signed toy toy-IsHashLib big toy_hss message (hss_signature_len toy_hss) fresh.ready
      fits (omega arith) available first

-- A key of one level, whose 32 leaves are used.
abbrev used_key : PrivateKey
used_key = record toy_key { q = 32 }

abbrev used_hss : HssPrivateKey
used_hss = record {
  levels = 1;
  master_seed = replicate 32 1;
  lms_types = λ i. 5;
  lmots_types = λ i. 3;
  generation = λ i. replicate 32 0;
  keys = λ i. used_key;
  pubs = λ i. public_key toy used_key toy_lms toy_ots;
  cert = λ i. [];
}

zeros : (n i : ℕ) → get_or (replicate n 0) i 0 < 256
zeros zero i = omega arith
zeros (suc n) zero = omega arith
zeros (suc n) (suc i) = zeros n i

used-Ready : Ready toy used_hss
used-Ready = record {
  some_level = omega arith;
  bounded = omega arith;
  level = λ i lt. record {
    lms = toy_lms;
    p = toy_ots;
    pair = record { known = toy_known; length_I = refl; key_eq = refl };
    lms_same = refl;
    lmots_same = refl;
    bytes = zeros 32;
    length_generation = refl;
  };
  certified = λ i lt. absurd (omega arith);
}

none-Left : (i : ℕ) → i < 1 → Left (used_hss.keys i) → ⊥
unfolding lms_param
none-Left i lt left = omega arith

hss_sign-exhausted_example :
    hss_sign toy software none true used_hss message (hss_signature_len used_hss) ≡ err exhausted
hss_sign-exhausted_example =
    hss_sign-exhausted toy toy-IsHashLib big used_hss message (hss_signature_len used_hss)
      used-Ready (omega arith) none-Left

-- The signature of the two levels.
signed :
    (r : HssPrivateKey × List ℕ) × (hss_sign toy software none true toy_hss message
        (hss_signature_len toy_hss)
      ≡ ok r)
    × Signed toy toy_hss message r
signed =
    Gives-value (Signed toy toy_hss message)
      (hss_sign toy software none true toy_hss message (hss_signature_len toy_hss))
      (hss_sign-Signed toy toy-IsHashLib big toy_hss message (hss_signature_len toy_hss) fresh.ready
        fits (omega arith) available first)

hss_verify-Accepted_example : Accepted toy software none (public_of toy_hss) message signed.0.1
hss_verify-Accepted_example =
    hss_verify-Accepted toy software none (public_of toy_hss) message signed.0.1 (signed.2.accepted)

increment_generation-Counted_example :
    Counted 1 (replicate 32 0) (increment_generation (replicate 32 0))
increment_generation-Counted_example = increment_generation-Counted (replicate 32 0) (zeros 32)

hss_public_key_parse-serialize_example :
    (hss_public_key_serialize (record { levels = 2; root_pub = toy_public }) 60
      >>= hss_public_key_parse)
    ≡ ok (record { levels = 2; root_pub = toy_public })
hss_public_key_parse-serialize_example =
    hss_public_key_parse-serialize (record { levels = 2; root_pub = toy_public }) (toy_lms, toy_ots)
      60 (omega arith) (omega arith)
      (record {
        lms_word = omega arith;
        lmots_word = omega arith;
        length_I = refl;
        length_root = refl;
      })
      toy_known (omega arith)
