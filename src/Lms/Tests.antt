-- ===== src/Lms/Tests.antt =====
-- A toy hash library, and the theorems at concrete inputs.
use sec_lms.Prelude.{
  ℕ, zero, suc, ◌+◌, ◌-◌, ◌*◌, ◌/◌, ◌%◌, ◌^◌, ◌<◌, ◌≡◌, refl, inl, inr, Bool, true, false, ltb,
  ◌&&◌, and_true, List, [], ◌∷◌, ◌++◌, none, replicate, length-replicate, false≢true, arith,
}
use sec_lms.Prelude.Bytes.{value, Bytes}
use sec_lms.Lms.{ok, ◌>>=◌, sha256, PrivateKey, PublicKey}
use sec_lms.Lms.Params.{LmsParam, LmotsParam, lms_param, lmots_param, matching_params}
use sec_lms.Lms.Params.Cache.{Cache, IsConsistent, lookup, lookup-table}
use sec_lms.Lms.Codec.{
  public_key_serialize, public_key_parse, private_key_serialize, private_key_parse,
}
use sec_lms.Lms.Codec.RoundTrip.{public_key_parse-serialize, private_key_parse-serialize}
use sec_lms.Lms.Coef.{coef, digit_sum, checksum}
use sec_lms.Lms.Coef.Digits.{coef_lem}
use sec_lms.Lms.Coef.Bounds.{checksum_lem, digit_sum_strict}
use sec_lms.Lms.Hash.{HashLib, IsHashLib, Hashable, digest, lms_hash_parts, lms_hash_parts-digest}
use sec_lms.Lms.Results.{Gives}
use sec_lms.Lms.Coprocess.{tree_auth_path, tree_verify}
use sec_lms.Lms.Coprocess.Correct.{Agrees, built, built-Agrees, built-verify}
use sec_lms.Lms.Ots.{lmots_public_from_private, software, lmots_sign, lmots_public_from_signature}
use sec_lms.Lms.Ots.Spec.{chain_ends, key_of, signature}
use sec_lms.Lms.Ots.Refine.{lmots_sign_lem}
use sec_lms.Lms.Ots.RoundTrip.{lmots_public_from_signature-signature}
use sec_lms.Lms.Tree.{lms_tree_node, lms_public_key_generate}
use sec_lms.Lms.Tree.Laws.{node, lms_tree_node-node}
use sec_lms.Lms.Sign.{lms_do_sign}
use sec_lms.Lms.Verify.{lms_verify, lms_root_from_signature}
use sec_lms.Lms.Verify.Accepts.{WellFormed, lms_verify-WellFormed}
use sec_lms.Lms.Verify.Correct.{public_key, full_signature, sign_verify}

abbrev sum : List ℕ → ℕ
sum [] = 0
sum (x ∷ xs) = x + sum xs

abbrev pub toy : HashLib
toy = record {
  sha256_digest = λ msg. replicate 32 (sum msg % 251);
  shake256_output = λ msg n. replicate n (sum msg % 241);
  haraka_output = λ msg. replicate 32 (sum msg % 239);
  size_max = 0xffff_ffff;
  malloc = λ n. false;
}

pub toy-IsHashLib : IsHashLib toy
toy-IsHashLib = record {
  sha256_length = λ msg. length-replicate 32 (sum msg % 251);
  shake256_length = λ msg n. length-replicate n (sum msg % 241);
  haraka_length = λ msg. length-replicate 32 (sum msg % 239);
}

-- A key of height 5 with 67 chains.
abbrev pub toy_key : PrivateKey
toy_key = record {
  lms_type = 0x05;
  lmots_type = 0x03;
  I = replicate 16 7;
  seed = replicate 32 8;
  q = 3;
}

abbrev pub toy_lms : LmsParam
toy_lms = record { type = 0x05; hash_alg = sha256; height = 5; n = 32 }

abbrev pub toy_ots : LmotsParam
toy_ots = record { type = 0x03; hash_alg = sha256; n = 32; w = 4; p = 67; ls = 4 }

abbrev pub message : List ℕ
message = 1 ∷ 2 ∷ 3 ∷ []

pub toy_known : matching_params 0x05 0x03 ≡ ok (toy_lms, toy_ots)
unfolding matching_params lms_param lmots_param
toy_known = refl

pub fits : Hashable toy 57
fits = (omega arith, inl (omega arith))

sign_verify_example :
    (lms_public_key_generate toy software toy_key ≡ ok (public_key toy toy_key toy_lms toy_ots))
    × (lms_do_sign toy software none toy_key message 4000
        ≡ ok (record toy_key { q = 4 }, full_signature toy toy_key toy_lms toy_ots message))
    × (lms_verify toy software none
          (public_key toy toy_key toy_lms toy_ots)
          message
          (full_signature toy toy_key toy_lms toy_ots message)
        ≡ ok tt)
sign_verify_example =
    sign_verify toy toy-IsHashLib (omega arith) toy_key toy_lms toy_ots toy_known refl message fits
      (omega arith) 4000 (omega arith)

lmots_sign_lem_example :
    lmots_sign toy software toy_key 9 message 3000
    ≡ ok (signature toy sha256 toy_key 9 toy_ots message)
lmots_sign_lem_example =
    lmots_sign_lem toy toy-IsHashLib (omega arith) toy_key toy_lms toy_ots toy_known refl 9 message
      fits 3000 (omega arith)

lmots_public_from_signature-signature_example :
    lmots_public_from_signature toy software toy_key.I sha256 9 0x03 message
      (signature toy sha256 toy_key 9 toy_ots message)
    ≡ ok (key_of toy sha256 toy_key.I 9 (chain_ends toy sha256 toy_key 9 toy_ots))
lmots_public_from_signature-signature_example =
    lmots_public_from_signature-signature toy toy-IsHashLib (omega arith) toy_key toy_lms toy_ots
      toy_known refl 9 message fits

lms_tree_node-node_example :
    lms_tree_node toy software toy_key 6 ≡ ok (node toy toy_key sha256 toy_ots 32 3 6)
lms_tree_node-node_example =
    lms_tree_node-node toy toy-IsHashLib (omega arith) toy_key toy_lms toy_ots toy_known refl 3 2 6
      refl (omega arith, omega arith)

abbrev empty : Cache LmotsParam
empty = record { type = 0x04; valid = false; entry = toy_ots }

lookup-table_example :
    IsConsistent lmots_param (lookup lmots_param empty 0x04).0
    × ((lookup lmots_param empty 0x04).1 ≡ lmots_param 0x04)
lookup-table_example = lookup-table lmots_param empty 0x04 (λ v. absurd (false≢true v))

abbrev pub toy_public : PublicKey
toy_public = record {
  lms_type = 0x05;
  lmots_type = 0x03;
  I = replicate 16 7;
  root = replicate 32 1;
}

public_key_parse-serialize_example :
    (public_key_serialize toy_public 56 >>= public_key_parse) ≡ ok toy_public
public_key_parse-serialize_example =
    public_key_parse-serialize toy_public (toy_lms, toy_ots) 56
      (record {
        lms_word = omega arith;
        lmots_word = omega arith;
        length_I = refl;
        length_root = refl;
      })
      (omega arith) toy_known

private_key_parse-serialize_example :
    (private_key_serialize toy_key 60 >>= private_key_parse) ≡ ok toy_key
private_key_parse-serialize_example =
    private_key_parse-serialize toy_key toy_lms toy_ots 60
      (record {
        lms_word = omega arith;
        lmots_word = omega arith;
        q_word = omega arith;
        length_I = refl;
        length_seed = refl;
      })
      (omega arith) toy_known (omega arith)

abbrev all_bytes : List ℕ → Bool
all_bytes [] = true
all_bytes (x ∷ xs) = ltb x 256 && all_bytes xs

all_bytes-Bytes : (xs : List ℕ) → all_bytes xs ≡ true → Bytes xs
all_bytes-Bytes [] e i = omega arith
all_bytes-Bytes (x ∷ xs) e zero = ground arith
all_bytes-Bytes (x ∷ xs) e (suc i) = all_bytes-Bytes xs (and_true e).1 i

abbrev counted_bytes : List ℕ
counted_bytes =
    replicate 8 1 ++ replicate 8 0x35 ++ replicate 8 255 ++ replicate 8 0xab ++ (0x12 ∷ 0x34 ∷ [])

coef_lem_example :
    coef counted_bytes 17 4 ≡ value counted_bytes / 2 ^ (8 * 34 - (17 + 1) * 4) % 2 ^ 4
unfolding lmots_param
coef_lem_example =
    coef_lem 0x03 toy_ots counted_bytes 17 refl (omega arith) (all_bytes-Bytes counted_bytes refl)
      refl

checksum_lem_example :
    (checksum (replicate 32 0) 32 4 4 < 2 ^ 16)
    × (checksum (replicate 32 0) 32 4 4 ≡ digit_sum (replicate 32 0) 4 0 (8 * 32 / 4) * 2 ^ 4)
unfolding lmots_param
checksum_lem_example = checksum_lem 0x03 toy_ots (replicate 32 0) refl

digit_sum_strict_example : digit_sum (17 ∷ []) 4 0 2 < digit_sum (16 ∷ []) 4 0 2
unfolding coef
digit_sum_strict_example =
    digit_sum_strict (16 ∷ []) (17 ∷ []) 4 0 2 (omega arith, (omega arith, tt))
      (inr (inl λ e. absurd (omega arith)))

lms_hash_parts-digest_example :
    lms_hash_parts toy message message [] [] sha256 ≡ ok (digest toy sha256 (message ++ message))
lms_hash_parts-digest_example =
    lms_hash_parts-digest toy toy-IsHashLib message message [] [] sha256
      (omega arith, inl (omega arith))

lms_verify-WellFormed_example :
    (lms_root_from_signature toy software none
        (public_key toy toy_key toy_lms toy_ots)
        message
        (full_signature toy toy_key toy_lms toy_ots message)
      ≡ ok (public_key toy toy_key toy_lms toy_ots).root)
    × WellFormed
        (public_key toy toy_key toy_lms toy_ots)
        (full_signature toy toy_key toy_lms toy_ots message)
lms_verify-WellFormed_example =
    lms_verify-WellFormed toy software none (public_key toy toy_key toy_lms toy_ots) message
      (full_signature toy toy_key toy_lms toy_ots message)
      (sign_verify toy toy-IsHashLib (omega arith) toy_key toy_lms toy_ots toy_known refl message
        fits (omega arith) 4000 (omega arith)).2

built-Agrees_example :
    Gives
      (Agrees toy toy-IsHashLib (omega arith) toy_key toy_lms toy_ots toy_known refl (omega arith))
      (built toy toy-IsHashLib (omega arith) toy_key toy_lms toy_ots toy_known refl (omega arith))
built-Agrees_example =
    built-Agrees toy toy-IsHashLib (omega arith) toy_key toy_lms toy_ots toy_known refl
      (omega arith)

built-verify_example :
    Gives
      (λ t.
        (lmots_public_from_private toy software toy_key 6 >>= λ K.
        tree_auth_path t 6 >>= λ path. tree_verify toy software t 6 K path)
        ≡ ok tt)
      (built toy toy-IsHashLib (omega arith) toy_key toy_lms toy_ots toy_known refl (omega arith))
built-verify_example =
    built-verify toy toy-IsHashLib (omega arith) toy_key toy_lms toy_ots toy_known refl
      (omega arith) 6 (omega arith)
