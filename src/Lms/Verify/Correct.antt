-- ===== src/Lms/Verify/Correct.antt =====
-- Signatures of lms_do_sign of src/lms_sign.c verify under the key of lms_public_key_generate of
-- src/lms_tree.c, in lms_verify of src/lms.c, all without backends.
use native.Mathlib.Nat.{pow-le-pow_right}
use sec_lms.Prelude.{
  ℕ, ◌+◌, ◌-◌, ◌*◌, ◌%◌, ◌^◌, ◌≤◌, ◌<◌, ◌≡◌, refl, sym, ◌∙◌, ap, none, List, [], ◌++◌, length,
  arith, length-append, take-append, eq→==, le→leb,
}
use sec_lms.Prelude.Bytes.{put_be32, get_be32, get_be32-put, get_be32-append, same_bytes_refl}
use sec_lms.Lms.{ok, HashAlg, PrivateKey, PublicKey}
use sec_lms.Lms.Params.{
  LmsParam, LmotsParam, matching_params, ots_len, total_len, lms_signature_len,
}
use sec_lms.Lms.Params.Matching.{lms_param_bounds}
use sec_lms.Lms.Hash.{HashLib, IsHashLib, Hashable, lms_hash_parts-digest}
use sec_lms.Lms.Ots.{software, prefix, d_leaf, lmots_verify_leaf}
use sec_lms.Lms.Ots.Spec.{chain_ends, key_of, signature}
use sec_lms.Lms.Ots.Refine.{ots_known, lmots_sign_lem, q_and_coefs-ok}
use sec_lms.Lms.Ots.RoundTrip.{
  check_signature-ok, cut_C, length-signature, lmots_public_from_signature-signature,
}
use sec_lms.Lms.Ots.Chain.{drop-append_add}
use sec_lms.Lms.Tree.{lms_public_key_generate}
use sec_lms.Lms.Tree.Laws.{
  AtLevel, node, lms_tree_node-node, lms_known, leaf_room, pow_double, not_leb, length-node,
}
use sec_lms.Lms.Sign.{lms_do_sign}
use sec_lms.Lms.Verify.{lms_root_from_signature, lms_verify}
use sec_lms.Lms.Verify.Path.{siblings, length-siblings, auth_path-siblings, climb-siblings}

pub leaf_AtLevel : (height q : ℕ) → q < 2 ^ height → AtLevel height (2 ^ height + q)
leaf_AtLevel height q lt = (omega arith, omega (arith, pow_double height))

add_zero : (n : ℕ) → n + 0 ≡ n
add_zero n = omega arith

zero_add : (n : ℕ) → 0 + n ≡ n
zero_add n = omega arith

-- A word behind a part of known length.
get_be32-behind :
    (n v : ℕ) (xs rest : List ℕ)
    → length xs ≡ n
    → v < 2 ^ 32
    → get_be32 (xs ++ (put_be32 v ++ rest)) n ≡ v
get_be32-behind n v xs rest e lt =
    ap (get_be32 (xs ++ (put_be32 v ++ rest))) (sym (add_zero n))
    ∙ get_be32-append n 0 xs (put_be32 v ++ rest) e
    ∙ get_be32-put v rest lt

below_word : (height q : ℕ) → height ≤ 25 → q < 2 ^ height → q < 2 ^ 32
below_word height q le lt = omega (arith, pow-le-pow_right {n = 2} (omega arith) le)

cancel : (base q : ℕ) → (base + q) - base ≡ q
cancel base q = omega arith

module _ (lib : HashLib) (priv : PrivateKey) (lms : LmsParam) (p : LmotsParam) where
  abbrev at_node : ℕ → ℕ → List ℕ
  at_node d num = node lib priv lms.hash_alg p (2 ^ lms.height) d num

  -- The public key: the value of node 1.
  abbrev pub public_key : PublicKey
  public_key = record {
    lms_type = priv.lms_type;
    lmots_type = priv.lmots_type;
    I = priv.I;
    root = at_node lms.height 1;
  }

  abbrev leaf_of : ℕ
  leaf_of = 2 ^ lms.height + priv.q

  abbrev path_of : List ℕ
  path_of = siblings at_node lms.height 0 leaf_of

  -- The signature: the index, the one-time signature, the type, the authentication path.
  abbrev pub full_signature : List ℕ → List ℕ
  full_signature message =
      put_be32 priv.q
      ++ (signature lib lms.hash_alg priv priv.q p message ++ (put_be32 priv.lms_type ++ path_of))

module _ (lib : HashLib) (h : IsHashLib lib) (big : 0xffff ≤ lib.size_max) (priv : PrivateKey)
    (lms : LmsParam) (p : LmotsParam)
    (known : matching_params priv.lms_type priv.lmots_type ≡ ok (lms, p))
    (len_I : length priv.I ≡ 16) where
  pub lms_public_key_generate_lem :
      lms_public_key_generate lib software priv ≡ ok (public_key lib priv lms p)
  unfolding lms_public_key_generate
  lms_public_key_generate_lem =
      rw (lms_known lib h big priv lms p known len_I, ots_known lib h big priv lms p known len_I)
        (rw
          (lms_tree_node-node lib h big priv lms p known len_I lms.height 0 1 (add_zero lms.height)
            (omega arith, omega arith))
          refl)

module _ (lib : HashLib) (h : IsHashLib lib) (big : 0xffff ≤ lib.size_max) (priv : PrivateKey)
    (lms : LmsParam) (p : LmotsParam)
    (known : matching_params priv.lms_type priv.lmots_type ≡ ok (lms, p))
    (len_I : length priv.I ≡ 16) (message : List ℕ) (fits : Hashable lib (54 + length message))
    (left : priv.q < 2 ^ lms.height) where
  abbrev alg : HashAlg
  alg = lms.hash_alg

  abbrev at : ℕ → ℕ → List ℕ
  at d num = at_node lib priv lms p d num

  abbrev leaf_num : ℕ
  leaf_num = leaf_of lib priv lms p

  abbrev path : List ℕ
  path = path_of lib priv lms p

  abbrev key : PublicKey
  key = public_key lib priv lms p

  abbrev ots_signature : List ℕ
  ots_signature = signature lib alg priv priv.q p message

  abbrev signed : List ℕ
  signed = full_signature lib priv lms p message

  lms_do_sign_lem :
      (room : ℕ)
      → total_len lms p ≤ room
      → lms_do_sign lib software none priv message room
        ≡ ok (record priv { q = (priv.q + 1) % 2 ^ 32 }, signed)
  unfolding lms_do_sign lms_signature_len
  lms_do_sign_lem room fit =
      rw
        (
          lms_known lib h big priv lms p known len_I,
          ots_known lib h big priv lms p known len_I,
          known,
          le→leb fit,
          not_leb (2 ^ lms.height) priv.q left,
        )
        (rw
          (lmots_sign_lem lib h big priv lms p known len_I priv.q message fits (ots_len p)
            (omega arith))
          (rw
            (auth_path-siblings lib h big priv lms p known len_I lms.height 0 leaf_num
              (zero_add lms.height) (leaf_AtLevel lms.height priv.q left))
            refl))

  abbrev one_time_key : List ℕ
  one_time_key = key_of lib alg priv.I priv.q (chain_ends lib alg priv priv.q p)

  -- lmots_verify_leaf of the signature is the leaf's value.
  lmots_verify_leaf-signature :
      lmots_verify_leaf lib software priv.I alg priv.q priv.lmots_type leaf_num message
        ots_signature
      ≡ ok (at 0 leaf_num)
  unfolding lmots_verify_leaf node
  lmots_verify_leaf-signature =
      rw (check_signature-ok lib h big priv lms p known len_I priv.q message fits) (
        rw (cut_C lib h big priv lms p known len_I priv.q message fits) (
          rw (q_and_coefs-ok lib h big priv lms p known len_I priv.q message fits) (
            rw
              (lmots_public_from_signature-signature lib h big priv lms p known len_I priv.q message
                fits)
              (rw (cancel (2 ^ lms.height) priv.q) (
                lms_hash_parts-digest lib h (prefix priv.I leaf_num d_leaf) one_time_key [] [] alg
                  (leaf_room lib h big priv lms p known len_I leaf_num priv.q))))))

  type_facts : (priv.lms_type < 2 ^ 32) × (lms.height ≤ 25) × (lms.n ≡ 32) × (0 < lms.height)
  type_facts = lms_param_bounds priv.lms_type lms (lms_known lib h big priv lms p known len_I)

  ots_length : length ots_signature ≡ ots_len p
  ots_length = length-signature lib h big priv lms p known len_I priv.q message fits

  total : total_len lms p ≡ 4 + ots_len p + 4 + lms.height * 32
  total = rw (type_facts.2) (omega arith)

  pub full_length : length signed ≡ total_len lms p
  full_length = omega (
    arith,
    total,
    ots_length,
    length-append ots_signature (put_be32 priv.lms_type ++ path),
    length-siblings at lms.height 0 leaf_num (length-node lib h big priv lms p known len_I),
  )

  lms_root_from_signature-full_signature :
      lms_root_from_signature lib software none key message signed ≡ ok (at lms.height 1)
  unfolding lms_root_from_signature
  lms_root_from_signature-full_signature =
      rw
        (
          lms_known lib h big priv lms p known len_I,
          ots_known lib h big priv lms p known len_I,
          known,
          eq→== full_length,
          get_be32-put priv.q (ots_signature ++ (put_be32 priv.lms_type ++ path))
              (below_word lms.height priv.q type_facts.1 left),
          not_leb (2 ^ lms.height) priv.q left,
        )
        (rw
          (
            eq→== (
                get_be32-behind (ots_len p) priv.lms_type ots_signature path ots_length
                  type_facts.0),
            take-append (ots_len p) ots_signature (put_be32 priv.lms_type ++ path) ots_length,
            drop-append_add (ots_len p) 4 ots_signature (put_be32 priv.lms_type ++ path) ots_length,
          )
          (rw lmots_verify_leaf-signature (
            climb-siblings lib h big priv lms p known len_I lms.height 0 leaf_num
              (zero_add lms.height) (leaf_AtLevel lms.height priv.q left))))

  -- A signature verifies.
  lms_verify-lms_do_sign : lms_verify lib software none key message signed ≡ ok tt
  unfolding lms_verify
  lms_verify-lms_do_sign =
      rw lms_root_from_signature-full_signature (rw (same_bytes_refl (at lms.height 1)) refl)

  -- Without backends, on a platform whose hash functions give as many bytes as they promise, whose
  -- SIZE_MAX is at least 65535 and that can hash the message, with a key of known types of one hash
  -- function, an I of 16 bytes and an index below the number of leaves: lms_public_key_generate
  -- gives a public key; lms_do_sign, given room for the signature, gives a signature and the key
  -- with the next index; and lms_verify accepts this signature of the message under that key.
  pub sign_verify :
      (room : ℕ)
      → total_len lms p ≤ room
      → (lms_public_key_generate lib software priv ≡ ok key)
        × (lms_do_sign lib software none priv message room
            ≡ ok (record priv { q = (priv.q + 1) % 2 ^ 32 }, signed))
        × (lms_verify lib software none key message signed ≡ ok tt)
  sign_verify room fit = (
    lms_public_key_generate_lem lib h big priv lms p known len_I,
    lms_do_sign_lem room fit,
    lms_verify-lms_do_sign,
  )
