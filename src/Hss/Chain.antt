-- ===== src/Hss/Chain.antt =====
-- The chain of certificates in a signature of src/hss.c: its length, its bytes, and what hss_verify
-- reads from it.
use sec_lms.Prelude.{
  ℕ, zero, suc, ◌+◌, ◌≤◌, ◌<◌, ◌≡◌, refl, sym, ◌∙◌, ap, ap₂, true, not, List, [], ◌++◌, length,
  none, arith, ltb, ◌==◌, ◌||◌, take-append, drop-append, length-append, append_assoc,
}
use sec_lms.Lms.{ok, PublicKey}
use sec_lms.Lms.Params.{matching_params, lms_signature_len}
use sec_lms.Lms.Params.Matching.{matching_params-parts, lms_param_bounds}
use sec_lms.Lms.Codec.{public_key_parse, public_key_serialize}
use sec_lms.Lms.Codec.RoundTrip.{public_key_parse-serialize}
use sec_lms.Lms.Hash.{HashLib, IsHashLib}
use sec_lms.Lms.Ots.{software}
use sec_lms.Lms.Tree.Laws.{length-node}
use sec_lms.Lms.Verify.{lms_verify}
use sec_lms.Hss.{HssPrivateKey}
use sec_lms.Hss.Sign.{certs_len, chain_from}
use sec_lms.Hss.Verify.{follow}
use sec_lms.Hss.Ready.{public_bytes, LevelAt, Certified, Ready}
use sec_lms.Hss.Build.{lms_signature_len-Pair, length-public_bytes, lmots_param_bounds}

-- The length of the certificates of `count` levels from `i` on, with the keys that they certify, by the
-- typecodes.
abbrev pub lens : ℕ → (ℕ → ℕ) → (ℕ → ℕ) → ℕ → ℕ
lens zero lms_types lmots_types i = 0
lens (suc count) lms_types lmots_types i =
    lms_signature_len (lms_types i) (lmots_types i) + 56 + lens count lms_types lmots_types (suc i)

-- The bytes.
abbrev pub chain : ℕ → HssPrivateKey → ℕ → List ℕ
chain zero k i = []
chain (suc count) k i = k.cert i ++ (public_bytes (k.pubs (suc i)) ++ chain count k (suc i))

some_bytes : (n : ℕ) → 0 < n → not (n == 0) ≡ true
some_bytes n lt = ground arith

long_enough : (n total : ℕ) → 0 < n → n + 56 ≤ total → not (n == 0 || ltb total (n + 56)) ≡ true
long_enough n total pos le = ground arith

pub chain_from-chain :
    (count : ℕ) (k : HssPrivateKey) (i : ℕ) → chain_from count k i ≡ ok (chain count k i)
unfolding public_key_serialize
chain_from-chain zero k i = refl
chain_from-chain (suc count) k i = rw (chain_from-chain count k (suc i)) refl

module _ (lib : HashLib) where
  -- The typecodes of the public key are those of the level.
  pub level_len :
      (k : HssPrivateKey) (i : ℕ)
      → LevelAt lib k i
      → lms_signature_len (k.pubs i).lms_type (k.pubs i).lmots_type
        ≡ lms_signature_len (k.lms_types i) (k.lmots_types i)
  level_len k i v =
      ap₂ lms_signature_len (ap (λ x. x.lms_type) v.pair.key_eq ∙ v.lms_same)
        (ap (λ x. x.lmots_type) v.pair.key_eq ∙ v.lmots_same)

  pub level_len_pos :
      (k : HssPrivateKey) (i : ℕ)
      → LevelAt lib k i
      → 0 < lms_signature_len (k.lms_types i) (k.lmots_types i)
  level_len_pos k i v =
      omega
        (arith, level_len k i v, lms_signature_len-Pair lib v.lms v.p (k.keys i) (k.pubs i) v.pair)

  -- One round of the loop of hss_verify.
  follow_one :
      (count : ℕ) (key child : PublicKey) (cert bytes rest : List ℕ)
      → length bytes ≡ 56
      → 0 < lms_signature_len key.lms_type key.lmots_type
      → Certified lib key child cert
      → public_bytes child ≡ bytes
      → public_key_parse bytes ≡ ok child
      → follow lib software none (suc count) key (cert ++ (bytes ++ rest))
        ≡ follow lib software none count child rest
  follow_one count key child cert bytes rest len pos c same parsed =
      rw
        (
          long_enough n (length (cert ++ (bytes ++ rest))) pos (
              omega (
                arith,
                c.exact,
                length-append cert (bytes ++ rest),
                length-append bytes rest,
                len,
              )),
          take-append n cert (bytes ++ rest) c.exact,
          drop-append n cert (bytes ++ rest) c.exact,
          take-append 56 bytes rest len,
          drop-append 56 bytes rest len,
        )
        (rw (ap (λ b. lms_verify lib software none key b cert) (sym same) ∙ c.accepted, parsed)
          refl)
    where
      n : ℕ
      n = lms_signature_len key.lms_type key.lmots_type

  module _ (k : HssPrivateKey) (ready : Ready lib k) where
    cert_len :
        (i : ℕ)
        → suc i < k.levels
        → length (k.cert i) ≡ lms_signature_len (k.lms_types i) (k.lmots_types i)
    cert_len i lt = (ready.certified i lt).exact ∙ level_len k i (ready.level i (omega arith))

    pub certs_len-lens :
        (count i : ℕ)
        → i + suc count ≡ k.levels
        → certs_len count k i ≡ ok (lens count k.lms_types k.lmots_types i)
    certs_len-lens zero i sum = refl
    certs_len-lens (suc count) i sum =
        rw
          (some_bytes (length (k.cert i)) (
            omega
              (arith, cert_len i (omega arith), level_len_pos k i (ready.level i (omega arith)))))
          (rw (certs_len-lens count (suc i) (omega arith)) (
            ap (λ n. ok (n + 56 + lens count k.lms_types k.lmots_types (suc i)))
              (cert_len i (omega arith))))

    module _ (h : IsHashLib lib) (big : 0xffff ≤ lib.size_max) where
      pub length-chain :
          (count i : ℕ)
          → i + suc count ≡ k.levels
          → length (chain count k i) ≡ lens count k.lms_types k.lmots_types i
      length-chain zero i sum = refl
      length-chain (suc count) i sum =
          let v = ready.level (suc i) (omega arith) in
          omega (
            arith,
            length-append (k.cert i) (public_bytes (k.pubs (suc i)) ++ chain count k (suc i)),
            length-append (public_bytes (k.pubs (suc i))) (chain count k (suc i)),
            length-public_bytes lib h big v.lms v.p (k.keys (suc i)) (k.pubs (suc i)) v.pair,
            cert_len i (omega arith),
            length-chain count (suc i) (omega arith),
          )

      -- The public key is read back.
      public_key_parse-public_bytes :
          (i : ℕ) → i < k.levels → public_key_parse (public_bytes (k.pubs i)) ≡ ok (k.pubs i)
      unfolding public_key_serialize
      public_key_parse-public_bytes i lt =
          let v = ready.level i lt in
          let (l, o, same) =
            matching_params-parts (k.keys i).lms_type (k.keys i).lmots_type v.lms v.p
              v.pair.known in
          let (w, hi, n, lo) = lms_param_bounds (k.keys i).lms_type v.lms l in
          let (p, m, w') = lmots_param_bounds (k.keys i).lmots_type v.p o in
          public_key_parse-serialize (k.pubs i) (v.lms, v.p) 56
            (record {
              lms_word = omega (arith, w, ap (λ x. x.lms_type) v.pair.key_eq);
              lmots_word = omega (arith, w', ap (λ x. x.lmots_type) v.pair.key_eq);
              length_I = ap (λ x. length x.I) v.pair.key_eq ∙ v.pair.length_I;
              length_root =
                  ap (λ x. length x.root) v.pair.key_eq
                  ∙ length-node lib h big (k.keys i) v.lms v.p v.pair.known v.pair.length_I
                      v.lms.height 1;
            })
            (omega arith)
            (ap₂ matching_params (ap (λ x. x.lms_type) v.pair.key_eq)
                (ap (λ x. x.lmots_type) v.pair.key_eq)
              ∙ v.pair.known)

      -- The loop of hss_verify reads a chain up to what follows it.
      pub follow-chain :
          (count i : ℕ) (rest : List ℕ)
          → i + suc count ≡ k.levels
          → follow lib software none count (k.pubs i) (chain count k i ++ rest)
            ≡ ok (k.pubs (i + count), rest)
      follow-chain zero i rest sum = ap (λ j. ok (k.pubs j, rest)) (omega arith)
      follow-chain (suc count) i rest sum =
          let v = ready.level (suc i) (omega arith) in
          let bytes = public_bytes (k.pubs (suc i)) in
          ap (follow lib software none (suc count) (k.pubs i)) (
            append_assoc (k.cert i) (bytes ++ chain count k (suc i)) rest
            ∙ ap (λ r. k.cert i ++ r) (append_assoc bytes (chain count k (suc i)) rest))
          ∙ follow_one count (k.pubs i) (k.pubs (suc i)) (k.cert i) bytes
              (chain count k (suc i) ++ rest)
              (length-public_bytes lib h big v.lms v.p (k.keys (suc i)) (k.pubs (suc i)) v.pair)
              (omega (
                arith,
                level_len k i (ready.level i (omega arith)),
                level_len_pos k i (ready.level i (omega arith)),
              ))
              (ready.certified i (omega arith)) refl
              (public_key_parse-public_bytes (suc i) (omega arith))
          ∙ follow-chain count (suc i) rest (omega arith)
          ∙ ap (λ j. ok (k.pubs j, rest)) (omega arith)
