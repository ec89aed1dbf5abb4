-- ===== src/Lms/Hash.antt =====
-- lms_hash of src/hash_api.c and lms_hash_parts of src/lms_params.c, over the hash functions of
-- hashs/, which are other projects' code.
use sec_lms.Prelude.{
  ℕ, ◌+◌, ◌-◌, ◌*◌, ◌≤◌, ◌≡◌, refl, Bool, true, ◌||◌, ◌&&◌, ◌⊎◌, ap, take-length, if_cases, not,
  List, ◌++◌, take, length, ltb, ◌==◌, if◌then◌else◌, arith,
}
use sec_lms.Lms.{
  Result, ok, err, invalid, HashAlg, sha256, shake256, haraka, lms_n, same_alg, same_alg_sound,
}

-- The platform: the hash functions, SIZE_MAX, and whether malloc gives a buffer of this size.
-- `sha256_digest` is SHA256_Final after SHA256_Update of all bytes, in whatever chunks.
pub record HashLib : Type 0 where
  pub sha256_digest : List ℕ → List ℕ
  pub shake256_output : List ℕ → ℕ → List ℕ
  pub haraka_output : List ℕ → List ℕ
  pub size_max : ℕ
  pub malloc : ℕ → Bool

-- Each function gives as many bytes as its interface says.
pub record IsHashLib (lib : HashLib) : Type 0 where
  pub sha256_length : (msg : List ℕ) → length (lib.sha256_digest msg) ≡ 32
  pub shake256_length : (msg : List ℕ) (n : ℕ) → length (lib.shake256_output msg n) ≡ n
  pub haraka_length : (msg : List ℕ) → length (lib.haraka_output msg) ≡ 32

-- sizeof(stack_buf) in lms_hash_parts.
abbrev pub stack_buf : ℕ
stack_buf = 4 + 16 + 32 * 2 + 265 * 32

module _ (lib : HashLib) where
  -- lms_hash: hash_sha256 refuses more than 32 bytes, hash_haraka all but 32.
  unfoldable pub lms_hash : HashAlg → List ℕ → ℕ → Result (List ℕ)
  lms_hash sha256 input n = if ltb 32 n then err invalid else ok (take n (lib.sha256_digest input))
  lms_hash shake256 input n = ok (lib.shake256_output input n)
  lms_hash haraka input n = if n == 32 then ok (lib.haraka_output input) else err invalid

  -- The three tests of lms_hash_parts for a sum beyond SIZE_MAX.
  abbrev too_long : ℕ → ℕ → ℕ → ℕ → Bool
  too_long a b c d =
      ltb (lib.size_max - b) a
      || ltb (lib.size_max - c) (a + b)
      || ltb (lib.size_max - d) (a + b + c)

  not_too_long : (a b c d : ℕ) → a + b + c + d ≤ lib.size_max → too_long a b c d ≡ true → ⊥
  not_too_long a b c d le e = ground arith

  -- lms_hash_parts: SHA-256 takes the parts one after the other, the others from one buffer.
  unfoldable pub lms_hash_parts : List ℕ → List ℕ → List ℕ → List ℕ → HashAlg → Result (List ℕ)
  lms_hash_parts a b c d alg =
      let total = length a + length b + length c + length d in
      let all = a ++ (b ++ (c ++ d)) in
      if too_long (length a) (length b) (length c) (length d)
      then err invalid
      else if same_alg alg sha256
      then ok (lib.sha256_digest all)
      else if ltb stack_buf total && not (lib.malloc total)
      then err invalid
      else lms_hash alg all lms_n

  -- The digest of 32 bytes, with no error left.
  unfoldable pub digest : HashAlg → List ℕ → List ℕ
  digest sha256 msg = lib.sha256_digest msg
  digest shake256 msg = lib.shake256_output msg 32
  digest haraka msg = lib.haraka_output msg

  -- A total length that lms_hash_parts can do: no overflow, and a buffer.
  abbrev pub Hashable : ℕ → Type 0
  Hashable total = (total ≤ lib.size_max) × ((total ≤ stack_buf) ⊎ (lib.malloc total ≡ true))

  module _ (h : IsHashLib lib) where
    pub length-digest : (alg : HashAlg) (msg : List ℕ) → length (digest alg msg) ≡ 32
    unfolding digest
    length-digest sha256 msg = h.sha256_length msg
    length-digest shake256 msg = h.shake256_length msg 32
    length-digest haraka msg = h.haraka_length msg

    -- Within the library lms_hash is called for 32 bytes only, and does not fail.
    pub lms_hash-digest : (alg : HashAlg) (msg : List ℕ) → lms_hash alg msg 32 ≡ ok (digest alg msg)
    unfolding lms_hash digest
    lms_hash-digest sha256 msg = ap ok (take-length 32 _ (h.sha256_length msg))
    lms_hash-digest shake256 msg = refl
    lms_hash-digest haraka msg = refl

    -- With hash functions that give as many bytes as they promise, and parts whose total does not
    -- exceed SIZE_MAX and either fits the stack buffer or is given a buffer by malloc: hashing in
    -- parts does not fail, and is the hash of the concatenation.
    pub lms_hash_parts-digest :
        (a b c d : List ℕ) (alg : HashAlg)
        → Hashable (length a + length b + length c + length d)
        → lms_hash_parts a b c d alg ≡ ok (digest alg (a ++ (b ++ (c ++ d))))
    unfolding lms_hash_parts
    lms_hash_parts-digest a b c d alg (fits, buffer) =
        if_cases P (too_long (length a) (length b) (length c) (length d))
          (λ e. absurd (not_too_long (length a) (length b) (length c) (length d) fits e))
          λ _.
            if_cases P (same_alg alg sha256) (λ e. incremental alg (same_alg_sound alg sha256 e))
              λ _.
                if_cases P (ltb stack_buf total && not (lib.malloc total))
                  (λ e. absurd (room buffer e)) (λ _. lms_hash-digest alg (a ++ (b ++ (c ++ d))))
      where
        total : ℕ
        total = length a + length b + length c + length d

        P : Result (List ℕ) → Type 0
        P r = r ≡ ok (digest alg (a ++ (b ++ (c ++ d))))

        room :
            (total ≤ stack_buf) ⊎ (lib.malloc total ≡ true)
            → (ltb stack_buf total && not (lib.malloc total)) ≡ true
            → ⊥
        room b e = ground arith

        incremental :
            (x : HashAlg)
            → x ≡ sha256
            → ok (lib.sha256_digest (a ++ (b ++ (c ++ d)))) ≡ ok (digest x (a ++ (b ++ (c ++ d))))
        incremental x e = rw e (unfold digest in refl)
