-- ===== src/Hss/Trust.antt =====
-- What hss_verify of src/hss.c has checked when it accepts, whatever the backends.
use sec_lms.Prelude.{
  ℕ, zero, suc, ◌+◌, ◌-◌, ◌%◌, ◌^◌, ◌≤◌, ◌<◌, ◌≡◌, ◌∙◌, ap, subst, true, not, List, ◌++◌, take,
  drop, length, leb, ltb, ◌==◌, ◌||◌, take-append-drop, arith, ==_iff, leb→le,
}
use sec_lms.Prelude.Bytes.{get_be32}
use sec_lms.Lms.{Result, ok, err, invalid, verify, or_fail, guard, PublicKey}
use sec_lms.Lms.Results.{>>=-Went, or_fail_inv, guard_inv}
use sec_lms.Lms.Params.{lms_signature_len}
use sec_lms.Lms.Codec.{public_key_parse}
use sec_lms.Lms.Hash.{HashLib}
use sec_lms.Lms.Ots.{Backends}
use sec_lms.Lms.Verify.{AuthRoot, lms_verify}
use sec_lms.Hss.{HssPublicKey, max_levels}
use sec_lms.Hss.Verify.{follow, hss_verify}

abbrev value_or : Result (PublicKey × List ℕ) → PublicKey × List ℕ → PublicKey × List ℕ
value_or (ok v) other = v
value_or (err code) other = other

in_range : (n : ℕ) → not (n == 0 || ltb max_levels n) ≡ true → (0 < n) × (n ≤ max_levels)
in_range n e = ground arith

module _ (lib : HashLib) (be : Backends) (backend : AuthRoot) where
  -- A chain of `count` certificates from one key to another. Each is a signature, under the key
  -- before it, of the bytes of the next key, which follow it.
  pub data Trust : ℕ → PublicKey → List ℕ → PublicKey → List ℕ → Type 0 where
    here : (key : PublicKey) (rest : List ℕ) → Trust 0 key rest key rest
    certified :
        (count : ℕ) (key child last : PublicKey) (cert bytes more rest : List ℕ)
        → lms_verify lib be backend key bytes cert ≡ ok tt
        → public_key_parse bytes ≡ ok child
        → Trust count child more last rest
        → Trust (suc count) key (cert ++ (bytes ++ more)) last rest

  follow-Trust :
      (count : ℕ) (key : PublicKey) (bytes : List ℕ) (last : PublicKey) (rest : List ℕ)
      → follow lib be backend count key bytes ≡ ok (last, rest)
      → Trust count key bytes last rest
  follow-Trust zero key bytes last rest e =
      subst (λ v. Trust 0 key bytes v.0 v.1) (ap (λ r. value_or r (key, bytes)) e) (here key bytes)
  follow-Trust (suc count) key bytes last rest e =
      let n = lms_signature_len key.lms_type key.lmots_type in
      let child_pub = take 56 (drop n bytes) in
      let more = drop 56 (drop n bytes) in
      let a =
        >>=-Went (guard (not (n == 0 || ltb (length bytes) (n + 56))) invalid) _ (last, rest) e in
      let b =
        >>=-Went (or_fail (lms_verify lib be backend key child_pub (take n bytes)) verify) _
          (last, rest) (a.after) in
      let c = >>=-Went (or_fail (public_key_parse child_pub) verify) _ (last, rest) (b.after) in
      subst (λ x. Trust (suc count) key x last rest)
        (ap (λ x. take n bytes ++ x) (take-append-drop 56 (drop n bytes))
          ∙ take-append-drop n bytes)
        (certified count key c.value last (take n bytes) child_pub more rest
          (or_fail_inv (lms_verify lib be backend key child_pub (take n bytes)) verify tt b.call)
          (or_fail_inv (public_key_parse child_pub) verify c.value c.call)
          (follow-Trust count c.value more last rest c.after))

  -- What an accepted signature holds.
  pub record Accepted (key : HssPublicKey) (message signature : List ℕ) : Type 0 where
    pub some_level : 0 < key.levels
    pub bounded : key.levels ≤ max_levels
    pub has_head : 4 ≤ length signature
    pub same_levels : (get_be32 signature 0 + 1) % 2 ^ 32 ≡ key.levels
    pub last : PublicKey
    pub final : List ℕ
    pub trust : Trust (key.levels - 1) key.root_pub (drop 4 signature) last final
    pub signed : lms_verify lib be backend last message final ≡ ok tt

  -- Whatever the backends, when hss_verify accepts a signature, the key has 1 to 8 levels, the first
  -- word of the signature is their number less one, and behind it stand that many certificates that
  -- lead from the root key to a key under which lms_verify accepts the rest as a signature of the
  -- message: each certificate is accepted under the key before it, as a signature of the bytes that
  -- follow it, and public_key_parse reads the next key from these.
  pub hss_verify-Accepted :
      (key : HssPublicKey) (message signature : List ℕ)
      → hss_verify lib be backend key message signature ≡ ok tt
      → Accepted key message signature
  unfolding hss_verify
  hss_verify-Accepted key message signature e =
      let levels = (get_be32 signature 0 + 1) % 2 ^ 32 in
      let a = >>=-Went (guard (not (key.levels == 0)) invalid) _ tt e in
      let b = >>=-Went (guard (leb 4 (length signature)) invalid) _ tt (a.after) in
      let c = >>=-Went (guard (levels == key.levels) verify) _ tt (b.after) in
      let d = >>=-Went (guard (not (levels == 0 || ltb max_levels levels)) verify) _ tt (c.after) in
      let f =
        >>=-Went (follow lib be backend (levels - 1) key.root_pub (drop 4 signature)) _ tt
          (d.after) in
      let same = (==_iff levels key.levels).0 (guard_inv (levels == key.levels) verify c.call) in
      let range =
        in_range levels (guard_inv (not (levels == 0 || ltb max_levels levels)) verify d.call) in
      record {
        some_level = omega (arith, same, range.0);
        bounded = omega (arith, same, range.1);
        has_head =
            leb→le 4 (length signature) (guard_inv (leb 4 (length signature)) invalid b.call);
        same_levels = same;
        last = f.value.0;
        final = f.value.1;
        trust =
            subst (λ n. Trust (n - 1) key.root_pub (drop 4 signature) f.value.0 f.value.1) same
              (follow-Trust (levels - 1) key.root_pub (drop 4 signature) f.value.0 f.value.1
                f.call);
        signed = f.after;
      }
