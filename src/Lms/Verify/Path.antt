-- ===== src/Lms/Verify/Path.antt =====
-- The authentication path that lms_do_sign of src/lms_sign.c writes leads, in the loop of
-- lms_root_from_signature of src/lms_verify.c, from the leaf to the root.
use sec_lms.Prelude.{
  ℕ, zero, suc, ◌+◌, ◌*◌, ◌/◌, ◌%◌, ◌^◌, ◌≤◌, ◌≡◌, refl, sym, ◌∙◌, true, false, List, [], ◌++◌,
  length, arith, length-append, take-append, drop-append, ◌==◌, if_cases, if◌then◌else◌,
}
use sec_lms.Lms.{Result, ok, HashAlg, PrivateKey}
use sec_lms.Lms.Params.{LmsParam, LmotsParam, matching_params}
use sec_lms.Lms.Hash.{HashLib, IsHashLib}
use sec_lms.Lms.Ots.{software}
use sec_lms.Lms.Tree.{lms_internal_node}
use sec_lms.Lms.Tree.Laws.{
  AtLevel, node, length-node, internal-ok, lms_tree_node-node, pow_double, add_suc,
}
use sec_lms.Lms.Sign.{sibling, auth_path}
use sec_lms.Lms.Verify.{climb}

-- The siblings on the way up from a node, with `d` levels below the first.
abbrev pub siblings : (ℕ → ℕ → List ℕ) → ℕ → ℕ → ℕ → List ℕ
siblings at zero d num = []
siblings at (suc k) d num = at d (sibling num) ++ siblings at k (suc d) (num / 2)

pub sibling-AtLevel : (k num : ℕ) → AtLevel (suc k) num → AtLevel (suc k) (sibling num)
sibling-AtLevel k num (lo, hi) =
    if_cases P (num % 2 == 0) (λ e. (omega (arith), omega (arith, pow_double (suc k), even num e)))
      (λ e. (omega (arith, pow_double k, odd num e), omega arith))
  where
    P : ℕ → Type 0
    P x = AtLevel (suc k) x

    even : (n : ℕ) → (n % 2 == 0) ≡ true → n % 2 ≡ 0
    even n e = ground arith

    odd : (n : ℕ) → (n % 2 == 0) ≡ false → n % 2 ≡ 1
    odd n e = ground arith

pub parent-AtLevel : (k num : ℕ) → AtLevel (suc k) num → AtLevel k (num / 2)
parent-AtLevel k num (lo, hi) =
    (omega (arith, pow_double k), omega (arith, pow_double (suc k), pow_double k))

add_zero : (n : ℕ) → n + 0 ≡ n
add_zero n = omega arith

root_only : (num : ℕ) → AtLevel 0 num → num ≡ 1
root_only num (lo, hi) = omega (arith)

pub length-siblings :
    (at : ℕ → ℕ → List ℕ) (k d num : ℕ)
    → ((d n : ℕ) → length (at d n) ≡ 32)
    → length (siblings at k d num) ≡ k * 32
length-siblings at zero d num h = omega arith
length-siblings at (suc k) d num h = omega (
  arith,
  length-append (at d (sibling num)) (siblings at k (suc d) (num / 2)),
  h d (sibling num),
  length-siblings at k (suc d) (num / 2) h,
)

even_half : (num : ℕ) → (num % 2 == 0) ≡ true → num ≡ num / 2 * 2
even_half num e = grind arith

even_sibling : (num : ℕ) → (num % 2 == 0) ≡ true → sibling num ≡ num / 2 * 2 + 1
even_sibling num e = grind arith

odd_half : (num : ℕ) → (num % 2 == 0) ≡ false → num ≡ num / 2 * 2 + 1
odd_half num e = grind arith

odd_sibling : (num : ℕ) → (num % 2 == 0) ≡ false → sibling num ≡ num / 2 * 2
odd_sibling num e = grind arith

module _ (lib : HashLib) (h : IsHashLib lib) (big : 0xffff ≤ lib.size_max) (priv : PrivateKey)
    (lms : LmsParam) (p : LmotsParam)
    (known : matching_params priv.lms_type priv.lmots_type ≡ ok (lms, p))
    (len_I : length priv.I ≡ 16) where
  abbrev alg : HashAlg
  alg = lms.hash_alg

  abbrev at : ℕ → ℕ → List ℕ
  at d num = node lib priv alg p (2 ^ lms.height) d num

  pub auth_path-siblings :
      (k d num : ℕ)
      → d + k ≡ lms.height
      → AtLevel k num
      → auth_path lib software k priv num ≡ ok (siblings at k d num)
  unfolding auth_path
  auth_path-siblings zero d num e l = refl
  auth_path-siblings (suc k) d num e l =
      rw
        (lms_tree_node-node lib h big priv lms p known len_I d (suc k) (sibling num) e
          (sibling-AtLevel k num l))
        (rw
          (auth_path-siblings k (suc d) (num / 2) (sym (add_suc d k) ∙ e) (parent-AtLevel k num l))
          refl)

  -- One round of the loop, whichever side the node is on.
  step :
      (d num : ℕ)
      → (if num % 2 == 0
          then lms_internal_node lib software priv.I alg (num / 2) (at d num) (at d (sibling num))
          else lms_internal_node lib software priv.I alg (num / 2) (at d (sibling num)) (at d num))
        ≡ ok (at (suc d) (num / 2))
  step d num =
      if_cases Q (num % 2 == 0)
        (λ e. joined num (sibling num) (even_half num e) (even_sibling num e))
        (λ e. joined (sibling num) num (odd_sibling num e) (odd_half num e))
    where
      Q : Result (List ℕ) → Type 0
      Q r = r ≡ ok (at (suc d) (num / 2))

      joined :
          (a b : ℕ)
          → a ≡ num / 2 * 2
          → b ≡ num / 2 * 2 + 1
          → lms_internal_node lib software priv.I alg (num / 2) (at d a) (at d b)
            ≡ ok (at (suc d) (num / 2))
      joined a b ea eb = rw (ea, eb) (internal-ok lib h big priv lms p known len_I d (num / 2))

  pub climb-siblings :
      (k d num : ℕ)
      → d + k ≡ lms.height
      → AtLevel k num
      → climb lib software k priv.I alg num (at d num) (siblings at k d num) ≡ ok (at lms.height 1)
  unfolding climb
  climb-siblings zero d num e l = rw (root_only num l, sym (add_zero d) ∙ e) refl
  climb-siblings (suc k) d num e l =
      let len = length-node lib h big priv lms p known len_I d (sibling num) in
      rw
        (
          take-append 32 (at d (sibling num)) (siblings at k (suc d) (num / 2)) len,
          drop-append 32 (at d (sibling num)) (siblings at k (suc d) (num / 2)) len,
        )
        (rw (step d num)
          (climb-siblings k (suc d) (num / 2) (sym (add_suc d k) ∙ e) (parent-AtLevel k num l)))
