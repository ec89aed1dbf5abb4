-- ===== src/Hss/Init.antt =====
-- hss_private_key_init of src/hss.c, without backends.
use sec_lms.Prelude.{
  ℕ, zero, suc, ◌+◌, ◌-◌, ◌≤◌, ◌<◌, ◌≡◌, refl, ◌∙◌, ap, ap₂, subst, true, not, List, replicate,
  length, none, arith, ◌==◌, ltb, ◌||◌,
}
use sec_lms.Prelude.Bytes.{byte}
use sec_lms.Lms.{ok, exhausted, or_fail, HashAlg, same_alg_refl, PrivateKey, PublicKey}
use sec_lms.Lms.Results.{Gives, Gives-bind, Gives-or_fail}
use sec_lms.Lms.Params.{LmsParam, LmotsParam, lms_param, lmots_param, matching_params}
use sec_lms.Lms.Hash.{HashLib, IsHashLib}
use sec_lms.Lms.Ots.{software}
use sec_lms.Lms.Verify.Correct.{public_key}
use sec_lms.Hss.{HssPrivateKey, put, put_self, put_ne, max_levels}
use sec_lms.Hss.Levels.{sign_child_certificate}
use sec_lms.Hss.Sign.{blank, same_hash, build_from, certify_from, hss_private_key_init}
use sec_lms.Hss.Ready.{Left, LevelAt, Chained, Ready}
use sec_lms.Hss.Build.{
  built, new_key, new_key-Pair, build_level_lem, SignedChild, sign_child_certificate-SignedChild,
}
use sec_lms.Hss.Certify.{cases2, Level-at, SignedChild-Chained}
use sec_lms.Hss.Refresh.{new_Left}

-- Two typecodes of one hash function.
pub record TypesOf (alg : HashAlg) (lms_type lmots_type : ℕ) : Type 0 where
  pub lms : LmsParam
  pub p : LmotsParam
  pub lms_known : lms_param lms_type ≡ ok lms
  pub lmots_known : lmots_param lmots_type ≡ ok p
  pub lms_alg : lms.hash_alg ≡ alg
  pub lmots_alg : p.hash_alg ≡ alg

TypesOf-matching :
    (alg : HashAlg) (a b : ℕ) (t : TypesOf alg a b) → matching_params a b ≡ ok (t.lms, t.p)
unfolding matching_params
TypesOf-matching alg a b t =
    rw (t.lms_known, t.lmots_known) (rw (t.lms_alg, t.lmots_alg) (rw (same_alg_refl alg) refl))

module _ (alg : HashAlg) (levels : ℕ) (lms_types lmots_types : ℕ → ℕ)
    (types : (i : ℕ) → i < levels → TypesOf alg (lms_types i) (lmots_types i)) where
  same_hash-ok :
      (count i : ℕ)
      → 0 < levels
      → i + count ≤ levels
      → same_hash count i lms_types lmots_types ≡ ok tt
  same_hash-ok zero i pos le = refl
  same_hash-ok (suc count) i pos le =
      let first = types 0 pos in
      let this = types i (omega arith) in
      rw (first.lms_known, this.lms_known, first.lmots_known, this.lmots_known)
        (rw (first.lms_alg, this.lms_alg, first.lmots_alg, this.lmots_alg)
          (rw (same_alg_refl alg) (same_hash-ok count (suc i) pos (omega arith))))

  module _ (lib : HashLib) (h : IsHashLib lib) (big : 0xffff ≤ lib.size_max) where
    -- The first `n` levels are built; nothing is signed yet.
    record BuiltUpTo (n : ℕ) (k : HssPrivateKey) : Type 0 where
      all_levels : k.levels ≡ levels
      built_level : (i : ℕ) → i < n → LevelAt lib k i
      unused : (i : ℕ) → i < n → (k.keys i).q ≡ 0
      first_generation : (i : ℕ) → k.generation i ≡ replicate 32 0

    byte-zeros : (n i : ℕ) → byte (replicate n 0) i ≡ 0
    byte-zeros zero i = refl
    byte-zeros (suc n) zero = refl
    byte-zeros (suc n) (suc i) = byte-zeros n i

    module _ (k : HssPrivateKey) (i : ℕ) (lt : i < levels) (b : BuiltUpTo i k) where
      t : TypesOf alg (lms_types i) (lmots_types i)
      t = types i lt

      abbrev typed : HssPrivateKey
      typed = record k {
        lms_types = put k.lms_types i (lms_types i);
        lmots_types = put k.lmots_types i (lmots_types i);
      }

      abbrev lms_here : LmsParam
      lms_here = t.lms

      abbrev p_here : LmotsParam
      p_here = t.p

      abbrev key_here : PrivateKey
      key_here = new_key lib typed i lms_here

      abbrev pub_here : PublicKey
      pub_here = public_key lib key_here lms_here p_here

      abbrev after : HssPrivateKey
      after = built lib typed i lms_here p_here

      matching : matching_params (typed.lms_types i) (typed.lmots_types i) ≡ ok (lms_here, p_here)
      matching =
          ap₂ matching_params (put_self k.lms_types i (lms_types i))
            (put_self k.lmots_types i (lmots_types i))
          ∙ TypesOf-matching alg (lms_types i) (lmots_types i) t

      here : LevelAt lib after i
      here =
          Level-at lib refl refl refl (put_self k.keys i key_here) (put_self k.pubs i pub_here)
            (record {
              lms = lms_here;
              p = p_here;
              pair = new_key-Pair lib h big typed i lms_here p_here matching;
              lms_same = refl;
              lmots_same = refl;
              bytes =
                  λ j. omega (arith, ap (λ g. byte g j) (b.first_generation i), byte-zeros 32 j);
              length_generation = ap length (b.first_generation i);
            })

      build-BuiltUpTo : BuiltUpTo (suc i) after
      build-BuiltUpTo = record {
        all_levels = b.all_levels;
        built_level =
            cases2 (λ j. j < suc i → LevelAt lib after j) i (λ lt. here)
              (λ j n lt.
                Level-at lib (put_ne k.lms_types i (lms_types i) j n)
                  (put_ne k.lmots_types i (lmots_types i) j n) refl (put_ne k.keys i key_here j n)
                  (put_ne k.pubs i pub_here j n) (b.built_level j (omega arith)));
        unused =
            cases2 (λ j. j < suc i → (after.keys j).q ≡ 0) i
              (λ lt. ap (λ x. x.q) (put_self k.keys i key_here))
              (λ j n lt. ap (λ x. x.q) (put_ne k.keys i key_here j n) ∙ b.unused j (omega arith));
        first_generation = b.first_generation;
      }

    build_from-BuiltUpTo :
        (count i : ℕ) (k : HssPrivateKey)
        → i + count ≡ levels
        → BuiltUpTo i k
        → Gives (BuiltUpTo levels) (build_from lib software none count k i lms_types lmots_types)
    build_from-BuiltUpTo zero i k sum b = subst (λ n. BuiltUpTo n k) (omega arith) b
    build_from-BuiltUpTo (suc count) i k sum b =
        rw
          (build_level_lem lib h big (typed k i (omega arith) b) i (lms_here k i (omega arith) b)
            (p_here k i (omega arith) b) (matching k i (omega arith) b))
          (build_from-BuiltUpTo count (suc i) (after k i (omega arith) b) (omega arith)
            (build-BuiltUpTo k i (omega arith) b))

    -- Certificates are signed for the levels above `i`, none by `i` or a level below.
    record CertifiedUpTo (i : ℕ) (k : HssPrivateKey) : Type 0 where
      all_levels : k.levels ≡ levels
      chained : Chained lib (suc i) k
      unused : (j : ℕ) → i ≤ j → j < levels → (k.keys j).q ≡ 0
      first_generation : (j : ℕ) → k.generation j ≡ replicate 32 0

    -- A new key: the invariants, in the first generation of each level, with a leaf of the last.
    pub record Fresh (k : HssPrivateKey) : Type 0 where
      pub ready : Ready lib k
      pub all_levels : k.levels ≡ levels
      pub first_generation : (i : ℕ) → k.generation i ≡ replicate 32 0
      pub left : Left (k.keys (levels - 1))

    certify-CertifiedUpTo :
        (i : ℕ) (k k' : HssPrivateKey)
        → CertifiedUpTo i k
        → SignedChild lib k i k'
        → CertifiedUpTo (suc i) k'
    certify-CertifiedUpTo i k k' c s = record {
      all_levels = ap (λ x. x.levels) s.result ∙ c.all_levels;
      chained = SignedChild-Chained lib k i k' c.chained s;
      unused = λ j le lt.
          ap (λ x. (x.keys j).q) s.result
          ∙ ap (λ x. x.q) (put_ne k.keys i s.key j (omega arith))
          ∙ c.unused j (omega arith) lt;
      first_generation = λ j. ap (λ x. x.generation j) s.result ∙ c.first_generation j;
    }

    certify_from-Fresh :
        (count i : ℕ) (k : HssPrivateKey)
        → i + suc count ≡ levels
        → CertifiedUpTo i k
        → Gives Fresh (certify_from lib software none count k i)
    certify_from-Fresh zero i k sum c = record {
      ready = subst (λ n. Chained lib n k) (omega (arith, c.all_levels)) c.chained;
      all_levels = c.all_levels;
      first_generation = c.first_generation;
      left =
          new_Left lib k (levels - 1) (c.chained.level (levels - 1) (omega (arith, c.all_levels)))
            (omega (arith, c.unused (levels - 1) (omega arith) (omega arith)));
    }
    certify_from-Fresh (suc count) i k sum c =
        Gives-bind (SignedChild lib k i) Fresh
          (or_fail (sign_child_certificate lib software none k i) exhausted)
          (λ next. certify_from lib software none count next (suc i))
          (Gives-or_fail (SignedChild lib k i) (sign_child_certificate lib software none k i)
            exhausted
            (sign_child_certificate-SignedChild lib h big k i (omega (arith, c.all_levels))
              (c.chained.level i (omega (arith, c.all_levels)))
              (c.chained.level (suc i) (omega (arith, c.all_levels)))
              (new_Left lib k i (c.chained.level i (omega (arith, c.all_levels)))
                (omega (arith, c.unused i (omega arith) (omega arith))))))
          λ next s.
            certify_from-Fresh count (suc i) next (omega arith) (certify-CertifiedUpTo i k next c s)

    levels_ok : 0 < levels → levels ≤ max_levels → not (levels == 0 || ltb max_levels levels) ≡ true
    levels_ok pos le = ground arith

    -- Without backends, on a platform whose hash functions give as many bytes as they promise and
    -- whose SIZE_MAX is at least 65535, for 1 to 8 levels with known typecodes, all of one hash
    -- function: hss_private_key_init succeeds, and in the key that it gives, each level is a key pair
    -- with its public key, each certificate verifies the public key of the level below, each
    -- generation is the first, and the last level has a leaf left.
    pub hss_private_key_init-Fresh :
        (master_seed : List ℕ)
        → 0 < levels
        → levels ≤ max_levels
        → Gives Fresh
            (hss_private_key_init lib software none levels lms_types lmots_types master_seed)
    unfolding hss_private_key_init
    hss_private_key_init-Fresh master_seed pos le = rw (levels_ok pos le) (
        rw (same_hash-ok (levels - 1) 1 pos (omega arith)) (
          Gives-bind (BuiltUpTo levels) Fresh
            (build_from lib software none levels (blank levels master_seed) 0 lms_types lmots_types)
            (λ k. certify_from lib software none (levels - 1) k 0)
            (build_from-BuiltUpTo levels 0 (blank levels master_seed) (omega arith) start)
            λ k b. certify_from-Fresh (levels - 1) 0 k (omega arith) (begin k b)))
      where
        start : BuiltUpTo 0 (blank levels master_seed)
        start = record {
          all_levels = refl;
          built_level = λ i lt. absurd (omega arith);
          unused = λ i lt. absurd (omega arith);
          first_generation = λ i. refl;
        }

        begin : (k : HssPrivateKey) → BuiltUpTo levels k → CertifiedUpTo 0 k
        begin k b = record {
          all_levels = b.all_levels;
          chained = record {
            some_level = omega (arith, b.all_levels);
            bounded = omega (arith, b.all_levels);
            level = λ i lt. b.built_level i (omega (arith, b.all_levels));
            certified = λ i lt. absurd (omega arith);
          };
          unused = λ j lo lt. b.unused j lt;
          first_generation = b.first_generation;
        }
