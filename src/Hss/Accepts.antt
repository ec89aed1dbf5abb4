-- ===== src/Hss/Accepts.antt =====
-- hss_sign against hss_verify of src/hss.c, both without backends.
use sec_lms.Prelude.{
  ℕ, ◌+◌, ◌-◌, ◌%◌, ◌^◌, ◌≤◌, ◌<◌, ◌≡◌, ◌⊎◌, refl, sym, ◌∙◌, ap, ap₂, subst, true, not, List, ◌++◌,
  length, none, arith, ltb, ◌==◌, ◌||◌, length-append, eq→==, le→leb,
}
use sec_lms.Prelude.Bytes.{put_be32, get_be32, get_be32-put, value}
use sec_lms.Lms.{Result, ok, err, invalid, exhausted, ◌>>=◌, or_fail, PrivateKey}
use sec_lms.Lms.Results.{Gives, Gives-bind, Gives-or_fail}
use sec_lms.Lms.Params.{total_len, lms_signature_len}
use sec_lms.Lms.Hash.{HashLib, IsHashLib, Hashable}
use sec_lms.Lms.Ots.{software}
use sec_lms.Lms.Sign.{lms_do_sign}
use sec_lms.Lms.Verify.{lms_verify}
use sec_lms.Lms.Verify.Pair.{Signs, lms_do_sign-Signs}
use sec_lms.Hss.{HssPrivateKey, HssPublicKey, put, put_self, put_ne, max_levels}
use sec_lms.Hss.Levels.{refresh_level_if_exhausted}
use sec_lms.Hss.Sign.{hss_signature_len, hss_sign, room_after, chain_from}
use sec_lms.Hss.Verify.{hss_verify}
use sec_lms.Hss.Ready.{Left, Forward, Level, LevelAt, Ready}
use sec_lms.Hss.Build.{Left-bound, lms_signature_len-Pair}
use sec_lms.Hss.Certify.{cases2, Level-at}
use sec_lms.Hss.Refresh.{
  Available, Refreshed, refresh_level_if_exhausted-Refreshed, refresh_level_if_exhausted-exhausted,
}
use sec_lms.Hss.Chain.{
  lens, chain, chain_from-chain, certs_len-lens, length-chain, follow-chain, level_len,
  level_len_pos,
}

has_levels : (n : ℕ) → 0 < n → not (n == 0) ≡ true
has_levels n lt = ground arith

enough_room :
    (needed room : ℕ) → 0 < needed → needed ≤ room → not (needed == 0 || ltb room needed) ≡ true
enough_room needed room pos le = ground arith

within_levels : (n : ℕ) → 0 < n → n ≤ max_levels → not (n == 0 || ltb max_levels n) ≡ true
within_levels n pos le = ground arith

zero_add : (n : ℕ) → 0 + n ≡ n
zero_add n = omega arith

room_fits :
    (lib : HashLib) (room off n : ℕ) → off + n ≤ room → n ≤ room_after lib software none room off
room_fits lib room off n le = ground arith

-- The public key of a private key.
abbrev pub public_of : HssPrivateKey → HssPublicKey
public_of k = record { levels = k.levels; root_pub = k.pubs 0 }

-- The generation is later, or it is the same and the index is greater.
abbrev pub Later : List ℕ → ℕ → List ℕ → ℕ → Type 0
Later g q g' q' = (value g < value g') ⊎ ((value g ≡ value g') × (q < q'))

later→forward : (g : List ℕ) (q : ℕ) (g' : List ℕ) (q' : ℕ) → Later g q g' q' → Forward g q g' q'
later→forward g q g' q' l = ground arith

further :
    (g : List ℕ) (q : ℕ) (g' : List ℕ) (q' q'' : ℕ)
    → Forward g q g' q'
    → q'' ≡ q' + 1
    → Later g q g' q''
further g q g' q' q'' f e = ground arith

module _ (lib : HashLib) where
  -- What hss_sign gives: the key's invariants again, a state that is later, and a signature of the
  -- length that hss_signature_len tells, which is accepted under the key's public key.
  pub record Signed (k : HssPrivateKey) (message : List ℕ) (r : HssPrivateKey × List ℕ)
      : Type 0 where
    pub ready : Ready lib r.0
    pub levels : r.0.levels ≡ k.levels
    pub root : r.0.pubs 0 ≡ k.pubs 0
    pub forward : (i : ℕ) → Forward (k.generation i) (k.keys i).q (r.0.generation i) (r.0.keys i).q
    pub later :
        Later
          (k.generation (k.levels - 1))
          (k.keys (k.levels - 1)).q
          (r.0.generation (k.levels - 1))
          (r.0.keys (k.levels - 1)).q
    pub exact : length r.1 ≡ hss_signature_len k
    pub accepted : hss_verify lib software none (public_of k) message r.1 ≡ ok tt

  module _ (h : IsHashLib lib) (big : 0xffff ≤ lib.size_max) where
    hss_signature_len-lens :
        (k : HssPrivateKey)
        → Ready lib k
        → hss_signature_len k
          ≡ 4
            + lens (k.levels - 1) k.lms_types k.lmots_types 0
            + lms_signature_len (k.lms_types (k.levels - 1)) (k.lmots_types (k.levels - 1))
    unfolding hss_signature_len
    hss_signature_len-lens k c = rw (has_levels k.levels c.some_level) (
        rw (certs_len-lens lib k c (k.levels - 1) 0 (omega (arith, c.some_level))) (
          rw
            (has_levels
              (lms_signature_len (k.lms_types (k.levels - 1)) (k.lmots_types (k.levels - 1)))
              (level_len_pos lib k (k.levels - 1)
                (c.level (k.levels - 1) (omega (arith, c.some_level)))))
            refl))

    -- hss_verify of a head, a chain and a final signature.
    hss_verify-chain :
        (k : HssPrivateKey) (message final : List ℕ)
        → Ready lib k
        → lms_verify lib software none (k.pubs (k.levels - 1)) message final ≡ ok tt
        → hss_verify lib software none
            (public_of k)
            message
            ((put_be32 (k.levels - 1) ++ chain (k.levels - 1) k 0) ++ final)
          ≡ ok tt
    unfolding hss_verify
    hss_verify-chain k message final c accepted = rw (has_levels k.levels c.some_level) (
        rw (word) (
          rw (eq→== {a = k.levels} refl) (
            rw (within_levels k.levels c.some_level c.bounded) (
              rw (le→leb {a = 4} (long final)) (
                rw
                  (follow-chain lib k c h big (k.levels - 1) 0 final (omega (arith, c.some_level))
                    ∙ ap (λ j. ok (k.pubs j, final)) (zero_add (k.levels - 1)))
                  accepted)))))
      where
        long :
            (xs : List ℕ) → 4 ≤ length (put_be32 (k.levels - 1) ++ (chain (k.levels - 1) k 0 ++ xs))
        long xs = omega arith

        word :
            (get_be32 (put_be32 (k.levels - 1) ++ (chain (k.levels - 1) k 0 ++ final)) 0 + 1)
              % 2 ^ 32
            ≡ k.levels
        word = omega (
          arith,
          get_be32-put (k.levels - 1) (chain (k.levels - 1) k 0 ++ final)
              (omega (arith, c.bounded)),
          c.some_level,
          c.bounded,
        )

    -- The rest of hss_sign, after the refresh.
    abbrev sign_with : List ℕ → ℕ → HssPrivateKey → Result (HssPrivateKey × List ℕ)
    sign_with message room next = do
      bytes ← or_fail (chain_from (next.levels - 1) next 0) invalid
      let head = put_be32 (next.levels - 1) ++ bytes
      (key, signature) ←
          or_fail
            (lms_do_sign lib software none (next.keys (next.levels - 1)) message
              (room_after lib software none room (length head)))
            exhausted
      ok (record next { keys = put next.keys (next.levels - 1) key }, head ++ signature)

    module _ (k : HssPrivateKey) (message : List ℕ) (room : ℕ) (ready : Ready lib k)
        (fits : Hashable lib (54 + length message)) (enough : hss_signature_len k ≤ room) where
      abbrev last : ℕ
      last = k.levels - 1

      module _ (next : HssPrivateKey) (f : Refreshed lib h big last k next) where
        abbrev bottom : ℕ
        bottom = next.levels - 1

        same_last : bottom ≡ last
        same_last = ap (λ n. n - 1) f.advance.levels

        below : bottom < next.levels
        below = omega (arith, f.ready.some_level)

        v : LevelAt lib next bottom
        v = f.ready.level bottom below

        left : Left (next.keys bottom)
        left = subst (λ i. Left (next.keys i)) (sym same_last) f.left

        abbrev head : List ℕ
        head = put_be32 bottom ++ chain bottom next 0

        head_len : length head ≡ 4 + lens bottom next.lms_types next.lmots_types 0
        head_len = omega (arith, length-chain lib next f.ready h big bottom 0 (omega arith))

        final_len :
            lms_signature_len (next.lms_types bottom) (next.lmots_types bottom)
            ≡ total_len v.lms v.p
        final_len =
            sym (level_len lib next bottom v)
            ∙ lms_signature_len-Pair lib v.lms v.p (next.keys bottom) (next.pubs bottom) v.pair

        same_len : hss_signature_len next ≡ hss_signature_len k
        same_len =
            hss_signature_len-lens next f.ready
            ∙ rw (f.advance.lms_types, f.advance.lmots_types, f.advance.levels) refl
            ∙ sym (hss_signature_len-lens k ready)

        whole : length head + total_len v.lms v.p ≡ hss_signature_len k
        whole = omega (arith, hss_signature_len-lens next f.ready, same_len, head_len, final_len)

        abbrev S : PrivateKey × List ℕ → Type 0
        S = Signs lib v.lms v.p (next.keys bottom) (next.pubs bottom) message

        final : Gives S (
            or_fail
              (lms_do_sign lib software none
                (next.keys bottom)
                message
                (room_after lib software none room (length head)))
              exhausted)
        final =
            Gives-or_fail S
              (lms_do_sign lib software none (next.keys bottom) message
                (room_after lib software none room (length head)))
              exhausted
              (lms_do_sign-Signs lib h big v.lms v.p (next.keys bottom) (next.pubs bottom) message
                (room_after lib software none room (length head)) v.pair fits
                (Left-bound lib v.lms v.p (next.keys bottom) (next.pubs bottom) v.pair left)
                (room_fits lib room (length head) (total_len v.lms v.p)
                  (omega (arith, whole, enough))))

        module _ (r : PrivateKey × List ℕ) (s : S r) where
          abbrev after : HssPrivateKey
          after = record next { keys = put next.keys bottom r.0 }

          signed-Level :
              Level lib
                (next.lms_types bottom)
                (next.lmots_types bottom)
                (next.generation bottom)
                r.0
                (next.pubs bottom)
          signed-Level = record {
            lms = v.lms;
            p = v.p;
            pair = s.pair;
            lms_same = s.same_lms ∙ v.lms_same;
            lmots_same = s.same_lmots ∙ v.lmots_same;
            bytes = v.bytes;
            length_generation = v.length_generation;
          }

          used :
              Later
                (k.generation bottom)
                (k.keys bottom).q
                (next.generation bottom)
                (after.keys bottom).q
          used =
              further (k.generation bottom) (k.keys bottom).q (next.generation bottom)
                (next.keys bottom).q (after.keys bottom).q (f.advance.forward bottom)
                (ap (λ x. x.q) (put_self next.keys bottom r.0) ∙ s.next)

          result : Signed k message (after, head ++ r.1)
          result = record {
            ready = record {
              some_level = f.ready.some_level;
              bounded = f.ready.bounded;
              level =
                  cases2 (λ i. i < next.levels → LevelAt lib after i) bottom
                    (λ lt.
                      Level-at lib refl refl refl (put_self next.keys bottom r.0) refl signed-Level)
                    (λ i n lt.
                      Level-at lib refl refl refl (put_ne next.keys bottom r.0 i n) refl
                        (f.ready.level i lt));
              certified = f.ready.certified;
            };
            levels = f.advance.levels;
            root = f.advance.root;
            forward =
                cases2
                  (λ i. Forward (k.generation i) (k.keys i).q (next.generation i) (after.keys i).q)
                  bottom
                  (later→forward (k.generation bottom) (k.keys bottom).q (next.generation bottom)
                    (after.keys bottom).q used)
                  (λ i n.
                    subst (λ x. Forward (k.generation i) (k.keys i).q (next.generation i) x.q)
                      (sym (put_ne next.keys bottom r.0 i n)) (f.advance.forward i));
            later =
                subst
                  (λ i. Later (k.generation i) (k.keys i).q (next.generation i) (after.keys i).q)
                  same_last used;
            exact = omega (arith, length-append head r.1, s.exact, whole);
            accepted =
                ap (λ key. hss_verify lib software none key message (head ++ r.1))
                  (ap₂ (λ n key. record { levels = n; root_pub = key }) (sym f.advance.levels)
                    (sym f.advance.root))
                ∙ hss_verify-chain next message r.1 f.ready s.accepted;
          }

        sign_with-Signed : Gives (Signed k message) (sign_with message room next)
        sign_with-Signed = rw (chain_from-chain bottom next 0) (
            Gives-bind S (Signed k message)
              (or_fail
                (lms_do_sign lib software none (next.keys bottom) message
                  (room_after lib software none room (length head)))
                exhausted)
              (λ r. ok (record next { keys = put next.keys bottom r.0 }, head ++ r.1)) final result)

    -- Without backends, on a platform whose hash functions give as many bytes as they promise, whose
    -- SIZE_MAX is at least 65535 and that can hash the message, with malloc giving the copy and room
    -- for as many bytes as hss_signature_len tells, for a key with the invariants of
    -- hss_private_key_init of which a level has a leaf left and no generation is within 8 of its
    -- end: hss_sign succeeds. It gives a signature of that length, which hss_verify accepts under the
    -- public key of the key as it was; the key keeps its invariants and its public key; the index of
    -- each level within its generation never goes back, and that of the last level goes on.
    pub hss_sign-Signed :
        (k : HssPrivateKey) (message : List ℕ) (room : ℕ)
        → Ready lib k
        → Hashable lib (54 + length message)
        → hss_signature_len k ≤ room
        → Available k (k.levels - 1)
        → ((i : ℕ) → i < k.levels → value (k.generation i) + 8 ≤ 256 ^ 32)
        → Gives (Signed k message) (hss_sign lib software none true k message room)
    unfolding hss_sign
    hss_sign-Signed k message room ready fits enough available far =
        rw (has_levels k.levels ready.some_level) (
          rw
            (enough_room (hss_signature_len k) room (omega (arith, hss_signature_len-lens k ready))
              enough)
            (Gives-bind (Refreshed lib h big (k.levels - 1) k) (Signed k message)
              (or_fail (refresh_level_if_exhausted lib software none (k.levels - 1) k) exhausted)
              (sign_with message room)
              (Gives-or_fail (Refreshed lib h big (k.levels - 1) k)
                (refresh_level_if_exhausted lib software none (k.levels - 1) k) exhausted
                (refresh_level_if_exhausted-Refreshed lib h big (k.levels - 1) k
                  (omega (arith, ready.some_level)) ready available
                  (λ i lt. omega (arith, far i lt, ready.some_level, ready.bounded))))
              (sign_with-Signed k message room ready fits enough)))

    -- Without backends, on a platform whose hash functions give as many bytes as they promise and
    -- whose SIZE_MAX is at least 65535, with malloc giving the copy and room for as many bytes as
    -- hss_signature_len tells, for a key with the invariants of hss_private_key_init of which no level
    -- has a leaf left: hss_sign fails with LMS_ERR_EXHAUSTED.
    pub hss_sign-exhausted :
        (k : HssPrivateKey) (message : List ℕ) (room : ℕ)
        → Ready lib k
        → hss_signature_len k ≤ room
        → ((i : ℕ) → i < k.levels → Left (k.keys i) → ⊥)
        → hss_sign lib software none true k message room ≡ err exhausted
    unfolding hss_sign
    hss_sign-exhausted k message room ready enough used =
        rw (has_levels k.levels ready.some_level) (
          rw
            (enough_room (hss_signature_len k) room (omega (arith, hss_signature_len-lens k ready))
              enough)
            (rw
              (refresh_level_if_exhausted-exhausted lib h big (k.levels - 1) k
                (omega (arith, ready.some_level)) ready
                (λ i le. used i (omega (arith, ready.some_level))))
              refl))
