-- ===== src/Lms/Ots/Chain.antt =====
-- The loops of src/lm_ots.c: chains compose, and do not fail within their bounds.
use sec_lms.Prelude.{
  ℕ, zero, suc, ◌+◌, ◌-◌, ◌*◌, ◌%◌, ◌≤◌, ◌<◌, ◌≡◌, refl, sym, ◌∙◌, ap, List, [], ◌∷◌, ◌++◌, take,
  drop, length, leb, arith, take-append, length-append, ◌&&◌, true,
}
use sec_lms.Lms.{Result, ok, HashAlg}
use sec_lms.Lms.Hash.{HashLib, IsHashLib, digest, length-digest, lms_hash-digest}
use sec_lms.Lms.Ots.{Backends, prefix, collect, chain_loop, lmots_chain_compute}
use sec_lms.Lms.Ots.Spec.{values, chain}

-- A loop whose rounds all succeed.
pub collect-values :
    (k i : ℕ) (f : ℕ → Result (List ℕ)) (g : ℕ → List ℕ)
    → ((j : ℕ) → j < i + k → f j ≡ ok (g j))
    → collect k i f ≡ ok (values k i g)
collect-values zero i f g h = refl
collect-values (suc k) i f g h =
    rw (h i (omega arith), collect-values k (i + 1) f g (λ j hj. h j (omega arith)))

pub length-values :
    (k i : ℕ) (g : ℕ → List ℕ) → ((j : ℕ) → length (g j) ≡ 32) → length (values k i g) ≡ k * 32
length-values zero i g h = omega arith
length-values (suc k) i g h =
    omega (arith, length-append (g i) (values k (i + 1) g), h i, length-values k (i + 1) g h)

complement_add : (a m : ℕ) → a < m → a + (m - 1 - a) ≡ m - 1
complement_add a m h = omega arith

zero_add : (n : ℕ) → 0 + n ≡ n
zero_add n = omega arith

suc_add : (n m : ℕ) → suc n + m ≡ suc (n + m)
suc_add n m = omega arith

add_zero : (n : ℕ) → n + 0 ≡ n
add_zero n = omega arith

next_add : (n m : ℕ) → (n + 1) + m ≡ n + suc m
next_add n m = omega arith

next_row : (j : ℕ) → suc j * 32 ≡ 32 + j * 32
next_row j = omega arith

pub drop-append_add :
    (n m : ℕ) (xs ys : List ℕ) → length xs ≡ n → drop (n + m) (xs ++ ys) ≡ drop m ys
drop-append_add n m [] ys e = ap (λ k. drop k ys) (omega arith)
drop-append_add zero m (x ∷ xs) ys e = absurd (omega arith)
drop-append_add (suc n) m (x ∷ xs) ys e = rw (suc_add n m) (drop-append_add n m xs ys (omega arith))

-- The value of round `j`, cut out of the concatenation.
pub slice-values :
    (k i j : ℕ) (g : ℕ → List ℕ)
    → ((m : ℕ) → length (g m) ≡ 32)
    → j < k
    → take 32 (drop (j * 32) (values k i g)) ≡ g (i + j)
slice-values zero i j g h lt = absurd (omega arith)
slice-values (suc k) i zero g h lt =
    rw (add_zero i) (take-append 32 (g i) (values k (i + 1) g) (h i))
slice-values (suc k) i (suc j) g h lt =
    ap (λ m. take 32 (drop m (g i ++ values k (i + 1) g))) (next_row j)
    ∙ ap (take 32) (drop-append_add 32 (j * 32) (g i) (values k (i + 1) g) (h i))
    ∙ slice-values k (i + 1) j g h (omega arith)
    ∙ ap g (next_add i j)

in_range :
    (i start steps : ℕ)
    → i ≤ 0xffff
    → start + steps ≤ 0xff
    → (leb i 0xffff && leb start 0xff && leb steps 0xff && leb (start + steps) 0xff) ≡ true
in_range i start steps hi hs = ground arith

module _ (lib : HashLib) (alg : HashAlg) where
  -- Steps `j .. j + a + b - 1` are steps `j .. j + a - 1`, then the rest.
  chain-add :
      (I : List ℕ) (q i j a b : ℕ) (v : List ℕ)
      → chain lib alg I q i j (a + b) v ≡ chain lib alg I q i (j + a) b (chain lib alg I q i j a v)
  unfolding chain
  chain-add I q i j zero b v = rw (zero_add b, add_zero j) refl
  chain-add I q i j (suc a) b v =
      rw (suc_add a b, ← next_add j a)
        (chain-add I q i (j + 1) a b (digest lib alg (prefix I q i ++ ((j % 256) ∷ v))))

  -- A chain that was advanced by a digit below `m`, advanced by the complement, is at its end.
  pub chain-complement :
      (I : List ℕ) (q i a m : ℕ) (v : List ℕ)
      → a < m
      → chain lib alg I q i a (m - 1 - a) (chain lib alg I q i 0 a v)
        ≡ chain lib alg I q i 0 (m - 1) v
  chain-complement I q i a m v lt =
      ap (λ s. chain lib alg I q i s (m - 1 - a) (chain lib alg I q i 0 a v)) (sym (zero_add a))
      ∙ sym (chain-add I q i 0 a (m - 1 - a) v)
      ∙ ap (λ k. chain lib alg I q i 0 k v) (complement_add a m lt)

  module _ (h : IsHashLib lib) where
    pub length-chain :
        (I : List ℕ) (q i j k : ℕ) (v : List ℕ)
        → length v ≡ 32
        → length (chain lib alg I q i j k v) ≡ 32
    unfolding chain
    length-chain I q i j zero v e = e
    length-chain I q i j (suc k) v e = length-chain I q i (j + 1) k _ (length-digest lib h alg _)

    module _ (be : Backends) where
      chain_loop-chain :
          (I : List ℕ) (q i j k : ℕ) (v : List ℕ)
          → chain_loop lib be I alg q i j k v ≡ ok (chain lib alg I q i j k v)
      unfolding chain_loop chain
      chain_loop-chain I q i j zero v = refl
      chain_loop-chain I q i j (suc k) v =
          rw (lms_hash-digest lib h alg (prefix I q i ++ ((j % 256) ∷ v)))
            (chain_loop-chain I q i (j + 1) k _)

      -- A chain of a known index with its steps within a byte does not fail.
      pub chain_compute-chain :
          (I : List ℕ) (q i start steps : ℕ) (v : List ℕ)
          → i ≤ 0xffff
          → start + steps ≤ 0xff
          → lmots_chain_compute lib be I alg q i start steps v
            ≡ ok (chain lib alg I q i start steps v)
      unfolding lmots_chain_compute
      chain_compute-chain I q i start steps v hi hs =
          rw (in_range i start steps hi hs) (chain_loop-chain I q i start steps v)
