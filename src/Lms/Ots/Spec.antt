-- ===== src/Lms/Ots/Spec.antt =====
-- What LM-OTS of src/lm_ots.c computes when nothing fails and no backend is registered: hash
-- chains, the one-time public key and the signature, with no errors in the way.
use sec_lms.Prelude.{ℕ, zero, suc, ◌+◌, ◌-◌, ◌%◌, ◌^◌, List, [], ◌∷◌, ◌++◌}
use sec_lms.Prelude.Bytes.{put_be32, put_be16}
use sec_lms.Lms.{HashAlg, PrivateKey}
use sec_lms.Lms.Params.{LmotsParam}
use sec_lms.Lms.Coef.{coef, checksum}
use sec_lms.Lms.Hash.{HashLib, digest}
use sec_lms.Lms.Ots.{prefix, d_mesg, d_pblc, c_prg_domain}

-- The values of `count` chains from `i` on, one behind the other.
abbrev pub values : ℕ → ℕ → (ℕ → List ℕ) → List ℕ
values zero i g = []
values (suc k) i g = g i ++ values k (i + 1) g

module _ (lib : HashLib) (alg : HashAlg) where
  -- `k` steps of chain `i` from step `j` on.
  unfoldable pub chain : List ℕ → ℕ → ℕ → ℕ → ℕ → List ℕ → List ℕ
  chain I q i j zero value = value
  chain I q i j (suc k) value =
      chain I q i (j + 1) k (digest lib alg (prefix I q i ++ ((j % 256) ∷ value)))

  -- The start of chain `i` of key `q`, and the randomizer.
  abbrev pub private_value : PrivateKey → ℕ → ℕ → List ℕ
  private_value priv q i = digest lib alg (prefix priv.I q i ++ (0xff ∷ priv.seed))

  abbrev pub randomizer : PrivateKey → ℕ → List ℕ
  randomizer priv q = digest lib alg (prefix priv.I q c_prg_domain ++ priv.seed)

  -- The message digest with its checksum.
  abbrev pub full_digest : LmotsParam → List ℕ → ℕ → List ℕ → List ℕ → List ℕ
  full_digest p I q C message =
      let Q = digest lib alg ((prefix I q d_mesg ++ C) ++ (message ++ ([] ++ []))) in
      Q ++ put_be16 (checksum Q p.n p.w p.ls)

  -- The ends of all chains, and the key that hashes them.
  abbrev pub chain_ends : PrivateKey → ℕ → LmotsParam → List ℕ
  chain_ends priv q p =
      values p.p 0 (λ i. chain priv.I q i 0 (2 ^ p.w - 1) (private_value priv q i))

  abbrev pub key_of : List ℕ → ℕ → List ℕ → List ℕ
  key_of I q ends = digest lib alg (prefix I q d_pblc ++ (ends ++ ([] ++ [])))

  -- The chain values of a signature of `message`: chain `i` is advanced by digit `i`.
  abbrev pub signature_values : PrivateKey → ℕ → LmotsParam → List ℕ → List ℕ
  signature_values priv q p message =
      let Q = full_digest p priv.I q (randomizer priv q) message in
      values p.p 0 (λ i. chain priv.I q i 0 (coef Q i p.w) (private_value priv q i))

  abbrev pub signature : PrivateKey → ℕ → LmotsParam → List ℕ → List ℕ
  signature priv q p message =
      put_be32 priv.lmots_type ++ (randomizer priv q ++ signature_values priv q p message)
