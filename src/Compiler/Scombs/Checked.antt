-- ===== src/Compiler/Scombs/Checked.antt =====
-- What `schash_check` (super.c) accepts.
use nreduce.Base.{
  lt_or_eq, ==_iff, ◌||◌, ℕ, zero, suc, ◌<◌, true, ◌&&◌, ◌≡◌, sym, ap, subst, ◌∙◌, List, [], ◌∷◌,
  length, get_elem?, Option, none, some, ◌==◌, arith, inl, inr, Bool-cases, Option-cases,
}
use nreduce.Compiler.Scombs.{
  hash, Scomb, Scombs, chain_hashed, in_chain, chains_hashed, all_in_chain, schash_check,
  global_hash_size,
}
use nreduce.Compiler.Scombs.Lookup.{IsHashed}
use nreduce.Compiler.Scombs.Check.{schash_check-IsHashed}

-- The entry `j` is reached along the links from a place on.
pub data InChain (scombs : List Scomb) (j : ℕ) : Option ℕ → Type 0 where
  here : InChain scombs j (some j)
  later :
      (i : ℕ) (sc : Scomb)
      → get_elem? scombs i ≡ some sc
      → InChain scombs j sc.hashnext
      → InChain scombs j (some i)

-- Every entry that a chain reaches has the hash of the chain, and every entry is reached by the
-- chain of its hash.
pub record IsChecked (src : Scombs) : Type 0 where
  pub hashed :
      (h j : ℕ)
      → h < global_hash_size
      → InChain src.scombs j (src.schash h)
      → (sc : Scomb) × (get_elem? src.scombs j ≡ some sc) × (hash sc.name ≡ h)
  pub reached :
      (j : ℕ) (sc : Scomb)
      → get_elem? src.scombs j ≡ some sc
      → InChain src.scombs j (src.schash (hash sc.name))

module _ (scombs : List Scomb) where
  -- What the check says of the first entry of a chain, and of the rest.
  chain_hashed-some :
      (fuel i h : ℕ)
      → chain_hashed scombs (suc fuel) (some i) h ≡ true
      → (sc : Scomb) × (get_elem? scombs i ≡ some sc)
        × (hash sc.name ≡ h)
        × (chain_hashed scombs fuel sc.hashnext h ≡ true)
  unfolding chain_hashed
  chain_hashed-some fuel i h e = elim (Option-cases (get_elem? scombs i)) [
    | inl out ↦ cc (rw (out, chain_hashed) at e)
    | inr (sc, at) ↦
        let both : hash sc.name == h && chain_hashed scombs fuel sc.hashnext h ≡ true =
          rw (at, chain_hashed) at e in
        (sc, at, ground arith, ground arith)
  ]

  chain_hashed-InChain :
      (fuel h j : ℕ) (c : Option ℕ)
      → chain_hashed scombs fuel c h ≡ true
      → InChain scombs j c
      → (sc : Scomb) × (get_elem? scombs j ≡ some sc) × (hash sc.name ≡ h)
  unfolding chain_hashed
  chain_hashed-InChain zero h j c e r = cc
  chain_hashed-InChain (suc fuel) h j c e here =
      let (sc, at, same, rest) = chain_hashed-some fuel j h e in (sc, at, same)
  chain_hashed-InChain (suc fuel) h j c e (later i sc at r) =
      let (sc', at', same, rest) = chain_hashed-some fuel i h e in
      let eq : sc' ≡ sc = cc in
      chain_hashed-InChain fuel h j sc.hashnext
        (ap (λ (s : Scomb). chain_hashed scombs fuel s.hashnext h) (sym eq) ∙ rest) r

  in_chain-InChain :
      (fuel j : ℕ) (c : Option ℕ) → in_chain scombs fuel c j ≡ true → InChain scombs j c
  unfolding in_chain
  in_chain-InChain zero j c e = cc
  in_chain-InChain (suc fuel) j none e = cc
  in_chain-InChain (suc fuel) j (some i) e = elim (Option-cases (get_elem? scombs i)) [
    | inl out ↦ cc (rw (out, in_chain) at e)
    | inr (sc, at) ↦
        let either : i == j || in_chain scombs fuel sc.hashnext j ≡ true = rw (at, in_chain) at e in
        elim (Bool-cases (i == j)) [
          | inl same ↦ subst (λ k. InChain scombs j (some k)) (sym ((==_iff i j).0 same)) here
          | inr other ↦ later i sc at (in_chain-InChain fuel j sc.hashnext (rw other at either))
        ]
  ]

module _ (src : Scombs) where
  chains_hashed-at :
      (n h : ℕ)
      → h < n
      → chains_hashed src n ≡ true
      → chain_hashed src.scombs (suc (length src.scombs)) (src.schash h) h ≡ true
  unfolding chains_hashed
  chains_hashed-at zero h l e = absurd (omega arith)
  chains_hashed-at (suc n) h l e = elim (lt_or_eq h n l) [
    | inl below ↦ chains_hashed-at n h below (ground arith)
    | inr last ↦
        ap (λ k. chain_hashed src.scombs (suc (length src.scombs)) (src.schash k) k) last
        ∙ ground arith
  ]

  all_in_chain-at :
      (n j : ℕ) (sc : Scomb)
      → j < n
      → get_elem? src.scombs j ≡ some sc
      → all_in_chain src n ≡ true
      → in_chain src.scombs (suc (length src.scombs)) (src.schash (hash sc.name)) j ≡ true
  unfolding all_in_chain
  all_in_chain-at zero j sc l at e = absurd (omega arith)
  all_in_chain-at (suc n) j sc l at e = elim (lt_or_eq j n l) [
    | inl below ↦ all_in_chain-at n j sc below at (ground arith)
    | inr last ↦
        let here : get_elem? src.scombs n ≡ some sc = ap (get_elem? src.scombs) (sym last) ∙ at in
        let both : all_in_chain src n
              && in_chain src.scombs (suc (length src.scombs)) (src.schash (hash sc.name)) n
            ≡ true =
          rw (here, all_in_chain) at e in
        ap (in_chain src.scombs (suc (length src.scombs)) (src.schash (hash sc.name))) last
        ∙ ground arith
  ]

get_elem?-below :
    {A : Type 0} (xs : List A) (i : ℕ) (a : A) → get_elem? xs i ≡ some a → i < length xs
get_elem?-below [] i a e = cc
get_elem?-below (x ∷ xs) zero a e = omega arith
get_elem?-below (x ∷ xs) (suc i) a e = omega (arith, get_elem?-below xs i a e)

-- The check succeeds on every table that is in order. Where it succeeds, every entry that a chain
-- reaches has the hash of the chain, and every entry is reached by the chain of its hash.
pub schash_check-IsChecked :
    (src : Scombs)
    → (IsHashed src → schash_check src ≡ true) × (schash_check src ≡ true → IsChecked src)
unfolding schash_check
schash_check-IsChecked src = (
  λ o. schash_check-IsHashed src o,
  λ e. record {
    hashed = λ h j l r.
        chain_hashed-InChain src.scombs (suc (length src.scombs)) h j (src.schash h)
          (chains_hashed-at src global_hash_size h l (ground arith)) r;
    reached = λ j sc at.
        in_chain-InChain src.scombs (suc (length src.scombs)) j (src.schash (hash sc.name)) (
          all_in_chain-at src (length src.scombs) j sc (get_elem?-below src.scombs j sc at) at
            (ground arith));
  },
)
