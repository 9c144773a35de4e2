-- ===== src/Compiler/Scombs/Check.antt =====
-- `schash_check` (super.c) on a table that is in order.
use nreduce.Base.{
  lt_or_eq, ==-refl, ℕ, zero, suc, ◌≤◌, ◌<◌, true, false, ◌&&◌, ◌||◌, ◌≡◌, refl, sym, ap, ap₂, ◌∙◌,
  List, length, get_elem?, some, ◌==◌, arith, inl, inr, Bool-cases,
}
use nreduce.Compiler.Scombs.{
  hash, Scomb, Scombs, chain_hashed, in_chain, chains_hashed, all_in_chain, schash_check,
  global_hash_size,
}
use nreduce.Compiler.Scombs.Lookup.{
  last_at, has_hash, IsLinked, IsHashed, last_at_hit, last_at_skip, get_elem?-lt,
}

module _ (scombs : List Scomb) (n : ℕ) (sc : Scomb) (at : get_elem? scombs n ≡ some sc) where
  chain_hashed-step :
      (fuel h : ℕ)
      → chain_hashed scombs (suc fuel) (some n) h
        ≡ (hash sc.name == h && chain_hashed scombs fuel sc.hashnext h)
  unfolding chain_hashed
  chain_hashed-step fuel h = cc

  in_chain-step :
      (fuel wanted : ℕ)
      → in_chain scombs (suc fuel) (some n) wanted
        ≡ (n == wanted || in_chain scombs fuel sc.hashnext wanted)
  unfolding in_chain
  in_chain-step fuel wanted = cc

chain_hashed-last_at :
    (scombs : List Scomb) (fuel n h : ℕ)
    → n < fuel
    → n ≤ length scombs
    → IsLinked scombs (length scombs)
    → chain_hashed scombs fuel (last_at (has_hash h) scombs n) h ≡ true
unfolding chain_hashed last_at
chain_hashed-last_at scombs zero n h f l k = absurd (omega arith)
chain_hashed-last_at scombs (suc fuel) zero h f l k = refl
chain_hashed-last_at scombs (suc fuel) (suc n) h f l k =
    let (sc, e) = get_elem?-lt scombs n (omega arith) in
    elim (Bool-cases (hash sc.name == h)) [
      | inl hit ↦
          let same : hash sc.name ≡ h = ground arith in
          ap (λ c. chain_hashed scombs (suc fuel) c h) (last_at_hit scombs n sc e (has_hash h) hit)
          ∙ chain_hashed-step scombs n sc e fuel h
          ∙ ap (λ b. b && chain_hashed scombs fuel sc.hashnext h) hit
          ∙ ap (λ c. chain_hashed scombs fuel c h)
              (k.next n sc (omega arith) e ∙ ap (λ g. last_at (has_hash g) scombs n) same)
          ∙ chain_hashed-last_at scombs fuel n h (omega arith) (omega arith) k
      | inr miss ↦
          ap (λ c. chain_hashed scombs (suc fuel) c h)
            (last_at_skip scombs n sc e (has_hash h) miss)
          ∙ chain_hashed-last_at scombs (suc fuel) n h (omega arith) (omega arith) k
    ]

in_chain-last_at :
    (scombs : List Scomb) (fuel n h scno : ℕ) (wanted : Scomb)
    → n < fuel
    → n ≤ length scombs
    → IsLinked scombs (length scombs)
    → scno < n
    → get_elem? scombs scno ≡ some wanted
    → (hash wanted.name == h) ≡ true
    → in_chain scombs fuel (last_at (has_hash h) scombs n) scno ≡ true
unfolding in_chain last_at
in_chain-last_at scombs zero n h scno wanted f l k b at eq = absurd (omega arith)
in_chain-last_at scombs (suc fuel) zero h scno wanted f l k b at eq = absurd (omega arith)
in_chain-last_at scombs (suc fuel) (suc n) h scno wanted f l k b at eq =
    let (sc, e) = get_elem?-lt scombs n (omega arith) in
    elim (lt_or_eq scno n b) [
      | inr here ↦
          let both : some wanted ≡ some sc = sym at ∙ ap (get_elem? scombs) here ∙ e in
          let same : wanted ≡ sc = cc in
          let hit : (hash sc.name == h) ≡ true =
            ap (λ (c : Scomb). hash c.name == h) (sym same) ∙ eq in
          ap (λ c. in_chain scombs (suc fuel) c scno) (last_at_hit scombs n sc e (has_hash h) hit)
          ∙ in_chain-step scombs n sc e fuel scno
          ∙ ap (λ i. n == i || in_chain scombs fuel sc.hashnext scno) here
          ∙ ap (λ b. b || in_chain scombs fuel sc.hashnext scno) (==-refl n n refl)
      | inl below ↦ elim (Bool-cases (hash sc.name == h)) [
        | inl hit ↦
            let same : hash sc.name ≡ h = ground arith in
            let rest =
              ap (λ c. in_chain scombs fuel c scno)
                (k.next n sc (omega arith) e ∙ ap (λ g. last_at (has_hash g) scombs n) same)
              ∙ in_chain-last_at scombs fuel n h scno wanted (omega arith) (omega arith) k below at
                  eq in
            let ne : (n == scno) ≡ false = ground arith in
            ap (λ c. in_chain scombs (suc fuel) c scno) (last_at_hit scombs n sc e (has_hash h) hit)
            ∙ in_chain-step scombs n sc e fuel scno
            ∙ ap₂ (λ b c. b || c) ne rest
        | inr miss ↦
            ap (λ c. in_chain scombs (suc fuel) c scno)
              (last_at_skip scombs n sc e (has_hash h) miss)
            ∙ in_chain-last_at scombs (suc fuel) n h scno wanted (omega arith) (omega arith) k below
                at eq
      ]
    ]

chains_hashed_lem : (src : Scombs) (h : ℕ) → IsHashed src → chains_hashed src h ≡ true
unfolding chains_hashed
chains_hashed_lem src zero o = refl
chains_hashed_lem src (suc h) o = ap₂ ◌&&◌ (chains_hashed_lem src h o) (
    ap (λ c. chain_hashed src.scombs (suc (length src.scombs)) c h) (o.heads h)
    ∙ chain_hashed-last_at src.scombs (suc (length src.scombs)) (length src.scombs) h (omega arith)
        (omega arith) o.linked)

all_in_chain-step :
    (src : Scombs) (n : ℕ) (sc : Scomb)
    → get_elem? src.scombs n ≡ some sc
    → all_in_chain src (suc n) ≡ (
        all_in_chain src n
        && in_chain src.scombs (suc (length src.scombs)) (src.schash (hash sc.name)) n)
unfolding all_in_chain
all_in_chain-step src n sc e = cc

all_in_chain_lem :
    (src : Scombs) (n : ℕ) → n ≤ length src.scombs → IsHashed src → all_in_chain src n ≡ true
unfolding all_in_chain
all_in_chain_lem src zero l o = refl
all_in_chain_lem src (suc n) l o =
    let (sc, e) = get_elem?-lt src.scombs n (omega arith) in
    all_in_chain-step src n sc e
    ∙ ap₂ ◌&&◌ (all_in_chain_lem src n (omega arith) o) (
        ap (λ c. in_chain src.scombs (suc (length src.scombs)) c n) (o.heads (hash sc.name))
        ∙ in_chain-last_at src.scombs (suc (length src.scombs)) (length src.scombs) (hash sc.name) n
            sc (omega arith) (omega arith) o.linked (omega arith) e
            (==-refl (hash sc.name) (hash sc.name) refl))

-- The check of the table succeeds on every table that is in order.
pub schash_check-IsHashed : (src : Scombs) → IsHashed src → schash_check src ≡ true
unfolding schash_check
schash_check-IsHashed src o =
    ap₂ ◌&&◌ (chains_hashed_lem src global_hash_size o)
      (all_in_chain_lem src (length src.scombs) (omega arith) o)
