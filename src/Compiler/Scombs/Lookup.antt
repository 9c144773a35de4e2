-- ===== src/Compiler/Scombs/Lookup.antt =====
-- The hash table against the plain array (`get_scomb` of super.c).
use nreduce.Base.{
  ==-refl, ℕ, zero, suc, ◌≤◌, ◌<◌, Bool, true, false, ◌≡◌, refl, sym, ap, ap₂, ◌∙◌, List, [], ◌∷◌,
  length, get_elem?, Option, none, some, ◌==◌, if◌then◌else◌, str_eq, str_eq_iff, arith, inl, inr,
  Bool-cases,
}
use mathlib.Core.Option
use nreduce.Compiler.Syntax.{Name}
use nreduce.Compiler.Scombs.{hash, Scomb, Scombs, walk, get_scomb}

abbrev pub name_at : List Scomb → ℕ → Option Name
name_at scombs i = Option.map (λ (sc : Scomb). sc.name) (get_elem? scombs i)

abbrev pub newest : (Name → Bool) → Option Name → ℕ → Option ℕ → Option ℕ
newest test none n older = older
newest test (some name) n older = if test name then some n else older

-- The largest index below `n` with a name that passes a test.
unfoldable pub last_at : (Name → Bool) → List Scomb → ℕ → Option ℕ
last_at test scombs zero = none
last_at test scombs (suc n) = newest test (name_at scombs n) n (last_at test scombs n)

abbrev pub has_hash : ℕ → Name → Bool
has_hash h name = hash name == h

abbrev pub is_named : Name → Name → Bool
is_named wanted name = str_eq name wanted

-- The links below index `n`: each entry is followed by the next older one with the same hash.
pub record IsLinked (scombs : List Scomb) (n : ℕ) : Type 0 where
  pub next :
      (i : ℕ) (sc : Scomb)
      → i < n
      → get_elem? scombs i ≡ some sc
      → sc.hashnext ≡ last_at (has_hash (hash sc.name)) scombs i

-- The table is in order when each chain begins at the newest entry with its hash.
pub record IsHashed (src : Scombs) : Type 0 where
  pub heads : (h : ℕ) → src.schash h ≡ last_at (has_hash h) src.scombs (length src.scombs)
  pub linked : IsLinked src.scombs (length src.scombs)

pub get_elem?-lt :
    {A : Type 0} (xs : List A) (i : ℕ) → i < length xs → (a : A) × (get_elem? xs i ≡ some a)
get_elem?-lt [] i h = absurd (omega arith)
get_elem?-lt (x ∷ xs) zero h = (x, refl)
get_elem?-lt (x ∷ xs) (suc i) h = get_elem?-lt xs i (omega arith)

module _ (scombs : List Scomb) (n : ℕ) (sc : Scomb) (at : get_elem? scombs n ≡ some sc) where
  last_at-step :
      (test : Name → Bool)
      → last_at test scombs (suc n) ≡ newest test (some sc.name) n (last_at test scombs n)
  unfolding last_at
  last_at-step test =
      ap (λ o. newest test (Option.map (λ (sc : Scomb). sc.name) o) n (last_at test scombs n)) at

  pub last_at_hit :
      (test : Name → Bool) → test sc.name ≡ true → last_at test scombs (suc n) ≡ some n
  last_at_hit test e = last_at-step test ∙ rw e refl

  pub last_at_skip :
      (test : Name → Bool)
      → test sc.name ≡ false
      → last_at test scombs (suc n) ≡ last_at test scombs n
  last_at_skip test e = last_at-step test ∙ rw e refl

  walk_hit :
      (fuel : ℕ) (name : Name)
      → str_eq sc.name name ≡ true
      → walk scombs (suc fuel) (some n) name ≡ some n
  unfolding walk
  walk_hit fuel name e = rw (at, e) refl

  walk_next :
      (fuel : ℕ) (name : Name)
      → str_eq sc.name name ≡ false
      → walk scombs (suc fuel) (some n) name ≡ walk scombs fuel sc.hashnext name
  unfolding walk
  walk_next fuel name e = rw (at, e) refl

walk-last_at :
    (scombs : List Scomb) (fuel n : ℕ) (name : Name)
    → n < fuel
    → n ≤ length scombs
    → IsLinked scombs (length scombs)
    → walk scombs fuel (last_at (has_hash (hash name)) scombs n) name
      ≡ last_at (is_named name) scombs n
unfolding walk last_at
walk-last_at scombs zero n name f l h = absurd (omega arith)
walk-last_at scombs (suc fuel) zero name f l h = refl
walk-last_at scombs (suc fuel) (suc n) name f l h =
    let (sc, e) = get_elem?-lt scombs n (omega arith) in
    elim (Bool-cases (str_eq sc.name name)) [
      | inl same ↦
          let hit =
            ==-refl (hash sc.name) (hash name) (ap hash ((str_eq_iff sc.name name).0 same)) in
          ap (λ c. walk scombs (suc fuel) c name)
            (last_at_hit scombs n sc e (has_hash (hash name)) hit)
          ∙ walk_hit scombs n sc e fuel name same
          ∙ sym (last_at_hit scombs n sc e (is_named name) same)
      | inr differ ↦ elim (Bool-cases (hash sc.name == hash name)) [
        | inl hit ↦
            let same : hash sc.name ≡ hash name = ground arith in
            ap (λ c. walk scombs (suc fuel) c name)
              (last_at_hit scombs n sc e (has_hash (hash name)) hit)
            ∙ walk_next scombs n sc e fuel name differ
            ∙ ap (λ c. walk scombs fuel c name)
                (h.next n sc (omega arith) e ∙ ap (λ k. last_at (has_hash k) scombs n) same)
            ∙ walk-last_at scombs fuel n name (omega arith) (omega arith) h
            ∙ sym (last_at_skip scombs n sc e (is_named name) differ)
        | inr miss ↦
            ap (λ c. walk scombs (suc fuel) c name)
              (last_at_skip scombs n sc e (has_hash (hash name)) miss)
            ∙ walk-last_at scombs (suc fuel) n name (omega arith) (omega arith) h
            ∙ sym (last_at_skip scombs n sc e (is_named name) differ)
      ]
    ]

-- In a table that is in order a lookup finds the newest supercombinator with the name, and none if
-- there is none.
pub get_scomb-last_at :
    (src : Scombs) (name : Name)
    → IsHashed src
    → get_scomb src name ≡ last_at (is_named name) src.scombs (length src.scombs)
unfolding get_scomb
get_scomb-last_at src name h =
    ap (λ c. walk src.scombs (suc (length src.scombs)) c name) (h.heads (hash name))
    ∙ walk-last_at src.scombs (suc (length src.scombs)) (length src.scombs) name (omega arith)
        (omega arith) h.linked

-- What is found depends on the names alone.
pub last_at-names :
    (test : Name → Bool) (xs ys : List Scomb) (n : ℕ)
    → ((i : ℕ) → i < n → name_at xs i ≡ name_at ys i)
    → last_at test xs n ≡ last_at test ys n
unfolding last_at
last_at-names test xs ys zero e = refl
last_at-names test xs ys (suc n) e =
    ap₂ (λ o r. newest test o n r) (e n (omega arith))
      (last_at-names test xs ys n (λ i l. e i (omega arith)))
