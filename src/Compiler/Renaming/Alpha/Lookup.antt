-- ===== src/Compiler/Renaming/Alpha/Lookup.antt =====
-- What the loop over the mappings (renaming.c) finds for a name, and where that is bound.
use mathlib.Core.Option
use nreduce.Base.{
  ℕ, suc, ◌≤◌, ◌<◌, true, false, ◌≡◌, ◌≢◌, refl, ap, sym, ◌∙◌, List, [], ◌∷◌, Option, none, some,
  arith, str_eq, str_eq_iff, str_eq-false, str_eq_refl, Bool-cases, inl, inr, ◌⊎◌,
}
use nreduce.Compiler.Syntax.{
  Name, Snode, application, lambda, builtin, symbol, letrec, scref, nil, number, string, Letrec,
  done, binding,
}
use nreduce.Compiler.Names.{genvar, genvar-injective}
use nreduce.Compiler.Nameless.{index_of, variable}
use nreduce.Compiler.Renaming.{Mapping, apply_mappings}

-- The name is none of those that the compiler makes from number `n` on.
abbrev pub IsOld : ℕ → Name → Type 0
IsOld n name = (k : ℕ) → n ≤ k → name ≢ genvar k

-- Every name of a tree, at a binding place or not, is of that kind.
unfoldable mutual
  pub OldNames : ℕ → Snode → Type 0
  OldNames n (application l r strict) = OldNames n l × OldNames n r
  OldNames n (lambda name body) = IsOld n name × OldNames n body
  OldNames n (letrec rec body) = OldValues n rec × OldNames n body
  OldNames n (symbol name) = IsOld n name
  OldNames n (builtin bif) = Unit
  OldNames n (scref sc) = Unit
  OldNames n nil = Unit
  OldNames n (number num) = Unit
  OldNames n (string value) = Unit

  pub OldValues : ℕ → Letrec → Type 0
  OldValues n done = Unit
  OldValues n (binding name value strict rest) = IsOld n name × OldNames n value × OldValues n rest

abbrev pub froms : List Mapping → List Name
froms [] = []
froms (mp ∷ m) = mp.from ∷ froms m

abbrev pub tos : List Mapping → List Name
tos [] = []
tos (mp ∷ m) = mp.to ∷ tos m

-- The mappings lead from old names to generated ones, the newest of which has the largest number,
-- below `k`.
abbrev pub IsFreshTo : ℕ → ℕ → List Mapping → Type 0
IsFreshTo n k [] = n ≤ k
IsFreshTo n k (mp ∷ m) =
    (j : ℕ) × (mp.to ≡ genvar j) × (j < k) × (n ≤ j) × IsOld n mp.from × IsFreshTo n j m

pub fresh-le : (n k : ℕ) (m : List Mapping) → IsFreshTo n k m → n ≤ k
fresh-le n k [] h = h
fresh-le n k (mp ∷ m) (j, e, l, g, o, r) = omega arith

pub fresh-weaken : (n k k' : ℕ) (m : List Mapping) → k ≤ k' → IsFreshTo n k m → IsFreshTo n k' m
fresh-weaken n k k' [] l h = omega arith
fresh-weaken n k k' (mp ∷ m) l (j, e, b, g, o, r) = (j, e, omega arith, g, o, r)

-- Where the loop over the mappings ends.
record Looked (n k : ℕ) (name : Name) (m : List Mapping) : Type 0 where
  same_place : index_of (apply_mappings name m) (tos m) ≡ index_of name (froms m)
  untouched : index_of name (froms m) ≡ none → apply_mappings name m ≡ name
  result : (apply_mappings name m ≡ name) ⊎ ((j : ℕ) × (apply_mappings name m ≡ genvar j) × (j < k))

-- A generated name that is no source of a mapping stays.
apply-genvar :
    (n k j : ℕ) (m : List Mapping)
    → n ≤ j
    → IsFreshTo n k m
    → apply_mappings (genvar j) m ≡ genvar j
unfolding apply_mappings
apply-genvar n k j [] l h = refl
apply-genvar n k j (mp ∷ m) l (i, e, b, g, o, r) =
    ground (arith, apply-genvar n i j m l r, str_eq_iff mp.from (genvar j), o j l)

index_of-skip :
    (name b : Name) (bs : List Name)
    → str_eq b name ≡ false
    → index_of name (b ∷ bs) ≡ Option.map suc (index_of name bs)
unfolding index_of
index_of-skip name b bs h = rw h

index_of-hit :
    (name b : Name) (bs : List Name) → str_eq b name ≡ true → index_of name (b ∷ bs) ≡ some 0
unfolding index_of
index_of-hit name b bs h = rw h

apply-skip :
    (name : Name) (mp : Mapping) (m : List Mapping)
    → str_eq mp.from name ≡ false
    → apply_mappings name (mp ∷ m) ≡ apply_mappings name m
unfolding apply_mappings
apply-skip name mp m h = rw h

apply-hit :
    (name : Name) (mp : Mapping) (m : List Mapping)
    → str_eq mp.from name ≡ true
    → apply_mappings name (mp ∷ m) ≡ apply_mappings mp.to m
unfolding apply_mappings
apply-hit name mp m h = rw h

map-suc-none : (o : Option ℕ) → Option.map suc o ≡ none → o ≡ none
map-suc-none none e = refl
map-suc-none (some i) e = cc

-- The result of looking further is not the newest name.
result-ne :
    (n i : ℕ) (name to : Name) (m : List Mapping)
    → IsOld n name
    → n ≤ i
    → to ≡ genvar i
    → Looked n i name m
    → str_eq to (apply_mappings name m) ≡ false
result-ne n i name to m o g e ih = str_eq-false to (apply_mappings name m) (λ same. elim ih.result [
  | inl stays ↦ o i g (sym stays ∙ sym same ∙ e)
  | inr (j, made, below) ↦
      let eq = genvar-injective i j (sym e ∙ same ∙ made) in absurd (omega arith)
])

look :
    (n k : ℕ) (name : Name) (m : List Mapping) → IsOld n name → IsFreshTo n k m → Looked n k name m
unfolding index_of apply_mappings
look n k name [] o h = record { same_place = refl; untouched = λ _. refl; result = inl refl }
look n k name (mp ∷ m) o (i, e, b, g, of, r) = elim (Bool-cases (str_eq mp.from name)) [
  | inl hit ↦
      let ends : apply_mappings name (mp ∷ m) ≡ mp.to =
        apply-hit name mp m hit
        ∙ ap (λ x. apply_mappings x m) e
        ∙ apply-genvar n i i m g r
        ∙ sym e in
      record {
        same_place =
            ap (λ x. index_of x (mp.to ∷ tos m)) ends
            ∙ index_of-hit mp.to mp.to (tos m) (str_eq_refl mp.to)
            ∙ sym (index_of-hit name mp.from (froms m) hit);
        untouched = λ missing. cc (index_of-hit name mp.from (froms m) hit);
        result = inr (i, ends ∙ e, b);
      }
  | inr miss ↦
      let ih = look n i name m o r in
      let on : apply_mappings name (mp ∷ m) ≡ apply_mappings name m = apply-skip name mp m miss in
      record {
        same_place =
            ap (λ x. index_of x (mp.to ∷ tos m)) on
            ∙ index_of-skip (apply_mappings name m) mp.to (tos m)
                (result-ne n i name mp.to m o g e ih)
            ∙ ap (Option.map suc) ih.same_place
            ∙ sym (index_of-skip name mp.from (froms m) miss);
        untouched = λ missing.
            on
            ∙ ih.untouched (
                map-suc-none (index_of name (froms m))
                  (sym (index_of-skip name mp.from (froms m) miss) ∙ missing));
        result = elim ih.result [
          | inl stays ↦ inl (on ∙ stays)
          | inr (j, made, below) ↦ inr (j, on ∙ made, omega arith)
        ];
      }
]

-- A symbol denotes the same variable before and after, or is the same free name.
pub variable-apply :
    (n k : ℕ) (name : Name) (m : List Mapping)
    → IsOld n name
    → IsFreshTo n k m
    → variable (apply_mappings name m) (index_of (apply_mappings name m) (tos m))
      ≡ variable name (index_of name (froms m))
unfolding variable
variable-apply n k name m o h =
    let l = look n k name m o h in
    ap (variable (apply_mappings name m)) l.same_place
    ∙ settle (index_of name (froms m)) refl l.untouched
  where
    settle :
        (place : Option ℕ)
        → index_of name (froms m) ≡ place
        → (index_of name (froms m) ≡ none → apply_mappings name m ≡ name)
        → variable (apply_mappings name m) place ≡ variable name place
    settle none e u = ap (λ x. variable x none) (u e)
    settle (some i) e u = refl
