-- ===== src/Compiler/Renaming/Originals.antt =====
-- The new names against each other, and the way back from them (`real_varname` of debug.c).
use native.Mathlib.Nat.{add-zero}
use nreduce.Base.{
  ℕ, zero, suc, ◌+◌, ◌<◌, ◌≡◌, ap, sym, subst, ◌∙◌, List, [], ◌∷◌, ◌++◌, length, get_elem?, some,
  arith,
}
use nreduce.Compiler.Syntax.{Name, Snode, binders}
use nreduce.Compiler.Names.{
  genvar, genvar-injective, has_prefix-genvar, atoi-genvar, unsigned-genvar,
}
use nreduce.Compiler.Renaming.{Renamed, rename_variables, Vars, real_varname}
use nreduce.Compiler.Room.{RoomFor}
use nreduce.Compiler.Renaming.Plain.{renamed}
use nreduce.Compiler.Renaming.Returns.{rename_variables-renamed}
use nreduce.Compiler.Renaming.Fresh.{genvars, Names, renamed-Names}

get_elem?-genvars :
    (k n i : ℕ) (g : Name) → get_elem? (genvars k n) i ≡ some g → (g ≡ genvar (k + i)) × (i < n)
unfolding genvars
get_elem?-genvars k zero i g e = cc
get_elem?-genvars k (suc n) zero g e =
    let first : g ≡ genvar k = cc in (first ∙ ap genvar (sym (add-zero k)), omega arith)
get_elem?-genvars k (suc n) (suc i) g e =
    let (at, below) = get_elem?-genvars (suc k) n i g e in (at ∙ ap genvar (over k i), omega arith)
  where
    over : (a b : ℕ) → suc a + b ≡ a + suc b
    over a b = omega arith

get_elem?-append :
    {A : Type 0} (xs ys : List A) (k i : ℕ)
    → length xs ≡ k
    → get_elem? (xs ++ ys) (k + i) ≡ get_elem? ys i
get_elem?-append [] ys k i l = let z : k + i ≡ i = omega arith in ap (get_elem? ys) z
get_elem?-append (x ∷ xs) ys zero i l = absurd (omega arith)
get_elem?-append (x ∷ xs) ys (suc k) i l =
    let z : suc k + i ≡ suc (k + i) = omega arith in
    ap (get_elem? (x ∷ (xs ++ ys))) z ∙ get_elem?-append xs ys k i (omega arith)

-- The names at the binding places of a supercombinator, before the pass and after it.
abbrev pub old_names : List Name → Snode → List Name
old_names argnames body = argnames ++ binders body

abbrev pub new_names : Renamed → List Name
new_names r = r.argnames ++ binders r.body

module _ (src : Vars) (argnames : List Name) (body : Snode) (r : Renamed)
    (room : RoomFor argnames body) (e : rename_variables src argnames body ≡ some r) where
  given : Names src (old_names argnames body) r.src (new_names r)
  given =
      let same : some (renamed src argnames body) ≡ some r =
        sym (rename_variables-renamed src argnames body room) ∙ e in
      let eq : renamed src argnames body ≡ r = cc in
      subst (λ (x : Renamed). Names src (old_names argnames body) x.src (new_names x)) eq
        (renamed-Names src argnames body)

  new_names-at :
      (i : ℕ) (g : Name)
      → get_elem? (new_names r) i ≡ some g
      → (g ≡ genvar (src.varno + i)) × (i < length (old_names argnames body))
  new_names-at i g at =
      get_elem?-genvars src.varno (length (old_names argnames body)) i g
        (rw given.given_names at at)

-- After the pass, for which there is room on the stack, no name is bound at two places of the
-- supercombinator.
pub new_names-distinct :
    (src : Vars) (argnames : List Name) (body : Snode) (r : Renamed) (i j : ℕ) (g : Name)
    → RoomFor argnames body
    → rename_variables src argnames body ≡ some r
    → get_elem? (new_names r) i ≡ some g
    → get_elem? (new_names r) j ≡ some g
    → i ≡ j
new_names-distinct src argnames body r i j g room e ei ej =
    let same = genvar-injective (src.varno + i) (src.varno + j) (
      sym (new_names-at src argnames body r room e i g ei).0
      ∙ (new_names-at src argnames body r room e j g ej).0) in
    omega arith

-- If there is a record of every name made before, then after the pass, for which there is room on
-- the stack, each new name leads back to the name that stood at its place.
pub real_varname-new_names :
    (src : Vars) (argnames : List Name) (body : Snode) (r : Renamed) (i : ℕ) (g : Name)
    → RoomFor argnames body
    → rename_variables src argnames body ≡ some r
    → length src.oldnames ≡ src.varno
    → get_elem? (new_names r) i ≡ some g
    → real_varname r.src g ≡ get_elem? (old_names argnames body) i
unfolding real_varname
real_varname-new_names src argnames body r i g room e l at =
    let (name, below) = new_names-at src argnames body r room e i g at in
    rw
      (
        name,
        has_prefix-genvar (src.varno + i),
        unsigned-genvar (src.varno + i),
        atoi-genvar (src.varno + i),
        (given src argnames body r room e).kept,
      )
      (get_elem?-append src.oldnames (old_names argnames body) src.varno i l)
