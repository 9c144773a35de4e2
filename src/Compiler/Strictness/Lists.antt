-- ===== src/Compiler/Strictness/Lists.antt =====
-- The sorted lists of names of the strictness analyser (`add_var` and `add_union` of
-- nreduce/compiler/strictness.c, `has_name` of nreduce/network/util.c).
use Prim.Native.Nat.{Ordering, compare}
use nreduce.Base.{
  ℕ, zero, suc, ◌+◌, ◌≤◌, Bool, true, false, ◌||◌, ◌&&◌, ◌≡◌, refl, ap, inl, inr, subst, ◌⊎◌,
  str_eq_iff, length, List, [], ◌∷◌, str_eq, arith,
}
use nreduce.Compiler.Syntax.{Name}

-- `list_contains_string` on a list with no null pointer.
unfoldable pub has_name : List Name → Name → Bool
has_name [] str = false
has_name (x ∷ xs) str = str_eq x str || has_name xs str

-- The sign of `strcmp`: bytes are compared without sign.
unfoldable pub strcmp : Name → Name → Ordering
strcmp [] [] = Ordering.eq
strcmp [] (y ∷ ys) = Ordering.lt
strcmp (x ∷ xs) [] = Ordering.gt
strcmp (x ∷ xs) (y ∷ ys) = elim (compare x y) [
  | Ordering.lt ↦ Ordering.lt
  | Ordering.eq ↦ strcmp xs ys
  | Ordering.gt ↦ Ordering.gt
]

unfoldable pub add_var : List Name → Name → List Name
add_var [] name = name ∷ []
add_var (x ∷ xs) name = elim (strcmp x name) [
  | Ordering.lt ↦ x ∷ add_var xs name
  | Ordering.eq ↦ x ∷ xs
  | Ordering.gt ↦ name ∷ x ∷ xs
]

-- The loop of `add_union`; each round moves on in one of the lists.
unfoldable pub union_loop : ℕ → List Name → List Name → List Name → List Name
union_loop zero dest a b = dest
union_loop (suc fuel) dest [] b = dest
union_loop (suc fuel) dest (x ∷ xs) [] = dest
union_loop (suc fuel) dest (x ∷ xs) (y ∷ ys) = elim (strcmp x y) [
  | Ordering.lt ↦ union_loop fuel dest xs (y ∷ ys)
  | Ordering.gt ↦ union_loop fuel dest (x ∷ xs) ys
  | Ordering.eq ↦ union_loop fuel (add_var dest x) xs ys
]

unfoldable pub add_union : List Name → List Name → List Name → List Name
add_union dest a b = union_loop (length a + length b) dest a b

strcmp_sound : (a b : Name) → strcmp a b ≡ Ordering.eq → a ≡ b
unfolding strcmp
strcmp_sound [] [] h = refl
strcmp_sound [] (y ∷ ys) h = cc
strcmp_sound (x ∷ xs) [] h = cc
strcmp_sound (x ∷ xs) (y ∷ ys) h = ground (arith, strcmp_sound xs ys)

strcmp_refl : (a : Name) → strcmp a a ≡ Ordering.eq
unfolding strcmp
strcmp_refl [] = refl
strcmp_refl (x ∷ xs) = ground (arith, strcmp_refl xs)

strcmp_flip : (a b : Name) → strcmp a b ≡ Ordering.gt → strcmp b a ≡ Ordering.lt
unfolding strcmp
strcmp_flip [] [] h = cc
strcmp_flip [] (y ∷ ys) h = cc
strcmp_flip (x ∷ xs) [] h = refl
strcmp_flip (x ∷ xs) (y ∷ ys) h = ground (arith, strcmp_flip xs ys)

strcmp_trans :
    (a b c : Name) → strcmp a b ≡ Ordering.lt → strcmp b c ≡ Ordering.lt → strcmp a c ≡ Ordering.lt
unfolding strcmp
strcmp_trans [] [] c h k = cc
strcmp_trans [] (y ∷ ys) [] h k = cc
strcmp_trans [] (y ∷ ys) (z ∷ zs) h k = refl
strcmp_trans (x ∷ xs) [] c h k = cc
strcmp_trans (x ∷ xs) (y ∷ ys) [] h k = cc
strcmp_trans (x ∷ xs) (y ∷ ys) (z ∷ zs) h k = ground (arith, strcmp_trans xs ys zs)

pub has_name-add_var :
    (vars : List Name) (name x : Name)
    → has_name (add_var vars name) x ≡ (str_eq name x || has_name vars x)
unfolding has_name add_var
has_name-add_var [] name x = refl
has_name-add_var (y ∷ ys) name x =
    ground
      (arith, has_name-add_var ys name x, strcmp_sound y name, str_eq_iff y x, str_eq_iff name x)

-- In ascending order, so no name twice.
abbrev pub IsSorted : List Name → Type 0
IsSorted [] = Unit
IsSorted (x ∷ []) = Unit
IsSorted (x ∷ y ∷ rest) = (strcmp x y ≡ Ordering.lt) × IsSorted (y ∷ rest)

pub add_var-IsSorted :
    (vars : List Name) (name : Name) → IsSorted vars → IsSorted (add_var vars name)
unfolding add_var
add_var-IsSorted [] name h = tt
add_var-IsSorted (x ∷ []) name h = ground (arith, strcmp_flip x name)
add_var-IsSorted (x ∷ y ∷ rest) name h =
    ground (arith, strcmp_flip x name, strcmp_flip y name, add_var-IsSorted (y ∷ rest) name h.1)

-- A name that comes before a sorted list is not in it.
below :
    (name : Name) (x : Name) (rest : List Name)
    → IsSorted (x ∷ rest)
    → strcmp name x ≡ Ordering.lt
    → has_name (x ∷ rest) name ≡ false
unfolding has_name
below name x [] s h = ground (arith, strcmp_refl name, str_eq_iff x name)
below name x (y ∷ rest) s h = ground (
  arith,
  strcmp_refl name,
  str_eq_iff x name,
  below name y rest s.1 (strcmp_trans name x y h s.0),
)

tail-IsSorted : (x : Name) (rest : List Name) → IsSorted (x ∷ rest) → IsSorted rest
tail-IsSorted x [] s = tt
tail-IsSorted x (y ∷ rest) s = s.1

no_member :
    (a : List Name) (x y : Name) → has_name a y ≡ false → str_eq y x ≡ true → has_name a x ≡ false
no_member a x y h e = subst (λ (z : Name). has_name a z ≡ false) ((str_eq_iff y x).0 e) h

Ordering-cases : (o : Ordering) → (o ≡ Ordering.lt) ⊎ ((o ≡ Ordering.eq) ⊎ (o ≡ Ordering.gt))
Ordering-cases Ordering.lt = inl refl
Ordering-cases Ordering.eq = inr (inl refl)
Ordering-cases Ordering.gt = inr (inr refl)

union_loop_lem :
    (fuel : ℕ) (dest a b : List Name) (x : Name)
    → IsSorted a
    → IsSorted b
    → length a + length b ≤ fuel
    → has_name (union_loop fuel dest a b) x ≡ (has_name dest x || (has_name a x && has_name b x))
unfolding union_loop has_name
union_loop_lem zero dest [] b x p q h = ground arith
union_loop_lem zero dest (y ∷ a) b x p q h = absurd (omega arith)
union_loop_lem (suc fuel) dest [] b x p q h = ground arith
union_loop_lem (suc fuel) dest (y ∷ a) [] x p q h = ground arith
union_loop_lem (suc fuel) dest (y ∷ a) (z ∷ b) x p q h = elim (Ordering-cases (strcmp y z)) [
  | inl lt ↦ ground (
    arith,
    union_loop_lem fuel dest a (z ∷ b) x (tail-IsSorted y a p) q (omega (arith, h)),
    no_member (z ∷ b) x y (below y z b q lt),
  )
  | inr (inl eq) ↦ ground (
    arith,
    union_loop_lem fuel (add_var dest y) a b x (tail-IsSorted y a p) (tail-IsSorted z b q)
        (omega (arith, h)),
    has_name-add_var dest y x,
    strcmp_sound y z eq,
  )
  | inr (inr gt) ↦ ground (
    arith,
    union_loop_lem fuel dest (y ∷ a) b x p (tail-IsSorted z b q) (omega (arith, h)),
    no_member (y ∷ a) x z (below z y a p (strcmp_flip y z gt)),
  )
]

-- On sorted lists `add_union` adds just the names that both have.
pub add_union_lem :
    (dest a b : List Name) (x : Name)
    → IsSorted a
    → IsSorted b
    → has_name (add_union dest a b) x ≡ (has_name dest x || (has_name a x && has_name b x))
unfolding add_union
add_union_lem dest a b x p q = union_loop_lem (length a + length b) dest a b x p q (omega arith)

union_loop-IsSorted :
    (fuel : ℕ) (dest a b : List Name) → IsSorted dest → IsSorted (union_loop fuel dest a b)
unfolding union_loop
union_loop-IsSorted zero dest a b p = p
union_loop-IsSorted (suc fuel) dest [] b p = p
union_loop-IsSorted (suc fuel) dest (x ∷ xs) [] p = p
union_loop-IsSorted (suc fuel) dest (x ∷ xs) (y ∷ ys) p = elim (Ordering-cases (strcmp x y)) [
  | inl lt ↦ subst IsSorted (cc) (union_loop-IsSorted fuel dest xs (y ∷ ys) p)
  | inr (inl eq) ↦
      subst IsSorted (cc)
        (union_loop-IsSorted fuel (add_var dest x) xs ys (add_var-IsSorted dest x p))
  | inr (inr gt) ↦ subst IsSorted (cc) (union_loop-IsSorted fuel dest (x ∷ xs) ys p)
]

pub add_union-IsSorted : (dest a b : List Name) → IsSorted dest → IsSorted (add_union dest a b)
unfolding add_union
add_union-IsSorted dest a b p = union_loop-IsSorted (length a + length b) dest a b p

pub has_name-str_eq :
    (vars : List Name) (x y : Name) → str_eq x y ≡ true → has_name vars x ≡ has_name vars y
has_name-str_eq vars x y e = ap (has_name vars) ((str_eq_iff x y).0 e)
