-- ===== src/Compiler/Copying.antt =====
-- Copies of a body under new names, and the marks on what a body refers to (the parts of
-- nreduce/compiler/appendopt.c that the inlining pass shares).
use nreduce.Base.{
  ℕ, Bool, true, false, ◌||◌, ◌≡◌, refl, List, Option, none, some, ◌>>=◌, ◌==◌, if◌then◌else◌,
  arith,
}
use nreduce.Compiler.Syntax.{
  Name, Snode, application, lambda, builtin, symbol, letrec, scref, nil, number, string, Letrec,
  done, binding,
}
use nreduce.Compiler.Renaming.{Vars, rename_sc_body_variables}

-- `none` is the call of `abort` at a lambda.
unfoldable mutual
  pub snode_copy : Snode → Option Snode
  snode_copy (application left right strict) = do
    left' ← snode_copy left
    right' ← snode_copy right
    some (application left' right' strict)
  snode_copy (lambda name body) = none
  snode_copy (builtin bif) = some (builtin bif)
  snode_copy (symbol name) = some (symbol name)
  snode_copy (letrec rec body) = do
    rec' ← values_copy rec
    body' ← snode_copy body
    some (letrec rec' body')
  snode_copy (scref sc) = some (scref sc)
  snode_copy nil = some nil
  snode_copy (number num) = some (number num)
  snode_copy (string value) = some (string value)

  pub values_copy : Letrec → Option Letrec
  values_copy done = some done
  values_copy (binding name value strict rest) = do
    value' ← snode_copy value
    rest' ← values_copy rest
    some (binding name value' strict rest')

unfoldable pub copy_scomb_body : Vars → Snode → List Name → List Name → Option (Vars × Snode)
copy_scomb_body src body argnames newargnames =
    snode_copy body >>= λ copy. rename_sc_body_variables src copy argnames newargnames

-- The array of marks, as a function on the indices of the supercombinators.
unfoldable mutual
  pub mark_used : Snode → (ℕ → Bool) → ℕ → Bool
  mark_used (application left right strict) used = mark_used right (mark_used left used)
  mark_used (letrec rec body) used = mark_used body (mark_values rec used)
  mark_used (scref sc) used = λ i. if i == sc then true else used i
  mark_used (lambda name body) used = used
  mark_used (builtin bif) used = used
  mark_used (symbol name) used = used
  mark_used nil used = used
  mark_used (number num) used = used
  mark_used (string value) used = used

  pub mark_values : Letrec → (ℕ → Bool) → ℕ → Bool
  mark_values done used = used
  mark_values (binding name value strict rest) used = mark_values rest (mark_used value used)

-- After lambda lifting a body has no lambda.
unfoldable mutual
  pub IsLifted : Snode → Type 0
  IsLifted (application l r strict) = IsLifted l × IsLifted r
  IsLifted (lambda name body) = ⊥
  IsLifted (letrec rec body) = AreLifted rec × IsLifted body
  IsLifted (builtin bif) = Unit
  IsLifted (scref sc) = Unit
  IsLifted (symbol name) = Unit
  IsLifted nil = Unit
  IsLifted (number num) = Unit
  IsLifted (string value) = Unit

  pub AreLifted : Letrec → Type 0
  AreLifted done = Unit
  AreLifted (binding name value strict rest) = IsLifted value × AreLifted rest

mutual
  unfolding snode_copy IsLifted

  snode_copy-IsLifted : (c : Snode) → IsLifted c → snode_copy c ≡ some c
  snode_copy-IsLifted (application l r strict) h =
      rw (snode_copy-IsLifted l h.0, snode_copy-IsLifted r h.1) refl
  snode_copy-IsLifted (lambda name body) h = absurd h
  snode_copy-IsLifted (letrec rec body) h =
      rw (values_copy-AreLifted rec h.0, snode_copy-IsLifted body h.1) refl
  snode_copy-IsLifted (builtin bif) h = refl
  snode_copy-IsLifted (scref sc) h = refl
  snode_copy-IsLifted (symbol name) h = refl
  snode_copy-IsLifted nil h = refl
  snode_copy-IsLifted (number num) h = refl
  snode_copy-IsLifted (string value) h = refl

  values_copy-AreLifted : (rec : Letrec) → AreLifted rec → values_copy rec ≡ some rec
  values_copy-AreLifted done h = refl
  values_copy-AreLifted (binding name value strict rest) h =
      rw (snode_copy-IsLifted value h.0, values_copy-AreLifted rest h.1) refl

-- Does a supercombinator occur in a tree, outside of lambdas?
unfoldable mutual
  pub refers : Snode → ℕ → Bool
  refers (application l r strict) i = refers l i || refers r i
  refers (letrec rec body) i = refer rec i || refers body i
  refers (scref sc) i = i == sc
  refers (lambda name body) i = false
  refers (builtin bif) i = false
  refers (symbol name) i = false
  refers nil i = false
  refers (number num) i = false
  refers (string value) i = false

  pub refer : Letrec → ℕ → Bool
  refer done i = false
  refer (binding name value strict rest) i = refers value i || refer rest i

mutual
  unfolding mark_used refers

  mark_used-refers :
      (c : Snode) (used : ℕ → Bool) (i : ℕ) → mark_used c used i ≡ (refers c i || used i)
  mark_used-refers (application l r strict) used i =
      ground (arith, mark_used-refers l used i, mark_used-refers r (mark_used l used) i)
  mark_used-refers (letrec rec body) used i =
      ground (arith, mark_values-refer rec used i, mark_used-refers body (mark_values rec used) i)
  mark_used-refers (scref sc) used i = ground arith
  mark_used-refers (lambda name body) used i = refl
  mark_used-refers (builtin bif) used i = refl
  mark_used-refers (symbol name) used i = refl
  mark_used-refers nil used i = refl
  mark_used-refers (number num) used i = refl
  mark_used-refers (string value) used i = refl

  mark_values-refer :
      (rec : Letrec) (used : ℕ → Bool) (i : ℕ) → mark_values rec used i ≡ (refer rec i || used i)
  mark_values-refer done used i = refl
  mark_values-refer (binding name value strict rest) used i =
      ground (arith, mark_used-refers value used i, mark_values-refer rest (mark_used value used) i)

-- The marks afterwards are those before, and those of the supercombinators that the tree refers to
-- outside of lambdas.
pub mark_used_lem :
    (c : Snode) (used : ℕ → Bool) (i : ℕ) → mark_used c used i ≡ (refers c i || used i)
mark_used_lem c used i = mark_used-refers c used i
