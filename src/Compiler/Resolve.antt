-- ===== src/Compiler/Resolve.antt =====
-- References (nreduce/compiler/resolve.c): a symbol that no enclosing binder binds becomes a
-- reference to a supercombinator or to a built-in function, or is reported.
pub mod Terms
pub mod Symbols
pub mod Meaning
mod Tests
use nreduce.Base.{
  ℕ, zero, suc, Bool, true, false, ◌||◌, List, [], ◌∷◌, ◌++◌, Option, none, some, ◌>>=◌, str_eq,
  codes, if◌then◌else◌,
}
use nreduce.Compiler.Syntax.{
  Name, Snode, application, lambda, builtin, symbol, letrec, scref, nil, number, string, Letrec,
  done, binding, bound_names,
}
use nreduce.Compiler.Names.{has_prefix}
use nreduce.Compiler.Scombs.{Scombs, get_scomb}
use nreduce.Compiler.Builtins.{get_builtin}
use nreduce.Compiler.Room.{push, push_all}

-- The loop over the stack of bound names, here with its top first; it starts at the bottom.
unfoldable pub is_bound : List Name → Name → Bool
is_bound [] sym = false
is_bound (b ∷ bs) sym = if is_bound bs sym then true else str_eq b sym

-- Does "::" occur in the text? (`strstr`)
unfoldable pub has_colons : Name → Bool
has_colons [] = false
has_colons (c ∷ cs) = has_prefix (codes "::") (c ∷ cs) || has_colons cs

-- The supercombinator that a name without a qualifier has in its own module.
unfoldable pub in_module : Scombs → Option Name → Name → Option ℕ
in_module src none sym = none
in_module src (some modname) sym =
    if has_colons sym then none else get_scomb src (modname ++ (codes "::" ++ sym))

unfoldable pub find_scomb : Scombs → Option Name → Name → Option ℕ
find_scomb src modname sym = elim (in_module src modname sym) [
  | some sc ↦ some sc
  | none ↦ get_scomb src sym
]

-- What a symbol that is not bound becomes, with the list of unbound names.
unfoldable pub resolve_symbol : Scombs → Option Name → Name → List Name → Snode × List Name
resolve_symbol src modname sym unbound = elim (find_scomb src modname sym) [
  | some sc ↦ (scref sc, unbound)
  | none ↦ elim (get_builtin sym) [
    | some bif ↦ (builtin bif, unbound)
    | none ↦ (symbol sym, unbound ++ sym ∷ [])
  ]
]

-- The tree with its references, and the unbound names; `none` is the call of `abort` at a node that
-- is a reference before the pass, or the exit of the process at a push on a full stack.
unfoldable mutual
  pub resolve_refs_r :
      Scombs → Option Name → Snode → List Name → List Name → Option (Snode × List Name)
  resolve_refs_r src modname (application left right strict) bound unbound = do
    (left', unbound1) ← resolve_refs_r src modname left bound unbound
    (right', unbound2) ← resolve_refs_r src modname right bound unbound1
    some (application left' right' strict, unbound2)
  resolve_refs_r src modname (lambda name body) bound unbound = do
    pushed ← push name bound
    (body', unbound1) ← resolve_refs_r src modname body pushed unbound
    some (lambda name body', unbound1)
  resolve_refs_r src modname (symbol sym) bound unbound =
      some (
        if is_bound bound sym
        then (symbol sym, unbound)
        else resolve_symbol src modname sym unbound)
  resolve_refs_r src modname (letrec rec body) bound unbound = do
    pushed ← push_all (bound_names rec) bound
    (rec', unbound1) ← resolve_values src modname rec pushed unbound
    (body', unbound2) ← resolve_refs_r src modname body pushed unbound1
    some (letrec rec' body', unbound2)
  resolve_refs_r src modname nil bound unbound = some (nil, unbound)
  resolve_refs_r src modname (number num) bound unbound = some (number num, unbound)
  resolve_refs_r src modname (string value) bound unbound = some (string value, unbound)
  resolve_refs_r src modname (builtin bif) bound unbound = none
  resolve_refs_r src modname (scref sc) bound unbound = none

  -- The second loop over the bindings of a letrec.
  pub resolve_values :
      Scombs → Option Name → Letrec → List Name → List Name → Option (Letrec × List Name)
  resolve_values src modname done bound unbound = some (done, unbound)
  resolve_values src modname (binding name value strict rest) bound unbound = do
    (value', unbound1) ← resolve_refs_r src modname value bound unbound
    (rest', unbound2) ← resolve_values src modname rest bound unbound1
    some (binding name value' strict rest', unbound2)

unfoldable pub resolve_refs :
    Scombs → Option Name → List Name → Snode → List Name → Option (Snode × List Name)
resolve_refs src modname argnames body unbound = do
  bound ← push_all argnames []
  resolve_refs_r src modname body bound unbound
