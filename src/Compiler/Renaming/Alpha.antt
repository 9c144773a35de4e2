-- ===== src/Compiler/Renaming/Alpha.antt =====
-- Renaming (renaming.c) and the meaning of a tree.
pub mod Lookup
use mathlib.Core.Option
use nreduce.Base.{
  ℕ, zero, suc, ◌+◌, ◌≤◌, ◌<◌, Bool, true, false, ◌≡◌, ◌≢◌, refl, ap, ap₂, sym, ◌∙◌, List, [], ◌∷◌,
  ◌++◌, length, map, Option, none, some, arith, if◌then◌else◌, str_eq, str_eq_iff, str_eq_refl,
  Bool-cases, inl, inr, ◌⊎◌,
}
use nreduce.Compiler.Syntax.{
  Name, Snode, application, lambda, builtin, symbol, letrec, scref, nil, number, string, Letrec,
  done, binding, bound_names, binders, binders_values,
}
use nreduce.Compiler.Names.{genvar, genvar-injective}
use nreduce.Compiler.Nameless.{nameless, nameless_values, index_of, variable, push_names}
use nreduce.Compiler.Nameless
use nreduce.Compiler.Renaming.{
  Renamed, rename_variables, Vars, Mapping, next_var, apply_mappings, next_vars,
}
use nreduce.Compiler.Room.{push_list, push_names-list, RoomFor}
use nreduce.Compiler.Renaming.Returns.{rename_variables-renamed}
use nreduce.Compiler.Renaming.Plain.{
  renamed_bindings, renamed_tree, renamed_values, renamed_args, renamed_body, renamed,
}
use nreduce.Compiler.Renaming.Fresh.{
  Names, rename-Names, renamed_values-Names, renamed_bindings-Names, length-Names, next_vars-Names,
}
use nreduce.Compiler.Renaming.Alpha.Lookup.{
  IsOld, OldNames, OldValues, froms, tos, IsFreshTo, fresh-le, fresh-weaken, variable-apply,
}

bind-froms :
    (rec : Letrec) (src : Vars) (m : List Mapping)
    → froms (renamed_bindings rec src m).mappings ≡ push_names rec (froms m)
unfolding renamed_bindings push_names
bind-froms done src m = refl
bind-froms (binding name value strict rest) src m =
    bind-froms rest (next_var src name).0 (record { from = name; to = (next_var src name).1 } ∷ m)

bind-tos :
    (rec : Letrec) (src : Vars) (m : List Mapping)
    → tos (renamed_bindings rec src m).mappings
      ≡ push_list (renamed_bindings rec src m).names (tos m)
unfolding renamed_bindings push_list
bind-tos done src m = refl
bind-tos (binding name value strict rest) src m =
    bind-tos rest (next_var src name).0 (record { from = name; to = (next_var src name).1 } ∷ m)

next-IsFreshTo :
    (n : ℕ) (src : Vars) (name : Name) (m : List Mapping)
    → IsOld n name
    → IsFreshTo n src.varno m
    → IsFreshTo n
        (next_var src name).0.varno
        (record { from = name; to = (next_var src name).1 } ∷ m)
unfolding next_var
next-IsFreshTo n src name m o h = (src.varno, refl, omega arith, fresh-le n src.varno m h, o, h)

bind-IsFreshTo :
    (n : ℕ) (rec : Letrec) (src : Vars) (m : List Mapping)
    → OldValues n rec
    → IsFreshTo n src.varno m
    → IsFreshTo n (renamed_bindings rec src m).src.varno (renamed_bindings rec src m).mappings
unfolding renamed_bindings OldNames
bind-IsFreshTo n done src m o h = h
bind-IsFreshTo n (binding name value strict rest) src m o h =
    bind-IsFreshTo n rest (next_var src name).0
      (record { from = name; to = (next_var src name).1 } ∷ m) o.2
      (next-IsFreshTo n src name m o.0 h)

-- Later names leave the mappings fresh.
grown-IsFreshTo :
    (n : ℕ) {src src' : Vars} {names given : List Name} (m : List Mapping)
    → Names src names src' given
    → IsFreshTo n src.varno m
    → IsFreshTo n src'.varno m
grown-IsFreshTo n {src} {src'} m grown h =
    fresh-weaken n src.varno src'.varno m (omega (arith, grown.number)) h

mutual
  unfolding renamed_tree nameless OldNames

  rename-nameless :
      (n : ℕ) (c : Snode) (src : Vars) (m : List Mapping)
      → OldNames n c
      → IsFreshTo n src.varno m
      → nameless (renamed_tree c src m).1 (tos m) ≡ nameless c (froms m)
  rename-nameless n (application l r strict) src m o h =
      ap₂ Nameless.Nameless.application (rename-nameless n l src m o.0 h) (
        rename-nameless n r (renamed_tree l src m).0 m o.1
          (grown-IsFreshTo n m (rename-Names l src m) h))
  rename-nameless n (lambda name body) src m o h = ap Nameless.Nameless.lambda (
      rename-nameless n body (next_var src name).0
        (record { from = name; to = (next_var src name).1 } ∷ m) o.1
        (next-IsFreshTo n src name m o.0 h))
  rename-nameless n (letrec rec body) src m o h =
      let b = renamed_bindings rec src m in
      let nb = renamed_bindings-Names rec src m in
      let rv = renamed_values rec b.names b.src b.mappings in
      let (vals, same) = renamed_values-Names rec b.names b.src b.mappings (length-Names nb) in
      let inner : push_names rv.1 (tos m) ≡ tos b.mappings =
        push_names-list rv.1 (tos m)
        ∙ ap (λ l. push_list l (tos m)) same
        ∙ sym (bind-tos rec src m) in
      let fresh = bind-IsFreshTo n rec src m o.0 h in
      rw (inner, ← bind-froms rec src m)
        (ap₂ Nameless.Nameless.letrec
          (renamed_values-nameless n rec b.names b.src b.mappings (length-Names nb) o.0 fresh)
          (rename-nameless n body rv.0 b.mappings o.1 (grown-IsFreshTo n b.mappings vals fresh)))
  rename-nameless n (symbol name) src m o h = variable-apply n src.varno name m o h
  rename-nameless n (builtin bif) src m o h = refl
  rename-nameless n (scref sc) src m o h = refl
  rename-nameless n nil src m o h = refl
  rename-nameless n (number num) src m o h = refl
  rename-nameless n (string value) src m o h = refl

  renamed_values-nameless :
      (n : ℕ) (rec : Letrec) (names : List Name) (src : Vars) (m : List Mapping)
      → length names ≡ length (bound_names rec)
      → OldValues n rec
      → IsFreshTo n src.varno m
      → nameless_values (renamed_values rec names src m).1 (tos m) ≡ nameless_values rec (froms m)
  renamed_values-nameless n done names src m l o h = refl
  renamed_values-nameless n (binding name value strict rest) [] src m l o h = absurd (omega arith)
  renamed_values-nameless n (binding name value strict rest) (new ∷ names) src m l o h =
      ap₂ (λ v r. Nameless.NamelessRec.binding v strict r) (rename-nameless n value src m o.1 h)
        (renamed_values-nameless n rest names (renamed_tree value src m).0 m (omega arith) o.2
          (grown-IsFreshTo n m (rename-Names value src m) h))

abbrev pub AllOld : ℕ → List Name → Type 0
AllOld n [] = Unit
AllOld n (name ∷ names) = IsOld n name × AllOld n names

-- The mappings of the arguments.
record Args (n : ℕ) (src src' : Vars) (oldargs newargs : List Name) (m m' : List Mapping)
    : Type 0 where
  fresh : IsFreshTo n src'.varno m'
  args_from : froms m' ≡ push_list oldargs (froms m)
  args_to : tos m' ≡ push_list newargs (tos m)

renamed_args-Args :
    (n : ℕ) (args : List Name) (src : Vars) (m : List Mapping)
    → AllOld n args
    → IsFreshTo n src.varno m
    → Args n src
        (next_vars src args).0
        args
        (next_vars src args).1
        m
        (renamed_args args (next_vars src args).1 m)
unfolding next_vars renamed_args push_list
renamed_args-Args n [] src m o h = record { fresh = h; args_from = refl; args_to = refl }
renamed_args-Args n (name ∷ args) src m o h =
    let m' = record { from = name; to = (next_var src name).1 } ∷ m in
    let r =
      renamed_args-Args n args (next_var src name).0 m' o.1 (next-IsFreshTo n src name m o.0 h) in
    record { fresh = r.fresh; args_from = r.args_from; args_to = r.args_to }

-- The scope of the body of a supercombinator: its arguments, the last one innermost.
abbrev pub args_scope : List Name → List Name
args_scope args = push_list args []

pub renamed-nameless :
    (src : Vars) (argnames : List Name) (body : Snode)
    → AllOld src.varno argnames
    → OldNames src.varno body
    → nameless (renamed src argnames body).body (args_scope (renamed src argnames body).argnames)
      ≡ nameless body (args_scope argnames)
unfolding renamed renamed_body
renamed-nameless src argnames body oa ob =
    let v = next_vars src argnames in
    let m = renamed_args argnames v.1 [] in
    let a = renamed_args-Args src.varno argnames src [] oa (omega arith) in
    ap (nameless (renamed_tree body v.0 m).1) (sym a.args_to)
    ∙ rename-nameless src.varno body v.0 m ob a.fresh
    ∙ ap (nameless body) a.args_from

-- If there is room on the stack, and no name of a supercombinator is one that the compiler makes from
-- the present count on, then the pass returns and changes no meaning: without names, the new body
-- under the new arguments is the old body under the old ones.
pub rename_variables-nameless :
    (src : Vars) (argnames : List Name) (body : Snode)
    → RoomFor argnames body
    → AllOld src.varno argnames
    → OldNames src.varno body
    → (r : Renamed) × (rename_variables src argnames body ≡ some r)
      × (nameless r.body (args_scope r.argnames) ≡ nameless body (args_scope argnames))
rename_variables-nameless src argnames body room oa ob = (
  renamed src argnames body,
  rename_variables-renamed src argnames body room,
  renamed-nameless src argnames body oa ob,
)
