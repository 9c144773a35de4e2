-- ===== src/Compiler/Renaming/Plain.antt =====
-- The pass of renaming.c on a stack without a limit.
use nreduce.Base.{List, [], ◌∷◌}
use nreduce.Compiler.Syntax.{
  Name, Snode, application, lambda, builtin, symbol, letrec, scref, nil, number, string, Letrec,
  done, binding,
}
use nreduce.Compiler.Renaming.{Vars, next_var, Mapping, apply_mappings, Bound, next_vars, Renamed}

unfoldable pub renamed_bindings : Letrec → Vars → List Mapping → Bound
renamed_bindings done src mappings = record { src = src; names = []; mappings = mappings }
renamed_bindings (binding name value strict rest) src mappings =
    let (src', newname) = next_var src name in
    let b = renamed_bindings rest src' (record { from = name; to = newname } ∷ mappings) in
    record b { names = newname ∷ b.names }

unfoldable mutual
  pub renamed_tree : Snode → Vars → List Mapping → Vars × Snode
  renamed_tree (application left right strict) src mappings =
      let (src1, left') = renamed_tree left src mappings in
      let (src2, right') = renamed_tree right src1 mappings in
      (src2, application left' right' strict)
  renamed_tree (lambda name body) src mappings =
      let (src1, newname) = next_var src name in
      let (src2, body') =
        renamed_tree body src1 (record { from = name; to = newname } ∷ mappings) in
      (src2, lambda newname body')
  renamed_tree (letrec rec body) src mappings =
      let b = renamed_bindings rec src mappings in
      let (src1, rec') = renamed_values rec b.names b.src b.mappings in
      let (src2, body') = renamed_tree body src1 b.mappings in (src2, letrec rec' body')
  renamed_tree (symbol name) src mappings = (src, symbol (apply_mappings name mappings))
  renamed_tree (builtin bif) src mappings = (src, builtin bif)
  renamed_tree (scref sc) src mappings = (src, scref sc)
  renamed_tree nil src mappings = (src, nil)
  renamed_tree (number num) src mappings = (src, number num)
  renamed_tree (string value) src mappings = (src, string value)

  -- The second loop: the values, under the new names that the first loop gave.
  pub renamed_values : Letrec → List Name → Vars → List Mapping → Vars × Letrec
  renamed_values done names src mappings = (src, done)
  renamed_values (binding name value strict rest) [] src mappings =
      (src, binding name value strict rest)
  renamed_values (binding name value strict rest) (newname ∷ names) src mappings =
      let (src1, value') = renamed_tree value src mappings in
      let (src2, rest') = renamed_values rest names src1 mappings in
      (src2, binding newname value' strict rest')

-- The arguments' mappings, the last argument's on top; then the body.
unfoldable pub renamed_args : List Name → List Name → List Mapping → List Mapping
renamed_args [] newargs mappings = mappings
renamed_args (old ∷ oldargs) [] mappings = mappings
renamed_args (old ∷ oldargs) (new ∷ newargs) mappings =
    renamed_args oldargs newargs (record { from = old; to = new } ∷ mappings)

unfoldable pub renamed_body : Vars → Snode → List Name → List Name → Vars × Snode
renamed_body src body oldargnames newargnames =
    renamed_tree body src (renamed_args oldargnames newargnames [])

unfoldable pub renamed : Vars → List Name → Snode → Renamed
renamed src argnames body =
    let (src1, newargnames) = next_vars src argnames in
    let (src2, body') = renamed_body src1 body argnames newargnames in
    record { src = src2; argnames = newargnames; body = body' }
