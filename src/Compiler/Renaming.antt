-- ===== src/Compiler/Renaming.antt =====
-- Unique names: the pass of nreduce/compiler/renaming.c over a supercombinator.
pub mod Plain
pub mod Returns
pub mod Fresh
pub mod Alpha
pub mod Originals
use nreduce.Base.{
  ℕ, zero, suc, ◌+◌, Bool, List, [], ◌∷◌, ◌++◌, str_eq, if◌then◌else◌, Option, none, some, drop,
  get_elem?, ◌==◌, ◌>>=◌, ◌||◌, true, false,
}
use nreduce.Compiler.Syntax.{
  Name, Snode, application, lambda, builtin, symbol, letrec, scref, nil, number, string, Letrec,
  done, binding, bound_names,
}
use nreduce.Compiler.Room.{push}
use nreduce.Compiler.Names.{genvar, has_prefix, genvar_prefix, atoi, starts_signed}

-- `varno` and `oldnames` of `struct source`: the number of names made so far, and what each stands
-- for.
pub record Vars : Type 0 where
  pub varno : ℕ
  pub oldnames : List Name

unfoldable pub next_var : Vars → Name → Vars × Name
next_var src oldname =
    (record { varno = src.varno + 1; oldnames = src.oldnames ++ oldname ∷ [] }, genvar src.varno)

pub record Mapping : Type 0 where
  pub from : Name
  pub to : Name

abbrev pub mapping_new : Name → Name → Mapping
mapping_new from to = record { from = from; to = to }

-- The loop over the mappings, the newest first. It does not stop at the first that fits.
unfoldable pub apply_mappings : Name → List Mapping → Name
apply_mappings name [] = name
apply_mappings name (mp ∷ mappings) =
    apply_mappings (if str_eq mp.from name then mp.to else name) mappings

-- The first loop over the bindings of a letrec: new names, in order, and the mappings to them.
pub record Bound : Type 0 where
  pub src : Vars
  pub names : List Name
  pub mappings : List Mapping

unfoldable pub rename_bindings : Letrec → Vars → List Mapping → Option Bound
rename_bindings done src mappings = some (record { src = src; names = []; mappings = mappings })
rename_bindings (binding name value strict rest) src mappings =
    let (src', newname) = next_var src name in
    push (mapping_new name newname) mappings >>= λ pushed.
    rename_bindings rest src' pushed >>= λ b. some (record b { names = newname ∷ b.names })

-- `none` is the exit of the process at a push on a full stack.
unfoldable mutual
  pub rename_variables_r : Snode → Vars → List Mapping → Option (Vars × Snode)
  rename_variables_r (application left right strict) src mappings = do
    (src1, left') ← rename_variables_r left src mappings
    (src2, right') ← rename_variables_r right src1 mappings
    some (src2, application left' right' strict)
  rename_variables_r (lambda name body) src mappings =
      let (src1, newname) = next_var src name in
      push (mapping_new name newname) mappings >>= λ pushed.
      rename_variables_r body src1 pushed >>= λ (src2, body'). some (src2, lambda newname body')
  rename_variables_r (letrec rec body) src mappings = do
    b ← rename_bindings rec src mappings
    (src1, rec') ← rename_values rec b.names b.src b.mappings
    (src2, body') ← rename_variables_r body src1 b.mappings
    some (src2, letrec rec' body')
  rename_variables_r (symbol name) src mappings = some (src, symbol (apply_mappings name mappings))
  rename_variables_r (builtin bif) src mappings = some (src, builtin bif)
  rename_variables_r (scref sc) src mappings = some (src, scref sc)
  rename_variables_r nil src mappings = some (src, nil)
  rename_variables_r (number num) src mappings = some (src, number num)
  rename_variables_r (string value) src mappings = some (src, string value)

  -- The second loop: the values, under the new names that the first loop gave.
  pub rename_values : Letrec → List Name → Vars → List Mapping → Option (Vars × Letrec)
  rename_values done names src mappings = some (src, done)
  rename_values (binding name value strict rest) [] src mappings =
      some (src, binding name value strict rest)
  rename_values (binding name value strict rest) (newname ∷ names) src mappings = do
    (src1, value') ← rename_variables_r value src mappings
    (src2, rest') ← rename_values rest names src1 mappings
    some (src2, binding newname value' strict rest')

-- The arguments' mappings, the last argument's on top; then the body.
unfoldable pub push_args : List Name → List Name → List Mapping → Option (List Mapping)
push_args [] newargs mappings = some mappings
push_args (old ∷ oldargs) [] mappings = some mappings
push_args (old ∷ oldargs) (new ∷ newargs) mappings =
    push (mapping_new old new) mappings >>= λ pushed. push_args oldargs newargs pushed

unfoldable pub rename_sc_body_variables :
    Vars → Snode → List Name → List Name → Option (Vars × Snode)
rename_sc_body_variables src body oldargnames newargnames =
    push_args oldargnames newargnames [] >>= λ mappings. rename_variables_r body src mappings

unfoldable pub next_vars : Vars → List Name → Vars × List Name
next_vars src [] = (src, [])
next_vars src (name ∷ names) =
    let (src1, newname) = next_var src name in
    let (src2, newnames) = next_vars src1 names in (src2, newname ∷ newnames)

-- The arguments and the body of a supercombinator.
pub record Renamed : Type 0 where
  pub src : Vars
  pub argnames : List Name
  pub body : Snode

unfoldable pub rename_variables : Vars → List Name → Snode → Option Renamed
rename_variables src argnames body =
    let (src1, newargnames) = next_vars src argnames in
    rename_sc_body_variables src1 body argnames newargnames >>= λ (src2, body').
    some (record { src = src2; argnames = newargnames; body = body' })

-- The name in the program that a generated name stands for (`real_varname` of debug.c), for
-- diagnostics; `none` is a failed assertion. A name with a sign behind the prefix is read outside
-- the array, and is taken for a failure too.
unfoldable pub real_varname : Vars → Name → Option Name
real_varname src sym =
    if has_prefix genvar_prefix sym
    then (if starts_signed (drop 2 sym) then none else get_elem? src.oldnames (atoi (drop 2 sym)))
    else some sym
