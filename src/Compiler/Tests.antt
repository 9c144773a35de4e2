-- ===== src/Compiler/Tests.antt =====
-- The passes on a small supercombinator, and their theorems at it.
use nreduce.Compiler.Copying.{mark_used, refers, mark_used_lem}
use nreduce.Compiler.Builtins.{Builtin, builtin_info, get_builtin, get_builtin-name}
use nreduce.Compiler.Renaming.Fresh.{Names, rename_variables-Names}
use nreduce.Base.{
  ℕ, false, ◌≡◌, ◌≢◌, refl, List, [], ◌∷◌, ◌++◌, codes, Option, none, some, ◌>>=◌, arith, str_eq,
  get_elem?, true, ◌||◌,
}
use nreduce.Compiler.Syntax.{
  Name, Snode, application, lambda, symbol, letrec, done, binding, binders, scref,
}
use nreduce.Compiler.Names.{
  genvar, decimal, decimal_from, make_varname, has_prefix, genvar_prefix, make_varname-ne-genvar,
}
use nreduce.Compiler.Renaming.{
  Vars, Renamed, next_var, next_vars, rename_variables, rename_sc_body_variables, push_args,
  rename_variables_r, rename_bindings, apply_mappings, real_varname,
}
use nreduce.Compiler.Renaming.Originals.{
  new_names, old_names, new_names-distinct, real_varname-new_names,
}
use nreduce.Compiler.Renaming.Alpha.Lookup.{IsOld, OldNames}
use nreduce.Compiler.Renaming.Alpha.{args_scope, rename_variables-nameless}
use nreduce.Compiler.Nameless.{nameless}
use nreduce.Compiler.Room.{push, HasRoom, RoomFor}

-- Two names have been made before.
abbrev before : Vars
before = record { varno = 2; oldnames = codes "a" ∷ codes "b" ∷ [] }

-- `f x = !x.letrec y = x y in y z`
abbrev args : List Name
args = codes "x" ∷ []

abbrev body : Snode
body = lambda (codes "x") (
    letrec
      (binding (codes "y") (application (symbol (codes "x")) (symbol (codes "y")) false) false done)
      (application (symbol (codes "y")) (symbol (codes "z")) false))

rename_variables_run :
    (rename_variables before args body >>= λ r. some r.body)
    ≡ some (
        lambda (codes "_v3") (
          letrec
            (binding
              (codes "_v4")
              (application (symbol (codes "_v3")) (symbol (codes "_v4")) false)
              false
              done)
            (application (symbol (codes "_v4")) (symbol (codes "z")) false)))
unfolding rename_variables rename_sc_body_variables next_vars next_var push_args rename_variables_r
    rename_bindings apply_mappings genvar decimal decimal_from str_eq push
rename_variables_run = refl

-- A name that does not start like a generated one is none.
plain-IsOld : (n : ℕ) (name : Name) → has_prefix genvar_prefix name ≡ false → IsOld n name
unfolding make_varname
plain-IsOld n name p k l e = make_varname-ne-genvar name k (rw p e)

x-IsOld : IsOld 2 (codes "x")
unfolding has_prefix
x-IsOld = plain-IsOld 2 (codes "x") refl

y-IsOld : IsOld 2 (codes "y")
unfolding has_prefix
y-IsOld = plain-IsOld 2 (codes "y") refl

z-IsOld : IsOld 2 (codes "z")
unfolding has_prefix
z-IsOld = plain-IsOld 2 (codes "z") refl

body-OldNames : OldNames 2 body
unfolding OldNames
body-OldNames = (x-IsOld, ((y-IsOld, (x-IsOld, y-IsOld), tt), (y-IsOld, z-IsOld)))

body-RoomFor : RoomFor args body
unfolding HasRoom
body-RoomFor = record {
  args_room = omega arith;
  body_room = (omega arith, (omega arith, ((tt, tt), tt), (tt, tt)));
}

rename_variables-nameless_example :
    (r : Renamed) × (rename_variables before args body ≡ some r)
    × (nameless r.body (args_scope r.argnames) ≡ nameless body (args_scope args))
rename_variables-nameless_example =
    rename_variables-nameless before args body body-RoomFor (x-IsOld, tt) body-OldNames

or_unnamed : Option Renamed → Renamed
or_unnamed none = record { src = before; argnames = []; body = body }
or_unnamed (some r) = r

-- What the pass makes of `f`.
after : Renamed
unfolding or_unnamed rename_variables rename_sc_body_variables next_vars next_var push_args
    rename_variables_r rename_bindings apply_mappings genvar decimal decimal_from str_eq push
after = or_unnamed (rename_variables before args body)

rename_variables-after : rename_variables before args body ≡ some after
unfolding after
rename_variables-after = refl

new_names_run : new_names after ≡ codes "_v2" ∷ codes "_v3" ∷ codes "_v4" ∷ []
unfolding after binders
new_names_run = refl

second_name : get_elem? (new_names after) 1 ≡ some (codes "_v3")
second_name = rw new_names_run refl

new_names-distinct_example : ◌≡◌ {A = ℕ} 1 1
new_names-distinct_example =
    new_names-distinct before args body after 1 1 (codes "_v3") body-RoomFor rename_variables-after
      second_name second_name

real_varname-new_names_example :
    real_varname after.src (codes "_v3") ≡ get_elem? (old_names args body) 1
real_varname-new_names_example =
    real_varname-new_names before args body after 1 (codes "_v3") body-RoomFor
      rename_variables-after refl second_name

make_varname-ne-genvar_example : make_varname (codes "_v12") ≢ genvar 12
make_varname-ne-genvar_example = make_varname-ne-genvar (codes "_v12") 12

rename_variables-Names_example :
    (r : Renamed) × (rename_variables before args body ≡ some r)
    × Names before (args ++ binders body) r.src (r.argnames ++ binders r.body)
rename_variables-Names_example = rename_variables-Names before args body body-RoomFor

abbrev shift_right : Builtin
shift_right = record {
  name = codes ">>";
  nargs = 2;
  nstrict = 2;
  reswhnf = true;
  restrue = true;
  is_pure = true;
}

shift_right-at : get_elem? builtin_info 12 ≡ some shift_right
unfolding builtin_info
shift_right-at = refl

get_builtin-name_example : get_builtin (codes ">>") ≡ some 12
get_builtin-name_example = get_builtin-name 12 shift_right shift_right-at

-- `letrec y = f y in g`, with f and g the supercombinators 3 and 5.
abbrev lifted : Snode
lifted =
    letrec (binding (codes "y") (application (scref 3) (symbol (codes "y")) false) false done)
      (scref 5)

mark_used_lem_example : mark_used lifted (λ i. false) 5 ≡ (refers lifted 5 || false)
mark_used_lem_example = mark_used_lem lifted (λ i. false) 5
