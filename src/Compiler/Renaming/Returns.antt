-- ===== src/Compiler/Renaming/Returns.antt =====
-- The pass of renaming.c returns what it makes on a stack without a limit, if there is room.
use nreduce.Base.{suc, ◌+◌, ◌≤◌, ◌≡◌, refl, sym, ap, subst, List, [], ◌∷◌, length, some, arith}
use nreduce.Compiler.Syntax.{
  Name, Snode, application, lambda, builtin, symbol, letrec, scref, nil, number, string, Letrec,
  done, binding, bound_names,
}
use nreduce.Compiler.Room.{stack_room, push-some, HasRoom, HaveRoom, RoomFor}
use nreduce.Compiler.Renaming.{
  Vars, next_var, Mapping, mapping_new, rename_bindings, rename_variables_r, rename_values,
  push_args, next_vars, rename_sc_body_variables, rename_variables,
}
use nreduce.Compiler.Renaming.Plain.{
  renamed_bindings, renamed_tree, renamed_values, renamed_args, renamed_body, renamed,
}

rename_bindings-renamed :
    (rec : Letrec) (src : Vars) (m : List Mapping)
    → length (bound_names rec) + length m ≤ stack_room
    → rename_bindings rec src m ≡ some (renamed_bindings rec src m)
unfolding rename_bindings renamed_bindings
rename_bindings-renamed done src m h = refl
rename_bindings-renamed (binding name value strict rest) src m h =
    let v = next_var src name in
    let mp = mapping_new name v.1 in
    rw (push-some mp m (omega arith), rename_bindings-renamed rest v.0 (mp ∷ m) (omega arith)) refl

length-renamed_bindings :
    (rec : Letrec) (src : Vars) (m : List Mapping)
    → length (renamed_bindings rec src m).mappings ≡ length (bound_names rec) + length m
unfolding renamed_bindings
length-renamed_bindings done src m = omega arith
length-renamed_bindings (binding name value strict rest) src m =
    let v = next_var src name in
    omega (arith, length-renamed_bindings rest v.0 (mapping_new name v.1 ∷ m))

mutual
  unfolding rename_variables_r renamed_tree HasRoom

  rename_variables_r-renamed :
      (c : Snode) (src : Vars) (m : List Mapping)
      → HasRoom (length m) c
      → rename_variables_r c src m ≡ some (renamed_tree c src m)
  rename_variables_r-renamed (application l r strict) src m h =
      rw
        (
          rename_variables_r-renamed l src m h.0,
          rename_variables_r-renamed r (renamed_tree l src m).0 m h.1,
        )
        refl
  rename_variables_r-renamed (lambda name body) src m h =
      let v = next_var src name in
      let mp = mapping_new name v.1 in
      rw (push-some mp m h.0, rename_variables_r-renamed body v.0 (mp ∷ m) h.1) refl
  rename_variables_r-renamed (letrec rec body) src m (room, vals, inner) =
      let b = renamed_bindings rec src m in
      let depth = sym (length-renamed_bindings rec src m) in
      rw
        (
          rename_bindings-renamed rec src m room,
          rename_values-renamed rec b.names b.src b.mappings
              (subst (λ d. HaveRoom d rec) depth vals),
          rename_variables_r-renamed body (renamed_values rec b.names b.src b.mappings).0 b.mappings
              (subst (λ d. HasRoom d body) depth inner),
        )
        refl
  rename_variables_r-renamed (symbol name) src m h = refl
  rename_variables_r-renamed (builtin bif) src m h = refl
  rename_variables_r-renamed (scref sc) src m h = refl
  rename_variables_r-renamed nil src m h = refl
  rename_variables_r-renamed (number num) src m h = refl
  rename_variables_r-renamed (string value) src m h = refl

  rename_values-renamed :
      (rec : Letrec) (names : List Name) (src : Vars) (m : List Mapping)
      → HaveRoom (length m) rec
      → rename_values rec names src m ≡ some (renamed_values rec names src m)
  rename_values-renamed done names src m h = refl
  rename_values-renamed (binding name value strict rest) [] src m h = refl
  rename_values-renamed (binding name value strict rest) (new ∷ names) src m h =
      rw
        (
          rename_variables_r-renamed value src m h.0,
          rename_values-renamed rest names (renamed_tree value src m).0 m h.1,
        )
        refl

push_args-renamed :
    (old new : List Name) (m : List Mapping)
    → length old + length m ≤ stack_room
    → push_args old new m ≡ some (renamed_args old new m)
unfolding push_args renamed_args
push_args-renamed [] new m h = refl
push_args-renamed (o ∷ old) [] m h = refl
push_args-renamed (o ∷ old) (n ∷ new) m h =
    let mp = mapping_new o n in
    rw (push-some mp m (omega arith)) (push_args-renamed old new (mp ∷ m) (omega arith))

length-renamed_args :
    (old new : List Name) (m : List Mapping)
    → length new ≡ length old
    → length (renamed_args old new m) ≡ length old + length m
unfolding renamed_args
length-renamed_args [] new m h = omega arith
length-renamed_args (o ∷ old) [] m h = absurd (omega arith)
length-renamed_args (o ∷ old) (n ∷ new) m h =
    omega (arith, length-renamed_args old new (mapping_new o n ∷ m) (omega arith))

pub rename_sc_body_variables-renamed :
    (src : Vars) (body : Snode) (old new : List Name)
    → length new ≡ length old
    → RoomFor old body
    → rename_sc_body_variables src body old new ≡ some (renamed_body src body old new)
unfolding rename_sc_body_variables renamed_body
rename_sc_body_variables-renamed src body old new same room =
    let args = room.args_room in
    let depth : length old ≡ length (renamed_args old new []) =
      omega (arith, length-renamed_args old new [] same) in
    rw (push_args-renamed old new [] (omega arith)) (
      rename_variables_r-renamed body src (renamed_args old new [])
        (subst (λ d. HasRoom d body) depth room.body_room))

pub length-next_vars :
    (src : Vars) (names : List Name) → length (next_vars src names).1 ≡ length names
unfolding next_vars
length-next_vars src [] = refl
length-next_vars src (name ∷ names) = ap suc (length-next_vars (next_var src name).0 names)

pub rename_variables-renamed :
    (src : Vars) (argnames : List Name) (body : Snode)
    → RoomFor argnames body
    → rename_variables src argnames body ≡ some (renamed src argnames body)
unfolding rename_variables renamed
rename_variables-renamed src argnames body room =
    let v = next_vars src argnames in
    rw (rename_sc_body_variables-renamed v.0 body argnames v.1 (length-next_vars src argnames) room)
      refl
