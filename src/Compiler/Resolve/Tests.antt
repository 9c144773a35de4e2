-- ===== src/Compiler/Resolve/Tests.antt =====
-- A body with a bound name, a name of its module, a built-in function and an unknown name.
use nreduce.Base.{◌≡◌, refl, [], ◌∷◌, none, some, codes, str_eq, false}
use nreduce.Compiler.Syntax.{Snode, application, builtin, symbol, scref}
use nreduce.Compiler.Scombs.{Scombs, hash, char_sum, get_scomb, walk, append_scomb, blank}
use nreduce.Compiler.Builtins.{get_builtin, find_builtin, builtin_info}
use nreduce.Compiler.Names.{has_prefix}
use nreduce.Compiler.Room.{push, push_all}
use nreduce.Compiler.Resolve.{
  is_bound, has_colons, in_module, find_scomb, resolve_symbol, resolve_refs_r, resolve_refs,
}

-- The program has a function `f` of its own and one in the module `m`.
unfoldable program : Scombs
program =
    append_scomb (append_scomb (record { scombs = []; schash = λ h. none }) (blank (codes "f")))
      (blank (codes "m::f"))

-- `x f` and `+ y` in the scope of `x`
abbrev body : Snode
body =
    application (application (symbol (codes "x")) (symbol (codes "f")) false)
      (application (symbol (codes "+")) (symbol (codes "y")) false) false

resolve_refs_run :
    resolve_refs program (some (codes "m")) (codes "x" ∷ []) body []
    ≡ some (
      application
          (application (symbol (codes "x")) (scref 1) false)
          (application (builtin 0) (symbol (codes "y")) false)
          false,
      codes "y" ∷ [],
    )
unfolding program append_scomb resolve_refs resolve_refs_r is_bound resolve_symbol find_scomb
    in_module has_colons has_prefix get_scomb walk hash char_sum get_builtin find_builtin
    builtin_info str_eq push_all push
resolve_refs_run = refl
