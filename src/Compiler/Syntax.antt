-- ===== src/Compiler/Syntax.antt =====
-- The source tree of nreduce/compiler/source.h. A node keeps what the passes modelled here read:
-- the source location and the fields that only the sinking pass sets (`parent`, `nextuser`, `users`,
-- the SNODE_WRAP nodes) are left out.
use nreduce.Base.{ℕ, Bool, List, [], ◌∷◌, ◌++◌}

abbrev pub Name : Type 0
Name = List ℕ

-- A supercombinator is referred to by its index in `src->scombs`, a built-in function by its
-- number, and the bits of a double stand for a number.
mutual
  pub data Snode : Type 0 where
    application : Snode → Snode → (strict : Bool) → Snode
    lambda : Name → Snode → Snode
    builtin : (bif : ℕ) → Snode
    symbol : Name → Snode
    letrec : Letrec → Snode → Snode
    scref : (sc : ℕ) → Snode
    nil : Snode
    number : (num : ℕ) → Snode
    string : (value : Name) → Snode

  -- `struct letrec`: the bindings in order.
  pub data Letrec : Type 0 where
    done : Letrec
    binding : Name → Snode → (strict : Bool) → Letrec → Letrec

-- The names that a list of bindings binds, in order.
abbrev pub bound_names : Letrec → List Name
bound_names done = []
bound_names (binding name value strict rest) = name ∷ bound_names rest

-- The names at the binding places of a tree, in the order in which the passes reach them: a letrec
-- gives all its names before any of its values.
unfoldable mutual
  pub binders : Snode → List Name
  binders (application l r strict) = binders l ++ binders r
  binders (lambda name body) = name ∷ binders body
  binders (letrec rec body) = bound_names rec ++ (binders_values rec ++ binders body)
  binders (builtin bif) = []
  binders (symbol name) = []
  binders (scref sc) = []
  binders nil = []
  binders (number num) = []
  binders (string value) = []

  pub binders_values : Letrec → List Name
  binders_values done = []
  binders_values (binding name value strict rest) = binders value ++ binders_values rest
