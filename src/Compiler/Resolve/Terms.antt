-- ===== src/Compiler/Resolve/Terms.antt =====
-- Trees with free variables: what may be resolved, what a free name stands for, and which names stay
-- free.
use mathlib.Core.Option.{or_else}
use nreduce.Base.{
  ℕ, Bool, false, ◌&&◌, ◌||◌, ◌==◌, List, [], ◌∷◌, ◌++◌, length, Option, none, some, codes,
  if◌then◌else◌,
}
use nreduce.Compiler.Syntax.{
  Name, Snode, application, lambda, builtin, symbol, letrec, scref, nil, number, string, Letrec,
  done, binding,
}
use nreduce.Compiler.Scombs.{Scomb, Scombs}
use nreduce.Compiler.Builtins.{get_builtin}
use nreduce.Compiler.Nameless.{Nameless, NamelessRec}
use nreduce.Compiler.Scombs.Lookup.{last_at, is_named}

-- The parser makes no references.
unfoldable mutual
  pub IsParsed : Snode → Type 0
  IsParsed (application l r strict) = IsParsed l × IsParsed r
  IsParsed (lambda name body) = IsParsed body
  IsParsed (letrec rec body) = AreParsed rec × IsParsed body
  IsParsed (builtin bif) = ⊥
  IsParsed (scref sc) = ⊥
  IsParsed (symbol name) = Unit
  IsParsed nil = Unit
  IsParsed (number num) = Unit
  IsParsed (string value) = Unit

  pub AreParsed : Letrec → Type 0
  AreParsed done = Unit
  AreParsed (binding name value strict rest) = IsParsed value × AreParsed rest

-- The tree with a term for each free variable.
unfoldable mutual
  pub replace_free : (Name → Nameless) → Nameless → Nameless
  replace_free f (Nameless.bound i) = Nameless.bound i
  replace_free f (Nameless.free name) = f name
  replace_free f (Nameless.application l r) =
      Nameless.application (replace_free f l) (replace_free f r)
  replace_free f (Nameless.lambda body) = Nameless.lambda (replace_free f body)
  replace_free f (Nameless.letrec rec body) =
      Nameless.letrec (replace_values f rec) (replace_free f body)
  replace_free f (Nameless.builtin bif) = Nameless.builtin bif
  replace_free f (Nameless.scref sc) = Nameless.scref sc
  replace_free f Nameless.nil = Nameless.nil
  replace_free f (Nameless.number num) = Nameless.number num
  replace_free f (Nameless.string value) = Nameless.string value

  pub replace_values : (Name → Nameless) → NamelessRec → NamelessRec
  replace_values f NamelessRec.done = NamelessRec.done
  replace_values f (NamelessRec.binding value strict rest) =
      NamelessRec.binding (replace_free f value) strict (replace_values f rest)

-- The free variables of a tree, in order.
unfoldable mutual
  pub free_names : Nameless → List Name
  free_names (Nameless.bound i) = []
  free_names (Nameless.free name) = name ∷ []
  free_names (Nameless.application l r) = free_names l ++ free_names r
  free_names (Nameless.lambda body) = free_names body
  free_names (Nameless.letrec rec body) = free_names_values rec ++ free_names body
  free_names (Nameless.builtin bif) = []
  free_names (Nameless.scref sc) = []
  free_names Nameless.nil = []
  free_names (Nameless.number num) = []
  free_names (Nameless.string value) = []

  pub free_names_values : NamelessRec → List Name
  free_names_values NamelessRec.done = []
  free_names_values (NamelessRec.binding value strict rest) =
      free_names value ++ free_names_values rest

-- Do two colons in a row occur in a name?
unfoldable pub is_qualified : Name → Bool
is_qualified [] = false
is_qualified (c ∷ []) = false
is_qualified (c ∷ d ∷ cs) = (c == b':' && d == b':') || is_qualified (d ∷ cs)

-- The names under which the supercombinator that a free name stands for may be entered: that of its
-- module, unless the name is qualified, and then the name itself.
unfoldable pub entered_as : Option Name → Name → List Name
entered_as none name = name ∷ []
entered_as (some modname) name =
    if is_qualified name then name ∷ [] else (modname ++ (codes "::" ++ name)) ∷ (name ∷ [])

-- The newest supercombinator that has the first name of a list that any has.
unfoldable pub newest_entry : List Scomb → List Name → Option ℕ
newest_entry scombs [] = none
newest_entry scombs (name ∷ names) =
    or_else (last_at (is_named name) scombs (length scombs)) (newest_entry scombs names)

-- What a free name stands for: a supercombinator of the module, then one of the whole program, then
-- a built-in function.
unfoldable pub global : Scombs → Option Name → Name → Nameless
global src modname name = elim (newest_entry src.scombs (entered_as modname name)) [
  | some sc ↦ Nameless.scref sc
  | none ↦ elim (get_builtin name) [ some bif ↦ Nameless.builtin bif | none ↦ Nameless.free name ]
]
