-- ===== src/Compiler/Nameless.antt =====
-- Source trees without names, which say what a tree means whatever its bound variables are called.
-- A variable is the number of binders between it and its own.
use nreduce.Base.{ℕ, suc, Bool, List, [], ◌∷◌, str_eq, if◌then◌else◌, Option, none, some}
use mathlib.Core.Option
use nreduce.Compiler.Syntax.{Name, Snode, Letrec}

mutual
  pub data Nameless : Type 0 where
    bound : (index : ℕ) → Nameless
    free : Name → Nameless
    application : Nameless → Nameless → Nameless
    lambda : Nameless → Nameless
    letrec : NamelessRec → Nameless → Nameless
    builtin : (bif : ℕ) → Nameless
    scref : (sc : ℕ) → Nameless
    nil : Nameless
    number : (num : ℕ) → Nameless
    string : (value : Name) → Nameless

  pub data NamelessRec : Type 0 where
    done : NamelessRec
    binding : Nameless → (strict : Bool) → NamelessRec → NamelessRec

-- The position of a name among the binders in scope, the innermost first.
unfoldable pub index_of : Name → List Name → Option ℕ
index_of name [] = none
index_of name (b ∷ bs) = if str_eq b name then some 0 else Option.map suc (index_of name bs)

unfoldable pub variable : Name → Option ℕ → Nameless
variable name none = free name
variable name (some i) = bound i

-- The bindings of a letrec come into scope in order, the last one innermost.
unfoldable pub push_names : Letrec → List Name → List Name
push_names Letrec.done scope = scope
push_names (Letrec.binding name value strict rest) scope = push_names rest (name ∷ scope)

unfoldable mutual
  pub nameless : Snode → List Name → Nameless
  nameless (Snode.application l r strict) scope = application (nameless l scope) (nameless r scope)
  nameless (Snode.lambda name body) scope = lambda (nameless body (name ∷ scope))
  nameless (Snode.letrec rec body) scope =
      let inner = push_names rec scope in letrec (nameless_values rec inner) (nameless body inner)
  nameless (Snode.symbol name) scope = variable name (index_of name scope)
  nameless (Snode.builtin bif) scope = builtin bif
  nameless (Snode.scref sc) scope = scref sc
  nameless Snode.nil scope = nil
  nameless (Snode.number num) scope = number num
  nameless (Snode.string value) scope = string value

  pub nameless_values : Letrec → List Name → NamelessRec
  nameless_values Letrec.done scope = done
  nameless_values (Letrec.binding name value strict rest) scope =
      binding (nameless value scope) strict (nameless_values rest scope)
