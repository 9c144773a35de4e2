-- ===== src/Compiler/Evaluation.antt =====
-- What a lifted program means, as the description the compiler's passes are measured by: evaluation
-- by name of the source tree, with `b_if` and `b_seq` of nreduce/runtime/builtins.c. The C functions
-- of the other built-in functions are a parameter.
use nreduce.Base.{
  ℕ, zero, suc, Bool, true, false, List, [], ◌∷◌, length, take, drop, get_elem?, Option, none, some,
  ◌>>=◌, ◌==◌, ltb, if◌then◌else◌, str_eq,
}
use nreduce.Compiler.Syntax.{
  Name, Snode, application, lambda, builtin, symbol, letrec, scref, nil, number, string, Letrec,
  done, binding,
}
use nreduce.Compiler.Builtins.{Builtin, builtin_info}
pub mod Facts

-- B_IF and B_SEQ
abbrev pub b_if_index : ℕ
b_if_index = 22

abbrev pub b_seq_index : ℕ
b_seq_index = 36

-- The variables in scope: `bind` gives a name a tree and the scope that the tree stands in, `recs` is
-- the scope of a letrec.
pub data Env : Type 0 where
  empty : Env
  bind : Name → Snode → Env → Env → Env
  recs : Letrec → Env → Env

-- An expression that is not evaluated yet.
pub record Closure : Type 0 where
  pub code : Snode
  pub env : Env

-- A value: a constant, a function with less arguments than it takes, or an object that a built-in
-- function made.
pub data Value : Type 0 where
  constant : Snode → Value
  partial : (fun : Snode) → List Closure → Value
  object : (kind : ℕ) → List Closure → Value

abbrev pub is_nil : Value → Bool
is_nil (constant nil) = true
is_nil v = false

-- What a built-in function leaves in `argstack[0]`: a value, or an expression that is evaluated next.
pub data Answer : Type 0 where
  answer : Value → Answer
  enter : Closure → Answer

-- A supercombinator of the program.
pub record Super : Type 0 where
  pub params : List Name
  pub code : Snode

abbrev pub find_value : Letrec → Name → Option Snode
find_value done name = none
find_value (binding x value strict rest) name =
    let later = find_value rest name in if str_eq x name then some value else later

unfoldable pub lookup : Env → Name → Option Closure
lookup empty name = none
lookup (bind x code scope env) name =
    let outer = lookup env name in
    if str_eq x name then some (record { code = code; env = scope }) else outer
lookup (recs rec env) name =
    let outer = lookup env name in
    elim (find_value rec name) [
      | none ↦ outer
      | some value ↦ some (record { code = value; env = recs rec env })
    ]

-- The parameters in scope, with the first arguments on the stack as their values.
unfoldable pub bind_args : List Name → List Closure → Env
bind_args [] st = empty
bind_args (x ∷ xs) [] = empty
bind_args (x ∷ xs) (c ∷ st) = bind x c.code c.env (bind_args xs st)

-- The built-in functions whose C functions the program's meaning is told by: from the values of the
-- strict arguments and all the arguments.
abbrev pub Delta : Type 0
Delta = ℕ → List Value → List Closure → Option Answer

unfoldable pub b_if : List Value → List Closure → Option Answer
b_if (ifc ∷ values) (c ∷ truebranch ∷ falsebranch ∷ st) =
    some (enter (if is_nil ifc then falsebranch else truebranch))
b_if values st = none

unfoldable pub b_seq : List Closure → Option Answer
b_seq (first ∷ second ∷ st) = some (enter second)
b_seq st = none

unfoldable pub call_builtin : Delta → ℕ → List Value → List Closure → Option Answer
call_builtin delta bif values st =
    if bif == b_if_index
    then b_if values st
    else if bif == b_seq_index
    then b_seq st
    else delta bif values st

-- The first `n` arguments, evaluated.
unfoldable pub force_args : (Closure → Option Value) → ℕ → List Closure → Option (List Value)
force_args force zero st = some []
force_args force (suc n) [] = none
force_args force (suc n) (c ∷ st) = do v ← force c; vs ← force_args force n st; some (v ∷ vs)

-- What a run has of evaluation with less fuel.
abbrev pub Eval : Type 0
Eval = Snode → Env → List Closure → Option Value

abbrev pub force : Eval → Closure → Option Value
force eval c = eval c.code c.env []

-- A constant takes no arguments.
abbrev pub unapplied : Value → List Closure → Option Value
unapplied v [] = some v
unapplied v (c ∷ st) = none

abbrev pub resume : Eval → Answer → List Closure → Option Value
resume eval (answer v) st = unapplied v st
resume eval (enter c) st = eval c.code c.env st

-- A call of a built-in function: its strict arguments are evaluated first.
unfoldable pub call : Delta → Eval → ℕ → Builtin → List Closure → Option Value
call delta eval bif b st = do
  values ← force_args (force eval) b.nstrict st
  result ← call_builtin delta bif values (take b.nargs st)
  resume eval result (drop b.nargs st)

module _ (delta : Delta) (prog : List Super) where
  -- Evaluation of a tree under the arguments on the stack, at most `fuel` steps deep; `none` is a
  -- run-time error, or too little fuel.
  unfoldable pub run : ℕ → Snode → Env → List Closure → Option Value
  run zero c env st = none
  run (suc fuel) (application l r strict) env st =
      run fuel l env (record { code = r; env = env } ∷ st)
  run (suc fuel) (lambda name body) env st = none
  run (suc fuel) (symbol name) env st = lookup env name >>= λ c. run fuel c.code c.env st
  run (suc fuel) (letrec rec body) env st = run fuel body (recs rec env) st
  run (suc fuel) (scref sc) env st = get_elem? prog sc >>= λ s.
      let entered = run fuel s.code (bind_args s.params st) (drop (length s.params) st) in
      if ltb (length st) (length s.params) then some (partial (scref sc) st) else entered
  run (suc fuel) (builtin bif) env st = get_elem? builtin_info bif >>= λ b.
      let called = call delta (run fuel) bif b st in
      if ltb (length st) b.nargs then some (partial (builtin bif) st) else called
  run (suc fuel) nil env st = unapplied (constant nil) st
  run (suc fuel) (number num) env st = unapplied (constant (number num)) st
  run (suc fuel) (string value) env st = unapplied (constant (string value)) st
