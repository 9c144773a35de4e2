-- ===== src/Compiler/Strictness/Marks.antt =====
-- The marks of the strictness analyser: trees without them, and what they say of evaluation.
use nreduce.Base.{
  ℕ, zero, suc, ◌+◌, Bool, false, ◌&&◌, ◌||◌, ◌≡◌, refl, ap, subst, List, [], ◌∷◌, length,
  get_elem?, some, str_eq, arith,
}
use nreduce.Compiler.Syntax.{
  Name, Snode, application, lambda, builtin, symbol, letrec, scref, nil, number, string, Letrec,
  done, binding,
}
use nreduce.Compiler.Scombs.{Scomb}
use nreduce.Compiler.Evaluation.{Env, Closure, Value, Super, Delta, run}
use nreduce.Compiler.Evaluation.Facts.{run-Extends}
use nreduce.Compiler.Strictness.{spine_fun, spine_nargs, fun_nargs, fun_strictin}
use nreduce.Compiler.Strictness.Lists.{has_name}

-- The tree with no mark set.
unfoldable mutual
  pub clear : Snode → Snode
  clear (application l r strict) = application (clear l) (clear r) false
  clear (lambda name body) = lambda name (clear body)
  clear (builtin bif) = builtin bif
  clear (symbol name) = symbol name
  clear (letrec rec body) = letrec (clear_values rec) (clear body)
  clear (scref sc) = scref sc
  clear nil = nil
  clear (number num) = number num
  clear (string value) = string value

  pub clear_values : Letrec → Letrec
  clear_values done = done
  clear_values (binding name value strict rest) =
      binding name (clear value) false (clear_values rest)

-- The program that the supercombinators are.
unfoldable pub program : List Scomb → List Super
program [] = []
program (s ∷ scombs) = record { params = s.argnames; code = clear s.body } ∷ program scombs

-- Is a binding of this name marked?
unfoldable pub is_marked : Letrec → Name → Bool
is_marked done y = false
is_marked (binding name value strict rest) y = strict && str_eq name y || is_marked rest y

abbrev pub IsDistinct : List Name → Type 0
IsDistinct [] = Unit
IsDistinct (x ∷ xs) = (has_name xs x ≡ false) × IsDistinct xs

-- The arguments in a spine, on top of those on the stack.
unfoldable pub spine_closures : Snode → Env → List Closure → List Closure
spine_closures (application l r strict) env st =
    spine_closures l env (record { code = r; env = env } ∷ st)
spine_closures (lambda name body) env st = st
spine_closures (builtin bif) env st = st
spine_closures (symbol name) env st = st
spine_closures (letrec rec body) env st = st
spine_closures (scref sc) env st = st
spine_closures nil env st = st
spine_closures (number num) env st = st
spine_closures (string value) env st = st

pub length-spine_closures :
    (c : Snode) (env : Env) (st : List Closure)
    → length (spine_closures c env st) ≡ spine_nargs c + length st
unfolding spine_closures spine_nargs
length-spine_closures (application l r strict) env st =
    omega (arith, length-spine_closures l env (record { code = r; env = env } ∷ st))
length-spine_closures (lambda name body) env st = omega arith
length-spine_closures (builtin bif) env st = omega arith
length-spine_closures (symbol name) env st = omega arith
length-spine_closures (letrec rec body) env st = omega arith
length-spine_closures (scref sc) env st = omega arith
length-spine_closures nil env st = omega arith
length-spine_closures (number num) env st = omega arith
length-spine_closures (string value) env st = omega arith

pub spine_closures-at :
    (c : Snode) (env : Env) (st : List Closure) (i : ℕ)
    → get_elem? (spine_closures c env st) (spine_nargs c + i) ≡ get_elem? st i
unfolding spine_closures spine_nargs
spine_closures-at (application l r strict) env st i =
    subst
      (λ (n : ℕ).
        get_elem? (spine_closures l env (record { code = r; env = env } ∷ st)) n ≡ get_elem? st i)
      (omega arith) (spine_closures-at l env (record { code = r; env = env } ∷ st) (suc i))
spine_closures-at (lambda name body) env st i = ap (get_elem? st) (omega arith)
spine_closures-at (builtin bif) env st i = ap (get_elem? st) (omega arith)
spine_closures-at (symbol name) env st i = ap (get_elem? st) (omega arith)
spine_closures-at (letrec rec body) env st i = ap (get_elem? st) (omega arith)
spine_closures-at (scref sc) env st i = ap (get_elem? st) (omega arith)
spine_closures-at nil env st i = ap (get_elem? st) (omega arith)
spine_closures-at (number num) env st i = ap (get_elem? st) (omega arith)
spine_closures-at (string value) env st i = ap (get_elem? st) (omega arith)

-- A function at the bottom of a spine carries no marks.
pub fun_strictin-clear :
    (scombs : List Scomb) (c : Snode) (i : ℕ)
    → fun_strictin scombs (spine_fun (clear c)) i ≡ fun_strictin scombs (spine_fun c) i
unfolding fun_strictin spine_fun clear
fun_strictin-clear scombs (application l r strict) i = fun_strictin-clear scombs l i
fun_strictin-clear scombs (lambda name body) i = refl
fun_strictin-clear scombs (builtin bif) i = refl
fun_strictin-clear scombs (symbol name) i = refl
fun_strictin-clear scombs (letrec rec body) i = refl
fun_strictin-clear scombs (scref sc) i = refl
fun_strictin-clear scombs nil i = refl
fun_strictin-clear scombs (number num) i = refl
fun_strictin-clear scombs (string value) i = refl

pub fun_nargs-clear :
    (scombs : List Scomb) (c : Snode)
    → fun_nargs scombs (spine_fun (clear c)) ≡ fun_nargs scombs (spine_fun c)
unfolding fun_nargs spine_fun clear
fun_nargs-clear scombs (application l r strict) = fun_nargs-clear scombs l
fun_nargs-clear scombs (lambda name body) = refl
fun_nargs-clear scombs (builtin bif) = refl
fun_nargs-clear scombs (symbol name) = refl
fun_nargs-clear scombs (letrec rec body) = refl
fun_nargs-clear scombs (scref sc) = refl
fun_nargs-clear scombs nil = refl
fun_nargs-clear scombs (number num) = refl
fun_nargs-clear scombs (string value) = refl

pub spine_nargs-clear : (c : Snode) → spine_nargs (clear c) ≡ spine_nargs c
unfolding spine_nargs clear
spine_nargs-clear (application l r strict) = ap suc (spine_nargs-clear l)
spine_nargs-clear (lambda name body) = refl
spine_nargs-clear (builtin bif) = refl
spine_nargs-clear (symbol name) = refl
spine_nargs-clear (letrec rec body) = refl
spine_nargs-clear (scref sc) = refl
spine_nargs-clear nil = refl
spine_nargs-clear (number num) = refl
spine_nargs-clear (string value) = refl

module _ (delta : Delta) (prog : List Super) where
  pub run-spine_fun :
      (fuel : ℕ) (c : Snode) (env : Env) (st : List Closure) (v : Value)
      → run delta prog fuel c env st ≡ some v
      → run delta prog fuel (spine_fun c) env (spine_closures c env st) ≡ some v
  unfolding spine_fun spine_closures
  run-spine_fun zero c env st v h = unfold run in cc
  run-spine_fun (suc fuel) (application l r strict) env st v h =
      let st1 : List Closure = record { code = r; env = env } ∷ st in
      let h1 : run delta prog fuel l env st1 ≡ some v = unfold run in h in
      run-Extends delta prog fuel (spine_fun l) env (spine_closures l env st1) v
        (run-spine_fun fuel l env st1 v h1)
  run-spine_fun (suc fuel) (lambda name body) env st v h = h
  run-spine_fun (suc fuel) (builtin bif) env st v h = h
  run-spine_fun (suc fuel) (symbol name) env st v h = h
  run-spine_fun (suc fuel) (letrec rec body) env st v h = h
  run-spine_fun (suc fuel) (scref sc) env st v h = h
  run-spine_fun (suc fuel) nil env st v h = h
  run-spine_fun (suc fuel) (number num) env st v h = h
  run-spine_fun (suc fuel) (string value) env st v h = h
