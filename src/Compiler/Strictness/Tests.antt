-- ===== src/Compiler/Strictness/Tests.antt =====
-- Runs of the strictness analyser, and the cases in which its theorems apply.
use nreduce.Base.{
  Bool, true, false, ◌≡◌, refl, List, [], ◌∷◌, ◌≤◌, ◌||◌, ◌&&◌, length, Option, none, some, codes,
  str_eq, arith,
}
use nreduce.Compiler.Syntax.{
  Name, Snode, application, builtin, symbol, letrec, scref, nil, number, done, binding,
}
use nreduce.Compiler.Scombs.{Scomb}
use nreduce.Compiler.Evaluation.{Delta}
use nreduce.Compiler.Builtins.{builtin_info}
use nreduce.Compiler.Strictness.{
  check_strictness_r, check_application, is_saturated, spine_fun, fun_nargs, check_known,
  spine_nargs, check_call, check_args, fun_strictin, check_arg, check_special, check_if, check_left,
  check_seq, add_free, check_bindings, check_rounds, mark_bindings, marks_again,
}
use nreduce.Compiler.Strictness.Lists.{
  has_name, add_union, add_union_lem, union_loop, add_var, strcmp,
}
use nreduce.Compiler.Strictness.Marks.{clear, program}
use nreduce.Compiler.Strictness.Demand.{Sound}
use nreduce.Compiler.Strictness.Steps.{Step}
use nreduce.Compiler.Strictness.Soundness.{check_strictness_r-SoundPass}
use nreduce.Compiler.Strictness.Wellformed.{IsReady, AreFlagged}
use nreduce.Compiler.Strictness.Progress.{Marked}
use nreduce.Compiler.Strictness.Termination.{check_strictness_r-MarkedPass}
use nreduce.Compiler.Strictness.Analysis.{
  init_strictin, strictness_analysis, size, analysis_rounds, check_all, check_strictness,
  set_strictness, memcmp, new_strictin, unmarked, unmarked_scombs, unset, unset_flags,
}
use nreduce.Compiler.Strictness.Programs.{SoundProgram}
use nreduce.Compiler.Strictness.Correct.{
  AreFresh, init_strictin-Informed, init_strictin-SoundProgram, strictness_analysis-SoundProgram,
}

abbrev x : Name
x = codes "x"

abbrev y : Name
y = codes "y"

-- `f x y = if x (+ y 1) y`
abbrev f_body : Bool → Bool → Bool → Bool → Snode
f_body s1 s2 s3 s4 =
    application
      (application (application (builtin 22) (symbol x) s1)
        (application (application (builtin 0) (symbol y) s3) (number 1) s4) s2)
      (symbol y) s2

-- `g x = letrec y = x in f y nil`
abbrev g_body : Bool → Bool → Bool → Snode
g_body s1 s2 s3 =
    letrec (binding y (symbol x) s1 done) (application (application (scref 0) (symbol y) s2) nil s3)

abbrev scomb : Name → List Name → Snode → Option (List Bool) → Scomb
scomb name argnames body strictin = record {
  name = name;
  argnames = argnames;
  body = body;
  strictin = strictin;
  modname = none;
  hashnext = none;
}

abbrev before : List Scomb
before =
    scomb (codes "f") (x ∷ y ∷ []) (f_body false false false false) none
    ∷ scomb (codes "g") (x ∷ []) (g_body false false false) none
    ∷ []

abbrev after : Option (List Scomb)
after = strictness_analysis before

strictness_analysis_run :
    strictness_analysis before
    ≡ some (
        scomb (codes "f") (x ∷ y ∷ []) (f_body true false true true) (some (true ∷ true ∷ []))
        ∷ scomb (codes "g") (x ∷ []) (g_body true true true) (some (true ∷ []))
        ∷ [])
unfolding strictness_analysis analysis_rounds check_all check_strictness set_strictness size memcmp
    new_strictin unmarked unmarked_scombs unset unset_flags check_strictness_r check_application
    is_saturated spine_fun fun_nargs builtin_info check_known spine_nargs check_call check_args
    fun_strictin check_arg check_special check_if check_left check_seq add_union union_loop add_var
    str_eq has_name strcmp add_free check_bindings check_rounds mark_bindings marks_again
    init_strictin
strictness_analysis_run = refl

f_body-IsReady : IsReady 2 (f_body false false false false)
unfolding IsReady builtin_info
f_body-IsReady = omega arith

g_body-IsReady : IsReady 2 (g_body false false false)
unfolding IsReady has_name
g_body-IsReady = ((refl, tt), (tt, tt), ((omega arith, tt), tt))

before-AreFresh : AreFresh 2 before
unfolding clear has_name str_eq
before-AreFresh = (
  (refl, (refl, (refl, tt)), refl, f_body-IsReady),
  ((refl, (refl, tt), refl, g_body-IsReady), tt),
)

strictness_analysis-SoundProgram_example :
    (scombs' : List Scomb) × (strictness_analysis before ≡ some scombs')
    × ((delta : Delta) → SoundProgram delta (program before) scombs')
strictness_analysis-SoundProgram_example = strictness_analysis-SoundProgram before before-AreFresh

-- The built-in functions but `if` and `seq` are left without an answer.
no_delta : Delta
no_delta bif values st = none

f_run :
    check_strictness_r (init_strictin before) 12 (f_body false false false false) [] false
    ≡ some (f_body true false true true, x ∷ y ∷ [], true)
unfolding check_strictness_r check_application is_saturated spine_fun fun_nargs builtin_info
    check_known spine_nargs check_call check_args fun_strictin check_arg check_special check_if
    check_left check_seq add_union union_loop add_var str_eq has_name strcmp add_free check_bindings
    check_rounds mark_bindings marks_again init_strictin
f_run = refl

f_body-Sound :
    Sound no_delta (program before) (init_strictin before) (f_body false false false false)
unfolding init_strictin
f_body-Sound =
    ((init_strictin-SoundProgram no_delta 2 before before-AreFresh).each 0
      (scomb (codes "f") (x ∷ y ∷ []) (f_body false false false false) (some (false ∷ false ∷ [])))
      refl).body

check_strictness_r-SoundPass_example :
    Step no_delta
      (program before)
      (init_strictin before)
      0
      (f_body false false false false)
      []
      (f_body true false true true)
      (x ∷ y ∷ [])
check_strictness_r-SoundPass_example =
    check_strictness_r-SoundPass no_delta (program before) (init_strictin before)
      (init_strictin-Informed no_delta (program before) 2 before before-AreFresh) 12
      (f_body false false false false) [] false (f_body true false true true) (x ∷ y ∷ []) true
      f_body-Sound f_run

before-AreFlagged : AreFlagged (init_strictin before)
unfolding init_strictin
before-AreFlagged = ((false ∷ false ∷ [], refl, refl), ((false ∷ [], refl, refl), tt))

clear-f_body-IsReady :
    IsReady (length (init_strictin before)) (clear (f_body false false false false))
unfolding clear init_strictin
clear-f_body-IsReady = f_body-IsReady

f_size : size (clear (f_body false false false false)) ≤ 12
unfolding size clear
f_size = omega arith

check_strictness_r-MarkedPass_example :
    Marked
      (check_strictness_r (init_strictin before) 12 (f_body false false false false) [] false)
      (f_body false false false false)
      false
check_strictness_r-MarkedPass_example =
    check_strictness_r-MarkedPass (init_strictin before) before-AreFlagged 12
      (f_body false false false false) [] false clear-f_body-IsReady f_size

add_union_lem_example :
    has_name (add_union (x ∷ []) (codes "a" ∷ y ∷ []) (y ∷ codes "z" ∷ [])) y
    ≡ (has_name (x ∷ []) y || (has_name (codes "a" ∷ y ∷ []) y && has_name (y ∷ codes "z" ∷ []) y))
unfolding strcmp
add_union_lem_example =
    add_union_lem (x ∷ []) (codes "a" ∷ y ∷ []) (y ∷ codes "z" ∷ []) y (refl, tt) (refl, tt)
