-- ===== src/Compiler/Strictness.antt =====
-- The strictness analyser (nreduce/compiler/strictness.c). A pass over a tree returns the tree with
-- its new marks, the sorted list of the variables used, and the flag that `changed` points to.
pub mod Lists
pub mod Marks
pub mod Steps
pub mod Calls
pub mod Applications
pub mod Letrecs
pub mod Rounds
pub mod Analysis
pub mod Wellformed
pub mod Progress
pub mod CallProgress
pub mod Termination
pub mod Soundness
pub mod Returns
pub mod Tables
pub mod Programs
pub mod Correct
mod Tests
pub mod Demand
use nreduce.Base.{
  ℕ, zero, suc, ◌+◌, Bool, true, false, not, ◌&&◌, ◌||◌, List, [], ◌∷◌, length, get_elem?, Option,
  none, some, ◌>>=◌, ◌>>◌, assert, ◌==◌, ltb, if◌then◌else◌, str_eq,
}
use nreduce.Compiler.Syntax.{
  Name, Snode, application, lambda, builtin, symbol, letrec, scref, nil, number, string, Letrec,
  done, binding, bound_names,
}
use nreduce.Compiler.Scombs.{Scomb}
use nreduce.Compiler.Evaluation.{b_if_index, b_seq_index}
use nreduce.Compiler.Builtins.{builtin_info}
use nreduce.Compiler.Strictness.Lists.{has_name, add_var, add_union}

-- The function at the bottom of the spine, and the number of the arguments.
unfoldable pub spine_fun : Snode → Snode
spine_fun (application l r strict) = spine_fun l
spine_fun (lambda name body) = lambda name body
spine_fun (builtin bif) = builtin bif
spine_fun (symbol name) = symbol name
spine_fun (letrec rec body) = letrec rec body
spine_fun (scref sc) = scref sc
spine_fun nil = nil
spine_fun (number num) = number num
spine_fun (string value) = string value

unfoldable pub spine_nargs : Snode → ℕ
spine_nargs (application l r strict) = suc (spine_nargs l)
spine_nargs (lambda name body) = 0
spine_nargs (builtin bif) = 0
spine_nargs (symbol name) = 0
spine_nargs (letrec rec body) = 0
spine_nargs (scref sc) = 0
spine_nargs nil = 0
spine_nargs (number num) = 0
spine_nargs (string value) = 0

abbrev pub is_function : Snode → Bool
is_function (scref sc) = true
is_function (builtin bif) = true
is_function c = false

-- `none` is the call of `abort`, or a read out of bounds.
unfoldable pub fun_nargs : List Scomb → Snode → Option ℕ
fun_nargs scombs (scref sc) = get_elem? scombs sc >>= λ s. some (length s.argnames)
fun_nargs scombs (builtin bif) = get_elem? builtin_info bif >>= λ b. some b.nargs
fun_nargs scombs c = none

abbrev pub flag : Scomb → ℕ → Option Bool
flag s argno = do
  assert (ltb argno (length s.argnames))
  strictin ← s.strictin
  get_elem? strictin argno

unfoldable pub fun_strictin : List Scomb → Snode → ℕ → Option Bool
fun_strictin scombs (scref sc) argno = get_elem? scombs sc >>= λ s. flag s argno
fun_strictin scombs (builtin bif) argno = do
  b ← get_elem? builtin_info bif
  assert (ltb argno b.nargs)
  some (ltb argno b.nstrict)
fun_strictin scombs c argno = none

-- What a pass over a `T` returns.
abbrev pub Result : Type 0 → Type 0
Result T = Option (T × List Name × Bool)

abbrev pub Pass : Type 0
Pass = Snode → List Name → Bool → Result Snode

-- One round of the loop over the arguments, at the argument `r`; `others` does the rounds after it.
unfoldable pub check_arg :
    Pass
    → (List Name → Bool → Result Snode)
    → Snode
    → Bool
    → (isstrict : Bool) → List Name
    → Bool
    → Result Snode
check_arg go others r strict true used changed =
    go r used (changed || not strict) >>= λ (r', used1, changed1).
    others used1 changed1 >>= λ (l', used2, changed2).
    some (application l' r' true, used2, changed2)
check_arg go others r strict false used changed =
    others used changed >>= λ (l', used1, changed1). some (application l' r strict, used1, changed1)

-- The loop over the arguments of a saturated call, from the last one to the first: `argno`
-- arguments are left at the node `app`.
unfoldable pub check_args : List Scomb → Pass → Snode → ℕ → Snode → List Name → Bool → Result Snode
check_args scombs go fun zero app used changed = some (app, used, changed)
check_args scombs go fun (suc argno) (application l r strict) used changed =
    fun_strictin scombs fun argno >>= λ isstrict.
    check_arg go (check_args scombs go fun argno l) r strict isstrict used changed
check_args scombs go fun (suc argno) c used changed = none

-- The branches of a call of `if`.
unfoldable pub check_if : Pass → Snode → List Name → Bool → Result Snode
check_if go (application (application l t s1) f s2) used changed =
    go t [] changed >>= λ (t', trueused, changed1).
    go f [] changed1 >>= λ (f', falseused, changed2).
    some (application (application l t' s1) f' s2, add_union used trueused falseused, changed2)
check_if go c used changed = none

-- The second argument of a call of `seq`.
unfoldable pub check_seq : Pass → Snode → List Name → Bool → Result Snode
check_seq go (application l after strict) used changed =
    go after [] changed >>= λ (after', afterused, changed1).
    some (application l after' strict, used, changed1)
check_seq go c used changed = none

-- The functions that the analyser treats specially.
unfoldable pub check_special : Pass → Snode → Snode → List Name → Bool → Result Snode
check_special go (builtin bif) c used changed =
    if bif == b_if_index
    then check_if go c used changed
    else if bif == b_seq_index
    then check_seq go c used changed
    else some (c, used, changed)
check_special go fun c used changed = some (c, used, changed)

-- What is done at a call with just the number of arguments that its function takes.
unfoldable pub check_call : List Scomb → Pass → Snode → List Name → Bool → Result Snode
check_call scombs go c used changed =
    check_args scombs go (spine_fun c) (spine_nargs c) c used changed >>= λ (c1, used1, changed1).
    check_special go (spine_fun c) c1 used1 changed1

-- Is there a function of a known number of arguments at the bottom, and are there as many?
unfoldable pub is_saturated : List Scomb → Snode → Option Bool
is_saturated scombs c =
    let fun = spine_fun c in
    if is_function fun
    then (fun_nargs scombs fun >>= λ nargs. some (spine_nargs c == nargs))
    else some false

-- The recursive call for the function of an application.
unfoldable pub check_left : Pass → Snode → List Name → Bool → Result Snode
check_left go (application l r strict) used changed =
    go l used changed >>= λ (l', used1, changed1). some (application l' r strict, used1, changed1)
check_left go c used changed = none

unfoldable pub check_known :
    List Scomb → Pass → (saturated : Bool) → Snode → List Name → Bool → Result Snode
check_known scombs go true c used changed =
    check_call scombs go c used changed >>= λ (c1, used1, changed1). check_left go c1 used1 changed1
check_known scombs go false c used changed = check_left go c used changed

unfoldable pub check_application : List Scomb → Pass → Snode → List Name → Bool → Result Snode
check_application scombs go c used changed =
    is_saturated scombs c >>= λ saturated. check_known scombs go saturated c used changed

-- The values of the bindings that are marked.
unfoldable pub check_bindings : Pass → Letrec → List Name → Bool → Result Letrec
check_bindings go done used changed = some (done, used, changed)
check_bindings go (binding name value true rest) used changed =
    go value used changed >>= λ (value', used1, changed1).
    check_bindings go rest used1 changed1 >>= λ (rest', used2, changed2).
    some (binding name value' true rest', used2, changed2)
check_bindings go (binding name value false rest) used changed =
    check_bindings go rest used changed >>= λ (rest', used1, changed1).
    some (binding name value false rest', used1, changed1)

-- The marks on the bindings that the body uses, and `again`.
unfoldable pub mark_bindings : Letrec → List Name → Letrec
mark_bindings done bodyused = done
mark_bindings (binding name value strict rest) bodyused =
    binding name value (strict || has_name bodyused name) (mark_bindings rest bodyused)

unfoldable pub marks_again : Letrec → List Name → Bool
marks_again done bodyused = false
marks_again (binding name value strict rest) bodyused =
    not strict && has_name bodyused name || marks_again rest bodyused

-- The do-while loop at a letrec.
unfoldable pub check_rounds : Pass → ℕ → Letrec → Snode → List Name → Bool → Result (Letrec × Snode)
check_rounds go zero rec body bodyused changed = none
check_rounds go (suc rounds) rec body bodyused changed =
    check_bindings go rec bodyused changed >>= λ (rec1, bodyused1, changed1).
    go body bodyused1 changed1 >>= λ (body1, bodyused2, changed2).
    let more = check_rounds go rounds (mark_bindings rec1 bodyused2) body1 bodyused2 true in
    if marks_again rec1 bodyused2 then more else some ((rec1, body1), bodyused2, changed2)

-- The variables used in the body, less those that the letrec binds.
unfoldable pub add_free : List Name → List Name → List Name → List Name
add_free bound [] used = used
add_free bound (x ∷ xs) used = add_free bound xs (if has_name bound x then used else add_var used x)

-- The recursion goes `fuel` nodes deep; a letrec with n bindings has at most n + 1 rounds.
unfoldable pub check_strictness_r : List Scomb → ℕ → Pass
check_strictness_r scombs zero c used changed = none
check_strictness_r scombs (suc fuel) (application l r strict) used changed =
    check_application scombs (check_strictness_r scombs fuel) (application l r strict) used changed
check_strictness_r scombs (suc fuel) (letrec rec body) used changed =
    check_rounds (check_strictness_r scombs fuel) (suc (length (bound_names rec))) rec body []
      changed
    >>= λ ((rec', body'), bodyused, changed').
        some (letrec rec' body', add_free (bound_names rec') bodyused used, changed')
check_strictness_r scombs (suc fuel) (lambda name body) used changed = none
check_strictness_r scombs (suc fuel) (symbol name) used changed =
    some (symbol name, add_var used name, changed)
check_strictness_r scombs (suc fuel) (builtin bif) used changed = some (builtin bif, used, changed)
check_strictness_r scombs (suc fuel) (scref sc) used changed = some (scref sc, used, changed)
check_strictness_r scombs (suc fuel) nil used changed = some (nil, used, changed)
check_strictness_r scombs (suc fuel) (number num) used changed = some (number num, used, changed)
check_strictness_r scombs (suc fuel) (string value) used changed =
    some (string value, used, changed)
