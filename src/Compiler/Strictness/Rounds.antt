-- ===== src/Compiler/Strictness/Rounds.antt =====
-- The rounds of the strictness analyser at a letrec, and the variables that are free in it.
use nreduce.Base.{
  ℕ, zero, suc, Bool, true, false, ◌≡◌, refl, sym, ap, subst, ◌∙◌, List, [], ◌∷◌, some, >>=-eq-some,
  if◌then◌else◌, Bool-cases, inl, inr, arith, ◌⊎◌, if-eq,
}
use nreduce.Compiler.Syntax.{Name, Snode, Letrec, done, binding, bound_names}
use nreduce.Compiler.Scombs.{Scomb}
use nreduce.Compiler.Evaluation.{Env, recs, Closure, Value, Super, Delta, run}
use nreduce.Compiler.Strictness.{Pass}
use nreduce.Compiler.Strictness.Lists.{has_name, IsSorted}
use nreduce.Compiler.Strictness.Marks.{clear}
use nreduce.Compiler.Strictness.Demand.{Sound}
use nreduce.Compiler.Evaluation.{find_value}
use nreduce.Compiler.Strictness.{check_bindings, check_rounds, mark_bindings, marks_again, add_free}
use nreduce.Compiler.Strictness.Lists.{add_var, has_name-add_var, has_name-str_eq, add_var-IsSorted}
use nreduce.Compiler.Strictness.Steps.{DemandsAt, SoundPass}
use nreduce.Compiler.Strictness.Marks.{clear_values, is_marked, IsDistinct}
use nreduce.Compiler.Strictness.Demand.{DemandsIn, SoundValues}
use nreduce.Compiler.Strictness.Letrecs.{Sound-Owns, check_bindings-RecStep}

-- New marks go to bindings that the body uses.
is_marked-mark_bindings :
    (rec : Letrec) (used : List Name) (y : Name)
    → is_marked (mark_bindings rec used) y ≡ true
    → (is_marked rec y ≡ true) ⊎ (has_name used y ≡ true)
unfolding is_marked mark_bindings
is_marked-mark_bindings done used y h = cc
is_marked-mark_bindings (binding name value strict rest) used y h =
    ground (arith, is_marked-mark_bindings rest used y, has_name-str_eq used name y)

clear_values-mark_bindings :
    (rec : Letrec) (used : List Name) → clear_values (mark_bindings rec used) ≡ clear_values rec
unfolding clear_values mark_bindings
clear_values-mark_bindings done used = refl
clear_values-mark_bindings (binding name value strict rest) used =
    ap (λ (r : Letrec). binding name (clear value) false r) (clear_values-mark_bindings rest used)

bound_names-mark_bindings :
    (rec : Letrec) (used : List Name) → bound_names (mark_bindings rec used) ≡ bound_names rec
unfolding mark_bindings
bound_names-mark_bindings done used = refl
bound_names-mark_bindings (binding name value strict rest) used =
    ap (λ (l : List Name). name ∷ l) (bound_names-mark_bindings rest used)

-- What `add_free` adds is not bound.
pub has_name-add_free :
    (bound xs used : List Name) (x : Name)
    → has_name (add_free bound xs used) x ≡ true
    → (has_name used x ≡ true) ⊎ ((has_name xs x ≡ true) × (has_name bound x ≡ false))
unfolding add_free has_name
has_name-add_free bound [] used x h = inl h
has_name-add_free bound (y ∷ ys) used x h = elim (Bool-cases (has_name bound y)) [
  | inl isrec ↦ ground (arith, has_name-add_free bound ys used x)
  | inr isfree ↦ ground (
    arith,
    has_name-add_free bound ys (add_var used y) x,
    has_name-add_var used y x,
    has_name-str_eq bound y x,
  )
]

if-IsSorted :
    (b : Bool) (xs ys : List Name) → IsSorted xs → IsSorted ys → IsSorted (if b then xs else ys)
if-IsSorted true xs ys p q = p
if-IsSorted false xs ys p q = q

pub add_free-IsSorted :
    (bound xs used : List Name) → IsSorted used → IsSorted (add_free bound xs used)
unfolding add_free
add_free-IsSorted bound [] used s = s
add_free-IsSorted bound (y ∷ ys) used s =
    add_free-IsSorted bound ys (if has_name bound y then used else add_var used y)
      (if-IsSorted (has_name bound y) used (add_var used y) s (add_var-IsSorted used y s))

module _ (delta : Delta) (prog : List Super) (scombs : List Scomb) where
  SoundValues-mark_bindings :
      (rec : Letrec) (used : List Name)
      → SoundValues delta prog scombs rec
      → SoundValues delta prog scombs (mark_bindings rec used)
  unfolding SoundValues mark_bindings
  SoundValues-mark_bindings done used s = tt
  SoundValues-mark_bindings (binding name value strict rest) used s =
      (s.0, SoundValues-mark_bindings rest used s.1)

  module _ (whole : Letrec) (inner : Snode) where
    -- The state of the loop at a letrec.
    pub record Inside (rec : Letrec) (body : Snode) (bodyused : List Name) : Type 0 where
      pub values : clear_values rec ≡ whole
      pub tree : clear body ≡ inner
      pub distinct : IsDistinct (bound_names rec)
      pub sound_values : SoundValues delta prog scombs rec
      pub sound_body : Sound delta prog scombs body
      pub marks : (y : Name) → is_marked rec y ≡ true → DemandsIn delta prog whole inner y
      pub demands : (x : Name) → has_name bodyused x ≡ true → DemandsIn delta prog whole inner x
      pub sorted : IsSorted bodyused

    marked :
        (rec : Letrec) (body : Snode) (bodyused : List Name)
        → Inside rec body bodyused
        → Inside (mark_bindings rec bodyused) body bodyused
    marked rec body bodyused i = record {
      values = clear_values-mark_bindings rec bodyused ∙ i.values;
      tree = i.tree;
      distinct = subst IsDistinct (sym (bound_names-mark_bindings rec bodyused)) i.distinct;
      sound_values = SoundValues-mark_bindings rec bodyused i.sound_values;
      sound_body = i.sound_body;
      marks = λ y m. elim (is_marked-mark_bindings rec bodyused y m) [
        | inl old ↦ i.marks y old
        | inr used ↦ i.demands y used
      ];
      demands = i.demands;
      sorted = i.sorted;
    }

    pub check_rounds-Inside :
        (go : Pass)
        → SoundPass delta prog scombs go
        → (rounds : ℕ) (rec : Letrec) (body : Snode) (bodyused : List Name) (changed : Bool)
          (rec' : Letrec) (body' : Snode) (bodyused' : List Name) (changed' : Bool)
        → Inside rec body bodyused
        → check_rounds go rounds rec body bodyused changed
          ≡ some ((rec', body'), bodyused', changed')
        → Inside rec' body' bodyused'
    unfolding check_rounds
    check_rounds-Inside go passes zero rec body bodyused changed rec' body' bodyused' changed' i h =
        cc
    check_rounds-Inside go passes (suc rounds) rec body bodyused changed rec' body' bodyused'
          changed' i h =
        let ((rec1, bodyused1, changed1), e1, h1) =
          >>=-eq-some (check_bindings go rec bodyused changed) _ h in
        let ((body1, bodyused2, changed2), e2, h2) =
          >>=-eq-some (go body bodyused1 changed1) _ h1 in
        let finds = λ (y : Name) (value : Snode) (f : find_value (clear_values rec) y ≡ some value).
          subst (λ (w : Letrec). find_value w y ≡ some value) i.values f in
        let owns = Sound-Owns delta prog scombs whole inner rec i.distinct finds i.marks in
        let a =
          check_bindings-RecStep delta prog scombs whole inner go passes rec bodyused changed rec1
            bodyused1 changed1 i.sound_values owns e1 in
        let b = passes body bodyused1 changed1 body1 bodyused2 changed2 i.sound_body e2 in
        let lifted = λ (x : Name) (d : DemandsAt delta prog scombs 0 (clear body) x).
          λ (fuel : ℕ) (env : Env) (st : List Closure) (v : Value)
              (g : run delta prog fuel inner (recs whole env) st ≡ some v).
            d fuel (recs whole env) st v (omega arith) (
              subst (λ (e : Snode). run delta prog fuel e (recs whole env) st ≡ some v) (sym i.tree)
                g) in
        let known : (x : Name) → has_name bodyused2 x ≡ true → DemandsIn delta prog whole inner x =
          λ x m. elim (b.demands x m) [
            | inr d ↦ lifted x d
            | inl old ↦ elim (a.demands x old) [ inr d ↦ d | inl older ↦ i.demands x older ]
          ] in
        let now : Inside rec1 body1 bodyused2 = record {
          values = a.same ∙ i.values;
          tree = b.same ∙ i.tree;
          distinct = subst IsDistinct (sym a.names) i.distinct;
          sound_values = a.sound;
          sound_body = b.sound;
          marks = λ y m. i.marks y (sym (a.marks y) ∙ m);
          demands = known;
          sorted = b.sorted (a.sorted i.sorted);
        } in
        elim (if-eq (marks_again rec1 bodyused2) _ _ h2) [
          | inl (again, h3) ↦
              check_rounds-Inside go passes rounds (mark_bindings rec1 bodyused2) body1 bodyused2
                true rec' body' bodyused' changed' (marked rec1 body1 bodyused2 now) h3
          | inr (stop, h3) ↦
              let e3 : rec1 ≡ rec' = cc in
              let e4 : body1 ≡ body' = cc in
              let e5 : bodyused2 ≡ bodyused' = cc in
              subst (λ (r : Letrec). Inside r body' bodyused') e3
                (subst (λ (d : Snode). Inside rec1 d bodyused') e4
                  (subst (λ (u : List Name). Inside rec1 body1 u) e5 now))
        ]
