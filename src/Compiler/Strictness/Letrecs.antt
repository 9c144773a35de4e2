-- ===== src/Compiler/Strictness/Letrecs.antt =====
-- The letrecs of the strictness analyser (the SNODE_LETREC case of `check_strictness_r`).
use nreduce.Base.{
  Bool, true, false, ◌||◌, ◌≡◌, refl, sym, ap, ap₂, subst, List, [], ◌∷◌, Option, some, >>=-eq-some,
  str_eq, Bool-cases, inl, inr, arith, ◌⊎◌,
}
use nreduce.Compiler.Syntax.{Name, Snode, Letrec, done, binding, bound_names}
use nreduce.Compiler.Scombs.{Scomb}
use nreduce.Compiler.Evaluation.{recs, Closure, Super, lookup, Delta}
use nreduce.Compiler.Strictness.{Pass}
use nreduce.Compiler.Strictness.Lists.{has_name, IsSorted}
use nreduce.Compiler.Strictness.Marks.{clear}
use nreduce.Compiler.Strictness.Demand.{Forced}
use nreduce.Base.{str_eq_iff, str_eq_refl}
use nreduce.Compiler.Evaluation.{find_value}
use nreduce.Compiler.Strictness.{check_bindings}
use nreduce.Compiler.Strictness.Steps.{DemandsAt, SoundPass}
use nreduce.Compiler.Strictness.Marks.{clear_values, is_marked, IsDistinct}
use nreduce.Compiler.Strictness.Demand.{DemandsIn, SoundValues}

pub find_value-has_name :
    (rec : Letrec) (y : Name) (value : Snode)
    → find_value (clear_values rec) y ≡ some value
    → has_name (bound_names rec) y ≡ true
unfolding clear_values has_name
find_value-has_name done y value h = cc
find_value-has_name (binding name v strict rest) y value h =
    ground (arith, find_value-has_name rest y value)

pub bound_names-clear_values : (rec : Letrec) → bound_names (clear_values rec) ≡ bound_names rec
unfolding clear_values
bound_names-clear_values done = refl
bound_names-clear_values (binding name v strict rest) =
    ap (λ (l : List Name). name ∷ l) (bound_names-clear_values rest)

module _ (delta : Delta) (prog : List Super) (scombs : List Scomb) (whole : Letrec)
    (inner : Snode) where
  -- What the values of the marked bindings demand, the body demands.
  unfoldable pub Owns : Letrec → Type 0
  Owns done = Unit
  Owns (binding name value true rest) =
      ((x : Name)
        → DemandsAt delta prog scombs 0 (clear value) x
        → DemandsIn delta prog whole inner x)
      × Owns rest
  Owns (binding name value false rest) = Owns rest

  later :
      (name : Name) (v : Snode) (strict : Bool) (rest : Letrec)
      → has_name (bound_names rest) name ≡ false
      → ((y : Name) (value : Snode)
          → find_value (clear_values (binding name v strict rest)) y ≡ some value
          → find_value whole y ≡ some value)
      → (y : Name) (value : Snode) → find_value (clear_values rest) y ≡ some value
      → find_value whole y ≡ some value
  unfolding clear_values
  later name v strict rest d finds y value h =
      let apart : str_eq name y ≡ false = elim (Bool-cases (str_eq name y)) [
        | inr e ↦ e
        | inl e ↦
            let m : has_name (bound_names rest) name ≡ true =
              subst (λ (z : Name). has_name (bound_names rest) z ≡ true)
                (sym ((str_eq_iff name y).0 e)) (find_value-has_name rest y value h) in
            cc
      ] in
      finds y value (rw apart h)

  binding-demands :
      (name : Name) (value : Snode)
      → find_value whole name ≡ some value
      → DemandsIn delta prog whole inner name
      → (x : Name) → DemandsAt delta prog scombs 0 value x
      → DemandsIn delta prog whole inner x
  unfolding lookup
  binding-demands name value f d x dx fuel env st v h =
      let (c, e, w) = d fuel env st v h in
      let same : record { code = value; env = recs whole env } ≡ c = cc in
      let (u, g) = subst (λ (a : Closure). Forced delta prog fuel a) (sym same) w in
      dx fuel (recs whole env) [] u (omega arith) g

  pub Sound-Owns :
      (rec : Letrec)
      → IsDistinct (bound_names rec)
      → ((y : Name) (value : Snode)
          → find_value (clear_values rec) y ≡ some value
          → find_value whole y ≡ some value)
      → ((y : Name) → is_marked rec y ≡ true → DemandsIn delta prog whole inner y)
      → Owns rec
  unfolding Owns clear_values is_marked
  Sound-Owns done d finds marks = tt
  Sound-Owns (binding name value true rest) d finds marks = (
    binding-demands name (clear value) (finds name (clear value) (rw (str_eq_refl name) refl))
        (marks name (rw (str_eq_refl name) refl)),
    Sound-Owns rest d.1 (later name value true rest d.0 finds) (λ y m. marks y (ground (arith, m))),
  )
  Sound-Owns (binding name value false rest) d finds marks =
      Sound-Owns rest d.1 (later name value false rest d.0 finds) (λ y m. marks y m)

  pub record RecStep (rec : Letrec) (used : List Name) (rec' : Letrec) (used' : List Name)
      : Type 0 where
    pub same : clear_values rec' ≡ clear_values rec
    pub names : bound_names rec' ≡ bound_names rec
    pub sound : SoundValues delta prog scombs rec'
    pub marks : (y : Name) → is_marked rec' y ≡ is_marked rec y
    pub demands :
        (x : Name)
        → has_name used' x ≡ true
        → (has_name used x ≡ true) ⊎ DemandsIn delta prog whole inner x
    pub sorted : IsSorted used → IsSorted used'

  RecStep-eq :
      {rec : Letrec} {used : List Name} (rec1 : Letrec) (used1 : List Name) (changed1 : Bool)
      {rec2 : Letrec} {used2 : List Name} {changed2 : Bool}
      → ◌≡◌ {A = Option (Letrec × List Name × Bool)}
          (some (rec1, used1, changed1))
          (some (rec2, used2, changed2))
      → RecStep rec used rec1 used1
      → RecStep rec used rec2 used2
  RecStep-eq {rec} {used} rec1 used1 changed1 {rec2} {used2} {changed2} h s =
      let e : rec1 ≡ rec2 = cc in
      let e1 : used1 ≡ used2 = cc in
      subst (λ (d : Letrec). RecStep rec used d used2) e
        (subst (λ (u : List Name). RecStep rec used rec1 u) e1 s)

  pub check_bindings-RecStep :
      (go : Pass)
      → SoundPass delta prog scombs go
      → (rec : Letrec) (used : List Name) (changed : Bool) (rec' : Letrec) (used' : List Name)
        (changed' : Bool)
      → SoundValues delta prog scombs rec
      → Owns rec
      → check_bindings go rec used changed ≡ some (rec', used', changed')
      → RecStep rec used rec' used'
  unfolding check_bindings Owns SoundValues clear_values is_marked
  check_bindings-RecStep go passes done used changed rec' used' changed' s o h =
      RecStep-eq done used changed h (record {
        same = refl;
        names = refl;
        sound = tt;
        marks = λ y. refl;
        demands = λ x m. inl m;
        sorted = λ z. z;
      })
  check_bindings-RecStep go passes (binding name value true rest) used changed rec' used' changed' s
        o h =
      let ((value', used1, changed1), e1, h1) = >>=-eq-some (go value used changed) _ h in
      let ((rest', used2, changed2), e2, h2) =
        >>=-eq-some (check_bindings go rest used1 changed1) _ h1 in
      let a = passes value used changed value' used1 changed1 s.0 e1 in
      let b =
        check_bindings-RecStep go passes rest used1 changed1 rest' used2 changed2 s.1 o.1 e2 in
      RecStep-eq (binding name value' true rest') used2 changed2 h2 (record {
        same = ap₂ (λ (x : Snode) (y : Letrec). binding name x false y) a.same b.same;
        names = ap (λ (l : List Name). name ∷ l) b.names;
        sound = (a.sound, b.sound);
        marks = λ y. ap (λ (m : Bool). str_eq name y || m) (b.marks y);
        demands = λ x m. elim (b.demands x m) [
          | inr d ↦ inr d
          | inl old ↦ elim (a.demands x old) [ inl older ↦ inl older | inr d ↦ inr (o.0 x d) ]
        ];
        sorted = λ z. b.sorted (a.sorted z);
      })
  check_bindings-RecStep go passes (binding name value false rest) used changed rec' used' changed'
        s o h =
      let ((rest', used1, changed1), e1, h1) =
        >>=-eq-some (check_bindings go rest used changed) _ h in
      let b = check_bindings-RecStep go passes rest used changed rest' used1 changed1 s.1 o e1 in
      RecStep-eq (binding name value false rest') used1 changed1 h1 (record {
        same = ap (λ (y : Letrec). binding name (clear value) false y) b.same;
        names = ap (λ (l : List Name). name ∷ l) b.names;
        sound = (s.0, b.sound);
        marks = b.marks;
        demands = b.demands;
        sorted = b.sorted;
      })
