-- ===== src/Compiler/Scombs/Insert.antt =====
-- A new supercombinator at the end of the array and the front of its chain (super.c).
use nreduce.Base.{
  lt_or_eq, ℕ, zero, suc, ◌≤◌, ◌<◌, Bool, true, false, ◌≡◌, refl, sym, ap, ap₂, subst, ◌∙◌, List,
  [], ◌∷◌, ◌++◌, length, length-append, get_elem?, some, ◌==◌, if◌then◌else◌, str_eq, arith, inl,
  inr, Bool-cases,
}
use mathlib.Core.Option
use nreduce.Compiler.Syntax.{Name}
use nreduce.Compiler.Scombs.{hash, Scomb, Scombs, get_scomb, append_scomb}
use nreduce.Compiler.Scombs.Lookup.{
  last_at, has_hash, is_named, IsLinked, IsHashed, last_at-names, last_at_hit, last_at_skip,
  get_scomb-last_at,
}

pub get_elem?-append_lt :
    {A : Type 0} (xs ys : List A) (i : ℕ) → i < length xs → get_elem? (xs ++ ys) i ≡ get_elem? xs i
get_elem?-append_lt [] ys i h = absurd (omega arith)
get_elem?-append_lt (x ∷ xs) ys zero h = refl
get_elem?-append_lt (x ∷ xs) ys (suc i) h = get_elem?-append_lt xs ys i (omega arith)

pub get_elem?-append_end :
    {A : Type 0} (xs : List A) (y : A) → get_elem? (xs ++ y ∷ []) (length xs) ≡ some y
get_elem?-append_end [] y = refl
get_elem?-append_end (x ∷ xs) y = get_elem?-append_end xs y

module _ (src : Scombs) (sc : Scomb) where
  entry : Scomb
  entry = record sc { hashnext = src.schash (hash sc.name) }

  after : List Scomb
  after = src.scombs ++ entry ∷ []

  length-after : length after ≡ suc (length src.scombs)
  unfolding after
  length-after = omega (arith, length-append src.scombs (entry ∷ []))

  at_end : get_elem? after (length src.scombs) ≡ some entry
  unfolding after
  at_end = get_elem?-append_end src.scombs entry

  older_last_at :
      (test : Name → Bool) (n : ℕ)
      → n ≤ length src.scombs
      → last_at test after n ≡ last_at test src.scombs n
  unfolding after
  older_last_at test n l = last_at-names test after src.scombs n (λ i h.
      ap (Option.map (λ (sc : Scomb). sc.name))
        (get_elem?-append_lt src.scombs (entry ∷ []) i (omega arith)))

  append-heads :
      IsHashed src
      → (h : ℕ)
      → (append_scomb src sc).schash h ≡ last_at (has_hash h) after (suc (length src.scombs))
  unfolding append_scomb entry
  append-heads o h = elim (Bool-cases (hash sc.name == h)) [
    | inl hit ↦
        let eq : (h == hash sc.name) ≡ true = ground arith in
        rw eq (sym (last_at_hit after (length src.scombs) entry at_end (has_hash h) hit))
    | inr miss ↦
        let ne : (h == hash sc.name) ≡ false = ground arith in
        rw ne (
          o.heads h
          ∙ sym (older_last_at (has_hash h) (length src.scombs) (omega arith))
          ∙ sym (last_at_skip after (length src.scombs) entry at_end (has_hash h) miss))
  ]

  append-IsLinked : IsHashed src → IsLinked after (suc (length src.scombs))
  unfolding entry
  append-IsLinked o = record {
    next = λ i x l e. elim (lt_or_eq i (length src.scombs) l) [
      | inl below ↦
          let e' : get_elem? src.scombs i ≡ some x =
            sym (get_elem?-append_lt src.scombs (entry ∷ []) i below) ∙ (unfold after in e) in
          o.linked.next i x below e' ∙ sym (older_last_at (has_hash (hash x.name)) i (omega arith))
      | inr last ↦
          let same : some entry ≡ some x = sym at_end ∙ ap (get_elem? after) (sym last) ∙ e in
          let x_entry : entry ≡ x = cc in
          sym (ap (λ (c : Scomb). c.hashnext) x_entry)
          ∙ o.heads (hash sc.name)
          ∙ sym (older_last_at (has_hash (hash sc.name)) (length src.scombs) (omega arith))
          ∙ ap₂ (λ (c : Scomb) k. last_at (has_hash (hash c.name)) after k) x_entry (sym last)
    ];
  }

  -- A table in order stays so.
  pub append_scomb-IsHashed : IsHashed src → IsHashed (append_scomb src sc)
  unfolding append_scomb after entry
  append_scomb-IsHashed o = record {
    heads = λ h. append-heads o h ∙ ap (last_at (has_hash h) after) (sym length-after);
    linked = subst (IsLinked after) (sym length-after) (append-IsLinked o);
  }

  -- The new entry is found under its name, and every other name leads where it led before.
  pub get_scomb-append_scomb :
      (name : Name)
      → IsHashed src
      → get_scomb (append_scomb src sc) name
        ≡ (if str_eq sc.name name then some (length src.scombs) else get_scomb src name)
  unfolding append_scomb after entry
  get_scomb-append_scomb name o =
      get_scomb-last_at (append_scomb src sc) name (append_scomb-IsHashed o)
      ∙ ap (last_at (is_named name) after) length-after
      ∙ elim (Bool-cases (str_eq sc.name name)) [
        | inl same ↦
            rw same (last_at_hit after (length src.scombs) entry at_end (is_named name) same)
        | inr differ ↦ rw differ (
            last_at_skip after (length src.scombs) entry at_end (is_named name) differ
            ∙ older_last_at (is_named name) (length src.scombs) (omega arith)
            ∙ sym (get_scomb-last_at src name o))
      ]
