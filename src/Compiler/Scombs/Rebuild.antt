-- ===== src/Compiler/Scombs/Rebuild.antt =====
-- `schash_rebuild` (super.c): the table that it leaves.
use native.Mathlib.Nat.{zero-add}
use nreduce.Base.{
  lt_or_eq, ℕ, zero, suc, ◌+◌, ◌<◌, Bool, true, false, ◌≡◌, refl, sym, ap, ap₂, subst, ◌∙◌, List,
  [], ◌∷◌, length, get_elem?, Option, none, some, ◌==◌, arith, inl, inr, Bool-cases,
}
use nreduce.Compiler.Syntax.{Name}
use nreduce.Compiler.Scombs.{
  hash, Scomb, Scombs, get_scomb, set_head, set_hashnext, clear_hashnext, rebuild_from,
  schash_rebuild,
}
use nreduce.Compiler.Scombs.Lookup.{
  name_at, last_at, has_hash, is_named, get_scomb-last_at, IsLinked, IsHashed, last_at-names,
  last_at_hit, last_at_skip, get_elem?-lt,
}

length-set_hashnext :
    (scs : List Scomb) (i : ℕ) (next : Option ℕ) → length (set_hashnext scs i next) ≡ length scs
length-set_hashnext [] i next = refl
length-set_hashnext (sc ∷ scs) zero next = refl
length-set_hashnext (sc ∷ scs) (suc i) next = ap suc (length-set_hashnext scs i next)

name_at-set_hashnext :
    (scs : List Scomb) (i : ℕ) (next : Option ℕ) (j : ℕ)
    → name_at (set_hashnext scs i next) j ≡ name_at scs j
name_at-set_hashnext [] i next j = refl
name_at-set_hashnext (sc ∷ scs) zero next zero = refl
name_at-set_hashnext (sc ∷ scs) zero next (suc j) = refl
name_at-set_hashnext (sc ∷ scs) (suc i) next zero = refl
name_at-set_hashnext (sc ∷ scs) (suc i) next (suc j) = name_at-set_hashnext scs i next j

set_hashnext_here :
    (scs : List Scomb) (i : ℕ) (next : Option ℕ) (sc : Scomb)
    → get_elem? scs i ≡ some sc
    → get_elem? (set_hashnext scs i next) i ≡ some (record sc { hashnext = next })
set_hashnext_here [] i next sc e = cc
set_hashnext_here (s ∷ scs) zero next sc e =
    let same : s ≡ sc = cc in ap (λ (c : Scomb). some (record c { hashnext = next })) same
set_hashnext_here (s ∷ scs) (suc i) next sc e = set_hashnext_here scs i next sc e

set_hashnext_before :
    (scs : List Scomb) (i : ℕ) (next : Option ℕ) (j : ℕ)
    → j < i
    → get_elem? (set_hashnext scs i next) j ≡ get_elem? scs j
set_hashnext_before [] i next j l = refl
set_hashnext_before (s ∷ scs) zero next j l = absurd (omega arith)
set_hashnext_before (s ∷ scs) (suc i) next zero l = refl
set_hashnext_before (s ∷ scs) (suc i) next (suc j) l =
    set_hashnext_before scs i next j (omega arith)

name_at-clear : (scs : List Scomb) (j : ℕ) → name_at (clear_hashnext scs) j ≡ name_at scs j
name_at-clear [] j = refl
name_at-clear (sc ∷ scs) zero = refl
name_at-clear (sc ∷ scs) (suc j) = name_at-clear scs j

length-clear : (scs : List Scomb) → length (clear_hashnext scs) ≡ length scs
length-clear [] = refl
length-clear (sc ∷ scs) = ap suc (length-clear scs)

-- The table is in order as far as the first `n` entries go.
record IsPartly (src : Scombs) (n : ℕ) : Type 0 where
  heads : (h : ℕ) → src.schash h ≡ last_at (has_hash h) src.scombs n
  linked : IsLinked src.scombs n

module _ (src : Scombs) (n : ℕ) (sc : Scomb) (at : get_elem? src.scombs n ≡ some sc) where
  next_scombs : List Scomb
  next_scombs = set_hashnext src.scombs n (src.schash (hash sc.name))

  new_entry : Scomb
  new_entry = record sc { hashnext = src.schash (hash sc.name) }

  entry_at : get_elem? next_scombs n ≡ some new_entry
  unfolding next_scombs new_entry
  entry_at = set_hashnext_here src.scombs n (src.schash (hash sc.name)) sc at

  same_last_at :
      (test : Name → Bool) (k : ℕ) → last_at test next_scombs k ≡ last_at test src.scombs k
  unfolding next_scombs
  same_last_at test k =
      last_at-names test next_scombs src.scombs k
        (λ i l. name_at-set_hashnext src.scombs n (src.schash (hash sc.name)) i)

  round-IsLinked : IsPartly src n → IsLinked next_scombs (suc n)
  unfolding new_entry
  round-IsLinked p = record {
    next = λ i x l e. elim (lt_or_eq i n l) [
      | inl below ↦
          let e' : get_elem? src.scombs i ≡ some x =
            sym (set_hashnext_before src.scombs n (src.schash (hash sc.name)) i below)
            ∙ (unfold next_scombs in e) in
          p.linked.next i x below e' ∙ sym (same_last_at (has_hash (hash x.name)) i)
      | inr last ↦
          let same : some new_entry ≡ some x =
            sym entry_at ∙ ap (get_elem? next_scombs) (sym last) ∙ e in
          let x_entry : new_entry ≡ x = cc in
          sym (ap (λ (c : Scomb). c.hashnext) x_entry)
          ∙ p.heads (hash sc.name)
          ∙ sym (same_last_at (has_hash (hash sc.name)) n)
          ∙ ap₂ (λ (c : Scomb) k. last_at (has_hash (hash c.name)) next_scombs k) x_entry (sym last)
    ];
  }

  round-heads :
      IsPartly src n
      → (h : ℕ) → set_head src.schash (hash sc.name) n h ≡ last_at (has_hash h) next_scombs (suc n)
  unfolding new_entry
  round-heads p h = elim (Bool-cases (hash sc.name == h)) [
    | inl hit ↦
        let eq : (h == hash sc.name) ≡ true = ground arith in
        rw eq (sym (last_at_hit next_scombs n new_entry entry_at (has_hash h) hit))
    | inr miss ↦
        let ne : (h == hash sc.name) ≡ false = ground arith in
        rw ne (
          p.heads h
          ∙ sym (same_last_at (has_hash h) n)
          ∙ sym (last_at_skip next_scombs n new_entry entry_at (has_hash h) miss))
  ]

  after_round : Scombs
  after_round = record { scombs = next_scombs; schash = set_head src.schash (hash sc.name) n }

  round-IsPartly : IsPartly src n → IsPartly after_round (suc n)
  unfolding after_round
  round-IsPartly p = record { heads = round-heads p; linked = round-IsLinked p }

-- The table is in order, and the array has the same names.
pub record IsRebuilt (src src' : Scombs) : Type 0 where
  pub hashed : IsHashed src'
  pub count : length src'.scombs ≡ length src.scombs
  pub names : (i : ℕ) → name_at src'.scombs i ≡ name_at src.scombs i

rebuild_from-step :
    (src : Scombs) (scno n : ℕ) (sc : Scomb) (at : get_elem? src.scombs scno ≡ some sc)
    → rebuild_from src scno (suc n) ≡ rebuild_from (after_round src scno sc at) (suc scno) n
unfolding rebuild_from after_round next_scombs
rebuild_from-step src scno n sc at = cc

rebuild_from-IsRebuilt :
    (src : Scombs) (scno n : ℕ)
    → scno + n ≡ length src.scombs
    → IsPartly src scno
    → IsRebuilt src (rebuild_from src scno n)
unfolding rebuild_from
rebuild_from-IsRebuilt src scno zero l p =
    let e : scno ≡ length src.scombs = omega arith in
    record {
      hashed = record {
        heads = λ h. p.heads h ∙ ap (last_at (has_hash h) src.scombs) e;
        linked = subst (IsLinked src.scombs) e p.linked;
      };
      count = refl;
      names = λ i. refl;
    }
rebuild_from-IsRebuilt src scno (suc n) l p =
    let (sc, at) = get_elem?-lt src.scombs scno (omega arith) in
    let count : length (after_round src scno sc at).scombs ≡ length src.scombs =
      (unfold after_round next_scombs in
        length-set_hashnext src.scombs scno (src.schash (hash sc.name))) in
    let r =
      rebuild_from-IsRebuilt (after_round src scno sc at) (suc scno) n (omega arith)
        (round-IsPartly src scno sc at p) in
    subst (IsRebuilt src) (sym (rebuild_from-step src scno n sc at)) (record {
      hashed = r.hashed;
      count = r.count ∙ count;
      names = λ i.
          r.names i
          ∙ (unfold after_round next_scombs in
              name_at-set_hashnext src.scombs scno (src.schash (hash sc.name)) i);
    })

-- After a rebuild the table is in order, whatever it was before, over an array with the same names:
-- a lookup finds the newest supercombinator that has the name.
pub schash_rebuild-IsRebuilt :
    (src : Scombs)
    → IsRebuilt src (schash_rebuild src)
      × ((name : Name)
          → get_scomb (schash_rebuild src) name
            ≡ last_at (is_named name) src.scombs (length src.scombs))
unfolding schash_rebuild last_at
schash_rebuild-IsRebuilt src =
    let cleared : Scombs = record { scombs = clear_hashnext src.scombs; schash = λ h. none } in
    let r =
      rebuild_from-IsRebuilt cleared 0 (length src.scombs)
        (ap (λ i. 0 + i) (sym (length-clear src.scombs)) ∙ zero-add (length cleared.scombs))
        (record {
          heads = λ h. refl;
          linked = record { next = λ i sc l e. absurd (omega arith) };
        }) in
    let count = r.count ∙ length-clear src.scombs in
    let names : (i : ℕ) → name_at (schash_rebuild src).scombs i ≡ name_at src.scombs i =
      λ i. r.names i ∙ name_at-clear src.scombs i in
    (
      record { hashed = r.hashed; count = count; names = names },
      λ name.
          get_scomb-last_at (schash_rebuild src) name r.hashed
          ∙ ap (last_at (is_named name) (schash_rebuild src).scombs) count
          ∙ last_at-names (is_named name) (schash_rebuild src).scombs src.scombs (length src.scombs)
              (λ i l. names i),
    )
