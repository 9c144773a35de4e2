-- ===== src/Compiler/Resolve/Symbols.antt =====
-- What resolving (resolve.c) does to one symbol.
use mathlib.Core.List.{append_assoc, append-nil}
use nreduce.Base.{
  ℕ, suc, Bool, true, false, ◌≡◌, refl, sym, ap, ◌∙◌, List, [], ◌∷◌, ◌++◌, Option, none, some,
  Option-cases, Bool-cases, if◌then◌else◌, inl, inr, arith, codes,
}
use mathlib.Core.Option
use mathlib.Core.Option.{or_else}
use nreduce.Compiler.Syntax.{Name, Snode, builtin, symbol, scref, Letrec}
use nreduce.Compiler.Scombs.{Scombs, get_scomb}
use nreduce.Compiler.Builtins.{get_builtin}
use nreduce.Compiler.Nameless.{Nameless, nameless, nameless_values, index_of, variable, push_names}
use nreduce.Compiler.Scombs.Lookup.{IsHashed, get_scomb-last_at}
use nreduce.Compiler.Names.{has_prefix}
use nreduce.Compiler.Resolve.{
  is_bound, has_colons, in_module, find_scomb, resolve_symbol, resolve_refs_r, resolve_values,
}
use nreduce.Compiler.Resolve.Terms.{
  replace_free, replace_values, free_names, free_names_values, global, is_qualified, entered_as,
  newest_entry,
}

is_some : Option ℕ → Bool
is_some none = false
is_some (some i) = true

is_some-map : (o : Option ℕ) → is_some (Option.map suc o) ≡ is_some o
unfolding is_some
is_some-map none = refl
is_some-map (some i) = refl

is_bound-index_of :
    (bound : List Name) (name : Name) → is_bound bound name ≡ is_some (index_of name bound)
unfolding is_bound index_of is_some
is_bound-index_of [] name = refl
is_bound-index_of (b ∷ bs) name =
    ground (arith, is_bound-index_of bs name, is_some-map (index_of name bs))

pub appended :
    (unbound xs ys : List Name) {mid last : List Name}
    → mid ≡ unbound ++ xs
    → last ≡ mid ++ ys
    → last ≡ unbound ++ (xs ++ ys)
appended unbound xs ys e f = f ∙ ap (λ l. l ++ ys) e ∙ append_assoc unbound xs ys

-- The result of the pass on a tree.
pub record Resolved (src : Scombs) (modname : Option Name) (c : Snode) (bound unbound : List Name)
    : Type 0 where
  pub tree : Snode
  pub reports : List Name
  pub result : resolve_refs_r src modname c bound unbound ≡ some (tree, reports)
  pub meaning : nameless tree bound ≡ replace_free (global src modname) (nameless c bound)
  pub reported : reports ≡ unbound ++ free_names (nameless tree bound)

pub record ResolvedValues (src : Scombs) (modname : Option Name) (rec : Letrec)
    (bound unbound : List Name) : Type 0 where
  pub values : Letrec
  pub reports : List Name
  pub result : resolve_values src modname rec bound unbound ≡ some (values, reports)
  pub meaning :
      nameless_values values bound ≡ replace_values (global src modname) (nameless_values rec bound)
  pub reported : reports ≡ unbound ++ free_names_values (nameless_values values bound)
  pub kept : (scope : List Name) → push_names values scope ≡ push_names rec scope

-- A tree that resolves to itself and reports nothing.
pub symbol-bound :
    (src : Scombs) (modname : Option Name) (name : Name) (bound unbound : List Name) (i : ℕ)
    → index_of name bound ≡ some i
    → Resolved src modname (symbol name) bound unbound
unfolding resolve_refs_r nameless replace_free free_names is_some variable
symbol-bound src modname name bound unbound i e =
    let hit : is_bound bound name ≡ true = is_bound-index_of bound name ∙ ap is_some e in
    record {
      tree = symbol name;
      reports = unbound;
      result = rw hit refl;
      meaning =
          ap (variable name) e
          ∙ sym (ap (λ o. replace_free (global src modname) (variable name o)) e);
      reported = sym (ap (λ o. unbound ++ free_names (variable name o)) e ∙ append-nil unbound);
    }

has_colons-is_qualified : (name : Name) → has_colons name ≡ is_qualified name
unfolding has_colons is_qualified has_prefix
has_colons-is_qualified [] = refl
has_colons-is_qualified (c ∷ []) = ground arith
has_colons-is_qualified (c ∷ d ∷ cs) = ground (arith, has_colons-is_qualified (d ∷ cs))

module _ (src : Scombs) (o : IsHashed src) where
  newest_entry-get_scomb :
      (name : Name) (names : List Name)
      → newest_entry src.scombs (name ∷ names)
        ≡ or_else (get_scomb src name) (newest_entry src.scombs names)
  unfolding newest_entry
  newest_entry-get_scomb name names =
      ap (λ e. or_else e (newest_entry src.scombs names)) (sym (get_scomb-last_at src name o))

  newest_entry-one : (name : Name) → newest_entry src.scombs (name ∷ []) ≡ get_scomb src name
  unfolding newest_entry or_else
  newest_entry-one name = newest_entry-get_scomb name [] ∙ or_else-none (get_scomb src name)
    where
      or_else-none : (e : Option ℕ) → or_else e none ≡ e
      or_else-none none = refl
      or_else-none (some i) = refl

  find_scomb-in_module :
      (modname : Option Name) (name : Name)
      → find_scomb src modname name ≡ or_else (in_module src modname name) (get_scomb src name)
  unfolding find_scomb or_else
  find_scomb-in_module modname name = elim (Option-cases (in_module src modname name)) [
    | inl absent ↦ cc
    | inr (sc, found) ↦ cc
  ]

  in_module-plain :
      (modname name : Name)
      → is_qualified name ≡ false
      → in_module src (some modname) name ≡ get_scomb src (modname ++ (codes "::" ++ name))
  unfolding in_module
  in_module-plain modname name h =
      let colons : has_colons name ≡ false = has_colons-is_qualified name ∙ h in rw colons refl

  in_module-qualified :
      (modname name : Name) → is_qualified name ≡ true → in_module src (some modname) name ≡ none
  unfolding in_module
  in_module-qualified modname name h =
      let colons : has_colons name ≡ true = has_colons-is_qualified name ∙ h in rw colons refl

  -- In a table that is in order `find_scomb` finds the supercombinator that a free name stands for.
  find_scomb-newest_entry :
      (modname : Option Name) (name : Name)
      → newest_entry src.scombs (entered_as modname name) ≡ find_scomb src modname name
  unfolding entered_as in_module or_else
  find_scomb-newest_entry none name = newest_entry-one name ∙ sym (find_scomb-in_module none name)
  find_scomb-newest_entry (some modname) name =
      let full = modname ++ (codes "::" ++ name) in
      let joined = λ (e : Option ℕ). or_else e (get_scomb src name) in
      elim (Bool-cases (is_qualified name)) [
        | inl qualified ↦
            ap (newest_entry src.scombs)
              (ap (λ b. if b then name ∷ [] else full ∷ (name ∷ [])) qualified)
            ∙ newest_entry-one name
            ∙ ap joined (sym (in_module-qualified modname name qualified))
            ∙ sym (find_scomb-in_module (some modname) name)
        | inr plain ↦
            ap (newest_entry src.scombs)
              (ap (λ b. if b then name ∷ [] else full ∷ (name ∷ [])) plain)
            ∙ newest_entry-get_scomb full (name ∷ [])
            ∙ ap (or_else (get_scomb src full)) (newest_entry-one name)
            ∙ ap joined (sym (in_module-plain modname name plain))
            ∙ sym (find_scomb-in_module (some modname) name)
      ]

-- What `resolve_symbol` and `global` give in each case.
module _ (src : Scombs) (modname : Option Name) (name : Name) (unbound : List Name)
    (o : IsHashed src) where
  symbol-scref :
      (sc : ℕ)
      → find_scomb src modname name ≡ some sc
      → (resolve_symbol src modname name unbound ≡ (scref sc, unbound))
        × (global src modname name ≡ Nameless.scref sc)
  unfolding resolve_symbol global
  symbol-scref sc e = (cc, cc (find_scomb-newest_entry src o modname name))

  symbol-builtin :
      (bif : ℕ)
      → find_scomb src modname name ≡ none
      → get_builtin name ≡ some bif
      → (resolve_symbol src modname name unbound ≡ (builtin bif, unbound))
        × (global src modname name ≡ Nameless.builtin bif)
  unfolding resolve_symbol global
  symbol-builtin bif a e = (cc, cc (find_scomb-newest_entry src o modname name))

  symbol-unbound :
      find_scomb src modname name ≡ none
      → get_builtin name ≡ none
      → (resolve_symbol src modname name unbound ≡ (symbol name, unbound ++ name ∷ []))
        × (global src modname name ≡ Nameless.free name)
  unfolding resolve_symbol global
  symbol-unbound a e = (cc, cc (find_scomb-newest_entry src o modname name))

  pub symbol-free :
      (bound : List Name)
      → index_of name bound ≡ none
      → Resolved src modname (symbol name) bound unbound
  unfolding resolve_refs_r nameless replace_free free_names is_some variable
  symbol-free bound e =
      let miss : is_bound bound name ≡ false = is_bound-index_of bound name ∙ ap is_some e in
      let before = sym (ap (λ o. replace_free (global src modname) (variable name o)) e) in
      elim (Option-cases (find_scomb src modname name)) [
        | inr (sc, found) ↦
            let (here, meant) = symbol-scref sc found in
            record {
              tree = scref sc;
              reports = unbound;
              result = rw (miss, here) refl;
              meaning = sym meant ∙ before;
              reported = sym (append-nil unbound);
            }
        | inl absent ↦ elim (Option-cases (get_builtin name)) [
          | inr (bif, found) ↦
              let (here, meant) = symbol-builtin bif absent found in
              record {
                tree = builtin bif;
                reports = unbound;
                result = rw (miss, here) refl;
                meaning = sym meant ∙ before;
                reported = sym (append-nil unbound);
              }
          | inl unknown ↦
              let (here, meant) = symbol-unbound absent unknown in
              record {
                tree = symbol name;
                reports = unbound ++ name ∷ [];
                result = rw (miss, here) refl;
                meaning = ap (variable name) e ∙ sym meant ∙ before;
                reported = sym (ap (λ o. unbound ++ free_names (variable name o)) e);
              }
        ]
      ]
