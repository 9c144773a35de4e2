-- ===== src/Compiler/Renaming/Fresh.antt =====
-- The names that the pass of renaming.c gives, and what it records about them.
use native.Mathlib.Nat.{add-zero, zero-add}
use nreduce.Base.{
  ℕ, zero, suc, ◌+◌, ◌≡◌, refl, ap, ap₂, sym, ◌∙◌, List, [], ◌∷◌, ◌++◌, length, length-append, some,
  arith,
}
use mathlib.Core.List.{append_assoc, append-nil}
use nreduce.Compiler.Syntax.{
  Name, Snode, application, lambda, builtin, symbol, letrec, scref, nil, number, string, Letrec,
  done, binding, bound_names, binders, binders_values,
}
use nreduce.Compiler.Names.{genvar}
use nreduce.Compiler.Renaming.{Renamed, rename_variables, Vars, next_var, Mapping, next_vars}
use nreduce.Compiler.Room.{RoomFor}
use nreduce.Compiler.Renaming.Returns.{rename_variables-renamed}
use nreduce.Compiler.Renaming.Plain.{
  renamed_bindings, renamed_tree, renamed_values, renamed, renamed_body, renamed_args,
}

-- `n` generated names from number `k` on.
unfoldable pub genvars : ℕ → ℕ → List Name
genvars k zero = []
genvars k (suc n) = genvar k ∷ genvars (suc k) n

genvars-append : (k n m : ℕ) → genvars k n ++ genvars (k + n) m ≡ genvars k (n + m)
unfolding genvars
genvars-append k zero m = ap (λ i. genvars i m) (add-zero k) ∙ ap (genvars k) (sym (zero-add m))
genvars-append k (suc n) m =
    ap (λ l. genvar k ∷ l)
      (ap (λ i. genvars (suc k) n ++ genvars i m) (suc_over k n) ∙ genvars-append (suc k) n m)
    ∙ ap (genvars k) (over k n m)
  where
    suc_over : (a b : ℕ) → a + suc b ≡ suc a + b
    suc_over a b = omega arith

    over : (a b c : ℕ) → suc (b + c) ≡ suc b + c
    over a b c = omega arith

-- What a pass leaves when it binds `names` in order.
pub record Names (src : Vars) (names : List Name) (src' : Vars) (given : List Name) : Type 0 where
  pub number : src'.varno ≡ src.varno + length names
  pub kept : src'.oldnames ≡ src.oldnames ++ names
  pub given_names : given ≡ genvars src.varno (length names)

Names-append :
    (src src1 src2 : Vars) (xs ys gx gy : List Name)
    → Names src xs src1 gx
    → Names src1 ys src2 gy
    → Names src (xs ++ ys) src2 (gx ++ gy)
Names-append src src1 src2 xs ys gx gy a b = record {
  number = omega (arith, a.number, b.number, length-append xs ys);
  kept = b.kept ∙ ap (λ l. l ++ ys) a.kept ∙ append_assoc src.oldnames xs ys;
  given_names =
      ap₂ ◌++◌ a.given_names (b.given_names ∙ ap (λ i. genvars i (length ys)) a.number)
      ∙ genvars-append src.varno (length xs) (length ys)
      ∙ ap (genvars src.varno) (sym (length-append xs ys));
}

Names-nil : (src : Vars) → Names src [] src []
unfolding genvars
Names-nil src = record {
  number = sym (add-zero src.varno);
  kept = sym (append-nil src.oldnames);
  given_names = refl;
}

Names-next :
    (src : Vars) (name : Name)
    → Names src (name ∷ []) (next_var src name).0 ((next_var src name).1 ∷ [])
unfolding genvars next_var
Names-next src name = record { number = refl; kept = refl; given_names = refl }

pub renamed_bindings-Names :
    (rec : Letrec) (src : Vars) (m : List Mapping)
    → Names src
        (bound_names rec)
        (renamed_bindings rec src m).src
        (renamed_bindings rec src m).names
unfolding renamed_bindings
renamed_bindings-Names done src m = Names-nil src
renamed_bindings-Names (binding name value strict rest) src m =
    Names-append src (next_var src name).0 _ (name ∷ []) (bound_names rest) _ _
      (Names-next src name)
      (renamed_bindings-Names rest (next_var src name).0
        (record { from = name; to = (next_var src name).1 } ∷ m))

length-genvars : (k n : ℕ) → length (genvars k n) ≡ n
unfolding genvars
length-genvars k zero = refl
length-genvars k (suc n) = ap suc (length-genvars (suc k) n)

pub length-Names :
    {src src' : Vars} {names given : List Name}
    → Names src names src' given
    → length given ≡ length names
length-Names {src} {names = names} n =
    ap length n.given_names ∙ length-genvars src.varno (length names)

mutual
  unfolding renamed_tree binders

  pub rename-Names :
      (c : Snode) (src : Vars) (m : List Mapping)
      → Names src (binders c) (renamed_tree c src m).0 (binders (renamed_tree c src m).1)
  rename-Names (application l r strict) src m =
      let a = renamed_tree l src m in
      Names-append src a.0 (renamed_tree r a.0 m).0 (binders l) (binders r) (binders a.1)
        (binders (renamed_tree r a.0 m).1) (rename-Names l src m) (rename-Names r a.0 m)
  rename-Names (lambda name body) src m =
      let v = next_var src name in
      let m' = record { from = name; to = v.1 } ∷ m in
      Names-append src v.0 (renamed_tree body v.0 m').0 (name ∷ []) (binders body) (v.1 ∷ [])
        (binders (renamed_tree body v.0 m').1) (Names-next src name) (rename-Names body v.0 m')
  rename-Names (letrec rec body) src m =
      let b = renamed_bindings rec src m in
      let nb = renamed_bindings-Names rec src m in
      let rv = renamed_values rec b.names b.src b.mappings in
      let (vals, same) = renamed_values-Names rec b.names b.src b.mappings (length-Names nb) in
      let rb = renamed_tree body rv.0 b.mappings in
      rw same (
        Names-append src b.src rb.0 (bound_names rec) (binders_values rec ++ binders body) b.names
          (binders_values rv.1 ++ binders rb.1) nb
          (Names-append b.src rv.0 rb.0 (binders_values rec) (binders body) (binders_values rv.1)
            (binders rb.1) vals (rename-Names body rv.0 b.mappings)))
  rename-Names (symbol name) src m = Names-nil src
  rename-Names (builtin bif) src m = Names-nil src
  rename-Names (scref sc) src m = Names-nil src
  rename-Names nil src m = Names-nil src
  rename-Names (number num) src m = Names-nil src
  rename-Names (string value) src m = Names-nil src

  pub renamed_values-Names :
      (rec : Letrec) (names : List Name) (src : Vars) (m : List Mapping)
      → length names ≡ length (bound_names rec)
      → Names src
          (binders_values rec)
          (renamed_values rec names src m).0
          (binders_values (renamed_values rec names src m).1)
        × (bound_names (renamed_values rec names src m).1 ≡ names)
  renamed_values-Names done [] src m l = (Names-nil src, refl)
  renamed_values-Names done (n ∷ ns) src m l = absurd (omega arith)
  renamed_values-Names (binding name value strict rest) [] src m l = absurd (omega arith)
  renamed_values-Names (binding name value strict rest) (n ∷ ns) src m l =
      let a = renamed_tree value src m in
      let (tail, same) = renamed_values-Names rest ns a.0 m (omega arith) in
      (
        Names-append src a.0 (renamed_values rest ns a.0 m).0 (binders value) (binders_values rest)
            (binders a.1) (binders_values (renamed_values rest ns a.0 m).1)
            (rename-Names value src m) tail,
        ap (λ l. n ∷ l) same,
      )

pub next_vars-Names :
    (src : Vars) (names : List Name)
    → Names src names (next_vars src names).0 (next_vars src names).1
unfolding next_vars
next_vars-Names src [] = Names-nil src
next_vars-Names src (name ∷ names) =
    let v = next_var src name in
    let r = next_vars v.0 names in
    Names-append src v.0 r.0 (name ∷ []) names (v.1 ∷ []) r.1 (Names-next src name)
      (next_vars-Names v.0 names)

pub renamed-Names :
    (src : Vars) (argnames : List Name) (body : Snode)
    → Names src
        (argnames ++ binders body)
        (renamed src argnames body).src
        ((renamed src argnames body).argnames ++ binders (renamed src argnames body).body)
unfolding renamed renamed_body
renamed-Names src argnames body =
    let v = next_vars src argnames in
    let m = renamed_args argnames v.1 [] in
    let r = renamed_tree body v.0 m in
    Names-append src v.0 r.0 argnames (binders body) v.1 (binders r.1)
      (next_vars-Names src argnames) (rename-Names body v.0 m)

-- If there is room on the stack, the pass over a supercombinator returns. It gives its arguments and
-- all the names that are bound in its body consecutive generated names, in order, and records for
-- each the name that it replaces.
pub rename_variables-Names :
    (src : Vars) (argnames : List Name) (body : Snode)
    → RoomFor argnames body
    → (r : Renamed) × (rename_variables src argnames body ≡ some r)
      × Names src (argnames ++ binders body) r.src (r.argnames ++ binders r.body)
rename_variables-Names src argnames body room = (
  renamed src argnames body,
  rename_variables-renamed src argnames body room,
  renamed-Names src argnames body,
)
