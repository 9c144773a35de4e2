-- ===== src/Compiler/Resolve/Meaning.antt =====
-- Resolving (resolve.c) and the meaning of a tree.
use mathlib.Core.List.{append-nil}
use nreduce.Base.{refl, sym, ap, ap₂, subst, length, List, ◌∷◌, Option, Option-cases, inl, inr}
use nreduce.Compiler.Syntax.{
  Name, Snode, application, lambda, builtin, symbol, letrec, scref, nil, number, string, Letrec,
  done, binding,
}
use nreduce.Compiler.Scombs.{Scombs}
use nreduce.Compiler.Nameless.{
  Nameless, NamelessRec, nameless, nameless_values, index_of, push_names,
}
use nreduce.Compiler.Scombs.Lookup.{IsHashed}
use nreduce.Compiler.Room.{push-some, push_all-names, length-push_names, HasRoom, HaveRoom}
use nreduce.Compiler.Resolve.{resolve_refs_r}
use nreduce.Compiler.Resolve.Terms.{
  IsParsed, AreParsed, replace_free, free_names, free_names_values,
}
use nreduce.Compiler.Resolve.Symbols.{Resolved, ResolvedValues, appended, symbol-bound, symbol-free}

module _ (src : Scombs) (modname : Option Name) (o : IsHashed src) where
  mutual
    unfolding resolve_refs_r nameless replace_free free_names IsParsed push_names HasRoom

    resolve_refs_r-Resolved :
        (c : Snode) (bound unbound : List Name)
        → IsParsed c
        → HasRoom (length bound) c
        → Resolved src modname c bound unbound
    resolve_refs_r-Resolved (application l r strict) bound unbound p h =
        let a = resolve_refs_r-Resolved l bound unbound p.0 h.0 in
        let b = resolve_refs_r-Resolved r bound a.reports p.1 h.1 in
        record {
          tree = application a.tree b.tree strict;
          reports = b.reports;
          result = rw (a.result, b.result) refl;
          meaning = ap₂ Nameless.application a.meaning b.meaning;
          reported =
              appended unbound (free_names (nameless a.tree bound))
                (free_names (nameless b.tree bound)) a.reported b.reported;
        }
    resolve_refs_r-Resolved (lambda name body) bound unbound p h =
        let a = resolve_refs_r-Resolved body (name ∷ bound) unbound p h.1 in
        record {
          tree = lambda name a.tree;
          reports = a.reports;
          result = rw (push-some name bound h.0, a.result) refl;
          meaning = ap Nameless.lambda a.meaning;
          reported = a.reported;
        }
    resolve_refs_r-Resolved (letrec rec body) bound unbound p h =
        let inner = push_names rec bound in
        let depth = sym (length-push_names rec bound) in
        let a =
          resolve_values-Resolved rec inner unbound p.0 (subst (λ d. HaveRoom d rec) depth h.1) in
        let b =
          resolve_refs_r-Resolved body inner a.reports p.1
            (subst (λ d. HasRoom d body) depth h.2) in
        record {
          tree = letrec a.values b.tree;
          reports = b.reports;
          result = rw (push_all-names rec bound h.0, a.result, b.result) refl;
          meaning = rw (a.kept bound) (ap₂ Nameless.letrec a.meaning b.meaning);
          reported = rw (a.kept bound) (
              appended unbound (free_names_values (nameless_values a.values inner))
                (free_names (nameless b.tree inner)) a.reported b.reported);
        }
    resolve_refs_r-Resolved (symbol name) bound unbound p h =
        elim (Option-cases (index_of name bound)) [
          | inl outside ↦ symbol-free src modname name unbound o bound outside
          | inr (i, inside) ↦ symbol-bound src modname name bound unbound i inside
        ]
    resolve_refs_r-Resolved (builtin bif) bound unbound p h = absurd p
    resolve_refs_r-Resolved (scref sc) bound unbound p h = absurd p
    resolve_refs_r-Resolved nil bound unbound p h = record {
      tree = nil;
      reports = unbound;
      result = refl;
      meaning = refl;
      reported = sym (append-nil unbound);
    }
    resolve_refs_r-Resolved (number num) bound unbound p h = record {
      tree = number num;
      reports = unbound;
      result = refl;
      meaning = refl;
      reported = sym (append-nil unbound);
    }
    resolve_refs_r-Resolved (string value) bound unbound p h = record {
      tree = string value;
      reports = unbound;
      result = refl;
      meaning = refl;
      reported = sym (append-nil unbound);
    }

    resolve_values-Resolved :
        (rec : Letrec) (bound unbound : List Name)
        → AreParsed rec
        → HaveRoom (length bound) rec
        → ResolvedValues src modname rec bound unbound
    resolve_values-Resolved done bound unbound p h = record {
      values = done;
      reports = unbound;
      result = refl;
      meaning = refl;
      reported = sym (append-nil unbound);
      kept = λ scope. refl;
    }
    resolve_values-Resolved (binding name value strict rest) bound unbound p h =
        let a = resolve_refs_r-Resolved value bound unbound p.0 h.0 in
        let b = resolve_values-Resolved rest bound a.reports p.1 h.1 in
        record {
          values = binding name a.tree strict b.values;
          reports = b.reports;
          result = rw (a.result, b.result) refl;
          meaning = ap₂ (λ v r. NamelessRec.binding v strict r) a.meaning b.meaning;
          reported =
              appended unbound (free_names (nameless a.tree bound))
                (free_names_values (nameless_values b.values bound)) a.reported b.reported;
          kept = λ scope. b.kept (name ∷ scope);
        }
