-- ===== src/Compiler/Room.antt =====
-- The room on the stacks of names and mappings that the passes keep (`stack_push` of
-- nreduce/network/util.c): the process exits at the push on 16384 entries, since the room doubles
-- from 1 and the limit of 10240 is looked at only when the room is used up.
use nreduce.Base.{
  ℕ, suc, ◌+◌, ◌≤◌, ◌<◌, true, ◌≡◌, refl, sym, ap, ◌∙◌, List, [], ◌∷◌, length, Option, none, some,
  ◌>>=◌, ltb, if◌then◌else◌, arith,
}
use nreduce.Compiler.Syntax.{
  Name, Snode, application, lambda, builtin, symbol, letrec, scref, nil, number, string, Letrec,
  done, binding, bound_names,
}
use nreduce.Compiler.Nameless.{push_names}

abbrev pub stack_room : ℕ
stack_room = 16384

module _ {A : Type 0} where
  -- The stack with its top first; `none` is the exit of the process.
  unfoldable pub push : A → List A → Option (List A)
  push a stack = if ltb (length stack) stack_room then some (a ∷ stack) else none

  -- A loop that pushes one item after the other.
  unfoldable pub push_all : List A → List A → Option (List A)
  push_all [] stack = some stack
  push_all (a ∷ rest) stack = push a stack >>= λ pushed. push_all rest pushed

  unfoldable pub push_list : List A → List A → List A
  push_list [] stack = stack
  push_list (a ∷ rest) stack = push_list rest (a ∷ stack)

  pub push-some :
      (a : A) (stack : List A) → length stack < stack_room → push a stack ≡ some (a ∷ stack)
  unfolding push
  push-some a stack h =
      let room : ltb (length stack) stack_room ≡ true = ground arith in rw room refl

  pub push_all-some :
      (items stack : List A)
      → length items + length stack ≤ stack_room
      → push_all items stack ≡ some (push_list items stack)
  unfolding push_all push_list
  push_all-some [] stack h = refl
  push_all-some (a ∷ items) stack h =
      rw (push-some a stack (omega arith)) (push_all-some items (a ∷ stack) (omega arith))

  pub length-push_list :
      (items stack : List A) → length (push_list items stack) ≡ length items + length stack
  unfolding push_list
  length-push_list [] stack = omega arith
  length-push_list (a ∷ items) stack = omega (arith, length-push_list items (a ∷ stack))

-- Is there room for all the names that are bound around any place of a tree, above `depth` others?
unfoldable mutual
  pub HasRoom : ℕ → Snode → Type 0
  HasRoom depth (application l r strict) = HasRoom depth l × HasRoom depth r
  HasRoom depth (lambda name body) = (depth < stack_room) × HasRoom (suc depth) body
  HasRoom depth (letrec rec body) =
      (length (bound_names rec) + depth ≤ stack_room)
      × HaveRoom (length (bound_names rec) + depth) rec
      × HasRoom (length (bound_names rec) + depth) body
  HasRoom depth (builtin bif) = Unit
  HasRoom depth (symbol name) = Unit
  HasRoom depth (scref sc) = Unit
  HasRoom depth nil = Unit
  HasRoom depth (number num) = Unit
  HasRoom depth (string value) = Unit

  pub HaveRoom : ℕ → Letrec → Type 0
  HaveRoom depth done = Unit
  HaveRoom depth (binding name value strict rest) = HasRoom depth value × HaveRoom depth rest

-- The same for a supercombinator, whose arguments are pushed first.
pub record RoomFor (argnames : List Name) (body : Snode) : Type 0 where
  pub args_room : length argnames ≤ stack_room
  pub body_room : HasRoom (length argnames) body

pub push_names-list :
    (rec : Letrec) (scope : List Name) → push_names rec scope ≡ push_list (bound_names rec) scope
unfolding push_names push_list
push_names-list done scope = refl
push_names-list (binding name value strict rest) scope = push_names-list rest (name ∷ scope)

pub push_all-names :
    (rec : Letrec) (bound : List Name)
    → length (bound_names rec) + length bound ≤ stack_room
    → push_all (bound_names rec) bound ≡ some (push_names rec bound)
push_all-names rec bound h =
    push_all-some (bound_names rec) bound h ∙ ap some (sym (push_names-list rec bound))

pub length-push_names :
    (rec : Letrec) (scope : List Name)
    → length (push_names rec scope) ≡ length (bound_names rec) + length scope
length-push_names rec scope =
    ap length (push_names-list rec scope) ∙ length-push_list (bound_names rec) scope
