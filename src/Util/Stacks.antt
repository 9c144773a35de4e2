-- ===== src/Util/Stacks.antt =====
-- Stacks (`stack_*` of util.c), and the limit on their size.
use nreduce.Base.{
  ℕ, zero, suc, ◌+◌, ◌-◌, ◌*◌, ◌^◌, ◌≤◌, ◌<◌, true, false, ◌≡◌, ◌⊎◌, refl, List, [], ◌∷◌, length,
  Option, none, some, ◌==◌, leb, if◌then◌else◌, Bool-cases, inl, inr, arith, ap,
}

-- STACK_LIMIT
abbrev pub stack_limit : ℕ
stack_limit = 10240

-- `struct stack`, with the top of the stack first. The count is the length of the content.
pub record Stack : Type 0 where
  pub alloc : ℕ
  pub count : ℕ
  pub limit : ℕ
  pub content : List ℕ

abbrev pub stack_new : Stack
stack_new = record { alloc = 1; count = 0; limit = stack_limit; content = [] }

-- `none` is the exit of the process.
unfoldable pub stack_push : Stack → ℕ → Option Stack
stack_push s c =
    let put = record s { count = s.count + 1; content = c ∷ s.content } in
    if s.count == s.alloc
    then (if leb s.limit s.count then none else some (record put { alloc = s.alloc * 2 }))
    else some put

-- `none` is a failed assertion.
unfoldable pub stack_pop : Stack → Option (Stack × ℕ)
stack_pop s = elim s.content [
  | [] ↦ none
  | c ∷ cs ↦ some (record s { count = s.count - 1; content = cs }, c)
]

-- A stack that pushes and pops can reach.
pub record IsReached (s : Stack) : Type 0 where
  pub counted : s.count ≡ length s.content
  pub same_limit : s.limit ≡ stack_limit
  pub exponent : ℕ
  pub doubled : s.alloc ≡ 2 ^ exponent
  pub exponent_le : exponent ≤ 14
  pub fits : s.count ≤ s.alloc
  pub roomy : 0 < s.alloc

room-cases : (k : ℕ) → k ≤ 14 → ((2 ^ k ≤ 8192) × (suc k ≤ 14)) ⊎ (2 ^ k ≡ 16384)
room-cases zero h = inl (omega arith, omega arith)
room-cases (suc zero) h = inl (omega arith, omega arith)
room-cases (suc (suc zero)) h = inl (omega arith, omega arith)
room-cases (suc (suc (suc zero))) h = inl (omega arith, omega arith)
room-cases (suc (suc (suc (suc zero)))) h = inl (omega arith, omega arith)
room-cases (suc (suc (suc (suc (suc zero))))) h = inl (omega arith, omega arith)
room-cases (suc (suc (suc (suc (suc (suc zero)))))) h = inl (omega arith, omega arith)
room-cases (suc (suc (suc (suc (suc (suc (suc zero))))))) h = inl (omega arith, omega arith)
room-cases (suc (suc (suc (suc (suc (suc (suc (suc zero)))))))) h = inl (omega arith, omega arith)
room-cases (suc (suc (suc (suc (suc (suc (suc (suc (suc zero))))))))) h =
    inl (omega arith, omega arith)
room-cases (suc (suc (suc (suc (suc (suc (suc (suc (suc (suc zero)))))))))) h =
    inl (omega arith, omega arith)
room-cases (suc (suc (suc (suc (suc (suc (suc (suc (suc (suc (suc zero))))))))))) h =
    inl (omega arith, omega arith)
room-cases (suc (suc (suc (suc (suc (suc (suc (suc (suc (suc (suc (suc zero)))))))))))) h =
    inl (omega arith, omega arith)
room-cases (suc (suc (suc (suc (suc (suc (suc (suc (suc (suc (suc (suc (suc zero))))))))))))) h =
    inl (omega arith, omega arith)
room-cases (suc (suc (suc (suc (suc (suc (suc (suc (suc (suc (suc (suc (suc (suc zero))))))))))))))
      h =
    inr refl
room-cases
      (suc (suc (suc (suc (suc (suc (suc (suc (suc (suc (suc (suc (suc (suc (suc k)))))))))))))))
      h =
    absurd (omega arith)

pow_suc : (k : ℕ) → 2 ^ suc k ≡ 2 * 2 ^ k
pow_suc k = omega arith

pub stack_new-IsReached : IsReached stack_new
stack_new-IsReached = record {
  counted = refl;
  same_limit = refl;
  exponent = 0;
  doubled = refl;
  exponent_le = omega arith;
  fits = omega arith;
  roomy = omega arith;
}

stack_pop-IsReached :
    (s : Stack) (c : ℕ) (cs : List ℕ)
    → IsReached s
    → s.content ≡ c ∷ cs
    → (s' : Stack) × (stack_pop s ≡ some (s', c)) × IsReached s'
unfolding stack_pop
stack_pop-IsReached s c cs r e =
    let l : length s.content ≡ suc (length cs) = ap length e in
    (
      record s { count = s.count - 1; content = cs },
      rw e refl,
      record {
        counted = omega (arith, r.counted);
        same_limit = r.same_limit;
        exponent = r.exponent;
        doubled = r.doubled;
        exponent_le = r.exponent_le;
        fits = omega (arith, r.fits);
        roomy = r.roomy;
      },
    )

-- A push that succeeds.
pub record IsPushed (s : Stack) (c : ℕ) (s' : Stack) : Type 0 where
  pub reached : IsReached s'
  pub popped :
      (below : Stack) × (stack_pop s' ≡ some (below, c))
      × (below.content ≡ s.content)
      × (below.count ≡ s.count)

-- A push on a stack that pushes and pops can reach succeeds exactly below 16384 entries, although
-- the limit is 10240; a pop then gives back the item and the stack below it.
pub stack_push-IsPushed :
    (s : Stack) (c : ℕ)
    → IsReached s
    → (s.count < 16384 → (s' : Stack) × (stack_push s c ≡ some s') × IsPushed s c s')
      × (16384 ≤ s.count → stack_push s c ≡ none)
unfolding stack_push stack_pop
stack_push-IsPushed s c r = elim (room-cases r.exponent r.exponent_le) [
  | inr last ↦ (
    λ below.
        let free : (s.count == s.alloc) ≡ false = ground (arith, r.doubled) in
        (
          record s { count = s.count + 1; content = c ∷ s.content },
          rw free refl,
          record {
            reached = record {
              counted = omega (arith, r.counted);
              same_limit = r.same_limit;
              exponent = r.exponent;
              doubled = r.doubled;
              exponent_le = r.exponent_le;
              fits = ground (arith, r.fits, r.roomy, r.doubled);
              roomy = omega (arith, r.roomy);
            };
            popped = (
              record s { count = s.count + 1 - 1; content = s.content },
              refl,
              refl,
              omega arith,
            );
          },
        ),
    λ beyond.
        let full : (s.count == s.alloc) ≡ true = ground (arith, r.doubled, r.fits) in
        let over : leb s.limit s.count ≡ true = ground (arith, r.same_limit) in
        rw (full, over) refl,
  )
  | inl (small, room) ↦ (
    λ below. elim (Bool-cases (s.count == s.alloc)) [
      | inl full ↦
          let under : leb s.limit s.count ≡ false = ground (arith, r.same_limit, r.doubled) in
          (
            record s { alloc = s.alloc * 2; count = s.count + 1; content = c ∷ s.content },
            rw (full, under) refl,
            record {
              reached = record {
                counted = omega (arith, r.counted);
                same_limit = r.same_limit;
                exponent = suc r.exponent;
                doubled = omega (arith, r.doubled, pow_suc r.exponent);
                exponent_le = room;
                fits = ground (arith, r.fits, r.roomy, r.doubled);
                roomy = omega (arith, r.roomy);
              };
              popped = (
                record s { alloc = s.alloc * 2; count = s.count + 1 - 1; content = s.content },
                refl,
                refl,
                omega arith,
              );
            },
          )
      | inr free ↦ (
        record s { count = s.count + 1; content = c ∷ s.content },
        rw free refl,
        record {
          reached = record {
            counted = omega (arith, r.counted);
            same_limit = r.same_limit;
            exponent = r.exponent;
            doubled = r.doubled;
            exponent_le = r.exponent_le;
            fits = ground (arith, r.fits, r.roomy, r.doubled);
            roomy = omega (arith, r.roomy);
          };
          popped =
              (record s { count = s.count + 1 - 1; content = s.content }, refl, refl, omega arith);
        },
      )
    ],
    λ beyond. absurd (omega (arith, r.fits, r.doubled)),
  )
]
