-- ===== src/Endpoint/Links.antt =====
-- Laws of the link list: membership after a push and after a removal.
use nreduce.Base.{true, false, ◌&&◌, ◌||◌, not, List, [], ◌∷◌, ◌≡◌, refl, ◌↔◌, arith}
use nreduce.Endpoint.{
  EndpointId, endpointid_equals, endpoint_has_link, endpoint_list_remove, link_ok_to_have, all_ok,
}

pub endpointid_equals_iff : (a b : EndpointId) → (endpointid_equals a b ≡ true) ↔ (a ≡ b)
unfolding endpointid_equals
endpointid_equals_iff a b = ground arith

pub endpointid_equals_refl : (a : EndpointId) → endpointid_equals a a ≡ true
endpointid_equals_refl a = (endpointid_equals_iff a a).1 refl

-- No identifier stands twice in the list.
abbrev pub Distinct : List EndpointId → Type 0
Distinct [] = Unit
Distinct (l ∷ ls) = (endpoint_has_link ls l ≡ false) × Distinct ls

pub has_link-cons :
    (l : EndpointId) (ls : List EndpointId) (e : EndpointId)
    → endpoint_has_link (l ∷ ls) e ≡ (endpointid_equals l e || endpoint_has_link ls e)
unfolding endpoint_has_link
has_link-cons l ls e = ground arith

pub has_link-remove :
    (ls : List EndpointId) (a e : EndpointId)
    → Distinct ls
    → endpoint_has_link (endpoint_list_remove ls a) e
      ≡ (not (endpointid_equals a e) && endpoint_has_link ls e)
unfolding endpoint_has_link endpoint_list_remove
has_link-remove [] a e d = ground arith
has_link-remove (l ∷ ls) a e d = ground (
  arith,
  has_link-remove ls a e,
  endpointid_equals_iff l a,
  endpointid_equals_iff l e,
  endpointid_equals_iff a e,
)

pub remove-Distinct :
    (ls : List EndpointId) (a : EndpointId) → Distinct ls → Distinct (endpoint_list_remove ls a)
unfolding endpoint_list_remove
remove-Distinct [] a d = tt
remove-Distinct (l ∷ ls) a d = ground (arith, remove-Distinct ls a, has_link-remove ls a l)

pub all_ok_lem :
    (ls es : List EndpointId)
    → ((e : EndpointId) → endpoint_has_link ls e ≡ true → link_ok_to_have es e ≡ true)
    → all_ok ls es ≡ true
unfolding all_ok endpoint_has_link
all_ok_lem [] es h = refl
all_ok_lem (l ∷ ls) es h =
    ground (arith, h l, endpointid_equals_refl l, all_ok_lem ls es (λ e m. h e (ground arith)))
