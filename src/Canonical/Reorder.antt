-- ===== src/Canonical/Reorder.antt =====
-- Values that differ in the order of the members of their objects.
use a2a_events_python.Common.{ℕ, ◌≡◌, ◌≢◌, refl, ap, ◌∙◌, [], ◌∷◌, ◌++◌, Text, ℤ}
use a2a_events_python.Json.{Json, arr, obj, Items, nil, cons, Fields, end, field}
use a2a_events_python.Canonical.{utf16, join_commas, render, canon, canon_items, members}
use a2a_events_python.Canonical.Members.{insert_member_comm}

-- The same value, with the members of every object within in any order. Two members that change
-- places have keys of different code units, as two keys of a `dict` have.
mutual
  pub data SameJson : Json → Json → Type 0 where
    same : {v : Json} → SameJson v v
    in_arr : {xs ys : Items} → SameItems xs ys → SameJson (arr xs) (arr ys)
    in_obj : {fs gs : Fields} → SameFields fs gs → SameJson (obj fs) (obj gs)

  pub data SameItems : Items → Items → Type 0 where
    at_nil : SameItems nil nil
    at_cons :
        {x y : Json} {xs ys : Items}
        → SameJson x y
        → SameItems xs ys
        → SameItems (cons x xs) (cons y ys)

  pub data SameFields : Fields → Fields → Type 0 where
    at_end : SameFields end end
    at_field :
        {k : Text} {v w : Json} {fs gs : Fields}
        → SameJson v w
        → SameFields fs gs
        → SameFields (field k v fs) (field k w gs)
    swap :
        {k j : Text} {v w : Json} {fs : Fields}
        → utf16 k ≢ utf16 j
        → SameFields (field k v (field j w fs)) (field j w (field k v fs))
    trans : {fs gs hs : Fields} → SameFields fs gs → SameFields gs hs → SameFields fs hs

module _ (shortest : ℕ → ℕ → Text × ℤ) where
  mutual
    unfolding canon

    canon_alike : (v w : Json) → SameJson v w → canon shortest v ≡ canon shortest w
    canon_alike v w same = refl
    canon_alike v w (in_arr {xs = xs} {ys = ys} s) =
        ap (λ ts. 91 ∷ join_commas ts ++ 93 ∷ []) (items_alike xs ys s)
    canon_alike v w (in_obj {fs = fs} {gs = gs} s) =
        ap (λ ms. 123 ∷ join_commas (render ms) ++ 125 ∷ []) (members_alike fs gs s)

    items_alike :
        (xs ys : Items) → SameItems xs ys → canon_items shortest xs ≡ canon_items shortest ys
    items_alike xs ys at_nil = refl
    items_alike xs ys (at_cons {x = x} {y = y} {xs = us} {ys = vs} s t) =
        let a = canon_alike x y s in let b = items_alike us vs t in cc

    members_alike : (fs gs : Fields) → SameFields fs gs → members shortest fs ≡ members shortest gs
    members_alike fs gs at_end = refl
    members_alike fs gs (at_field {v = v} {w = w} {fs = us} {gs = vs} s t) =
        let a = canon_alike v w s in let b = members_alike us vs t in cc
    members_alike fs gs (swap {k = k} {j = j} {v = v} {w = w} {fs = us} d) =
        insert_member_comm (k, canon shortest v) (j, canon shortest w) (members shortest us) d
    members_alike fs hs (trans {gs = gs} s t) = members_alike fs gs s ∙ members_alike gs hs t

  -- Canonical JSON forgets the order of members: the canonical text of a value is the same when the
  -- members of its objects, at any depth, are given in another order.
  pub canon-SameJson : (v w : Json) → SameJson v w → canon shortest v ≡ canon shortest w
  canon-SameJson v w s = canon_alike v w s
