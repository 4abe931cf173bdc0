-- ===== src/Selectors/Matching.antt =====
-- When a field filter matches.
use a2a_events_python.Common.{
  ◌≡◌, refl, sym, ◌∙◌, ap, ◌↔◌, ◌⊎◌, inl, inr, Bool, true, false, Option, none, some, List, [], ◌∷◌,
  if◌then◌else◌, Text, Dict, All, all_by, any_by, Bool-cases, Option-cases, arith,
}
use a2a_events_python.Json.{Json, null, bool, int, float, str, arr, obj, Fields, get_field, to_list}
use a2a_events_python.Errors.{Result, ok, raise, ◌>>=◌}
use a2a_events_python.Models.{FieldFilterSelector, field_filter}
use a2a_events_python.Selectors.{
  is_scalar, split_dots, walk, checked, typed_eq, field_matches, match_conditions, matches,
  resolve_path,
}
use a2a_events_python.Selectors.Equality.{Same, typed_eq_iff}

-- The segments lead from one value to the other, each into a dict that has it.
abbrev pub LeadTo : List Text → Json → Json → Type 0
LeadTo [] v w = v ≡ w
LeadTo (segment ∷ segments) (obj fs) w =
    (next : Json) × (get_field segment fs ≡ some next) × LeadTo segments next w
LeadTo (segment ∷ segments) _ w = ⊥

abbrev pub Some : {A : Type 0} → (A → Type 0) → List A → Type 0
Some P [] = ⊥
Some P (x ∷ xs) = P x ⊎ Some P xs

abbrev pub Scalar : Json → Type 0
Scalar v = is_scalar v ≡ true

-- a scalar that is one of the declared values, or a list of scalars that has one of them
abbrev pub Hits : Json → List Json → Type 0
Hits (obj _) declared = ⊥
Hits (arr xs) declared = All Scalar (to_list xs) × Some (λ ev. Some (Same ev) declared) (to_list xs)
Hits v declared = Some (Same v) declared

abbrev pub Holds : Fields → Text × List Json → Type 0
Holds event (path, declared) =
    (v : Json) × LeadTo (split_dots [] path) (obj event) v × Hits v declared

walk-LeadTo : (segments : List Text) (v w : Json) → walk segments v ≡ some w → LeadTo segments v w
unfolding walk
walk-LeadTo [] v w h = cc
walk-LeadTo (segment ∷ segments) (obj fs) w h = elim (Option-cases (get_field segment fs)) [
  | inl missing ↦ absurd (let h2 : none ≡ some w = rw (walk, missing) at h in cc)
  | inr (next, there) ↦ (next, there, walk-LeadTo segments next w (rw (walk, there) at h))
]
walk-LeadTo (segment ∷ segments) null w h = absurd (cc)
walk-LeadTo (segment ∷ segments) (bool _) w h = absurd (cc)
walk-LeadTo (segment ∷ segments) (int _) w h = absurd (cc)
walk-LeadTo (segment ∷ segments) (float _ _) w h = absurd (cc)
walk-LeadTo (segment ∷ segments) (str _) w h = absurd (cc)
walk-LeadTo (segment ∷ segments) (arr _) w h = absurd (cc)

LeadTo-walk : (segments : List Text) (v w : Json) → LeadTo segments v w → walk segments v ≡ some w
unfolding walk
LeadTo-walk [] v w h = ap some h
LeadTo-walk (segment ∷ segments) (obj fs) w (next, there, h) =
    rw (walk, there) (LeadTo-walk segments next w h)
LeadTo-walk (segment ∷ segments) null w h = absurd h
LeadTo-walk (segment ∷ segments) (bool _) w h = absurd h
LeadTo-walk (segment ∷ segments) (int _) w h = absurd h
LeadTo-walk (segment ∷ segments) (float _ _) w h = absurd h
LeadTo-walk (segment ∷ segments) (str _) w h = absurd h
LeadTo-walk (segment ∷ segments) (arr _) w h = absurd h

module _ {A : Type 0} (p : A → Bool) (P : A → Type 0) (iff : (x : A) → (p x ≡ true) ↔ P x) where
  any_by-Some : (xs : List A) → (any_by p xs ≡ true) ↔ Some P xs
  any_by-Some [] = ((λ h. absurd (cc)), (λ h. absurd h))
  any_by-Some (x ∷ xs) = elim (Bool-cases (p x)) [
    | inl hit ↦ ((λ h. inl ((iff x).0 hit)), (λ h. rw hit refl))
    | inr miss ↦ (
      (λ h. inr ((any_by-Some xs).0 (rw miss at h))),
      (λ h. elim h [
        | inl here ↦ (ground (arith, (iff x).1 here, miss))
        | inr later ↦ rw miss ((any_by-Some xs).1 later)
      ]),
    )
  ]

all_by-All : (vs : List Json) → (all_by is_scalar vs ≡ true) ↔ All Scalar vs
all_by-All [] = ((λ h. tt), (λ h. refl))
all_by-All (v ∷ vs) = (
  (λ h. (ground arith, (all_by-All vs).0 (ground arith))),
  (λ (here, later). rw here ((all_by-All vs).1 later)),
)

one_of :
    (v : Json) (declared : List Json)
    → (any_by (λ dv. typed_eq v dv) declared ≡ true) ↔ Some (Same v) declared
one_of v = any_by-Some (λ dv. typed_eq v dv) (Same v) (typed_eq_iff v)

-- what `resolve_path` makes of the value at the end of a path, tested against the declared values
abbrev Tested : Json → List Json → Type 0
Tested v declared =
    (found : Option Json) × (checked v ≡ ok found) × (field_matches found declared ≡ true)

scalar_Tested :
    (v : Json) (declared : List Json)
    → checked v ≡ ok (some v)
    → ((d : List Json) → field_matches (some v) d ≡ any_by (λ dv. typed_eq v dv) d)
    → Tested v declared ↔ Some (Same v) declared
scalar_Tested v declared plain test = (
  (λ (found, h, k).
      let f : found ≡ some v = let e : ok found ≡ ok (some v) = sym h ∙ plain in cc in
      (one_of v declared).0 (sym (test declared) ∙ rw f at k)),
  (λ hit. (some v, plain, test declared ∙ (one_of v declared).1 hit)),
)

Tested-Hits : (v : Json) (declared : List Json) → Tested v declared ↔ Hits v declared
unfolding checked field_matches
Tested-Hits (obj fs) declared = ((λ (found, h, k). absurd (cc)), (λ h. absurd h))
Tested-Hits (arr xs) declared =
    let both =
      any_by-Some (λ ev. any_by (λ dv. typed_eq ev dv) declared) (λ ev. Some (Same ev) declared)
        (λ ev. one_of ev declared) (to_list xs) in
    elim (Bool-cases (all_by is_scalar (to_list xs))) [
      | inl flat ↦ (
        (λ (found, h, k).
            let e : ok (some (arr xs)) ≡ ok found = rw flat at h in
            let f : found ≡ some (arr xs) = cc in
            ((all_by-All (to_list xs)).0 flat, both.0 (rw f at k))),
        (λ (_, hit). (some (arr xs), rw flat refl, both.1 hit)),
      )
      | inr nested ↦ (
        (λ (found, h, k). absurd (let h' = rw nested at h in cc)),
        (λ (flat, hit). absurd (let e = (all_by-All (to_list xs)).1 flat in cc)),
      )
    ]
Tested-Hits null declared = scalar_Tested null declared refl (λ d. refl)
Tested-Hits (bool m) declared = scalar_Tested (bool m) declared refl (λ d. refl)
Tested-Hits (int m) declared = scalar_Tested (int m) declared refl (λ d. refl)
Tested-Hits (float m j) declared = scalar_Tested (float m j) declared refl (λ d. refl)
Tested-Hits (str m) declared = scalar_Tested (str m) declared refl (λ d. refl)

abbrev Resolves : Fields → Text × List Json → Type 0
Resolves event (path, declared) =
    (value : Option Json) × (resolve_path event path ≡ ok value)
    × (field_matches value declared ≡ true)

Resolves-Holds : (event : Fields) (c : Text × List Json) → Resolves event c ↔ Holds event c
unfolding resolve_path field_matches
Resolves-Holds event (path, declared) =
    let segments = split_dots [] path in
    elim (Option-cases (walk segments (obj event))) [
      | inl nowhere ↦ (
        (λ (value, at, hit). absurd (
            let at' : ok none ≡ ok value = rw (resolve_path, nowhere) at at in
            let e : value ≡ none = cc in let hit' = rw e at hit in cc)),
        (λ (v, lead, hit). absurd (let e = LeadTo-walk segments (obj event) v lead in cc)),
      )
      | inr (w, there) ↦ (
        (λ (value, at, hit). (
          w,
          walk-LeadTo segments (obj event) w there,
          (Tested-Hits w declared).0 (value, rw (resolve_path, there) at at, hit),
        )),
        (λ (v, lead, hit).
            let e : w ≡ v = let e' = LeadTo-walk segments (obj event) v lead in cc in
            let (found, at, k) = (Tested-Hits v declared).1 hit in
            (found, rw (resolve_path, there) (ap checked e ∙ at), k)),
      )
    ]

match_conditions-Resolves :
    (conditions : Dict (List Json)) (event : Fields)
    → match_conditions conditions event ≡ ok true
    → All (Resolves event) conditions
unfolding match_conditions
match_conditions-Resolves [] event h = tt
match_conditions-Resolves ((path, declared) ∷ conditions) event h =
    go (resolve_path event path) refl h (match_conditions-Resolves conditions event)
  where
    go :
        (x : Result (Option Json))
        → resolve_path event path ≡ x
        → (do
          value ← x
          if field_matches value declared then match_conditions conditions event else ok false)
          ≡ ok true
        → (match_conditions conditions event ≡ ok true → All (Resolves event) conditions)
        → All (Resolves event) ((path, declared) ∷ conditions)
    go (raise e) at k rest = absurd (cc)
    go (ok value) at k rest = elim (Bool-cases (field_matches value declared)) [
      | inl hit ↦ ((value, at, hit), rest (rw hit at k))
      | inr miss ↦ absurd (let k' = rw miss at k in cc)
    ]

Resolves-match_conditions :
    (conditions : Dict (List Json)) (event : Fields)
    → All (Resolves event) conditions
    → match_conditions conditions event ≡ ok true
unfolding match_conditions
Resolves-match_conditions [] event h = refl
Resolves-match_conditions ((path, declared) ∷ conditions) event ((value, at, hit), rest) =
    rw (at, match_conditions) (rw hit (Resolves-match_conditions conditions event rest))

All-iff : (event : Fields) (cs : Dict (List Json)) → All (Resolves event) cs ↔ All (Holds event) cs
All-iff event [] = ((λ h. h), (λ h. h))
All-iff event (c ∷ cs) = (
  (λ (h, hs). ((Resolves-Holds event c).0 h, (All-iff event cs).0 hs)),
  (λ (h, hs). ((Resolves-Holds event c).1 h, (All-iff event cs).1 hs)),
)

-- A field filter matches an event exactly if each of its paths, cut at the dots, leads through dicts
-- of the event to a scalar that is one of the values declared for the path, or to a list of scalars
-- that has one of them. Values are the same if they are both null, both bools, both texts, or both
-- numbers of one value: true is not 1.
pub matches_iff :
    (lower : Text → Text) (sel : FieldFilterSelector) (event : Fields)
    (default : Option (List Text))
    → (matches lower (some (field_filter sel)) event default ≡ ok true)
      ↔ All (Holds event) sel.conditions
unfolding matches
matches_iff lower sel event default = (
  (λ h. (All-iff event sel.conditions).0 (match_conditions-Resolves sel.conditions event h)),
  (λ h. Resolves-match_conditions sel.conditions event ((All-iff event sel.conditions).1 h)),
)
