-- ===== src/Migration/References/Known.antt =====
-- src/migration/reference.detector.ts: what a detected reference points at.
use dbdock.Base.{
  Text, text_eq, text_eq_refl, ◌≡◌, refl, Bool, true, false, not, ◌&&◌, Option, none, some, List,
  [], ◌∷◌, map, any, find?, All, All-append, arith, Bool-cases, inl, inr, if◌then◌else◌,
}
use dbdock.Migration.Types.{
  MongoField, field, Nested, nil, cons, MongoCollection, DetectedReference,
}
use dbdock.Migration.References.{
  match_name, first_match, candidates, base_name, guess_target_collection, reference_to,
  field_references, nested_references, detect_field_references, detect_references,
}

abbrev pub IsNamed : List Text → Text → Type 0
IsNamed names name = any (λ n. text_eq n name) names ≡ true

-- A result names one of the list.
abbrev Names : List Text → Option Text → Type 0
Names names none = Unit
Names names (some name) = IsNamed names name

find?-IsNamed : (p : Text → Bool) (names : List Text) → Names names (find? p names)
find?-IsNamed p [] = tt
find?-IsNamed p (n ∷ names) = elim (Bool-cases (p n)) [
  | inl found ↦ rw found (rw (text_eq_refl n) refl)
  | inr not_found ↦ rw not_found (weaken (find? p names) (find?-IsNamed p names))
]
  where
    weaken : (o : Option Text) → Names names o → Names (n ∷ names) o
    weaken none h = tt
    weaken (some m) h = ground arith

match_name-Names : (names : List Text) (candidate : Text) → Names names (match_name names candidate)
match_name-Names names candidate = elim (Bool-cases (any (λ n. text_eq n candidate) names)) [
  | inl same ↦ rw same same
  | inr other ↦ rw other (find?-IsNamed _ names)
]

or_later :
    (names : List Text) (o later : Option Text)
    → Names names o
    → Names names later
    → Names names (elim o [ none ↦ later | some name ↦ some name ])
or_later names none later h k = k
or_later names (some name) later h k = h

first_match-Names : (names tried : List Text) → Names names (first_match names tried)
unfolding first_match
first_match-Names names [] = tt
first_match-Names names (c ∷ more) =
    or_later names (match_name names c) (first_match names more) (match_name-Names names c)
      (first_match-Names names more)

abbrev pub Targets : List Text → List DetectedReference → Type 0
Targets names refs = All (λ r. IsNamed names r.target_collection) refs

reference_to-Targets :
    (path name collection : Text) (names : List Text) (o : Option Text)
    → Names names o
    → Targets names (reference_to path name collection o)
reference_to-Targets path name collection names none h = tt
reference_to-Targets path name collection names (some []) h = tt
reference_to-Targets path name collection names (some (c ∷ t)) h = (h, tt)

by_test :
    (b : Bool) (names : List Text) (refs : List DetectedReference)
    → Targets names refs
    → Targets names (if b then refs else [])
by_test true names refs h = h
by_test false names refs h = tt

module _ (collection : Text) (names : List Text) where
  mutual
    unfolding field_references nested_references guess_target_collection

    field_references-Targets :
        (f : MongoField) → Targets names (field_references collection names f)
    field_references-Targets (field i nested) =
        All-append _ _ _
          (by_test (i.is_object_id && not (text_eq i.name _)) names _ (
            reference_to-Targets i.path i.name collection names _
              (first_match-Names names (candidates (base_name i.name)))))
          (nested_references-Targets nested)

    nested_references-Targets :
        (nested : Nested) → Targets names (nested_references collection names nested)
    nested_references-Targets nil = tt
    nested_references-Targets (cons f nested) =
        All-append _ _ _ (field_references-Targets f) (nested_references-Targets nested)

  detect_field_references-Targets :
      (fields : List MongoField) → Targets names (detect_field_references collection names fields)
  unfolding detect_field_references
  detect_field_references-Targets [] = tt
  detect_field_references-Targets (f ∷ fields) =
      All-append _ _ _ (field_references-Targets f) (detect_field_references-Targets fields)

All-each {κ} :
    {A B : Type 0} (P : B → Type κ) (f : A → B) (xs : List A)
    → ((x : A) → P (f x))
    → All P (map f xs)
All-each P f [] h = tt
All-each P f (x ∷ xs) h = (h x, All-each P f xs h)

-- Every reference that is detected, in a field at any depth, points at a collection of the analysis,
-- by its own name, however the name of the field was changed to find it.
pub detect_references-Targets :
    (collections : List MongoCollection)
    → All (λ e. Targets (map (λ c. c.name) collections) e.1) (detect_references collections)
unfolding detect_references
detect_references-Targets collections =
    All-each _ _ collections (λ c. detect_field_references-Targets c.name _ c.fields)
