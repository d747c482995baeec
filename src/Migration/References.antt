-- ===== src/Migration/References.antt =====
-- src/migration/reference.detector.ts: which fields refer to another collection.
pub mod Known
use dbdock.Base.{
  Text, codes, text_eq, ends_with, ◌&&◌, not, Option, none, some, List, [], ◌∷◌, ◌++◌, map, any,
  find?, if◌then◌else◌,
}
use dbdock.Migration.Names.{to_lower, to_snake_case, singularize, drop_last}
use dbdock.Migration.Types.{
  MongoField, field, Nested, nil, cons, MongoCollection, DetectedReference,
}

-- The name without `Id` or `_id` at its end.
unfoldable pub base_name : Text → Text
base_name name =
    if ends_with name (codes "_id")
    then drop_last 3 name
    else if ends_with name (codes "Id")
    then drop_last 2 name
    else name

abbrev pub candidates : Text → List Text
candidates base =
    base
    ∷ (base ++ codes "s")
    ∷ (base ++ codes "es")
    ∷ singularize base
    ∷ to_snake_case base
    ∷ (to_snake_case base ++ codes "s")
    ∷ []

-- One round of the loop: the name itself, or the first that differs in case only.
abbrev pub match_name : List Text → Text → Option Text
match_name names candidate =
    if any (λ n. text_eq n candidate) names
    then some candidate
    else find? (λ n. text_eq (to_lower n) (to_lower candidate)) names

unfoldable pub first_match : List Text → List Text → Option Text
first_match names [] = none
first_match names (candidate ∷ more) =
    let rest = first_match names more in
    elim (match_name names candidate) [ none ↦ rest | some name ↦ some name ]

-- `guessTargetCollection`
unfoldable pub guess_target_collection : Text → List Text → Option Text
guess_target_collection name names = first_match names (candidates (base_name name))

-- The reference of one field, unless it has none. A name that is empty counts as none.
abbrev pub reference_to : Text → Text → Text → Option Text → List DetectedReference
reference_to path name collection none = []
reference_to path name collection (some []) = []
reference_to path name collection (some (c ∷ target)) =
    record {
      source_field = path;
      target_collection = c ∷ target;
      foreign_key_column = to_snake_case name;
      foreign_key_table = to_snake_case collection;
    }
    ∷ []

module _ (collection : Text) (names : List Text) where
  unfoldable mutual
    -- One round of the loop of `detectFieldReferences`.
    pub field_references : MongoField → List DetectedReference
    field_references (field i nested) =
        (if i.is_object_id && not (text_eq i.name (codes "_id"))
          then reference_to i.path i.name collection (guess_target_collection i.name names)
          else [])
        ++ nested_references nested

    -- `detectFieldReferences` on nested fields.
    pub nested_references : Nested → List DetectedReference
    nested_references nil = []
    nested_references (cons f nested) = field_references f ++ nested_references nested

  -- `detectFieldReferences` on a collection's fields.
  unfoldable pub detect_field_references : List MongoField → List DetectedReference
  detect_field_references [] = []
  detect_field_references (f ∷ fields) = field_references f ++ detect_field_references fields

-- `detectReferences`, as the entries of the map in the order in which they are set.
unfoldable pub detect_references : List MongoCollection → List (Text × List DetectedReference)
detect_references collections =
    map (λ c. (c.name, detect_field_references c.name (map (λ d. d.name) collections) c.fields))
      collections

-- `map.get(name) || []`: the entry that was set last.
unfoldable pub references_of : Text → List (Text × List DetectedReference) → List DetectedReference
references_of name [] = []
references_of name ((k, refs) ∷ entries) =
    let later = references_of name entries in
    if any (λ e. text_eq e.0 name) entries then later else if text_eq k name then refs else []
