-- ===== src/Migration/ToPostgres/Sources.antt =====
-- src/migration/mappers/mongo-to-postgres.mapper.ts: where the pushes put the path of a field.
use mathlib.Core.List.{Perm, perm_middle}
use mathlib.Core.List.Perm
use mathlib.Core.Path.{subst}
use dbdock.Base.{
  ℕ, ltb, Text, codes, text_eq, ◌≡◌, refl, ◌∙◌, Bool, true, false, ◌&&◌, not, List, [], ◌∷◌, ◌++◌,
  map, arith, Bool-cases, inl, inr, if◌then◌else◌,
}
use dbdock.Migration.Types.{
  FieldInfo, MongoField, field, infos, info, FieldMapping, NestedMapping, ArrayMapping,
  MigrationConflict,
}
use dbdock.Migration.Fields.{
  Lists, id_field, is_consistent, column_of, note_types, note_missing, handle_nested_object,
  handle_array, place_field, array_mapping, push_conflict, process_field, process_fields,
}

-- The field that each column, child table and array of the plan takes.
abbrev pub sources : List FieldMapping → List NestedMapping → List ArrayMapping → List Text
sources fields nested arrays =
    map (λ f. f.source_field) fields
    ++ (map (λ n. n.source_field) nested ++ map (λ a. a.source_field) arrays)

abbrev pub sources_of : Lists → List Text
sources_of l = sources l.fields l.nested l.arrays

abbrev pub is_named_id : MongoField → Bool
is_named_id f = text_eq (info f).name (codes "_id")

abbrev pub source_of : MongoField → Text
source_of f = if is_named_id f then codes "_id" else (info f).path

map-push {ℓ} :
    {A : Type ℓ} (f : A → Text) (xs : List A) (x : A) → Perm (map f (xs ++ x ∷ [])) (f x ∷ map f xs)
map-push f [] x = Perm.refl (f x ∷ [])
map-push f (y ∷ xs) x =
    Perm.trans (Perm.cons (f y) (map-push f xs x)) (Perm.swap (f x) (f y) (map f xs))

-- Where a push to one of the lists puts its source.
module _ (fields : List FieldMapping) (nested : List NestedMapping)
    (arrays : List ArrayMapping) where
  sources-field :
      (f : FieldMapping)
      → Perm
          (sources (fields ++ f ∷ []) nested arrays)
          (f.source_field ∷ sources fields nested arrays)
  sources-field f = Perm.append_right _ (map-push _ fields f)

  sources-nested :
      (n : NestedMapping)
      → Perm
          (sources fields (nested ++ n ∷ []) arrays)
          (n.source_field ∷ sources fields nested arrays)
  sources-nested n =
      Perm.trans (Perm.append_left _ (Perm.append_right _ (map-push _ nested n)))
        (perm_middle (map (λ f. f.source_field) fields) _)

  sources-array :
      (a : ArrayMapping)
      → Perm
          (sources fields nested (arrays ++ a ∷ []))
          (a.source_field ∷ sources fields nested arrays)
  sources-array a = Perm.trans (Perm.append_left _ (Perm.append_left _ (map-push _ arrays a))) (
      Perm.trans (Perm.append_left _ (perm_middle (map (λ n. n.source_field) nested) _))
        (perm_middle (map (λ f. f.source_field) fields) _))

sources_of-nested_object :
    (f : FieldInfo) (nested : List FieldInfo) (table : Text) (depth : ℕ) (l : Lists)
    → Perm (sources_of (handle_nested_object f nested table depth l)) (f.path ∷ sources_of l)
unfolding handle_nested_object
sources_of-nested_object f nested table depth l =
    elim (Bool-cases (is_consistent nested && ltb f.depth depth)) [
      | inl own ↦ rw own (sources-nested l.fields l.nested l.arrays _)
      | inr column ↦ rw column (sources-field l.fields l.nested l.arrays _)
    ]

array_mapping-source :
    (f : FieldInfo) (nested : List FieldInfo) (table : Text) (types : List Text)
    → (array_mapping f nested table types).source_field ≡ f.path
unfolding array_mapping
array_mapping-source f nested table types = ground arith

sources_of-array :
    (f : FieldInfo) (nested : List FieldInfo) (table : Text) (l : Lists)
    → Perm (sources_of (handle_array f nested table l)) (f.path ∷ sources_of l)
unfolding handle_array
sources_of-array f nested table l =
    subst (λ t. Perm (sources_of (handle_array f nested table l)) (t ∷ sources_of l))
      (array_mapping-source f nested table _) (sources-array l.fields l.nested l.arrays _)

sources_of-push_conflict :
    (c : MigrationConflict) (l : Lists) (p : Bool)
    → sources_of (if p then push_conflict c l else l) ≡ sources_of l
sources_of-push_conflict c l true = refl
sources_of-push_conflict c l false = refl

-- The notes on types and on missing values leave the lists as they are.
sources_of-noted :
    (f : FieldInfo) (collection : Text) (l : Lists)
    → sources_of (note_missing f collection (note_types f collection l)) ≡ sources_of l
sources_of-noted f collection l =
    sources_of-push_conflict _ (note_types f collection l) _ ∙ sources_of-push_conflict _ l _

sources_of-place_field :
    (f : FieldInfo) (nested : List FieldInfo) (table : Text) (depth : ℕ) (l : Lists)
    → Perm (sources_of (place_field f nested table depth l)) (f.path ∷ sources_of l)
unfolding place_field handle_array array_mapping
sources_of-place_field f nested table depth l =
    elim (Bool-cases (f.is_nested_object && not f.is_array)) [
      | inl object ↦ rw object (sources_of-nested_object f nested table depth l)
      | inr other ↦ rw other (elim (Bool-cases f.is_array) [
        | inl array ↦ rw array (sources_of-array f nested table l)
        | inr plain ↦ rw plain (sources-field l.fields l.nested l.arrays (column_of f))
      ])
    ]

-- The pushes of one field add its source.
sources_of-process_field :
    (f : MongoField) (table collection : Text) (depth : ℕ) (l : Lists)
    → Perm (sources_of (process_field f table collection depth l)) (source_of f ∷ sources_of l)
unfolding process_field
sources_of-process_field (field f nested) table collection depth l =
    elim (Bool-cases (text_eq f.name (codes "_id"))) [
      | inl id ↦ rw id (sources-field l.fields l.nested l.arrays id_field)
      | inr other ↦ rw other (
          subst
            (λ t.
              Perm
                (sources_of (
                  place_field f (infos nested) table depth
                    (note_missing f collection (note_types f collection l))))
                (f.path ∷ t))
            (sources_of-noted f collection l)
            (sources_of-place_field f (infos nested) table depth _))
    ]

pub sources_of-process_fields :
    (fields : List MongoField) (table collection : Text) (depth : ℕ) (l : Lists)
    → Perm
        (sources_of (process_fields fields table collection depth l))
        (map source_of fields ++ sources_of l)
unfolding process_fields
sources_of-process_fields [] table collection depth l = Perm.refl _
sources_of-process_fields (f ∷ fields) table collection depth l =
    Perm.trans (sources_of-process_fields fields table collection depth _) (
      Perm.trans (Perm.append_left _ (sources_of-process_field f table collection depth l))
        (perm_middle (map source_of fields) _))
