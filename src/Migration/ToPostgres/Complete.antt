-- ===== src/Migration/ToPostgres/Complete.antt =====
-- src/migration/mappers/mongo-to-postgres.mapper.ts: no field of a collection is lost.
use mathlib.Core.List.{Perm, append-nil}
use mathlib.Core.List.Perm
use mathlib.Core.Path.{subst}
use dbdock.Base.{
  ℕ, Text, codes, text_eq_iff, ◌≡◌, refl, sym, ap, ◌∙◌, Bool, true, false, List, [], ◌∷◌, ◌++◌, map,
  any, All, arith, Bool-cases, inl, inr, if◌then◌else◌,
}
use dbdock.Migration.Names.{to_snake_case}
use dbdock.Migration.Types.{
  MongoField, info, MongoCollection, FieldMapping, NestedMapping, ArrayMapping, DetectedReference,
  TableMapping, MigrationConflict,
}
use dbdock.Migration.ToPostgres.{with_id, renamed, rename_columns, map_collection}
use dbdock.Migration.Fields.{Lists}
use dbdock.Migration.Types.{info}
use dbdock.Migration.References.{detect_references, references_of}
use dbdock.Migration.ToPostgres.{collected, map_collections, generate_mongo_to_postgres_plan}
use dbdock.Migration.ToPostgres.Sources.{
  sources, sources_of, source_of, is_named_id, sources_of-process_fields,
}
use dbdock.Migration.ToPostgres.Ids.{IsTop, has_id, has_id-process_fields}

renamed-source :
    (used : List Text) (f : FieldMapping) → (renamed used f).source_field ≡ f.source_field
renamed-source used f = ground arith

rename_columns-source :
    (used : List Text) (fields : List FieldMapping)
    → map (λ f. f.source_field) (rename_columns used fields) ≡ map (λ f. f.source_field) fields
unfolding rename_columns
rename_columns-source used [] = refl
rename_columns-source used (f ∷ fields) =
    ap
      (λ t.
        t
        ∷ map (λ g. g.source_field) (rename_columns ((renamed used f).target_column ∷ used) fields))
      (renamed-source used f)
    ∙ ap (λ ts. f.source_field ∷ ts)
        (rename_columns-source ((renamed used f).target_column ∷ used) fields)

source_of-top : (f : MongoField) → IsTop f → source_of f ≡ (info f).path
source_of-top f top = elim (Bool-cases (is_named_id f)) [
  | inl id ↦ rw id (sym (top ∙ (text_eq_iff (info f).name (codes "_id")).0 id))
  | inr other ↦ rw other refl
]

source_of-path :
    (fields : List MongoField)
    → All IsTop fields
    → map source_of fields ≡ map (λ f. (info f).path) fields
source_of-path [] top = refl
source_of-path (f ∷ fields) top =
    ap (λ t. t ∷ map source_of fields) (source_of-top f top.0)
    ∙ ap (λ ts. (info f).path ∷ ts) (source_of-path fields top.1)

-- What a table is to take: each field of the collection, and `_id` even where no field has its name.
abbrev pub expected : List MongoField → List Text
expected fields =
    if any is_named_id fields
    then map (λ f. (info f).path) fields
    else codes "_id" ∷ map (λ f. (info f).path) fields

sources-with_id :
    (l : Lists) (paths : List Text) (b : Bool)
    → has_id l ≡ b
    → Perm (sources_of l) paths
    → Perm (sources (with_id l.fields) l.nested l.arrays) (if b then paths else codes "_id" ∷ paths)
unfolding with_id
sources-with_id l paths true h p = rw h p
sources-with_id l paths false h p = rw h (Perm.cons (codes "_id") p)

sources-rename_columns :
    (used : List Text) (fields : List FieldMapping) (nested : List NestedMapping)
    (arrays : List ArrayMapping)
    → sources (rename_columns used fields) nested arrays ≡ sources fields nested arrays
sources-rename_columns used fields nested arrays =
    ap (λ ts. ts ++ (map (λ n. n.source_field) nested ++ map (λ a. a.source_field) arrays))
      (rename_columns-source used fields)

-- The mapping is of the collection, and takes each of its fields once.
abbrev pub Takes : MongoCollection → TableMapping → Type 0
Takes c m =
    (m.source_collection ≡ c.name)
    × Perm (sources m.fields m.nested_mappings m.array_mappings) (expected c.fields)

sources_of-collected :
    (c : MongoCollection) (conflicts : List MigrationConflict) (depth : ℕ)
    → All IsTop c.fields
    → Perm (sources_of (collected c conflicts depth)) (map (λ f. (info f).path) c.fields)
unfolding collected
sources_of-collected c conflicts depth top =
    subst (Perm _) (append-nil _ ∙ source_of-path c.fields top)
      (sources_of-process_fields c.fields (to_snake_case c.name) c.name depth _)

has_id-collected :
    (c : MongoCollection) (conflicts : List MigrationConflict) (depth : ℕ)
    → All IsTop c.fields
    → has_id (collected c conflicts depth) ≡ any is_named_id c.fields
unfolding collected
has_id-collected c conflicts depth top =
    has_id-process_fields c.fields (to_snake_case c.name) c.name depth _ top

map_collection-Takes :
    (c : MongoCollection) (refs : List DetectedReference) (conflicts : List MigrationConflict)
    (depth : ℕ)
    → All IsTop c.fields
    → Takes c (map_collection c refs conflicts depth).0
unfolding map_collection
map_collection-Takes c refs conflicts depth top =
    let l = collected c conflicts depth in
    (
      refl,
      subst (λ ts. Perm ts (expected c.fields))
          (sym (sources-rename_columns [] (with_id l.fields) l.nested l.arrays))
          (sources-with_id l _ _ (has_id-collected c conflicts depth top)
            (sources_of-collected c conflicts depth top)),
    )

-- One mapping for each collection, in their order.
abbrev pub TakesAll : List MongoCollection → List TableMapping → Type 0
TakesAll [] [] = Unit
TakesAll [] (m ∷ ms) = ⊥
TakesAll (c ∷ cs) [] = ⊥
TakesAll (c ∷ cs) (m ∷ ms) = Takes c m × TakesAll cs ms

map_collections-TakesAll :
    (cs : List MongoCollection) (references : List (Text × List DetectedReference)) (depth : ℕ)
    (conflicts : List MigrationConflict)
    → All (λ c. All IsTop c.fields) cs
    → TakesAll cs (map_collections cs references depth conflicts).0
unfolding map_collections
map_collections-TakesAll [] references depth conflicts top = tt
map_collections-TakesAll (c ∷ cs) references depth conflicts top = (
  map_collection-Takes c (references_of c.name references) conflicts depth top.0,
  map_collections-TakesAll cs references depth _ top.1,
)

-- The plan has one table for each collection, in order, and loses no field: the columns, the child
-- tables and the arrays of the table take each field of the collection exactly once, whatever its
-- types, and `_id` too where no field is named so. A field at the top of a document has its name for
-- its path.
pub generate_mongo_to_postgres_plan-TakesAll :
    (collections : List MongoCollection) (depth : ℕ)
    → All (λ c. All IsTop c.fields) collections
    → TakesAll collections (generate_mongo_to_postgres_plan collections depth).0
unfolding generate_mongo_to_postgres_plan
generate_mongo_to_postgres_plan-TakesAll collections depth top =
    map_collections-TakesAll collections (detect_references collections) depth [] top
