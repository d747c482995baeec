-- ===== src/Migration/ToPostgres.antt =====
-- src/migration/mappers/mongo-to-postgres.mapper.ts: tables and columns for collections and fields.
pub mod Sources
pub mod Ids
pub mod Complete
pub mod Tests
use dbdock.Base.{ℕ, Text, codes, text_eq, Bool, ◌&&◌, not, List, [], ◌∷◌, ◌++◌, any, if◌then◌else◌}
use dbdock.Migration.Names.{to_snake_case}
use dbdock.Migration.Types.{
  MongoCollection, FieldMapping, DetectedReference, TableMapping, MigrationConflict,
}
use dbdock.Migration.References.{detect_references, references_of}
use dbdock.Migration.Fields.{Lists, id_field, process_fields}

abbrev pub is_id : FieldMapping → Bool
is_id f = text_eq f.source_field (codes "_id")

-- A key in front, where no field gives one.
unfoldable pub with_id : List FieldMapping → List FieldMapping
with_id fields = if any is_id fields then fields else id_field ∷ fields

abbrev pub renamed : List Text → FieldMapping → FieldMapping
renamed used f =
    if any (λ c. text_eq c f.target_column) used && not f.is_primary_key
    then record f { target_column = f.target_column ++ codes "_original" }
    else f

-- The loop over the columns already used.
unfoldable pub rename_columns : List Text → List FieldMapping → List FieldMapping
rename_columns used [] = []
rename_columns used (f ∷ fields) =
    renamed used f ∷ rename_columns ((renamed used f).target_column ∷ used) fields

-- What the loop of `mapCollection` pushes.
unfoldable pub collected : MongoCollection → List MigrationConflict → ℕ → Lists
collected c conflicts max_depth =
    process_fields c.fields (to_snake_case c.name) c.name max_depth
      (record { fields = []; nested = []; arrays = []; conflicts = conflicts })

-- `mapCollection`, with the conflicts of before and those that it adds.
unfoldable pub map_collection :
    MongoCollection
    → List DetectedReference
    → List MigrationConflict
    → ℕ
    → TableMapping × List MigrationConflict
map_collection c refs conflicts max_depth =
    let l = collected c conflicts max_depth in
    (
      record {
        source_collection = c.name;
        target_table = to_snake_case c.name;
        fields = rename_columns [] (with_id l.fields);
        nested_mappings = l.nested;
        array_mappings = l.arrays;
        detected_references = refs;
      },
      l.conflicts,
    )

unfoldable pub map_collections :
    List MongoCollection
    → List (Text × List DetectedReference)
    → ℕ
    → List MigrationConflict
    → List TableMapping × List MigrationConflict
map_collections [] references max_depth conflicts = ([], conflicts)
map_collections (c ∷ collections) references max_depth conflicts =
    let mapped = map_collection c (references_of c.name references) conflicts max_depth in
    let rest = map_collections collections references max_depth mapped.1 in
    (mapped.0 ∷ rest.0, rest.1)

-- `generateMongoToPostgresPlan`: the mappings and the conflicts of the plan.
unfoldable pub generate_mongo_to_postgres_plan :
    List MongoCollection → ℕ → List TableMapping × List MigrationConflict
generate_mongo_to_postgres_plan collections max_depth =
    map_collections collections (detect_references collections) max_depth []
