-- ===== src/Migration/ToMongo/Tests.antt =====
-- src/migration/mappers/postgres-to-mongo.mapper.ts at four tables, and at one that refers to itself.
use dbdock.Base.{
  ◌≡◌, refl, String, ℕ, Text, codes, Bool, true, false, List, [], ◌∷◌, map, filter, All,
}
use dbdock.Cloud.Dict.{insert}
use dbdock.Migration.Names.{to_camel_case, pluralize}
use dbdock.Migration.Types.{PgColumn, PgForeignKey, PgTable}
use dbdock.Migration.ToMongo.{
  detect_relationships, detect_junction_tables, child_tables, is_top, handle_many_to_many,
  place_relationship, place_relationships, map_columns, parts_of, map_table_to_document,
  generate_postgres_to_mongo_plan,
}
use dbdock.Migration.ToMongo.Accounts.{is_accounted, generate_postgres_to_mongo_plan-accounts}

abbrev column : String → Bool → PgColumn
column name key = record { name = codes name; is_primary_key = key; is_unique = key }

abbrev key_to : String → String → PgForeignKey
key_to name table = record {
  column_name = codes name;
  referenced_table = codes table;
  referenced_column = codes "id";
}

abbrev table : String → List PgColumn → List PgForeignKey → ℕ → PgTable
table name columns keys rows = record {
  name = codes name;
  columns = column "id" true ∷ columns;
  foreign_keys = keys;
  row_count = rows;
}

abbrev shop : List PgTable
shop =
    table "users" (column "full_name" false ∷ []) [] 9
    ∷ table "tags" (column "label" false ∷ []) [] 9
    ∷ table "orders" (column "user_id" false ∷ []) (key_to "user_id" "users" ∷ []) 5000
    ∷ table "user_tags" (column "user_id" false ∷ column "tag_id" false ∷ [])
        (key_to "user_id" "users" ∷ key_to "tag_id" "tags" ∷ []) 50
    ∷ []

generate_postgres_to_mongo_plan-accounts_example :
    (map (λ m. m.primary_table) (generate_postgres_to_mongo_plan shop)
      ≡ map (λ t. t.name) (filter (is_top shop) shop))
    × All
        (λ m. All (λ rel. is_accounted shop m rel ≡ true) (detect_relationships shop))
        (generate_postgres_to_mongo_plan shop)
generate_postgres_to_mongo_plan-accounts_example = generate_postgres_to_mongo_plan-accounts shop

documents_test :
    map {B = Text × List Text × List Text}
      (λ m. (m.primary_table, map (λ f. f.1) m.field_mappings, map (λ r. r.ref_field) m.references))
      (generate_postgres_to_mongo_plan shop)
    ≡ (codes "users", codes "_id" ∷ codes "fullName" ∷ codes "tagses" ∷ [], codes "usersId" ∷ [])
      ∷ (codes "tags", codes "_id" ∷ codes "label" ∷ codes "userses" ∷ [], [])
      ∷ []
unfolding generate_postgres_to_mongo_plan map_table_to_document parts_of map_columns
    place_relationships place_relationship handle_many_to_many detect_relationships
    detect_junction_tables child_tables insert to_camel_case pluralize
documents_test = refl

-- A table that refers to itself has no document.
self_test :
    generate_postgres_to_mongo_plan (
      table "staff"
        (column "boss_id" false ∷ column "name" false ∷ column "role" false ∷ [])
        (key_to "boss_id" "staff" ∷ [])
        40
      ∷ [])
    ≡ []
unfolding generate_postgres_to_mongo_plan detect_relationships detect_junction_tables child_tables
self_test = refl
