-- ===== src/Migration/ToMongo.antt =====
-- src/migration/mappers/postgres-to-mongo.mapper.ts: documents for tables.
pub mod Placed
pub mod Accounts
pub mod Tests
use dbdock.Base.{
  ℕ, ltb, leb, ◌==◌, length, Text, codes, text_eq, Bool, true, false, ◌&&◌, ◌||◌, not, Option, none,
  some, List, [], ◌∷◌, ◌++◌, map, filter, find?, any, if◌then◌else◌,
}
use dbdock.Cloud.Dict.{Dict, insert}
use dbdock.Migration.Names.{to_camel_case, pluralize}
use dbdock.Migration.Types.{
  PgColumn, PgForeignKey, PgTable, EmbedConfig, RefConfig, DocumentMapping,
}

-- `TableRelationship`, whose type is 1:1 or 1:many.
pub record TableRelationship : Type 0 where
  pub from_table : Text
  pub to_table : Text
  pub from_column : Text
  pub to_column : Text
  pub one_to_one : Bool

-- `EMBED_THRESHOLD`
abbrev pub embed_threshold : ℕ
embed_threshold = 1000

abbrev pub unique_column : Option PgColumn → Bool
unique_column none = false
unique_column (some c) = c.is_unique

abbrev pub relationship_of : PgTable → PgForeignKey → TableRelationship
relationship_of table fk = record {
  from_table = table.name;
  to_table = fk.referenced_table;
  from_column = fk.column_name;
  to_column = fk.referenced_column;
  one_to_one = unique_column (find? (λ c. text_eq c.name fk.column_name) table.columns);
}

-- `detectRelationships`
unfoldable pub detect_relationships : List PgTable → List TableRelationship
detect_relationships [] = []
detect_relationships (table ∷ tables) =
    map (relationship_of table) table.foreign_keys ++ detect_relationships tables

-- The columns that are neither of a foreign key nor of the primary key.
abbrev pub plain_columns : PgTable → List PgColumn
plain_columns table =
    filter
      (λ c.
        not (any (λ fk. text_eq fk.column_name c.name) table.foreign_keys) && not c.is_primary_key)
      table.columns

abbrev pub is_junction : PgTable → Bool
is_junction table = length table.foreign_keys == 2 && leb (length (plain_columns table)) 2

-- `detectJunctionTables`
unfoldable pub detect_junction_tables : List PgTable → List Text
detect_junction_tables tables = map (λ t. t.name) (filter is_junction tables)

-- `set.has(name)`
abbrev pub has_name : Text → List Text → Bool
has_name name names = any (λ n. text_eq n name) names

abbrev pub find_table : Text → List PgTable → Option PgTable
find_table name tables = find? (λ t. text_eq t.name name) tables

-- What a document's mapping is built from.
pub record Parts : Type 0 where
  pub field_mappings : Dict Text
  pub embeddings : List EmbedConfig
  pub references : List RefConfig

abbrev pub push_embedding : EmbedConfig → Parts → Parts
push_embedding e parts = record parts { embeddings = parts.embeddings ++ e ∷ [] }

abbrev pub push_reference : RefConfig → Parts → Parts
push_reference r parts = record parts { references = parts.references ++ r ∷ [] }

abbrev pub column_name_of : Option PgForeignKey → Text
column_name_of none = []
column_name_of (some fk) = fk.column_name

-- `handleManyToMany`
unfoldable pub handle_many_to_many : PgTable → PgTable → Option PgTable → Parts → Parts
handle_many_to_many parent junction none parts = parts
handle_many_to_many parent junction (some other) parts =
    if length (plain_columns junction) == 0 && leb (length other.columns) 3
    then record parts {
      field_mappings =
          insert (codes "_" ++ other.name) (to_camel_case (pluralize other.name))
            parts.field_mappings;
    }
    else push_embedding
        (record {
          source_table = junction.name;
          foreign_key =
              column_name_of
                (find? (λ fk. text_eq fk.referenced_table parent.name) junction.foreign_keys);
          embed_as = to_camel_case (pluralize other.name);
          is_array = true;
        })
        parts

abbrev pub other_table : List PgTable → Option PgForeignKey → Option PgTable
other_table tables none = none
other_table tables (some fk) = find_table fk.referenced_table tables

-- A relationship from a junction table.
abbrev pub place_junction : List PgTable → PgTable → Option PgTable → Parts → Parts
place_junction tables parent none parts = parts
place_junction tables parent (some junction) parts =
    handle_many_to_many parent junction
      (other_table tables
        (find? (λ fk. not (text_eq fk.referenced_table parent.name)) junction.foreign_keys))
      parts

-- A relationship from a table that is no junction.
abbrev pub place_child : PgTable → TableRelationship → Option PgTable → Parts → Parts
place_child parent rel none parts = parts
place_child parent rel (some child) parts =
    if rel.one_to_one || ltb child.row_count embed_threshold
    then push_embedding
        (record {
          source_table = rel.from_table;
          foreign_key = rel.from_column;
          embed_as = to_camel_case rel.from_table;
          is_array = not rel.one_to_one;
        })
        parts
    else push_reference
        (record {
          source_table = rel.from_table;
          foreign_key = rel.from_column;
          ref_field = to_camel_case parent.name ++ codes "Id";
        })
        parts

-- The loop over the columns.
unfoldable pub map_columns : List PgColumn → Dict Text → Dict Text
map_columns [] fields = fields
map_columns (c ∷ columns) fields =
    map_columns columns
      (insert c.name (if c.is_primary_key then codes "_id" else to_camel_case c.name) fields)

module _ (tables : List PgTable) where
  unfoldable pub place_relationship : PgTable → TableRelationship → Parts → Parts
  place_relationship parent rel parts =
      if has_name rel.from_table (detect_junction_tables tables)
      then place_junction tables parent (find_table rel.from_table tables) parts
      else place_child parent rel (find_table rel.from_table tables) parts

  -- The loop over the relationships to the table.
  unfoldable pub place_relationships : PgTable → List TableRelationship → Parts → Parts
  place_relationships parent [] parts = parts
  place_relationships parent (rel ∷ rels) parts =
      place_relationships parent rels (place_relationship parent rel parts)

  unfoldable pub parts_of : PgTable → Parts
  parts_of table =
      place_relationships table
        (filter (λ r. text_eq r.to_table table.name) (detect_relationships tables))
        (record { field_mappings = map_columns table.columns []; embeddings = []; references = [] })

  -- `mapTableToDocument`
  unfoldable pub map_table_to_document : PgTable → DocumentMapping
  map_table_to_document table =
      let parts = parts_of table in
      record {
        primary_table = table.name;
        target_collection = table.name;
        field_mappings = parts.field_mappings;
        embeddings = parts.embeddings;
        references = parts.references;
      }

  -- `childTables`
  unfoldable pub child_tables : List Text
  child_tables =
      map (λ r. r.from_table)
        (filter (λ r. not (has_name r.from_table (detect_junction_tables tables)))
          (detect_relationships tables))

  -- A table with a document of its own: neither a junction nor a child.
  abbrev pub is_top : PgTable → Bool
  is_top t =
      not (has_name t.name (detect_junction_tables tables)) && not (has_name t.name child_tables)

  -- `generatePostgresToMongoPlan`: the document mappings of the plan.
  unfoldable pub generate_postgres_to_mongo_plan : List DocumentMapping
  generate_postgres_to_mongo_plan = map map_table_to_document (filter is_top tables)
