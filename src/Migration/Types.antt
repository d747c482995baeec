-- ===== src/Migration/Types.antt =====
-- src/migration/types.ts: the analysis of a database and the plan of a migration. A frequency is in
-- thousandths of a percent. `nestedFields` left out is the same as none.
use dbdock.Base.{ℕ, Text, Bool, Option, List, [], ◌∷◌}
use dbdock.Migration.Values.{TypeCounts}

-- `MongoFieldInfo` but for its nested fields, the sample values and what only the analyzer uses.
pub record FieldInfo : Type 0 where
  pub name : Text
  pub path : Text
  pub types : TypeCounts
  pub frequency : ℕ
  pub is_array : Bool
  pub is_object_id : Bool
  pub is_nested_object : Bool
  pub array_element_type : Option Text
  pub depth : ℕ

mutual
  pub data MongoField : Type 0 where
    field : FieldInfo → Nested → MongoField

  pub data Nested : Type 0 where
    nil : Nested
    cons : MongoField → Nested → Nested

abbrev pub info : MongoField → FieldInfo
info (field i nested) = i

-- The fields in `nestedFields`, without their own.
unfoldable pub infos : Nested → List FieldInfo
infos nil = []
infos (cons f nested) = info f ∷ infos nested

-- Of the analysis of a collection or a table, what the mappers and the detector read.
pub record MongoCollection : Type 0 where
  pub name : Text
  pub fields : List MongoField

pub data Transform : Type 0 where
  cast jsonb array uuid_from_objectid : Transform

pub record FieldMapping : Type 0 where
  pub source_field : Text
  pub target_column : Text
  pub target_type : Text
  pub transform : Option Transform
  pub nullable : Bool
  pub is_unique : Bool
  pub is_primary_key : Bool
  pub default_value : Option Text

pub data NestedStrategy : Type 0 where
  table jsonb : NestedStrategy

pub record NestedMapping : Type 0 where
  pub source_field : Text
  pub target_table : Text
  pub strategy : NestedStrategy
  pub parent_foreign_key : Text
  pub fields : List FieldMapping
  pub relation_type : Text

pub data ArrayStrategy : Type 0 where
  junction array_column child_table : ArrayStrategy

pub record ArrayMapping : Type 0 where
  pub source_field : Text
  pub target_table : Text
  pub strategy : ArrayStrategy
  pub parent_foreign_key : Text
  pub element_type : Option Text
  pub fields : List FieldMapping

pub record DetectedReference : Type 0 where
  pub source_field : Text
  pub target_collection : Text
  pub foreign_key_column : Text
  pub foreign_key_table : Text

pub record TableMapping : Type 0 where
  pub source_collection : Text
  pub target_table : Text
  pub fields : List FieldMapping
  pub nested_mappings : List NestedMapping
  pub array_mappings : List ArrayMapping
  pub detected_references : List DetectedReference

-- What a conflict says, as data in place of texts.
pub data MigrationConflict : Type 0 where
  -- The location, the field, the types with their counts, and the type of the column.
  type_mismatch : Text → Text → TypeCounts → Text → MigrationConflict
  -- The location, the field, and in how many documents it is missing.
  missing_field : Text → Text → ℕ → MigrationConflict

-- `PgColumnInfo` but for the types, which no mapper reads.
pub record PgColumn : Type 0 where
  pub name : Text
  pub is_primary_key : Bool
  pub is_unique : Bool

pub record PgForeignKey : Type 0 where
  pub column_name : Text
  pub referenced_table : Text
  pub referenced_column : Text

pub record PgTable : Type 0 where
  pub name : Text
  pub columns : List PgColumn
  pub foreign_keys : List PgForeignKey
  pub row_count : ℕ

pub record EmbedConfig : Type 0 where
  pub source_table : Text
  pub foreign_key : Text
  pub embed_as : Text
  pub is_array : Bool

pub record RefConfig : Type 0 where
  pub source_table : Text
  pub foreign_key : Text
  pub ref_field : Text

-- An object of texts is the list of its properties in their order of insertion.
pub record DocumentMapping : Type 0 where
  pub primary_table : Text
  pub target_collection : Text
  pub field_mappings : List (Text × Text)
  pub embeddings : List EmbedConfig
  pub references : List RefConfig
