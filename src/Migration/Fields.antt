-- ===== src/Migration/Fields.antt =====
-- src/migration/mappers/mongo-to-postgres.mapper.ts: what one field becomes.
use dbdock.Base.{
  ℕ, zero, suc, ◌-◌, ltb, leb, length, Text, codes, text_eq, starts_with, Bool, true, false, ◌&&◌,
  ◌||◌, not, Option, none, some, List, [], ◌∷◌, ◌++◌, map, find?, any, all, if◌then◌else◌,
}
use dbdock.Migration.Names.{to_snake_case, singularize}
use dbdock.Migration.Values.{
  TypeCounts, mongo_type_to_pg_type, resolve_majority_type, by_count, first_type, is_value,
}
use dbdock.Migration.Types.{
  FieldInfo, MongoField, field, infos, FieldMapping, jsonb, uuid_from_objectid, NestedStrategy,
  NestedMapping, junction, array_column, child_table, ArrayMapping, MigrationConflict,
  type_mismatch, missing_field,
}

-- A hundred percent and fifty, in thousandths of one.
abbrev pub always : ℕ
always = 100000

abbrev pub half : ℕ
half = 50000

-- What the functions of the mapper push to.
pub record Lists : Type 0 where
  pub fields : List FieldMapping
  pub nested : List NestedMapping
  pub arrays : List ArrayMapping
  pub conflicts : List MigrationConflict

abbrev pub push_field : FieldMapping → Lists → Lists
push_field f l = record l { fields = l.fields ++ f ∷ [] }

abbrev pub push_conflict : MigrationConflict → Lists → Lists
push_conflict c l = record l { conflicts = l.conflicts ++ c ∷ [] }

-- The column of `_id`.
abbrev pub id_field : FieldMapping
id_field = record {
  source_field = codes "_id";
  target_column = codes "id";
  target_type = codes "uuid";
  transform = some uuid_from_objectid;
  nullable = false;
  is_unique = true;
  is_primary_key = true;
  default_value = none;
}

-- The columns that every child table has.
abbrev pub key_fields : Text → List FieldMapping
key_fields parent_table =
    record {
      source_field = codes "id";
      target_column = codes "id";
      target_type = codes "uuid";
      transform = none;
      nullable = false;
      is_unique = true;
      is_primary_key = true;
      default_value = some (codes "gen_random_uuid()");
    }
    ∷ record {
      source_field = parent_table ++ codes "_id";
      target_column = singularize parent_table ++ codes "_id";
      target_type = codes "uuid";
      transform = none;
      nullable = false;
      is_unique = false;
      is_primary_key = false;
      default_value = none;
    }
    ∷ []

abbrev pub child_field : FieldInfo → FieldMapping
child_field f = record {
  source_field = f.path;
  target_column = to_snake_case f.name;
  target_type = mongo_type_to_pg_type (resolve_majority_type f.types);
  transform = none;
  nullable = ltb f.frequency always;
  is_unique = false;
  is_primary_key = false;
  default_value = none;
}

abbrev pub child_table_of : Text → FieldInfo → Text
child_table_of parent_table f = singularize parent_table ++ codes "_" ++ to_snake_case f.name

-- `isConsistent`
abbrev pub is_consistent : List FieldInfo → Bool
is_consistent nested =
    ltb 0 (length nested) && leb (length nested) 20 && all (λ f. ltb half f.frequency) nested

-- `handleNestedObject`
unfoldable pub handle_nested_object : FieldInfo → List FieldInfo → Text → ℕ → Lists → Lists
handle_nested_object f nested parent_table max_depth l =
    if is_consistent nested && ltb f.depth max_depth
    then record l {
      nested =
          l.nested
          ++ record {
            source_field = f.path;
            target_table = child_table_of parent_table f;
            strategy = NestedStrategy.table;
            parent_foreign_key = singularize parent_table ++ codes "_id";
            fields = key_fields parent_table ++ map child_field nested;
            relation_type = codes "1:1";
          }
            ∷ [];
    }
    else push_field
        (record {
          source_field = f.path;
          target_column = to_snake_case f.name;
          target_type = codes "jsonb";
          transform = some jsonb;
          nullable = ltb f.frequency always;
          is_unique = false;
          is_primary_key = false;
          default_value = none;
        })
        l

abbrev pub push_front : ℕ → List Text → List Text
push_front c [] = (c ∷ []) ∷ []
push_front c (t ∷ ts) = (c ∷ t) ∷ ts

-- `text.split(' | ')`, where some characters of a separator are still to be passed over.
unfoldable pub split_types : ℕ → Text → List Text
split_types n [] = [] ∷ []
split_types (suc n) (c ∷ s) = split_types n s
split_types zero (c ∷ s) =
    let after = split_types 2 s in
    let rest = split_types zero s in
    if starts_with (c ∷ s) (codes " | ") then [] ∷ after else push_front c rest

abbrev pub element_types : FieldInfo → List Text
element_types f = elim f.array_element_type [ none ↦ [] | some t ↦ split_types 0 t ]

abbrev pub or_string : Option Text → Text
or_string none = codes "string"
or_string (some []) = codes "string"
or_string (some (c ∷ t)) = c ∷ t

unfoldable pub array_mapping : FieldInfo → List FieldInfo → Text → List Text → ArrayMapping
array_mapping f nested parent_table types =
    let has_objects = any (λ t. text_eq t (codes "object")) types in
    let has_primitives = any (λ t. not (text_eq t (codes "object")) && is_value t) types in
    let table = child_table_of parent_table f in
    let key = singularize parent_table ++ codes "_id" in
    if has_objects && ltb 0 (length nested)
    then record {
      source_field = f.path;
      target_table = table;
      strategy = child_table;
      parent_foreign_key = key;
      element_type = none;
      fields = key_fields parent_table ++ map child_field nested;
    }
    else if has_primitives && not has_objects
    then record {
      source_field = f.path;
      target_table = table;
      strategy = array_column;
      parent_foreign_key = key;
      element_type = some (mongo_type_to_pg_type (or_string (find? is_value types)));
      fields = [];
    }
    else record {
      source_field = f.path;
      target_table = table;
      strategy = junction;
      parent_foreign_key = key;
      element_type = some (codes "jsonb");
      fields = [];
    }

-- `handleArray`
unfoldable pub handle_array : FieldInfo → List FieldInfo → Text → Lists → Lists
handle_array f nested parent_table l = record l {
  arrays = l.arrays ++ array_mapping f nested parent_table (element_types f) ∷ [];
}

-- A conflict where the values have several types, and one where some documents miss the field.
abbrev pub note_types : FieldInfo → Text → Lists → Lists
note_types f collection l =
    if ltb 1 (length (by_count f.types))
    then push_conflict
        (type_mismatch (collection ++ codes "." ++ f.path) f.name (by_count f.types)
          (mongo_type_to_pg_type (first_type (by_count f.types))))
        l
    else l

abbrev pub note_missing : FieldInfo → Text → Lists → Lists
note_missing f collection l =
    if ltb f.frequency always
    then push_conflict
        (missing_field (collection ++ codes "." ++ f.path) f.name (always - f.frequency)) l
    else l

abbrev pub has_null_values : TypeCounts → Bool
has_null_values types = any (λ e. not (is_value e.0) && ltb 0 e.1) types

abbrev pub column_of : FieldInfo → FieldMapping
column_of f = record {
  source_field = f.path;
  target_column = to_snake_case f.name;
  target_type =
      if f.is_object_id
      then codes "uuid"
      else mongo_type_to_pg_type (resolve_majority_type f.types);
  transform = if f.is_object_id then some uuid_from_objectid else none;
  nullable = ltb f.frequency always || has_null_values f.types;
  is_unique = false;
  is_primary_key = false;
  default_value = none;
}

-- A child table, an array or a column for a field other than `_id`.
unfoldable pub place_field : FieldInfo → List FieldInfo → Text → ℕ → Lists → Lists
place_field f nested parent_table max_depth l =
    if f.is_nested_object && not f.is_array
    then handle_nested_object f nested parent_table max_depth l
    else if f.is_array
    then handle_array f nested parent_table l
    else push_field (column_of f) l

-- `processField`
unfoldable pub process_field : MongoField → Text → Text → ℕ → Lists → Lists
process_field (field f nested) parent_table collection max_depth l =
    if text_eq f.name (codes "_id")
    then push_field id_field l
    else place_field f (infos nested) parent_table max_depth
        (note_missing f collection (note_types f collection l))

unfoldable pub process_fields : List MongoField → Text → Text → ℕ → Lists → Lists
process_fields [] parent_table collection max_depth l = l
process_fields (f ∷ fields) parent_table collection max_depth l =
    process_fields fields parent_table collection max_depth
      (process_field f parent_table collection max_depth l)
