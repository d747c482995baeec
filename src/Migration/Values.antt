-- ===== src/Migration/Values.antt =====
-- src/migration/type.mapper.ts: the types of values. `Object.entries` keeps the order of insertion.
use dbdock.Base.{
  ℕ, leb, Text, String, codes, text_eq, ends_with, Bool, ◌&&◌, not, List, [], ◌∷◌, filter, any,
  if◌then◌else◌,
}
use dbdock.Base.Sort.{sort_by}
use dbdock.Migration.Names.{to_lower}

-- The `typeMap` of `mongoTypeToPgType`.
abbrev pub type_map : List (String × String)
type_map =
    ("string", "text")
    ∷ ("number", "numeric")
    ∷ ("int", "integer")
    ∷ ("long", "bigint")
    ∷ ("double", "double precision")
    ∷ ("decimal", "numeric")
    ∷ ("boolean", "boolean")
    ∷ ("date", "timestamptz")
    ∷ ("objectId", "uuid")
    ∷ ("binData", "bytea")
    ∷ ("null", "text")
    ∷ ("regex", "text")
    ∷ ("timestamp", "timestamptz")
    ∷ ("undefined", "text")
    ∷ []

abbrev pub type_in : List (String × String) → Text → Text
type_in [] kind = codes "jsonb"
type_in ((k, t) ∷ rows) kind = if text_eq (codes k) kind then codes t else type_in rows kind

-- `mongoTypeToPgType`
unfoldable pub mongo_type_to_pg_type : Text → Text
mongo_type_to_pg_type kind = type_in type_map kind

abbrev one_of : List String → Text → Bool
one_of names kind = any (λ k. text_eq (codes k) kind) names

-- `pgTypeToMongoType`
unfoldable pub pg_type_to_mongo_type : Text → Text
pg_type_to_mongo_type pg_type =
    let kind = to_lower pg_type in
    if one_of ("integer" ∷ "smallint" ∷ "int2" ∷ "int4" ∷ "serial" ∷ "smallserial" ∷ []) kind
    then codes "int"
    else if one_of ("bigint" ∷ "int8" ∷ "bigserial" ∷ []) kind
    then codes "long"
    else if one_of ("numeric" ∷ "decimal" ∷ "real" ∷ "float4" ∷ "double precision" ∷ "float8" ∷ [])
        kind
    then codes "double"
    else if one_of ("boolean" ∷ "bool" ∷ []) kind
    then codes "bool"
    else if one_of
        ("timestamp" ∷ "timestamptz" ∷ "timestamp without time zone" ∷ "timestamp with time zone"
          ∷ "date" ∷ "time" ∷ "timetz" ∷ [])
        kind
    then codes "date"
    else if one_of ("uuid" ∷ []) kind
    then codes "string"
    else if one_of ("jsonb" ∷ "json" ∷ []) kind
    then codes "object"
    else if one_of ("bytea" ∷ []) kind
    then codes "binData"
    else if ends_with kind (codes "[]")
    then codes "array"
    else codes "string"

-- How many values have each type.
abbrev pub TypeCounts : Type 0
TypeCounts = List (Text × ℕ)

abbrev pub is_value : Text → Bool
is_value kind = not (text_eq kind (codes "null")) && not (text_eq kind (codes "undefined"))

-- The types that are not of missing values, the most frequent first.
unfoldable pub by_count : TypeCounts → TypeCounts
unfolding sort_by
by_count types = sort_by (λ a b. leb b.1 a.1) (filter (λ e. is_value e.0) types)

abbrev pub first_type : TypeCounts → Text
first_type [] = codes "string"
first_type (e ∷ types) = e.0

-- `resolveMajorityType`
unfoldable pub resolve_majority_type : TypeCounts → Text
resolve_majority_type types = first_type (by_count types)
