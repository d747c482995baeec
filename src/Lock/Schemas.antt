-- ===== src/Lock/Schemas.antt =====
-- src/standalone/database-lock.ts: which schemas may be replaced, and the statements that empty one.
pub mod Laws
use dbdock.Base.{
  ℕ, leb, Text, String, codes, text_eq, starts_with, Bool, true, false, ◌&&◌, ◌||◌, not, Option,
  none, some, List, [], ◌∷◌, ◌++◌, map, filter, any, if◌then◌else◌,
}
use dbdock.Base.Sort.{sort_by}

-- `MANAGED_SCHEMAS`
abbrev pub managed_schemas : List Text
managed_schemas =
    codes "_analytics"
    ∷ codes "_realtime"
    ∷ codes "auth"
    ∷ codes "cron"
    ∷ codes "extensions"
    ∷ codes "graphql"
    ∷ codes "graphql_public"
    ∷ codes "information_schema"
    ∷ codes "net"
    ∷ codes "pgbouncer"
    ∷ codes "pgsodium"
    ∷ codes "pgsodium_masks"
    ∷ codes "realtime"
    ∷ codes "storage"
    ∷ codes "supabase_functions"
    ∷ codes "supabase_migrations"
    ∷ codes "vault"
    ∷ []

-- `names.includes(name)`
abbrev pub has_name : Text → List Text → Bool
has_name name names = any (λ n. text_eq n name) names

-- `isManagedSchema`
unfoldable pub is_managed_schema : Text → Bool
is_managed_schema name = has_name name managed_schemas || starts_with name (codes "pg_")

-- `refusedSchemas`
unfoldable pub refused_schemas : List Text → List Text → List Text → List Text
refused_schemas schemas existing restorable =
    filter
      (λ name. is_managed_schema name || (has_name name existing && not (has_name name restorable)))
      schemas

-- The filter of `restorableSchemas`, over the names that the query gives.
unfoldable pub restorable_of : List Text → List Text
restorable_of names = filter (λ name. not (is_managed_schema name)) names

-- The `targets` of `resetPostgres`.
unfoldable pub targets_of : Option (List Text) → List Text → List Text → List Text
targets_of none existing restorable = restorable
targets_of (some schemas) existing restorable = filter (λ name. has_name name existing) schemas

-- What the request may not replace; all that may be is asked for where it names nothing.
unfoldable pub refused_of : Option (List Text) → List Text → List Text → List Text
refused_of none existing restorable = []
refused_of (some schemas) existing restorable = refused_schemas schemas existing restorable

-- A row of `SCHEMA_OBJECTS_SQL`.
pub record DbObject : Type 0 where
  pub kind : Text
  pub identity : Text

pub record DropKeyword : Type 0 where
  pub keyword : Text
  pub order : ℕ

abbrev row : String → String → ℕ → Text × DropKeyword
row kind keyword order = (codes kind, record { keyword = codes keyword; order = order })

-- `DROP_KEYWORDS`
abbrev pub drop_keywords : List (Text × DropKeyword)
drop_keywords =
    row "table" "TABLE" 0
    ∷ row "foreign table" "FOREIGN TABLE" 0
    ∷ row "view" "VIEW" 0
    ∷ row "materialized view" "MATERIALIZED VIEW" 0
    ∷ row "sequence" "SEQUENCE" 1
    ∷ row "function" "FUNCTION" 2
    ∷ row "procedure" "PROCEDURE" 2
    ∷ row "aggregate" "AGGREGATE" 2
    ∷ row "statistics object" "STATISTICS" 2
    ∷ row "text search configuration" "TEXT SEARCH CONFIGURATION" 3
    ∷ row "text search dictionary" "TEXT SEARCH DICTIONARY" 3
    ∷ row "operator" "OPERATOR" 3
    ∷ row "operator class" "OPERATOR CLASS" 3
    ∷ row "operator family" "OPERATOR FAMILY" 3
    ∷ row "conversion" "CONVERSION" 3
    ∷ row "collation" "COLLATION" 4
    ∷ row "domain" "DOMAIN" 4
    ∷ row "type" "TYPE" 4
    ∷ []

-- `DROP_KEYWORDS[kind]`
unfoldable pub keyword_in : List (Text × DropKeyword) → Text → Option DropKeyword
keyword_in [] kind = none
keyword_in ((k, word) ∷ rows) kind = if text_eq k kind then some word else keyword_in rows kind

abbrev pub is_known : DbObject → Bool
is_known o = elim (keyword_in drop_keywords o.kind) [ none ↦ false | some word ↦ true ]

abbrev pub order_of : DbObject → ℕ
order_of o = elim (keyword_in drop_keywords o.kind) [ none ↦ 0 | some word ↦ word.order ]

abbrev word_of : DbObject → Text
word_of o = elim (keyword_in drop_keywords o.kind) [ none ↦ [] | some word ↦ word.keyword ]

-- One `DROP` statement.
unfoldable pub drop_statement : DbObject → Text
drop_statement o =
    codes "DROP " ++ (word_of o ++ (codes " IF EXISTS " ++ (o.identity ++ codes " CASCADE")))

-- Sorted by the order in which to drop.
unfoldable pub drop_order : List DbObject → List DbObject
drop_order objects = sort_by (λ a b. leb (order_of a) (order_of b)) objects

-- `emptySchemaStatements`: the statements, or the objects it does not know how to remove.
pub data Emptying : Type 0 where
  statements : List Text → Emptying
  unknown_objects : List DbObject → Emptying

abbrev emptying : List DbObject → List DbObject → Emptying
emptying [] objects = statements (map drop_statement (drop_order objects))
emptying (o ∷ os) objects = unknown_objects (o ∷ os)

unfoldable pub empty_schema_statements : List DbObject → Emptying
empty_schema_statements objects = emptying (filter (λ o. not (is_known o)) objects) objects
