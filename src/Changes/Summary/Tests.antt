-- ===== src/Changes/Summary/Tests.antt =====
-- src/changes/metadata.ts and src/changes/schema-summary.ts at concrete texts.
use dbdock.Base.{◌≡◌, refl, codes, some, [], ◌∷◌}
use dbdock.Cloud.Dict.{lookup}
use dbdock.Changes.Summary.{
  SchemaSnapshot, changes_of, changes_text, decimal_from, schema_summary, sql_summary, has_word,
  strip, safe_label,
}

abbrev before : SchemaSnapshot
before = record { tables = codes "a" ∷ []; columns = (codes "a.id", codes "int") ∷ [] }

abbrev after : SchemaSnapshot
after = record {
  tables = codes "a" ∷ codes "b" ∷ codes "c" ∷ [];
  columns = (codes "a.id", codes "text") ∷ (codes "b.id", codes "int") ∷ [];
}

schema_test :
    schema_summary before after
    ≡ some (
        codes
          "Schema changes: 2 tables added, 0 tables removed, 1 column added, 0 columns removed, 1 column changed")
unfolding schema_summary changes_of changes_text decimal_from lookup
schema_test = refl

sql_test :
    sql_summary (codes "drop table dropped; insert into t") ≡ codes "SQL operations: DROP, INSERT"
unfolding sql_summary has_word strip
sql_test = refl

label_test : safe_label (some (codes "My_Password")) (codes "Person") ≡ codes "Person"
unfolding safe_label
label_test = refl
