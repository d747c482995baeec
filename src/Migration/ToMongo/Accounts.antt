-- ===== src/Migration/ToMongo/Accounts.antt =====
-- src/migration/mappers/postgres-to-mongo.mapper.ts: which relationships reach the documents.
use dbdock.Base.{
  Text, text_eq, text_eq_refl, ◌≡◌, refl, ap, Bool, true, false, ◌||◌, not, some, List, [], ◌∷◌,
  map, filter, find?, any, All, All-append, All-mono, All-filter, arith, Bool-cases, inl, inr,
  if◌then◌else◌,
}
use dbdock.Migration.Types.{PgForeignKey, PgTable, DocumentMapping}
use dbdock.Migration.ToMongo.{
  TableRelationship, relationship_of, detect_relationships, detect_junction_tables, has_name, Parts,
  place_relationship, place_relationships, parts_of, map_table_to_document, is_top,
  generate_postgres_to_mongo_plan,
}
use dbdock.Migration.ToMongo.Placed.{
  is_placed, in_parts, Grows, place_junction-Grows, place_child-Grows, place_child-placed,
}

-- The table that a relationship comes from is one of the analysis.
abbrev IsFrom : List PgTable → TableRelationship → Type 0
IsFrom tables rel = any (λ t. text_eq t.name rel.from_table) tables ≡ true

find?-any :
    (p : PgTable → Bool) (tables : List PgTable)
    → any p tables ≡ true
    → (t : PgTable) × (find? p tables ≡ some t)
find?-any p [] h = cc
find?-any p (t ∷ tables) h = elim (Bool-cases (p t)) [
  | inl found ↦ (t, rw found refl)
  | inr other ↦ let (u, e) = find?-any p tables (ground arith) in (u, rw other e)
]

any-cons :
    (name : Text) (t : PgTable) (tables : List PgTable)
    → any (λ u. text_eq u.name name) tables ≡ true
    → any (λ u. text_eq u.name name) (t ∷ tables) ≡ true
any-cons name t tables h = ground arith

IsFrom-own :
    (t : PgTable) (tables : List PgTable) (fks : List PgForeignKey)
    → All (IsFrom (t ∷ tables)) (map (relationship_of t) fks)
IsFrom-own t tables [] = tt
IsFrom-own t tables (fk ∷ fks) = (rw (text_eq_refl t.name) refl, IsFrom-own t tables fks)

detect_relationships-IsFrom :
    (tables : List PgTable) → All (IsFrom tables) (detect_relationships tables)
unfolding detect_relationships
detect_relationships-IsFrom [] = tt
detect_relationships-IsFrom (t ∷ tables) = All-append _ _ _ (IsFrom-own t tables t.foreign_keys) (
    All-mono _ _ _ (λ rel h. any-cons rel.from_table t tables h)
      (detect_relationships-IsFrom tables))

module _ (tables : List PgTable) (parent : PgTable) where
  place_relationship-Grows :
      (rel : TableRelationship) (p : Parts) → Grows p (place_relationship tables parent rel p)
  unfolding place_relationship
  place_relationship-Grows rel p other h =
      elim (Bool-cases (has_name rel.from_table (detect_junction_tables tables))) [
        | inl many ↦ rw many (place_junction-Grows tables parent _ p other h)
        | inr plain ↦ rw plain (place_child-Grows parent rel _ p other h)
      ]

  place_relationships-Grows :
      (rels : List TableRelationship) (p : Parts)
      → Grows p (place_relationships tables parent rels p)
  unfolding place_relationships
  place_relationships-Grows [] p other h = h
  place_relationships-Grows (rel ∷ rels) p other h =
      place_relationships-Grows rels _ other (place_relationship-Grows rel p other h)

  place_relationship-placed :
      (rel : TableRelationship) (p : Parts)
      → IsFrom tables rel
      → (has_name rel.from_table (detect_junction_tables tables)
          || in_parts rel (place_relationship tables parent rel p))
        ≡ true
  unfolding place_relationship
  place_relationship-placed rel p from =
      elim (Bool-cases (has_name rel.from_table (detect_junction_tables tables))) [
        | inl many ↦ rw many refl
        | inr plain ↦
            let (child, e) = find?-any (λ t. text_eq t.name rel.from_table) tables from in
            rw plain (rw e (place_child-placed parent rel child p))
      ]

  or_mono : (a b c : Bool) → (b ≡ true → c ≡ true) → (a || b) ≡ true → (a || c) ≡ true
  or_mono true b c f h = refl
  or_mono false b c f h = f h

  place_relationships-placed :
      (rels : List TableRelationship) (p : Parts)
      → All (IsFrom tables) rels
      → All
          (λ rel.
            (has_name rel.from_table (detect_junction_tables tables)
              || in_parts rel (place_relationships tables parent rels p))
            ≡ true)
          rels
  unfolding place_relationships
  place_relationships-placed [] p from = tt
  place_relationships-placed (rel ∷ rels) p from = (
    or_mono _ _ _ (place_relationships-Grows rels _ rel) (place_relationship-placed rel p from.0),
    place_relationships-placed rels _ from.1,
  )

-- A relationship comes from a junction table, goes to another table, or is placed in the document.
abbrev pub is_accounted : List PgTable → DocumentMapping → TableRelationship → Bool
is_accounted tables m rel =
    not (text_eq rel.to_table m.primary_table)
    || (has_name rel.from_table (detect_junction_tables tables)
        || is_placed rel m.embeddings m.references)

All-filter_split :
    (r : TableRelationship → Bool) (x : TableRelationship) (kept : List TableRelationship)
    (b : Bool)
    → All (λ y. r y ≡ true) (if b then x ∷ kept else kept)
    → ((not b || r x) ≡ true) × All (λ y. r y ≡ true) kept
All-filter_split r x kept true h = h
All-filter_split r x kept false h = (refl, h)

All-filtered :
    (q r : TableRelationship → Bool) (rels : List TableRelationship)
    → All (λ x. r x ≡ true) (filter q rels)
    → All (λ x. (not (q x) || r x) ≡ true) rels
All-filtered q r [] h = tt
All-filtered q r (x ∷ rels) h =
    let (first, rest) = All-filter_split r x (filter q rels) (q x) h in
    (first, All-filtered q r rels rest)

module _ (tables : List PgTable) where
  map_table_to_document-accounts :
      (table : PgTable)
      → All
          (λ rel. is_accounted tables (map_table_to_document tables table) rel ≡ true)
          (detect_relationships tables)
  unfolding map_table_to_document parts_of
  map_table_to_document-accounts table =
      All-filtered (λ r. text_eq r.to_table table.name) _ (detect_relationships tables)
        (place_relationships-placed tables table _ _ (
          All-filter _ (λ r. text_eq r.to_table table.name) _ (detect_relationships-IsFrom tables)))

  Accounts-each :
      (kept : List PgTable)
      → All
          (λ m. All (λ rel. is_accounted tables m rel ≡ true) (detect_relationships tables))
          (map (map_table_to_document tables) kept)
  Accounts-each [] = tt
  Accounts-each (t ∷ kept) = (map_table_to_document-accounts t, Accounts-each kept)

  primary_tables :
      (kept : List PgTable)
      → map (λ m. m.primary_table) (map (map_table_to_document tables) kept)
        ≡ map (λ t. t.name) kept
  unfolding map_table_to_document
  primary_tables [] = refl
  primary_tables (t ∷ kept) = ap (λ ts. t.name ∷ ts) (primary_tables kept)

  -- The plan's documents are those of the tables that are neither junctions nor have a foreign key
  -- of their own, in their order. Each embeds or refers to, by the column of the foreign key, every
  -- table that has a foreign key to it and is no junction: a relationship that is in no document
  -- comes from a junction or goes to a table without one.
  pub generate_postgres_to_mongo_plan-accounts :
      (map (λ m. m.primary_table) (generate_postgres_to_mongo_plan tables)
        ≡ map (λ t. t.name) (filter (is_top tables) tables))
      × All
          (λ m. All (λ rel. is_accounted tables m rel ≡ true) (detect_relationships tables))
          (generate_postgres_to_mongo_plan tables)
  unfolding generate_postgres_to_mongo_plan
  generate_postgres_to_mongo_plan-accounts = (primary_tables _, Accounts-each _)
