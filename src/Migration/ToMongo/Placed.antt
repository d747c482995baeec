-- ===== src/Migration/ToMongo/Placed.antt =====
-- src/migration/mappers/postgres-to-mongo.mapper.ts: what is placed in a document stays there.
use dbdock.Base.{
  ltb, leb, ◌==◌, length, text_eq, text_eq_refl, ◌≡◌, Bool, true, false, ◌&&◌, ◌||◌, Option, none,
  some, List, [], ◌∷◌, any, any-append, arith, Bool-cases, inl, inr, if◌then◌else◌,
}
use dbdock.Migration.Types.{PgTable, EmbedConfig, RefConfig}
use dbdock.Migration.ToMongo.{
  TableRelationship, embed_threshold, plain_columns, Parts, push_embedding, push_reference,
  handle_many_to_many, place_junction, place_child,
}

-- The relationship stands among the embedded documents or the references.
abbrev pub is_placed : TableRelationship → List EmbedConfig → List RefConfig → Bool
is_placed rel embeddings references =
    any (λ e. text_eq e.source_table rel.from_table && text_eq e.foreign_key rel.from_column)
      embeddings
    || any (λ r. text_eq r.source_table rel.from_table && text_eq r.foreign_key rel.from_column)
        references

abbrev pub in_parts : TableRelationship → Parts → Bool
in_parts rel parts = is_placed rel parts.embeddings parts.references

-- What is placed stays placed.
abbrev pub Grows : Parts → Parts → Type 0
Grows p q = (rel : TableRelationship) → in_parts rel p ≡ true → in_parts rel q ≡ true

push_embedding-Grows : (e : EmbedConfig) (p : Parts) → Grows p (push_embedding e p)
push_embedding-Grows e p rel h =
    rw
      (any-append
        (λ e. text_eq e.source_table rel.from_table && text_eq e.foreign_key rel.from_column)
        p.embeddings (e ∷ []))
      (ground arith)

push_reference-Grows : (r : RefConfig) (p : Parts) → Grows p (push_reference r p)
push_reference-Grows r p rel h =
    rw
      (any-append
        (λ e. text_eq e.source_table rel.from_table && text_eq e.foreign_key rel.from_column)
        p.references (r ∷ []))
      (ground arith)

by_test : (b : Bool) (p q r : Parts) → Grows p q → Grows p r → Grows p (if b then q else r)
by_test true p q r h k = h
by_test false p q r h k = k

handle_many_to_many-Grows :
    (parent junction : PgTable) (other : Option PgTable) (p : Parts)
    → Grows p (handle_many_to_many parent junction other p)
unfolding handle_many_to_many
handle_many_to_many-Grows parent junction none p rel h = h
handle_many_to_many-Grows parent junction (some other) p rel h =
    by_test (length (plain_columns junction) == 0 && leb (length other.columns) 3) p _ _ (λ r k. k)
      (push_embedding-Grows _ p) rel h

pub place_junction-Grows :
    (tables : List PgTable) (parent : PgTable) (o : Option PgTable) (p : Parts)
    → Grows p (place_junction tables parent o p)
place_junction-Grows tables parent none p rel h = h
place_junction-Grows tables parent (some junction) p rel h =
    handle_many_to_many-Grows parent junction _ p rel h

pub place_child-Grows :
    (parent : PgTable) (rel : TableRelationship) (o : Option PgTable) (p : Parts)
    → Grows p (place_child parent rel o p)
place_child-Grows parent rel none p other h = h
place_child-Grows parent rel (some child) p other h =
    by_test (rel.one_to_one || ltb child.row_count embed_threshold) p _ _ (push_embedding-Grows _ p)
      (push_reference-Grows _ p) other h

pub place_child-placed :
    (parent : PgTable) (rel : TableRelationship) (child : PgTable) (p : Parts)
    → in_parts rel (place_child parent rel (some child) p) ≡ true
place_child-placed parent rel child p =
    elim (Bool-cases (rel.one_to_one || ltb child.row_count embed_threshold)) [
      | inl embed ↦ rw embed (
          rw
            (any-append
              (λ e. text_eq e.source_table rel.from_table && text_eq e.foreign_key rel.from_column)
              p.embeddings _)
            (ground (arith, text_eq_refl rel.from_table, text_eq_refl rel.from_column)))
      | inr refer ↦ rw refer (
          rw
            (any-append
              (λ r. text_eq r.source_table rel.from_table && text_eq r.foreign_key rel.from_column)
              p.references _)
            (ground (arith, text_eq_refl rel.from_table, text_eq_refl rel.from_column)))
    ]
