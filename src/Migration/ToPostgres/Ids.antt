-- ===== src/Migration/ToPostgres/Ids.antt =====
-- src/migration/mappers/mongo-to-postgres.mapper.ts: whether a column takes `_id`.
use dbdock.Base.{
  ℕ, ltb, Text, codes, text_eq, ◌≡◌, refl, sym, ap, ◌∙◌, Bool, true, false, ◌&&◌, ◌||◌, not, List,
  [], ◌∷◌, any, any-append, All, arith, Bool-cases, inl, inr, if◌then◌else◌,
}
use dbdock.Migration.Types.{
  FieldInfo, MongoField, field, infos, info, FieldMapping, MigrationConflict,
}
use dbdock.Migration.ToPostgres.{is_id}
use dbdock.Migration.Fields.{
  Lists, id_field, is_consistent, note_types, note_missing, handle_nested_object, handle_array,
  place_field, push_field, push_conflict, process_field, process_fields,
}
use dbdock.Migration.ToPostgres.Sources.{is_named_id}

-- Whether a column takes `_id`.
abbrev pub has_id : Lists → Bool
has_id l = any is_id l.fields

has_id-push_field : (f : FieldMapping) (l : Lists) → has_id (push_field f l) ≡ (has_id l || is_id f)
has_id-push_field f l =
    any-append is_id l.fields (f ∷ []) ∙ ap (λ b. has_id l || b) (or_false (is_id f))
  where
    or_false : (b : Bool) → (b || false) ≡ b
    or_false true = refl
    or_false false = refl

pub or_known : (a b : Bool) → b ≡ false → (a || b) ≡ a
or_known a b h = ground arith

or_assoc : (a b c : Bool) → ((a || b) || c) ≡ (a || (b || c))
or_assoc true b c = refl
or_assoc false b c = refl

has_id-push_conflict :
    (c : MigrationConflict) (l : Lists) (p : Bool)
    → has_id (if p then push_conflict c l else l) ≡ has_id l
has_id-push_conflict c l true = refl
has_id-push_conflict c l false = refl

has_id-noted :
    (f : FieldInfo) (collection : Text) (l : Lists)
    → has_id (note_missing f collection (note_types f collection l)) ≡ has_id l
has_id-noted f collection l =
    has_id-push_conflict _ (note_types f collection l) _ ∙ has_id-push_conflict _ l _

has_id-place_field :
    (f : FieldInfo) (nested : List FieldInfo) (table : Text) (depth : ℕ) (l : Lists)
    → text_eq f.path (codes "_id") ≡ false
    → has_id (place_field f nested table depth l) ≡ has_id l
unfolding place_field handle_nested_object handle_array
has_id-place_field f nested table depth l h =
    elim (Bool-cases (f.is_nested_object && not f.is_array)) [
      | inl object ↦ rw object (elim (Bool-cases (is_consistent nested && ltb f.depth depth)) [
        | inl own ↦ rw own refl
        | inr column ↦ rw column (has_id-push_field _ l ∙ or_known (has_id l) _ h)
      ])
      | inr other ↦ rw other (elim (Bool-cases f.is_array) [
        | inl array ↦ rw array refl
        | inr plain ↦ rw plain (has_id-push_field _ l ∙ or_known (has_id l) _ h)
      ])
    ]

-- The path of a field at the top of a document is its name.
abbrev pub IsTop : MongoField → Type 0
IsTop f = (info f).path ≡ (info f).name

has_id-process_field :
    (f : MongoField) (table collection : Text) (depth : ℕ) (l : Lists)
    → IsTop f
    → has_id (process_field f table collection depth l) ≡ (has_id l || is_named_id f)
unfolding process_field
has_id-process_field (field f nested) table collection depth l top =
    elim (Bool-cases (text_eq f.name (codes "_id"))) [
      | inl id ↦ rw id (has_id-push_field id_field l)
      | inr other ↦ rw other (
          has_id-place_field f (infos nested) table depth _
            (ap (λ p. text_eq p (codes "_id")) top ∙ other)
          ∙ has_id-noted f collection l
          ∙ sym (or_known (has_id l) false refl))
    ]

pub has_id-process_fields :
    (fields : List MongoField) (table collection : Text) (depth : ℕ) (l : Lists)
    → All IsTop fields
    → has_id (process_fields fields table collection depth l) ≡ (has_id l || any is_named_id fields)
unfolding process_fields
has_id-process_fields [] table collection depth l top = sym (or_known (has_id l) false refl)
has_id-process_fields (f ∷ fields) table collection depth l top =
    has_id-process_fields fields table collection depth _ top.1
    ∙ ap (λ b. b || any is_named_id fields) (has_id-process_field f table collection depth l top.0)
    ∙ or_assoc (has_id l) (is_named_id f) (any is_named_id fields)
