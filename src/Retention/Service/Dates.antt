-- ===== src/Retention/Service/Dates.antt =====
-- src/wal/retention.service.ts: the sort of backups by start time, against one that cannot fail.
use dbdock.Base.{
  ◌≡◌, ◌≤◌, refl, ◌∙◌, Bool, true, false, ◌&&◌, none, some, List, [], ◌∷◌, length, all, ap, arith,
  Bool-cases, inl, inr,
}
use dbdock.Base.Sort.{insert, sort_by}
use dbdock.Retention.Service.{BackupMetadata, is_date, newer, insert_dated, sort_by_date}

abbrev all_dated : List BackupMetadata → Bool
all_dated backups = all (λ b. is_date b.start_time) backups

all-insert :
    (x : BackupMetadata) (xs : List BackupMetadata)
    → all_dated (insert newer x xs) ≡ (is_date x.start_time && all_dated xs)
unfolding insert
all-insert x [] = refl
all-insert x (y ∷ ys) = ground (arith, all-insert x ys)

all-sort_by : (xs : List BackupMetadata) → all_dated (sort_by newer xs) ≡ all_dated xs
unfolding sort_by
all-sort_by [] = refl
all-sort_by (x ∷ xs) =
    all-insert x (sort_by newer xs) ∙ ap (λ b. is_date x.start_time && b) (all-sort_by xs)

insert_dated-insert :
    (x : BackupMetadata) (xs : List BackupMetadata)
    → is_date x.start_time ≡ true
    → all_dated xs ≡ true
    → insert_dated x xs ≡ some (insert newer x xs)
unfolding insert_dated insert
insert_dated-insert x [] h k = refl
insert_dated-insert x (y ∷ ys) h k =
    let first : is_date y.start_time ≡ true = ground arith in
    elim (Bool-cases (newer x y)) [
      | inl before ↦ rw (h, first, before) refl
      | inr behind ↦ rw (h, first, behind, insert_dated-insert x ys h (ground arith)) refl
    ]

-- A text that is inserted into a list of one or more fails in the first comparison.
insert_dated-text :
    (x y : BackupMetadata) (ys : List BackupMetadata)
    → is_date x.start_time ≡ false
    → insert_dated x (insert newer y ys) ≡ none
unfolding insert_dated insert
insert_dated-text x y [] h = rw h refl
insert_dated-text x y (z ∷ zs) h = elim (Bool-cases (newer y z)) [
  | inl before ↦ rw (before, h) refl
  | inr behind ↦ rw (behind, h) refl
]

-- Dates sort as they do where nothing fails.
sort_by_date-dates :
    (backups : List BackupMetadata)
    → all_dated backups ≡ true
    → sort_by_date backups ≡ some (sort_by newer backups)
unfolding sort_by_date sort_by
sort_by_date-dates [] h = refl
sort_by_date-dates (x ∷ xs) h =
    rw (sort_by_date-dates xs (ground arith))
      (insert_dated-insert x (sort_by newer xs) (ground arith) (all-sort_by xs ∙ ground arith))

-- Two or more, one of them with a text, do not sort.
pub sort_by_date-text :
    (backups : List BackupMetadata)
    → 2 ≤ length backups
    → all_dated backups ≡ false
    → sort_by_date backups ≡ none
unfolding sort_by_date sort_by insert_dated
sort_by_date-text [] h t = absurd (ground arith)
sort_by_date-text (x ∷ []) h t = absurd (ground arith)
sort_by_date-text (x ∷ y ∷ []) h t =
    let bad : (is_date x.start_time && is_date y.start_time) ≡ false = ground arith in rw bad refl
sort_by_date-text (x ∷ y ∷ z ∷ zs) h t = elim (Bool-cases (all_dated (y ∷ z ∷ zs))) [
  | inl dates ↦
      rw (sort_by_date-dates (y ∷ z ∷ zs) dates)
        (insert_dated-text x y (sort_by newer (z ∷ zs)) (ground arith))
  | inr text ↦ rw (sort_by_date-text (y ∷ z ∷ zs) (ground arith) text) refl
]
