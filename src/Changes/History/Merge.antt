-- ===== src/Changes/History/Merge.antt =====
-- src/changes/history.ts: what is found in the merged map of changes.
use dbdock.Base.{
  Text, text_eq, text_eq_iff, ◌≡◌, refl, sym, ap, ◌∙◌, ◌⊎◌, Bool, true, false, ◌||◌, Option, none,
  some, List, [], ◌∷◌, any, find?, All, arith, Bool-cases, inl, inr, if◌then◌else◌,
}
use dbdock.Cloud.Dict.{Dict, lookup, insert, lookup-insert, IsObject, insert-IsObject}
use dbdock.Changes.Record.{ChangeRecord, LocalRecord}
use dbdock.Changes.History.{HistoryEntry, merge_local, known_change, merge_cloud}

-- The record of this id that was read last from the directory.
abbrev pub latest : Text → List LocalRecord → Option HistoryEntry → Option HistoryEntry
latest j [] found = found
latest j (r ∷ records) found = latest j records (
    if text_eq r.saved.id j then some (record { change = r.saved; in_cloud = r.synced }) else found)

abbrev pub is_listed : Text → List ChangeRecord → Bool
is_listed j records = any (λ r. text_eq r.id j) records

-- A change known here is shown as it is here; one known in the cloud only, as the cloud has it.
abbrev pub shown : Option HistoryEntry → Option ChangeRecord → Bool → Option HistoryEntry
shown none none listed = none
shown none (some r) listed = some (record { change = r; in_cloud = true })
shown (some e) r listed = some (record e { in_cloud = e.in_cloud || listed })

abbrev pub entry_of : Text → List LocalRecord → List ChangeRecord → Option HistoryEntry
entry_of j records listed =
    shown (latest j records none) (find? (λ r. text_eq r.id j) listed) (is_listed j listed)

pub lookup-merge_local :
    (j : Text) (records : List LocalRecord) (d : Dict HistoryEntry)
    → lookup j (merge_local records d) ≡ latest j records (lookup j d)
unfolding merge_local
lookup-merge_local j [] d = refl
lookup-merge_local j (r ∷ records) d =
    lookup-merge_local j records _ ∙ ap (latest j records) (lookup-insert j r.saved.id _ d)

shown-found :
    (o : Option HistoryEntry) (r : ChangeRecord) (f : Option ChangeRecord) (b : Bool)
    → shown (some (record { change = known_change o r; in_cloud = true })) f b
      ≡ shown o (some r) true
shown-found none r f b = refl
shown-found (some e) r f b = ground arith

shown-none : (o : Option HistoryEntry) → shown o none false ≡ o
shown-none none = refl
shown-none (some e) = ground arith

pub lookup-merge_cloud :
    (j : Text) (listed : List ChangeRecord) (d : Dict HistoryEntry)
    → lookup j (merge_cloud listed d)
      ≡ shown (lookup j d) (find? (λ r. text_eq r.id j) listed) (is_listed j listed)
unfolding merge_cloud
lookup-merge_cloud j [] d = sym (shown-none (lookup j d))
lookup-merge_cloud j (r ∷ listed) d =
    lookup-merge_cloud j listed _ ∙ by_id (Bool-cases (text_eq r.id j))
  where
    by_id :
        (text_eq r.id j ≡ true) ⊎ (text_eq r.id j ≡ false)
        → shown
            (lookup j
              (insert r.id (record { change = known_change (lookup r.id d) r; in_cloud = true }) d))
            (find? (λ r. text_eq r.id j) listed)
            (is_listed j listed)
          ≡ shown (lookup j d) (find? (λ r. text_eq r.id j) (r ∷ listed)) (is_listed j (r ∷ listed))
    by_id (inl same) =
        rw
          (lookup-insert j r.id
            (record { change = known_change (lookup r.id d) r; in_cloud = true }) d)
          (rw same (
            rw (sym ((text_eq_iff r.id j).0 same)) (
              shown-found (lookup r.id d) r (find? (λ r. text_eq r.id j) listed)
                (is_listed j listed))))
    by_id (inr other) =
        rw
          (lookup-insert j r.id
            (record { change = known_change (lookup r.id d) r; in_cloud = true }) d)
          (rw other refl)

-- Each entry stands under the id of its change, and no id stands twice.
abbrev pub IsIndexed : Dict HistoryEntry → Type 0
IsIndexed d = IsObject d × All (λ p. p.1.change.id ≡ p.0) d

insert-All :
    (k : Text) (e : HistoryEntry) (d : Dict HistoryEntry)
    → e.change.id ≡ k
    → All (λ p. p.1.change.id ≡ p.0) d
    → All (λ p. p.1.change.id ≡ p.0) (insert k e d)
unfolding insert
insert-All k e [] id h = (id, tt)
insert-All k e ((i, f) ∷ d) id h = elim (Bool-cases (text_eq i k)) [
  | inl same ↦ rw same (id ∙ sym ((text_eq_iff i k).0 same), h.1)
  | inr other ↦ rw other (h.0, insert-All k e d id h.1)
]

insert-IsIndexed :
    (k : Text) (e : HistoryEntry) (d : Dict HistoryEntry)
    → e.change.id ≡ k
    → IsIndexed d
    → IsIndexed (insert k e d)
insert-IsIndexed k e d id h = (insert-IsObject k e d h.0, insert-All k e d id h.1)

abbrev IsNamed : Text → Option HistoryEntry → Type 0
IsNamed j none = Unit
IsNamed j (some e) = e.change.id ≡ j

lookup-IsNamed :
    (j : Text) (d : Dict HistoryEntry) → All (λ p. p.1.change.id ≡ p.0) d → IsNamed j (lookup j d)
unfolding lookup
lookup-IsNamed j [] h = tt
lookup-IsNamed j ((i, e) ∷ d) h = elim (Bool-cases (text_eq i j)) [
  | inl same ↦ rw same (h.0 ∙ (text_eq_iff i j).0 same)
  | inr other ↦ rw other (lookup-IsNamed j d h.1)
]

known_change-id :
    (o : Option HistoryEntry) (r : ChangeRecord) → IsNamed r.id o → (known_change o r).id ≡ r.id
known_change-id none r h = refl
known_change-id (some e) r h = h

pub merge_local-IsIndexed :
    (records : List LocalRecord) (d : Dict HistoryEntry)
    → IsIndexed d
    → IsIndexed (merge_local records d)
unfolding merge_local
merge_local-IsIndexed [] d h = h
merge_local-IsIndexed (r ∷ records) d h =
    merge_local-IsIndexed records _ (insert-IsIndexed r.saved.id _ d refl h)

pub merge_cloud-IsIndexed :
    (listed : List ChangeRecord) (d : Dict HistoryEntry)
    → IsIndexed d
    → IsIndexed (merge_cloud listed d)
unfolding merge_cloud
merge_cloud-IsIndexed [] d h = h
merge_cloud-IsIndexed (r ∷ listed) d h =
    merge_cloud-IsIndexed listed _
      (insert-IsIndexed r.id _ d (known_change-id (lookup r.id d) r (lookup-IsNamed r.id d h.1)) h)
