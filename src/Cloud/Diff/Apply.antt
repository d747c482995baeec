-- ===== src/Cloud/Diff/Apply.antt =====
-- src/cloud/diff.ts: applied to the base, the changes give the hashes of the snapshot.
use dbdock.Base.{
  ℕ, Text, text_eq, text_eq_iff, ◌≡◌, refl, ap, sym, ◌∙◌, Bool, true, false, ◌&&◌, ◌||◌, not,
  Option, none, some, List, [], ◌∷◌, ◌++◌, any, All, arith, ◌==◌, ==_iff, if◌then◌else◌, Bool-cases,
  inl, inr,
}
use dbdock.Cloud.Types.{SyncChange, upsert, delete}
use dbdock.Cloud.Dict.{
  Dict, lookup, insert, remove, keys, has_key, IsObject, lookup-insert, lookup-remove,
  lookup-absent, has_key-lookup,
}
use dbdock.Cloud.Diff.{
  SnapshotEntry, split_colon, split_before, parse_key, or_unknown, same_hash, upsert_of, upserts,
  deletes, diff_snapshot,
}

-- `resource:id`, as the collectors make a key.
abbrev pub join_key : Text → Text → Text
join_key resource id = resource ++ b':' ∷ id

-- A key with a colon.
abbrev pub has_colon : Text → Bool
has_colon key = any (λ c. c == b':') key

-- The parts of a key, where there are any, join to it.
abbrev Rejoins : Option (Text × Text) → Text → Type 0
Rejoins none key = has_colon key ≡ false
Rejoins (some parts) key = join_key parts.0 parts.1 ≡ key

Rejoins-split_before :
    (c : ℕ) (key : Text) (o : Option (Text × Text))
    → Rejoins o key
    → Rejoins (split_before c key o) (c ∷ key)
Rejoins-split_before c key none h = elim (Bool-cases (c == b':')) [
  | inl colon ↦ rw colon (ap (λ d. d ∷ key) (sym ((==_iff c b':').0 colon)))
  | inr off ↦ rw off (rw off h)
]
Rejoins-split_before c key (some parts) h = elim (Bool-cases (c == b':')) [
  | inl colon ↦ rw colon (ap (λ d. d ∷ key) (sym ((==_iff c b':').0 colon)))
  | inr off ↦ rw off (ap (λ k. c ∷ k) h)
]

Rejoins-split_colon : (key : Text) → Rejoins (split_colon key) key
unfolding split_colon
Rejoins-split_colon [] = refl
Rejoins-split_colon (c ∷ key) =
    Rejoins-split_before c key (split_colon key) (Rejoins-split_colon key)

join-or_unknown :
    (key : Text) (o : Option (Text × Text))
    → has_colon key ≡ true
    → Rejoins o key
    → join_key (or_unknown key o).0 (or_unknown key o).1 ≡ key
join-or_unknown key none colon h = absurd (true_false (sym colon ∙ h))
  where
    true_false : true ≡ false → ⊥
    true_false t = ground arith
join-or_unknown key (some parts) colon h = h

-- The resource and the id of a key with a colon join to the key.
pub join-parse_key :
    (key : Text) → has_colon key ≡ true → join_key (parse_key key).0 (parse_key key).1 ≡ key
unfolding parse_key
join-parse_key key colon = join-or_unknown key (split_colon key) colon (Rejoins-split_colon key)

-- What the server is to do with a change: keys are made of the resource and the id.
abbrev pub write_hash : Text → Option Text → Dict Text → Dict Text
write_hash key none d = d
write_hash key (some hash) d = insert key hash d

abbrev found : {A : Type 0} → Option A → Bool
found none = false
found (some a) = true

module _ {Data : Type 0} where
  abbrev pub apply_change : Dict Text → SyncChange Data → Dict Text
  apply_change d change = elim change.op [
    | upsert ↦ write_hash (join_key change.resource change.local_id) change.hash d
    | delete ↦ remove (join_key change.resource change.local_id) d
  ]

  abbrev pub apply_changes : Dict Text → List (SyncChange Data) → Dict Text
  apply_changes d [] = d
  apply_changes d (change ∷ changes) = apply_changes (apply_change d change) changes

  apply_changes-append :
      (d : Dict Text) (a b : List (SyncChange Data))
      → apply_changes d (a ++ b) ≡ apply_changes (apply_changes d a) b
  apply_changes-append d [] b = refl
  apply_changes-append d (c ∷ a) b = apply_changes-append (apply_change d c) a b

  -- The hash of a snapshot's entry.
  abbrev pub hash_of : Option (SnapshotEntry Data) → Option Text
  hash_of none = none
  hash_of (some entry) = some entry.hash

  -- After the upserts, a key of the snapshot has its hash, and another what it had.
  abbrev upserted : Option Text → Option (SnapshotEntry Data) → Option Text → Option Text
  upserted was none old = old
  upserted was (some entry) old = if same_hash was entry.hash then old else some entry.hash

  -- The hash of the base where it is that of the entry, and no hash where both lack the key.
  hash-upserted :
      (o : Option (SnapshotEntry Data)) (was : Option Text)
      → (if found was && not (found o) then none else upserted was o was) ≡ hash_of o
  hash-upserted none none = refl
  hash-upserted none (some old) = refl
  hash-upserted (some entry) none = refl
  hash-upserted (some entry) (some old) = elim (Bool-cases (text_eq old entry.hash)) [
    | inl same ↦ rw same (ap some ((text_eq_iff old entry.hash).0 same))
    | inr other ↦ rw other refl
  ]

  apply-upsert_of :
      (k : Text) (entry : SnapshotEntry Data) (d : Dict Text)
      → has_colon k ≡ true
      → apply_change d (upsert_of k entry) ≡ insert k entry.hash d
  apply-upsert_of k entry d colon = ap (λ j. insert j entry.hash d) (join-parse_key k colon)

  module _ (key k : Text) (base : Dict Text) (entry : SnapshotEntry Data)
      (resources : Dict (SnapshotEntry Data)) (once : has_key k resources ≡ false) where
    -- The entry of `k` at the front, where its hash is that of the base, and where it is another.
    upserted-old :
        (old : Option Text)
        → same_hash (lookup k base) entry.hash ≡ true
        → upserted (lookup key base) (lookup key resources) old
          ≡ upserted
              (lookup key base)
              (if text_eq k key then some entry else lookup key resources)
              old
    upserted-old old same = elim (Bool-cases (text_eq k key)) [
      | inr off ↦ rw off refl
      | inl here ↦
          let p = (text_eq_iff k key).0 here in
          let gone : lookup key resources ≡ none =
            lookup-absent key resources (ap (λ j. has_key j resources) (sym p) ∙ once) in
          let same' : same_hash (lookup key base) entry.hash ≡ true =
            ap (λ j. same_hash (lookup j base) entry.hash) (sym p) ∙ same in
          rw (here, gone, same') refl
    ]

    upserted-new :
        (old : Option Text)
        → same_hash (lookup k base) entry.hash ≡ false
        → upserted
            (lookup key base)
            (lookup key resources)
            (if text_eq k key then some entry.hash else old)
          ≡ upserted
              (lookup key base)
              (if text_eq k key then some entry else lookup key resources)
              old
    upserted-new old other = elim (Bool-cases (text_eq k key)) [
      | inr off ↦ rw off refl
      | inl here ↦
          let p = (text_eq_iff k key).0 here in
          let gone : lookup key resources ≡ none =
            lookup-absent key resources (ap (λ j. has_key j resources) (sym p) ∙ once) in
          let other' : same_hash (lookup key base) entry.hash ≡ false =
            ap (λ j. same_hash (lookup j base) entry.hash) (sym p) ∙ other in
          rw (here, gone, other') refl
    ]

  lookup-upserts :
      (key : Text) (base : Dict Text) (resources : Dict (SnapshotEntry Data)) (d : Dict Text)
      → All (λ k. has_colon k ≡ true) (keys resources)
      → IsObject resources
      → lookup key (apply_changes d (upserts base resources))
        ≡ upserted (lookup key base) (lookup key resources) (lookup key d)
  unfolding upserts lookup
  lookup-upserts key base [] d c o = refl
  lookup-upserts key base ((k, entry) ∷ resources) d c o =
      elim (Bool-cases (same_hash (lookup k base) entry.hash)) [
        | inl old ↦ rw old (
            lookup-upserts key base resources d c.1 o.1
            ∙ upserted-old key k base entry resources o.0 (lookup key d) old)
        | inr new ↦ rw new (
            ap (λ e. lookup key (apply_changes e (upserts base resources)))
              (apply-upsert_of k entry d c.0)
            ∙ lookup-upserts key base resources (insert k entry.hash d) c.1 o.1
            ∙ ap (upserted (lookup key base) (lookup key resources))
                (lookup-insert key k entry.hash d)
            ∙ upserted-new key k base entry resources o.0 (lookup key d) new)
      ]

  module _ (key k : Text) (resources : Dict (SnapshotEntry Data)) (more : Bool)
      (old : Option Text) where
    kept-present :
        has_key k resources ≡ true
        → (if more && not (has_key key resources) then none else old)
          ≡ (if (text_eq k key || more) && not (has_key key resources) then none else old)
    kept-present on = elim (Bool-cases (text_eq k key)) [
      | inr off ↦ rw off refl
      | inl here ↦
          let on' : has_key key resources ≡ true =
            ap (λ j. has_key j resources) (sym ((text_eq_iff k key).0 here)) ∙ on in
          ground arith
    ]

    dropped-absent :
        has_key k resources ≡ false
        → (if more && not (has_key key resources)
            then none
            else (if text_eq k key then none else old))
          ≡ (if (text_eq k key || more) && not (has_key key resources) then none else old)
    dropped-absent off = elim (Bool-cases (text_eq k key)) [
      | inr apart ↦ rw apart refl
      | inl here ↦
          let off' : has_key key resources ≡ false =
            ap (λ j. has_key j resources) (sym ((text_eq_iff k key).0 here)) ∙ off in
          ground arith
    ]

  lookup-deletes :
      (key : Text) (ks : List Text) (resources : Dict (SnapshotEntry Data)) (d : Dict Text)
      → All (λ k. has_colon k ≡ true) ks
      → lookup key (apply_changes d (deletes ks resources)) ≡ (
          if any (λ k. text_eq k key) ks && not (has_key key resources) then none else lookup key d)
  unfolding deletes
  lookup-deletes key [] resources d c = refl
  lookup-deletes key (k ∷ ks) resources d c = elim (Bool-cases (has_key k resources)) [
    | inl on ↦
        rw on
          (lookup-deletes key ks resources d c.1 ∙ kept-present key k resources _ (lookup key d) on)
    | inr off ↦ rw off (
        ap (λ j. lookup key (apply_changes (remove j d) (deletes ks resources)))
          (join-parse_key k c.0)
        ∙ lookup-deletes key ks resources (remove k d) c.1
        ∙ rw (lookup-remove key k d) (dropped-absent key k resources _ (lookup key d) off))
  ]

  -- Applied in order to the hashes last synchronised, the changes make them those of the snapshot,
  -- at every key: what is new or changed is set, what is gone is removed, and the rest is as it
  -- was. The keys of both sides have a colon, and the snapshot has none twice.
  pub lookup-diff_snapshot :
      (base : Dict Text) (resources : Dict (SnapshotEntry Data)) (key : Text)
      → All (λ k. has_colon k ≡ true) (keys base)
      → All (λ k. has_colon k ≡ true) (keys resources)
      → IsObject resources
      → lookup key (apply_changes base (diff_snapshot base resources))
        ≡ hash_of (lookup key resources)
  unfolding diff_snapshot
  lookup-diff_snapshot base resources key b c o =
      ap (lookup key)
        (apply_changes-append base (upserts base resources) (deletes (keys base) resources))
      ∙ lookup-deletes key (keys base) resources _ b
      ∙ rw
          (
            lookup-upserts key base resources base c o,
            has_key-lookup key base,
            has_key-lookup key resources,
          )
          (hash-upserted (lookup key resources) (lookup key base))
