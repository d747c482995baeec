-- ===== src/Retention/Cli/Marked.antt =====
-- Which backups src/cli/utils/retention.ts marks for deletion.
use mathlib.Core.Path.{ap₂}
use mathlib.Core.List.{Perm}
use mathlib.Core.List.Perm
use dbdock.Base.{
  ℕ, suc, ◌≤◌, ◌<◌, ◌≡◌, refl, sym, codes, includes, Bool, true, false, List, [], ◌∷◌, map, filter,
  All, All-mono, leb, arith, leb_iff,
}
use dbdock.Base.Sort.{IsSorted, sort_by-IsSorted, sort_by-perm}
use dbdock.Storage.Adapter.{StorageObject}
use dbdock.Retention.Marks.{map_index, map_index-IsCut, IsCut, IsSorted-split}
use dbdock.Retention.Cli.{RetentionConfig, BackupInfo, newer, or_else, judge, backups_of, judged}

stricter :
    (config : RetentionConfig) (now i j : ℕ) (x y : StorageObject)
    → i < j
    → newer x y ≡ true
    → (judge config now i x).should_delete ≡ true
    → (judge config now j y).should_delete ≡ true
unfolding judge
stricter config now i j x y lt older h = ground arith

spares :
    (config : RetentionConfig) (now i : ℕ) (x : StorageObject)
    → (judge config now i x).should_delete ≡ true
    → or_else config.min_backups 5 ≤ i
unfolding judge
spares config now i x h = ground arith

newer_total : (x y : StorageObject) → newer x y ≡ false → newer y x ≡ true
newer_total x y h = ground arith

newer_trans : (x y z : StorageObject) → newer x y ≡ true → newer y z ≡ true → newer x z ≡ true
newer_trans x y z h k = ground arith

abbrev newer_info : BackupInfo → BackupInfo → Bool
newer_info x y = leb y.last_modified x.last_modified

judge-fields :
    (config : RetentionConfig) (now i : ℕ) (x : StorageObject)
    → ((judge config now i x).key ≡ x.key)
      × ((judge config now i x).size ≡ x.size)
      × ((judge config now i x).last_modified ≡ x.last_modified)
unfolding judge
judge-fields config now i x = ground arith

module _ (config : RetentionConfig) (now : ℕ) where
  infos-All :
      (i : ℕ) (x : StorageObject) (time : ℕ) (xs : List StorageObject)
      → x.last_modified ≡ time
      → All (λ y. newer x y ≡ true) xs
      → All (λ y. leb y.last_modified time ≡ true) (map_index (judge config now) i xs)
  unfolding map_index
  infos-All i x time [] e h = tt
  infos-All i x time (y ∷ ys) e h =
      (rw ((judge-fields config now i y).2, ← e) h.0, infos-All (suc i) x time ys e h.1)

  infos-IsSorted :
      (i : ℕ) (xs : List StorageObject)
      → IsSorted newer xs
      → IsSorted newer_info (map_index (judge config now) i xs)
  unfolding map_index
  infos-IsSorted i [] h = tt
  infos-IsSorted i (x ∷ xs) h = (
    infos-All (suc i) x _ xs (sym (judge-fields config now i x).2) h.0,
    infos-IsSorted (suc i) xs h.1,
  )

  keys-map_index :
      (i : ℕ) (xs : List StorageObject)
      → map (λ b. b.key) (map_index (judge config now) i xs) ≡ map (λ o. o.key) xs
  unfolding map_index
  keys-map_index i [] = refl
  keys-map_index i (x ∷ xs) = ap₂ ◌∷◌ (judge-fields config now i x).0 (keys-map_index (suc i) xs)

  -- `evaluateRetention` marks a tail of the backups, newest first: none of the first `minBackups`
  -- (5 if that is missing or 0) is marked, and no kept backup is older than a marked one.
  pub judged-IsCut :
      (objects : List StorageObject)
      → (cut : IsCut
          (λ b. b.should_delete)
          (or_else config.min_backups 5)
          0
          (judged config now objects))
        × All (λ k. All (λ g. g.last_modified ≤ k.last_modified) cut.gone) cut.kept
  unfolding judged backups_of
  judged-IsCut objects =
      let found = filter (λ o. includes o.key (codes "backup-")) objects in
      let sorted = sort_by-IsSorted newer newer_total newer_trans found in
      let cut =
        map_index-IsCut newer (judge config now) (λ b. b.should_delete)
          (or_else config.min_backups 5) (stricter config now) (spares config now) 0 _ sorted in
      (
        cut,
        older_than_kept cut.kept cut.gone (
            IsSorted-split newer_info cut.kept cut.gone
              (rw (← cut.split) (infos-IsSorted 0 _ sorted))),
      )
    where
      one :
          (k : BackupInfo) (gone : List BackupInfo)
          → All (λ g. newer_info k g ≡ true) gone
          → All (λ g. g.last_modified ≤ k.last_modified) gone
      one k gone h = All-mono _ _ gone (λ g p. (leb_iff _ _).0 p) h

      older_than_kept :
          (kept gone : List BackupInfo)
          → All (λ k. All (λ g. newer_info k g ≡ true) gone) kept
          → All (λ k. All (λ g. g.last_modified ≤ k.last_modified) gone) kept
      older_than_kept kept gone h = All-mono _ _ kept (λ k p. one k gone p) h

  -- Each listed object whose key contains "backup-" is judged, once, and nothing else is.
  pub keys-judged :
      (objects : List StorageObject)
      → Perm
          (map (λ b. b.key) (judged config now objects))
          (map (λ o. o.key) (filter (λ o. includes o.key (codes "backup-")) objects))
  unfolding judged backups_of
  keys-judged objects = rw (keys-map_index 0 _) (Perm.map _ (sort_by-perm newer _))
