-- ===== src/Changes/History/Laws.antt =====
-- src/changes/history.ts: what `readHistory` returns.
use mathlib.Core.List.{Perm}
use dbdock.Base.{
  ℕ, String, str_eq, Text, text_eq, ◌≡◌, refl, ap, ◌∙◌, Bool, true, false, Option, none, some, List,
  [], take, find?, arith, Bool-cases, inl, inr,
}
use dbdock.Base.Sort.{IsSorted, sort_by, sort_by-perm, sort_by-IsSorted}
use dbdock.Base.Effect.{Result, ok, err, pure, ◌>>=◌, continue, rescue}
use dbdock.Base.Triple.{Outcome}
use dbdock.Cloud.Dict.{Dict, lookup}
use dbdock.Changes.Record.{ChangeRecord, LocalRecord, ChangeError, Machine, outside, carried}
use dbdock.Changes.History.{
  HistoryEntry, CloudNote, not_read, History, values, merge_local, merge_cloud, newest_first,
  arrange, ChangeSource, with_cloud, read_history,
}
use dbdock.Changes.History.Merge.{
  is_listed, shown, entry_of, lookup-merge_local, lookup-merge_cloud, IsIndexed,
  merge_local-IsIndexed, merge_cloud-IsIndexed,
}

-- What a history of these local records and listed changes has.
pub record IsHistory (before : Text → Text → Bool) (records : List LocalRecord)
    (listed : List ChangeRecord) (limit : ℕ) (entries : List HistoryEntry) : Type 0 where
  pub merged : Dict HistoryEntry
  pub lookup_lem : (j : Text) → lookup j merged ≡ entry_of j records listed
  pub indexed : IsIndexed merged
  pub all_entries : List HistoryEntry
  pub perm : Perm all_entries (values merged)
  pub sorted : IsSorted (newest_first before) all_entries
  pub entries_lem : entries ≡ take limit all_entries

newest_first_total :
    (before : Text → Text → Bool)
    → ((s t : Text) → before s t ≡ false → before t s ≡ true)
    → (a b : HistoryEntry) → newest_first before a b ≡ false
    → newest_first before b a ≡ true
newest_first_total before total a b h = ground (arith, total b.change.id a.change.id)

newest_first_trans :
    (before : Text → Text → Bool)
    → ((s t u : Text) → before s t ≡ true → before t u ≡ true → before s u ≡ true)
    → (a b c : HistoryEntry) → newest_first before a b ≡ true
    → newest_first before b c ≡ true
    → newest_first before a c ≡ true
newest_first_trans before trans a b c h k =
    ground (arith, trans c.change.id b.change.id a.change.id)

module _ {E W : Type 0} (source : ChangeSource E W) (before : Text → Text → Bool)
    (total : (s t : Text) → before s t ≡ false → before t s ≡ true)
    (trans : (s t u : Text) → before s t ≡ true → before t u ≡ true → before s u ≡ true) where
  arrange-IsHistory :
      (records : List LocalRecord) (listed : List ChangeRecord) (limit : ℕ)
      → IsHistory before records listed limit
          (arrange before limit (merge_cloud listed (merge_local records [])))
  unfolding arrange lookup
  arrange-IsHistory records listed limit = record {
    merged = merge_cloud listed (merge_local records []);
    lookup_lem = λ j.
        lookup-merge_cloud j listed (merge_local records [])
        ∙ ap (λ o. shown o (find? (λ r. text_eq r.id j) listed) (is_listed j listed))
            (lookup-merge_local j records []);
    indexed = merge_cloud-IsIndexed listed _ (merge_local-IsIndexed records [] (tt, tt));
    all_entries =
        sort_by (newest_first before) (values (merge_cloud listed (merge_local records [])));
    perm = sort_by-perm _ _;
    sorted =
        sort_by-IsSorted _ (newest_first_total before total) (newest_first_trans before trans) _;
    entries_lem = refl;
  }

  -- The changes are what the cloud answered, or none where the history says that it was not read.
  abbrev pub Listing : ℕ → Machine W → List ChangeRecord → Option (CloudNote E) → Machine W → Type 0
  Listing limit s listed none t =
      (project : String) × (source.project_id ≡ some project)
      × (source.list_changes project limit s.world ≡ (ok listed, t.world))
  Listing limit s listed (some note) t = listed ≡ []

  abbrev pub Reads : ℕ → Machine W → History E → Machine W → Type 0
  Reads limit s h t =
      (t.records ≡ s.records)
      × ((listed : List ChangeRecord) × (Listing limit s listed h.cloud_note t
            × IsHistory before (values s.records) listed limit h.entries))

  abbrev history_from :
      ℕ
      → Result (ChangeError E) (Dict HistoryEntry × Option (CloudNote E)) × Machine W
      → Result (ChangeError E) (History E) × Machine W
  history_from limit r =
      continue r
        (λ merged. pure (record { entries = arrange before limit merged.0; cloud_note = merged.1 }))

  listed_from :
      (project : String) (limit : ℕ) (s : Machine W) (r : Result E (List ChangeRecord) × W)
      → source.project_id ≡ some project
      → source.list_changes project limit s.world ≡ r
      → Outcome
          (Reads limit s)
          (λ _. ⊥)
          (history_from limit (
            rescue
              (continue
                (carried s r)
                (λ records. pure (merge_cloud records (merge_local (values s.records) []), none)))
              (λ e. pure (merge_local (values s.records) [], some (not_read e)))))
  unfolding ◌>>=◌ merge_cloud
  listed_from project limit s (ok listed, w) is_project h = (
    refl,
    (listed, ((project, is_project, h), arrange-IsHistory (values s.records) listed limit)),
  )
  listed_from project limit s (err e, w) is_project h =
      (refl, ([], (refl, arrange-IsHistory (values s.records) [] limit)))

  with_project :
      (o : Option String) (limit : ℕ) (s : Machine W)
      → source.project_id ≡ o
      → Outcome
          (Reads limit s)
          (λ _. ⊥)
          (history_from limit
            (with_cloud source before o limit (merge_local (values s.records) []) s))
  unfolding with_cloud outside merge_cloud ◌>>=◌
  with_project none limit s h = (refl, ([], (refl, arrange-IsHistory (values s.records) [] limit)))
  with_project (some project) limit s h = elim (Bool-cases (str_eq project "")) [
    | inl empty ↦ rw empty (refl, ([], (refl, arrange-IsHistory (values s.records) [] limit)))
    | inr linked ↦
        rw linked (listed_from project limit s (source.list_changes project limit s.world) h refl)
  ]

  -- Whatever the cloud does, `readHistory` returns, and the records stay as they are. Its entries are
  -- the first ones of all changes known, newest first, each id once: a change saved here as it is
  -- saved here, in the cloud if it was sent or is listed, and one that the cloud alone lists as it is
  -- listed. Where the cloud is not read, a note says so. The order of ids is total and transitive.
  pub read_history-Reads :
      (limit : ℕ) (s : Machine W)
      → Outcome (Reads limit s) (λ _. ⊥) (read_history source before limit s)
  unfolding read_history ◌>>=◌
  read_history-Reads limit s = with_project source.project_id limit s refl
