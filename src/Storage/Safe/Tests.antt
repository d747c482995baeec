-- ===== src/Storage/Safe/Tests.antt =====
-- An in-memory backend, and the theorems on the adapter of src/storage/safe-storage.adapter.ts at
-- inputs that meet their hypotheses.
use dbdock.Base.{
  length, length-append, ◌∙◌, ◌≡◌, refl, sym, ap, ◌∙◌, ◌≢◌, ◌⊎◌, Text, codes, text_eq, text_eq_iff,
  text_eq_refl, true, false, Option, none, some, List, [], ◌∷◌, ◌++◌, ◌*◌, replicate, All, arith,
  if◌then◌else◌,
}
use dbdock.Base.Effect.{Result, ok, err, ◌>>=◌, ◌>>◌}
use dbdock.Base.Triple.{Outcome}
use dbdock.Storage.Adapter.{
  IsSpared, object_metadata_suffix, StorageAdapter, StorageObject, IsObjectStore,
}
use dbdock.Storage.Guard.{
  GuardError, DeletionGuardPolicy, new_limiter, record_deletion, assert_deletable_key,
  validate_key_structure, is_within_allowed_prefix,
}
use dbdock.Storage.Guard.Keys.{IsObjectKey, IsProtected}
use dbdock.Storage.Safe.{
  SafeState, MetaJson, TrashMeta, Clock, refused, trash_key_of, delete_object, soft_branch,
  move_to_trash, copy_object, copy_with, inner, ensure, rate_limit, emit, stamp_of, hard_delete,
  best_effort_hard_delete, restore_from_trash, purge_objects, purge_trash, trash_meta_suffix,
  ms_per_day,
}
use dbdock.Storage.Safe.Untouched.{
  IsExpired, delete_object-untouched, delete_object-guarded, purge_trash-untouched,
}
use dbdock.Storage.Safe.Recover.{delete_object-recoverable}
use dbdock.Storage.Safe.Restore.{restore-delete}
use dbdock.Storage.Safe.Purge.{purge_objects-stuck}

ne_of_test : (s t : Text) → text_eq s t ≡ false → s ≢ t
ne_of_test s t h e = cc (h, (text_eq_iff s t).1 e)

record Cells : Type 0 where
  at : Text → Option TrashMeta
  objects : List StorageObject

abbrev put : Text → Option TrashMeta → Cells → Cells
put k v s = record s { at = λ j. if text_eq j k then v else s.at j }

abbrev fetch : Option TrashMeta → Cells → Result Unit TrashMeta × Cells
fetch (some c) s = (ok c, s)
fetch none s = (err tt, s)

-- Contents are metadata records, which stand for their JSON. As on local storage, a deletion takes the
-- object's metadata with it.
abbrev memory : StorageAdapter
memory = record {
  Store = Cells;
  Failure = Unit;
  Content = TrashMeta;
  upload = λ k c s. (ok tt, put k (some c) s);
  download = λ k s. fetch (s.at k) s;
  list = λ p s. (ok s.objects, s);
  delete = λ k s. (ok tt, put (k ++ object_metadata_suffix) none (put k none s));
  exists = λ k s. (ok true, s);
  copy = none;
  content = λ s k. s.at k;
}

fetch_same : (o : Option TrashMeta) (s : Cells) → (fetch o s).1 ≡ s
fetch_same none s = refl
fetch_same (some c) s = refl

fetch_ok :
    (o : Option TrashMeta) (s s' : Cells) (c : TrashMeta) → fetch o s ≡ (ok c, s') → o ≡ some c
fetch_ok none s s' c e = cc
fetch_ok (some d) s s' c e = cc

put_other : (k j : Text) (v : Option TrashMeta) (s : Cells) → j ≢ k → (put k v s).at j ≡ s.at j
put_other k j v s h = ground (arith, text_eq_iff j k)

put_self : (k : Text) (v : Option TrashMeta) (s : Cells) → (put k v s).at k ≡ v
put_self k v s = rw text_eq_refl

put_ok :
    (k : Text) (v : Option TrashMeta) (s s' : Cells)
    → ◌≡◌ {A = Result (Unit {0}) (Unit {0}) × Cells} (ok tt, put k v s) (ok tt, s')
    → s'.at k ≡ v
put_ok k v s s' e = ap (λ r. r.1.at k) (sym e) ∙ put_self k v s

apart_lem : (k : Text) → k ≢ k ++ object_metadata_suffix
apart_lem k e = omega (arith, ap length e, length-append {0} k object_metadata_suffix)

memory-IsObjectStore : IsObjectStore memory
memory-IsObjectStore = record {
  upload_ok = λ k c s e. put_ok k (some c) s _ e;
  upload_other = λ k j c s h. put_other k j (some c) s h;
  download_same = λ k j s. ap (λ t. t.at j) (fetch_same (s.at k) s);
  download_ok = λ k s e. fetch_ok (s.at k) s _ _ e;
  list_same = λ p j s. refl;
  delete_ok = λ k s e.
      ap (λ r. r.1.at k) (sym e)
      ∙ put_other (k ++ object_metadata_suffix) k none (put k none s) (apart_lem k)
      ∙ put_self k none s;
  delete_other = λ k j s h.
      put_other (k ++ object_metadata_suffix) j none (put k none s) h.not_metadata
      ∙ put_other k j none s h.not_it;
  copy_ok = λ f src dst s e h. cc;
  copy_other = λ f src dst j s e h. cc;
}

abbrev plain : MetaJson memory
plain = record { encode = λ m. m; decode = λ c. some c }

abbrev policy : DeletionGuardPolicy
policy = record {
  enabled = true;
  recycle_bin = true;
  trash_prefix = codes ".trash/";
  allowed_prefixes = codes "backups/" ∷ [];
  max_deletes_per_window = 10;
  window_ms = 60_000;
  trash_retention_days = 14;
}

abbrev key : Text
key = codes "backups/a.sql"

abbrev dump : TrashMeta
dump = record { original_key = []; deleted_at = []; reason = none }

abbrev old_object : StorageObject
old_object = record { key = replicate 1030 b'a'; size = 1; last_modified = 0 }

abbrev start : SafeState memory
start = record {
  store = put key (some dump) (record { at = λ _. none; objects = old_object ∷ [] });
  limiter = new_limiter 10 60_000;
  emitted = [];
}

abbrev clock : Clock
clock = record {
  now = 100;
  moved_at = codes "2026-01-02T03:04:05.678Z";
  deleted_at = codes "2026-01-02T03:04:05.679Z";
}

abbrev trash : Text
trash = trash_key_of memory policy clock.moved_at key

stamped : text_eq (codes "other") trash ≡ false
stamped = refl

stamped' : text_eq (codes "other") (trash ++ trash_meta_suffix) ≡ false
stamped' = refl

delete_object-untouched_example :
    memory.content (delete_object memory policy plain clock key none start).1.store (codes "other")
    ≡ none
delete_object-untouched_example =
    delete_object-untouched memory memory-IsObjectStore policy plain clock (codes "other") key none
      start
      (record {
        not_it = λ e. ne_of_test (codes "other") key refl e;
        not_metadata = λ e. ne_of_test (codes "other") (key ++ object_metadata_suffix) refl e;
      })
      (λ e. ne_of_test (codes "other") trash stamped e)
      (λ e. ne_of_test (codes "other") (trash ++ trash_meta_suffix) stamped' e)

delete_object-recoverable_example :
    Outcome
      (λ _ s'.
        (memory.content s'.store key ≡ none)
        × (memory.content s'.store trash ≡ some dump)
        × (memory.content s'.store (trash ++ trash_meta_suffix)
            ≡ some (record { original_key = key; deleted_at = clock.deleted_at; reason = none })))
      (λ s'.
        (memory.content s'.store key ≡ some dump) ⊎ (memory.content s'.store trash ≡ some dump))
      (delete_object memory policy plain clock key none start)
delete_object-recoverable_example =
    delete_object-recoverable memory memory-IsObjectStore policy plain clock key none dump start
      refl refl refl refl

restore-delete_example :
    Outcome
      (λ k s'.
        (k ≡ key)
        × (memory.content s'.store key ≡ some dump)
        × (memory.content s'.store trash ≡ none))
      (λ s'.
        (memory.content s'.store key ≡ some dump) ⊎ (memory.content s'.store trash ≡ some dump))
      ((do
        delete_object memory policy plain clock key none
        restore_from_trash memory policy plain trash)
        start)
restore-delete_example =
    restore-delete memory memory-IsObjectStore policy plain clock key none dump (λ m. refl) start
      refl refl refl (ne_of_test key [] refl) refl

purge_objects-stuck_example :
    (e : GuardError) × (purge_objects memory policy (20 * ms_per_day) 14 0 (old_object ∷ []) start
      ≡ (err (refused e), start))
purge_objects-stuck_example =
    purge_objects-stuck memory policy (20 * ms_per_day) 14 0 old_object [] start refl (omega arith)

emptied : memory.content (delete_object memory policy plain clock key none start).1.store key ≡ none
unfolding delete_object soft_branch move_to_trash copy_object copy_with inner ensure rate_limit emit
    assert_deletable_key validate_key_structure is_within_allowed_prefix record_deletion stamp_of
    ◌>>=◌
emptied = refl

delete_object-guarded_example :
    IsObjectKey key
    × IsProtected key policy.allowed_prefixes
    × ((record_deletion start.limiter clock.now).0 ≡ none)
delete_object-guarded_example =
    delete_object-guarded memory memory-IsObjectStore policy plain clock key none start key refl
      (λ e. cc (emptied, e))

-- A young object of the recycle bin survives a purge.
abbrev young : StorageObject
young = record { key = codes ".trash/x"; size = 1; last_modified = 100 }

abbrev tidy : SafeState memory
tidy = record start {
  store = put (codes ".trash/x") (some dump) (record { at = λ _. none; objects = young ∷ [] });
}

listed :
    (objects : List StorageObject)
    → (memory.list policy.trash_prefix tidy.store).0 ≡ ok objects
    → All
        (λ o.
          IsExpired memory memory-IsObjectStore policy 200 14 o
          → IsSpared (codes ".trash/x") o.key
            × IsSpared (codes ".trash/x") (o.key ++ trash_meta_suffix))
        objects
listed (o ∷ []) e = (
  (λ x.
      let same : o ≡ young = cc e in absurd (omega (arith, x.old, ap (λ p. p.last_modified) same))),
  tt,
)
listed [] e = cc
listed (o ∷ p ∷ objects) e = cc

purge_trash-untouched_example :
    memory.content (purge_trash memory policy none 200 tidy).1.store (codes ".trash/x") ≡ some dump
purge_trash-untouched_example =
    purge_trash-untouched memory memory-IsObjectStore policy none 200 (codes ".trash/x") tidy listed

one_purged :
    (s' : SafeState memory) × (purge_objects memory policy (20 * ms_per_day) 14 0 (young ∷ []) tidy
      ≡ (ok 1, s'))
unfolding purge_objects hard_delete best_effort_hard_delete ensure inner validate_key_structure
    is_within_allowed_prefix ◌>>=◌
one_purged = (_, refl)
