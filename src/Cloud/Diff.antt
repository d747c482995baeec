-- ===== src/Cloud/Diff.antt =====
-- src/cloud/diff.ts: the changes from the hashes last synchronised to the current snapshot.
pub mod Apply
pub mod Tests
use dbdock.Base.{
  ℕ, Text, codes, text_eq, Bool, false, Option, none, some, List, [], ◌∷◌, ◌++◌, ◌==◌,
  if◌then◌else◌,
}
use dbdock.Cloud.Types.{SyncChange, upsert, delete}
use dbdock.Cloud.Dict.{Dict, lookup, keys, has_key}

-- `SnapshotEntry` and the resources of `LocalSnapshot` in src/cloud/snapshot.ts.
pub record SnapshotEntry (Data : Type 0) : Type 0 where
  pub hash : Text
  pub content : Data

-- From the parts of `key` to those of `c` before it: a colon at the front is the first one.
abbrev pub split_before : ℕ → Text → Option (Text × Text) → Option (Text × Text)
split_before c key none = if c == b':' then some ([], key) else none
split_before c key (some (front, back)) =
    if c == b':' then some ([], key) else some (c ∷ front, back)

-- `key.slice(0, idx)` and `key.slice(idx + 1)` at the first colon, or no colon.
unfoldable pub split_colon : Text → Option (Text × Text)
split_colon [] = none
split_colon (c ∷ key) = split_before c key (split_colon key)

abbrev pub or_unknown : Text → Option (Text × Text) → Text × Text
or_unknown key none = (codes "unknown", key)
or_unknown key (some parts) = parts

-- `parseKey`: the resource and the id.
unfoldable pub parse_key : Text → Text × Text
parse_key key = or_unknown key (split_colon key)

-- `base[key] !== entry.hash`
abbrev pub same_hash : Option Text → Text → Bool
same_hash none hash = false
same_hash (some old) hash = text_eq old hash

module _ {Data : Type 0} where
  abbrev pub upsert_of : Text → SnapshotEntry Data → SyncChange Data
  upsert_of key entry = record {
    op = upsert;
    resource = (parse_key key).0;
    local_id = (parse_key key).1;
    hash = some entry.hash;
    content = some entry.content;
  }

  abbrev pub delete_of : Text → SyncChange Data
  delete_of key = record {
    op = delete;
    resource = (parse_key key).0;
    local_id = (parse_key key).1;
    hash = none;
    content = none;
  }

  -- The first loop, over the entries of the snapshot.
  unfoldable pub upserts : Dict Text → Dict (SnapshotEntry Data) → List (SyncChange Data)
  upserts base [] = []
  upserts base ((key, entry) ∷ resources) =
      let rest = upserts base resources in
      if same_hash (lookup key base) entry.hash then rest else upsert_of key entry ∷ rest

  -- The second, over the keys of the base.
  unfoldable pub deletes : List Text → Dict (SnapshotEntry Data) → List (SyncChange Data)
  deletes [] resources = []
  deletes (key ∷ more) resources =
      let rest = deletes more resources in
      if has_key key resources then rest else delete_of key ∷ rest

  -- `diffSnapshot`
  unfoldable pub diff_snapshot : Dict Text → Dict (SnapshotEntry Data) → List (SyncChange Data)
  diff_snapshot base resources = upserts base resources ++ deletes (keys base) resources
