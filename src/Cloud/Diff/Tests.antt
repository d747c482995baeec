-- ===== src/Cloud/Diff/Tests.antt =====
-- src/cloud/diff.ts at a snapshot of two resources, one new and one changed.
use dbdock.Base.{ℕ, String, Text, codes, ◌≡◌, refl, [], ◌∷◌, map}
use dbdock.Cloud.Dict.{Dict, lookup}
use dbdock.Cloud.Diff.{SnapshotEntry, parse_key, split_colon, upserts, deletes, diff_snapshot}
use dbdock.Cloud.Diff.Apply.{apply_changes, hash_of, lookup-diff_snapshot}

abbrev base : Dict Text
base = (codes "db:a", codes "1") ∷ (codes "db:b", codes "2") ∷ []

abbrev entry : String → SnapshotEntry ℕ
entry hash = record { hash = codes hash; content = 0 }

abbrev resources : Dict (SnapshotEntry ℕ)
resources = (codes "db:a", entry "3") ∷ (codes "db:c", entry "4") ∷ []

diff_test :
    map {B = Text × Text} (λ c. (c.resource, c.local_id)) (diff_snapshot base resources)
    ≡ (codes "db", codes "a") ∷ (codes "db", codes "c") ∷ (codes "db", codes "b") ∷ []
unfolding diff_snapshot upserts deletes parse_key split_colon lookup
diff_test = refl

lookup-diff_snapshot_example :
    lookup (codes "db:a") (apply_changes base (diff_snapshot base resources))
    ≡ hash_of (lookup (codes "db:a") resources)
lookup-diff_snapshot_example =
    lookup-diff_snapshot base resources (codes "db:a") (refl, (refl, tt)) (refl, (refl, tt))
      (refl, (refl, tt))
