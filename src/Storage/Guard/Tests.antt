-- ===== src/Storage/Guard/Tests.antt =====
-- The theorems on src/storage/deletion-guard.ts at concrete inputs.
use dbdock.Base.{ℕ, ◌≤◌, ◌<◌, ◌≡◌, refl, ◌↔◌, codes, none, some, List, [], ◌∷◌, arith}
use dbdock.Storage.Guard.{
  new_limiter, record_deletion, assert_deletable_key, validate_key_structure,
  is_within_allowed_prefix, traversal, outside_prefixes, default_allowed_delete_prefixes,
}
use dbdock.Storage.Guard.Keys.{IsObjectKey, IsProtected, assert_deletable_key_iff}
use dbdock.Storage.Guard.Window.{run_from, within, live}
use dbdock.Storage.Guard.Limiter.{record_deletion-bounded, record_deletion_iff}

abbrev times : List ℕ
times = 0 ∷ 10 ∷ 20 ∷ 1010 ∷ []

run_test : (run_from (new_limiter 2 1000) [] times).1 ≡ 0 ∷ 10 ∷ 1010 ∷ []
unfolding run_from record_deletion
run_test = refl

keys_test :
    (assert_deletable_key (codes "backups/../x") default_allowed_delete_prefixes ≡ some traversal)
    × (assert_deletable_key (codes "data/x") default_allowed_delete_prefixes
        ≡ some outside_prefixes)
    × (assert_deletable_key (codes "team/backups/x") default_allowed_delete_prefixes ≡ none)
unfolding assert_deletable_key validate_key_structure is_within_allowed_prefix
keys_test = (refl, refl, refl)

record_deletion-bounded_example : within 5 1000 (run_from (new_limiter 2 1000) [] times).1 ≤ 2
record_deletion-bounded_example = record_deletion-bounded 2 1000 times 5 (omega arith)

record_deletion_iff_example :
    ((record_deletion (run_from (new_limiter 2 1000) [] times).0 1011).0 ≡ none)
    ↔ (live 1000 1011 (run_from (new_limiter 2 1000) [] times).1 < 2)
record_deletion_iff_example = record_deletion_iff 2 1000 times 1011 (omega arith) (omega arith)

assert_deletable_key_iff_example :
    (assert_deletable_key (codes "backups/a") default_allowed_delete_prefixes ≡ none) ↔ (
      IsObjectKey (codes "backups/a")
      × IsProtected (codes "backups/a") default_allowed_delete_prefixes)
assert_deletable_key_iff_example =
    assert_deletable_key_iff (codes "backups/a") default_allowed_delete_prefixes
