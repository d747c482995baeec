-- ===== src/Cloud/Conflict/Tests.antt =====
-- src/cloud/conflict.ts at four keys, one for each verdict but the last.
use dbdock.Base.{Text, codes, ◌≡◌, refl, ◌≢◌, ◌↔◌, ◌⊎◌, true, [], ◌∷◌}
use dbdock.Cloud.Dict.{Dict, lookup}
use dbdock.Cloud.Conflict.{distinct, classify, detect_from, detect_conflicts}
use dbdock.Cloud.Conflict.Report.{member, detect_conflicts-exact}

abbrev base : Dict Text
base =
    (codes "a", codes "1")
    ∷ (codes "b", codes "1")
    ∷ (codes "c", codes "1")
    ∷ (codes "d", codes "1")
    ∷ []

abbrev local : Dict Text
local =
    (codes "a", codes "2")
    ∷ (codes "b", codes "2")
    ∷ (codes "c", codes "1")
    ∷ (codes "d", codes "2")
    ∷ []

abbrev remote : Dict Text
remote =
    (codes "a", codes "3")
    ∷ (codes "b", codes "1")
    ∷ (codes "c", codes "2")
    ∷ (codes "d", codes "2")
    ∷ []

conflicted_test : (detect_conflicts base local remote).conflicted_keys ≡ codes "a" ∷ []
unfolding detect_conflicts detect_from distinct classify lookup
conflicted_test = refl

-- Both sides changed `d` to one value, and it is listed as local.
local_test : (detect_conflicts base local remote).local_only_keys ≡ codes "b" ∷ codes "d" ∷ []
unfolding detect_conflicts detect_from distinct classify lookup
local_test = refl

detect_conflicts-exact_example :
    ((member (codes "a") (detect_conflicts base local remote).conflicted_keys ≡ true) ↔ (
      (lookup (codes "a") local ≢ lookup (codes "a") base)
      × (lookup (codes "a") remote ≢ lookup (codes "a") base)
      × (lookup (codes "a") local ≢ lookup (codes "a") remote)))
    × ((member (codes "a") (detect_conflicts base local remote).local_only_keys ≡ true) ↔ (
        (lookup (codes "a") local ≢ lookup (codes "a") base)
        × ((lookup (codes "a") remote ≡ lookup (codes "a") base)
            ⊎ (lookup (codes "a") remote ≡ lookup (codes "a") local))))
    × ((member (codes "a") (detect_conflicts base local remote).cloud_only_keys ≡ true) ↔ (
        (lookup (codes "a") local ≡ lookup (codes "a") base)
        × (lookup (codes "a") remote ≢ lookup (codes "a") base)))
detect_conflicts-exact_example = detect_conflicts-exact base local remote (codes "a")
