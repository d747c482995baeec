-- ===== src/Cloud/Conflict.antt =====
-- src/cloud/conflict.ts: three-way detection against the last synchronised hashes.
pub mod Report
pub mod Tests
use dbdock.Base.{
  Text, text_eq, Bool, true, false, ◌&&◌, not, Option, none, some, List, [], ◌∷◌, ◌++◌, any, length,
  ltb, if◌then◌else◌,
}
use dbdock.Cloud.Dict.{Dict, lookup, keys}

-- `a === b` of two hashes, either of which may be `undefined`.
abbrev pub same : Option Text → Option Text → Bool
same none none = true
same none (some b) = false
same (some a) none = false
same (some a) (some b) = text_eq a b

pub record ConflictReport : Type 0 where
  pub has_conflict : Bool
  pub conflicted_keys : List Text
  pub local_only_keys : List Text
  pub cloud_only_keys : List Text

-- `new Set(keys)`: the first of equal keys stays.
unfoldable pub distinct : List Text → List Text → List Text
distinct seen [] = []
distinct seen (k ∷ ks) =
    let rest = distinct (k ∷ seen) ks in
    let same_seen = distinct seen ks in if any (λ s. text_eq s k) seen then same_seen else k ∷ rest

pub data Verdict : Type 0 where
  conflicted local_only cloud_only unchanged : Verdict

-- The chain of tests in the loop.
unfoldable pub classify : Option Text → Option Text → Option Text → Verdict
classify base local remote =
    let local_changed = not (same local base) in
    let remote_changed = not (same remote base) in
    if local_changed && remote_changed && not (same local remote)
    then conflicted
    else if local_changed
    then local_only
    else if remote_changed
    then cloud_only
    else unchanged

abbrev pub add_verdict : Verdict → Text → ConflictReport → ConflictReport
add_verdict conflicted key r = record r { conflicted_keys = r.conflicted_keys ++ key ∷ [] }
add_verdict local_only key r = record r { local_only_keys = r.local_only_keys ++ key ∷ [] }
add_verdict cloud_only key r = record r { cloud_only_keys = r.cloud_only_keys ++ key ∷ [] }
add_verdict unchanged key r = r

-- The hashes of the base, of the local snapshot, and of the remote state.
unfoldable pub detect_from :
    Dict Text → Dict Text → Dict Text → List Text → ConflictReport → ConflictReport
detect_from base local remote [] report = report
detect_from base local remote (key ∷ more) report =
    detect_from base local remote more
      (add_verdict (classify (lookup key base) (lookup key local) (lookup key remote)) key report)

abbrev pub empty_report : ConflictReport
empty_report = record {
  has_conflict = false;
  conflicted_keys = [];
  local_only_keys = [];
  cloud_only_keys = [];
}

-- `detectConflicts`
unfoldable pub detect_conflicts : Dict Text → Dict Text → Dict Text → ConflictReport
detect_conflicts base local remote =
    let all = distinct [] (keys base ++ keys local ++ keys remote) in
    let r = detect_from base local remote all empty_report in
    record r { has_conflict = ltb 0 (length r.conflicted_keys) }
