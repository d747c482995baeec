-- ===== src/Storage/Guard.antt =====
-- src/storage/deletion-guard.ts: the policy, the tests on a storage key and the rate limiter.
-- A thrown `DeletionGuardError` is a `GuardError`, one constructor for each message; the key that
-- the error carries is the function's argument. Times are milliseconds since the epoch, and a test
-- `t < now - window` is written `t + window < now`, since the difference may be negative.
pub mod Keys
pub mod Window
pub mod Limiter
pub mod Tests
use mathlib.Core.Option.{get_or}
use dbdock.Base.{
  ℕ, ◌+◌, Text, codes, text_eq, starts_with, ends_with, includes, trim, Bool, true, ◌&&◌, ◌||◌, not,
  Option, none, some, List, [], ◌∷◌, ◌++◌, length, any, ltb, leb, ◌==◌, if◌then◌else◌,
}

pub data GuardError : Type 0 where
  empty_key whitespace oversized leading_slash folder_key traversal wildcard : GuardError
  outside_prefixes circuit_breaker missing_metadata outside_hard_delete : GuardError

-- A function that returns nothing or throws: `none` is a return.
abbrev pub Check : Type 0
Check = Option GuardError

abbrev pub default_trash_prefix : Text
default_trash_prefix = codes ".trash/"

abbrev pub default_allowed_delete_prefixes : List Text
default_allowed_delete_prefixes =
    codes "backups/" ∷ codes "wal/" ∷ codes "dbdock_backups/" ∷ codes "backup-" ∷ []

abbrev pub max_storage_key_length : ℕ
max_storage_key_length = 1024

-- `hasControlCharacter`
unfoldable pub has_control_character : Text → Bool
has_control_character value = any (λ c. leb c 0x1f || c == 0x7f) value

pub record DeletionGuardPolicy : Type 0 where
  pub enabled : Bool
  pub recycle_bin : Bool
  pub trash_prefix : Text
  pub allowed_prefixes : List Text
  pub max_deletes_per_window : ℕ
  pub window_ms : ℕ
  pub trash_retention_days : ℕ

pub record DeletionGuardPolicyOverrides : Type 0 where
  pub enabled : Option Bool
  pub recycle_bin : Option Bool
  pub trash_retention_days : Option ℕ
  pub max_deletes_per_window : Option ℕ
  pub allowed_prefixes : Option (List Text)

-- `overrides?.allowedPrefixes && overrides.allowedPrefixes.length > 0 ? … : …`
abbrev chosen_prefixes : Option (List Text) → List Text
chosen_prefixes none = default_allowed_delete_prefixes
chosen_prefixes (some []) = default_allowed_delete_prefixes
chosen_prefixes (some (p ∷ ps)) = p ∷ ps

-- With no overrides object every field is missing.
abbrev pub no_overrides : DeletionGuardPolicyOverrides
no_overrides = record {
  enabled = none;
  recycle_bin = none;
  trash_retention_days = none;
  max_deletes_per_window = none;
  allowed_prefixes = none;
}

unfoldable pub resolve_deletion_guard_policy : DeletionGuardPolicyOverrides → DeletionGuardPolicy
resolve_deletion_guard_policy o = record {
  enabled = get_or o.enabled true;
  recycle_bin = get_or o.recycle_bin true;
  trash_prefix = default_trash_prefix;
  allowed_prefixes = chosen_prefixes o.allowed_prefixes;
  max_deletes_per_window = get_or o.max_deletes_per_window 1000;
  window_ms = 60_000;
  trash_retention_days = get_or o.trash_retention_days 14;
}

-- `validateKeyStructure`; `typeof key !== 'string'` is the type.
unfoldable pub validate_key_structure : Text → Check
unfolding has_control_character trim
validate_key_structure key =
    if length key == 0
    then some empty_key
    else if not (text_eq key (trim key))
    then some whitespace
    else if ltb max_storage_key_length (length key)
    then some oversized
    else if starts_with key (codes "/")
    then some leading_slash
    else if ends_with key (codes "/")
    then some folder_key
    else if includes key (codes "..")
    then some traversal
    else if includes key (codes "*") || has_control_character key
    then some wildcard
    else none

-- `isWithinAllowedPrefix`
unfoldable pub is_within_allowed_prefix : Text → List Text → Bool
is_within_allowed_prefix key allowed_prefixes =
    any
      (λ prefix.
        ltb 0 (length prefix) && (starts_with key prefix || includes key (codes "/" ++ prefix)))
      allowed_prefixes

abbrev require_prefix : Text → List Text → Check → Check
require_prefix key allowed_prefixes (some e) = some e
require_prefix key allowed_prefixes none =
    if not (is_within_allowed_prefix key allowed_prefixes) then some outside_prefixes else none

-- `assertDeletableKey`
unfoldable pub assert_deletable_key : Text → List Text → Check
assert_deletable_key key allowed_prefixes =
    require_prefix key allowed_prefixes (validate_key_structure key)

-- `DeletionRateLimiter`: `max`, `windowMs` and `events`, the oldest event first.
pub record DeletionRateLimiter : Type 0 where
  pub max : ℕ
  pub window_ms : ℕ
  pub events : List ℕ

abbrev pub new_limiter : ℕ → ℕ → DeletionRateLimiter
new_limiter max window_ms = record { max = max; window_ms = window_ms; events = [] }

-- The `while` loop that shifts expired events off the front.
pub drop_expired : ℕ → ℕ → List ℕ → List ℕ
drop_expired window_ms now [] = []
drop_expired window_ms now (e ∷ es) =
    let rest = drop_expired window_ms now es in if ltb (e + window_ms) now then rest else e ∷ es

-- `record(now)`: the limiter is changed also where the call throws.
unfoldable pub record_deletion : DeletionRateLimiter → ℕ → Check × DeletionRateLimiter
unfolding drop_expired
record_deletion l now =
    let events = drop_expired l.window_ms now l.events in
    if leb l.max (length events)
    then (some circuit_breaker, record l { events = events })
    else (none, record l { events = events ++ now ∷ [] })
