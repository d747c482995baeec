-- ===== src/Changes/Metadata.antt =====
-- src/changes/metadata.ts: `recordMetadata`. The environment is an argument, as are the name of the
-- user and the commit that git gives, where it gives one.
use dbdock.Base.{
  ℕ, leb, length, Text, codes, text_eq, ◌≡◌, refl, Bool, true, ◌&&◌, ◌||◌, Option, none, some, [],
  ◌∷◌, all, Bool-cases, inl, inr, if◌then◌else◌,
}
use dbdock.Migration.Names.{to_lower}
use dbdock.Changes.Record.{Metadata, ActorKind, person, agent, ChangeKind, migration}
use dbdock.Changes.Summary.{is_digit, is_safe_summary, safe_label, safe_summary}

-- The options of a guarded change that the metadata uses.
pub record MetadataOptions : Type 0 where
  pub actor : Option Text
  pub actor_kind : Option ActorKind
  pub deploy : Option Text
  pub session : Option Text
  pub kind : Option ChangeKind
  pub summary : Option Text

pub record Environment : Type 0 where
  pub dbdock_actor : Option Text
  pub github_sha : Option Text
  pub ci_commit_sha : Option Text
  pub ci : Option Text
  pub username : Text
  pub commit : Option Text

-- `a ?? b`
abbrev pub or_else : {A : Type 0} → Option A → Option A → Option A
or_else none b = b
or_else (some a) b = some a

abbrev pub with_default : {A : Type 0} → Option A → A → A
with_default none b = b
with_default (some a) b = a

abbrev is_hex : ℕ → Bool
is_hex c = is_digit c || (leb 97 c && leb c 102)

-- `/^[a-f0-9]{7,64}$/i`
abbrev pub is_commit : Text → Bool
is_commit s = leb 7 (length s) && leb (length s) 64 && all is_hex (to_lower s)

abbrev pub deploy_of : Option Text → Option Text
deploy_of none = none
deploy_of (some s) = if is_commit s then some s else none

abbrev pub session_of : Option Text → Option Text
session_of none = none
session_of (some []) = none
session_of (some (c ∷ s)) = some (safe_label (some (c ∷ s)) (codes "agent-session"))

abbrev pub context_of : Option Text → Text
context_of none = codes "local"
context_of (some []) = codes "local"
context_of (some (c ∷ s)) = if text_eq (c ∷ s) (codes "false") then codes "local" else codes "ci"

abbrev pub default_actor : Option ActorKind → Text → Text
default_actor none username = safe_label (some username) (codes "Person")
default_actor (some person) username = safe_label (some username) (codes "Person")
default_actor (some agent) username = codes "Agent"

-- `recordMetadata`
unfoldable pub record_metadata : MetadataOptions → Environment → Metadata
record_metadata options env = record {
  actor =
      safe_label (or_else options.actor env.dbdock_actor)
        (default_actor options.actor_kind env.username);
  actor_kind = with_default options.actor_kind person;
  context = context_of env.ci;
  kind = with_default options.kind migration;
  summary = safe_summary (some (with_default options.summary (codes "Run migration command")));
  deploy =
      deploy_of
        (or_else options.deploy (or_else env.github_sha (or_else env.ci_commit_sha env.commit)));
  session = session_of options.session;
}

safe_summary-safe : (s : Text) → is_safe_summary (safe_summary (some s)) ≡ true
unfolding safe_summary
safe_summary-safe s = elim (Bool-cases (is_safe_summary s)) [
  | inl safe ↦ rw safe safe
  | inr other ↦ rw other refl
]

-- Whatever text the caller passes, the summary of a record is a fixed one or counts changes or names
-- operations: no free text goes into it.
pub record_metadata-safe :
    (options : MetadataOptions) (env : Environment)
    → is_safe_summary (record_metadata options env).summary ≡ true
unfolding record_metadata
record_metadata-safe options env = safe_summary-safe _
