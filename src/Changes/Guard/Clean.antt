-- ===== src/Changes/Guard/Clean.antt =====
-- src/changes/guard.ts: no record of a guarded change carries a credential.
use dbdock.Base.{
  ◌≡◌, refl, ap, ◌∙◌, ◌≤◌, ◌⊎◌, inl, inr, Text, text_eq, text_eq_iff, includes, leb, length, Bool,
  true, false, not, Option, none, some, List, [], ◌∷◌, any, arith, Bool-cases,
}
use dbdock.Base.Triple.{Triple, Triple-mono}
use dbdock.Cloud.Dict.{lookup}
use dbdock.Changes.Record.{Metadata, ChangeRecord, Machine, Outlet}
use dbdock.Changes.Guard.{
  Outside, Call, GuardResult, completed, run_guarded_change, redact, leaks, hide, nameless,
  secrets_of,
}
use dbdock.Changes.Guard.Laws.{
  IsRecordOf, unfinished, stopped, finished, Done, Left, run_guarded_change-Done,
}

-- The secret is no part of the text, if there is one.
abbrev pub conceals : Text → Option Text → Bool
conceals secret none = true
conceals secret (some text) = not (includes text secret)

-- Neither the session nor the deploy shows the secret, and the actor does not, or has no name.
pub record Conceals (secret : Text) (m : Metadata) : Type 0 where
  pub session : conceals secret m.session ≡ true
  pub deploy : conceals secret m.deploy ≡ true
  pub actor : (includes m.actor secret ≡ false) ⊎ (m.actor ≡ nameless m.actor_kind)

-- A record is saved under the call's id, and does not show the secret.
abbrev pub Clean : {W : Type 0} → Text → Call → Machine W → Type 0
Clean secret call s =
    (r : ChangeRecord) × (synced : Bool) × (lookup call.id s.records
      ≡ some (record { saved = r; synced = synced }))
    × Conceals secret r.metadata

module _ (secret : Text) (long : 4 ≤ length secret) where
  leaks-secret :
      (credentials : List Text) (text : Text)
      → any (text_eq secret) credentials ≡ true
      → leaks (secrets_of credentials) text ≡ false
      → includes text secret ≡ false
  leaks-secret [] text h k = absurd (ground arith)
  leaks-secret (c ∷ cs) text h k = elim (Bool-cases (text_eq secret c)) [
    | inl same ↦
        let e : secret ≡ c = (text_eq_iff secret c).0 same in
        let kept : leb 4 (length c) ≡ true = ground (arith, ap length e) in
        ap (includes text) e ∙ ground (arith, kept)
    | inr off ↦ leaks-secret cs text (ground arith) (ground arith)
  ]

  conceals-hide :
      (credentials : List Text) (o : Option Text)
      → any (text_eq secret) credentials ≡ true
      → conceals secret (hide (secrets_of credentials) o) ≡ true
  conceals-hide credentials none h = refl
  conceals-hide credentials (some text) h =
      elim (Bool-cases (leaks (secrets_of credentials) text)) [
        | inl bad ↦ rw bad refl
        | inr fine ↦ rw (fine, leaks-secret credentials text h fine) refl
      ]

  redact-Conceals :
      (credentials : List Text) (m : Metadata)
      → any (text_eq secret) credentials ≡ true
      → Conceals secret (redact (secrets_of credentials) m)
  unfolding redact
  redact-Conceals credentials m h = record {
    session = conceals-hide credentials m.session h;
    deploy = conceals-hide credentials m.deploy h;
    actor = elim (Bool-cases (leaks (secrets_of credentials) m.actor)) [
      | inl bad ↦ rw bad (inr refl)
      | inr fine ↦ rw fine (inl (leaks-secret credentials m.actor h fine))
    ];
  }

  module _ (call : Call) (given : any (text_eq secret) call.credentials ≡ true) where
    IsRecordOf-Conceals :
        (c : Text) (r : ChangeRecord) → IsRecordOf call c r → Conceals secret r.metadata
    IsRecordOf-Conceals c r unfinished = redact-Conceals call.credentials call.metadata given
    IsRecordOf-Conceals c r stopped = redact-Conceals call.credentials call.metadata given
    IsRecordOf-Conceals c r (finished summary) =
        let clean = redact-Conceals call.credentials call.metadata given in
        record { session = clean.session; deploy = clean.deploy; actor = clean.actor }

    module _ {E W Schema Scope Value : Type 0} (out : Outside E W Schema Scope Value)
        (outlet : Outlet E W) (s0 : Machine W) where
      -- No credential of four or more characters shows in the session or the deploy of a guarded
      -- change's record, nor in its actor unless that is the replacement for one: not in the record
      -- that a return hands back, nor in the one that is saved, whether the change returns or throws.
      -- One that throws may have left the records as they were.
      pub run_guarded_change-Conceals :
          Triple
            (λ s. s ≡ s0)
            (run_guarded_change out outlet call)
            (λ r s. Conceals secret r.change_record.metadata × Clean secret call s)
            (λ s. (s.records ≡ s0.records) ⊎ Clean secret call s)
      run_guarded_change-Conceals =
          Triple-mono (λ s h. h) done left (run_guarded_change-Done out outlet call s0)
        where
          done :
              (r : GuardResult Value) (s : Machine W)
              → Done out outlet call s0 r s
              → Conceals secret r.change_record.metadata × Clean secret call s
          done r s (c, summary, taken, same, stored) =
              let clean = IsRecordOf-Conceals c (completed call c summary) (finished summary) in
              (rw same clean, (completed call c summary, r.synced, stored, clean))

          left :
              (s : Machine W)
              → Left out outlet call s0 s
              → (s.records ≡ s0.records) ⊎ Clean secret call s
          left s (inl e) = inl e
          left s (inr (c, r, synced, taken, of, stored)) =
              inr (r, synced, stored, IsRecordOf-Conceals c r of)
