-- ===== src/Cloud/Conflict/Report.antt =====
-- src/cloud/conflict.ts: which list of the report a key stands in.
use mathlib.Core.Option.{get_or}
use dbdock.Base.{
  Text, text_eq, text_eq_iff, ◌≡◌, refl, ◌≢◌, ◌↔◌, ap, ◌∙◌, Bool, true, false, ◌&&◌, ◌||◌, not,
  Option, none, some, List, [], ◌∷◌, ◌++◌, any, any-append, arith, ltb, length, Bool-cases, inl,
  inr, ◌⊎◌,
}
use dbdock.Cloud.Dict.{Dict, lookup, keys, has_key, lookup-absent}
use dbdock.Cloud.Conflict.{
  ConflictReport, Verdict, conflicted, local_only, cloud_only, unchanged, same, classify,
  add_verdict, distinct, detect_from, detect_conflicts, empty_report,
}

abbrev pub member : Text → List Text → Bool
member k ks = any (λ s. text_eq s k) ks

abbrev pub is_conflicted : Verdict → Bool
is_conflicted conflicted = true
is_conflicted local_only = false
is_conflicted cloud_only = false
is_conflicted unchanged = false

abbrev pub is_local_only : Verdict → Bool
is_local_only conflicted = false
is_local_only local_only = true
is_local_only cloud_only = false
is_local_only unchanged = false

abbrev pub is_cloud_only : Verdict → Bool
is_cloud_only conflicted = false
is_cloud_only local_only = false
is_cloud_only cloud_only = true
is_cloud_only unchanged = false

same_iff : (a b : Option Text) → (same a b ≡ true) ↔ (a ≡ b)
same_iff none none = (λ h. refl, λ h. refl)
same_iff none (some b) = (λ h. absurd (ground arith), λ h. absurd (ground arith))
same_iff (some a) none = (λ h. absurd (ground arith), λ h. absurd (ground arith))
same_iff (some a) (some b) =
    (λ h. ap some ((text_eq_iff a b).0 h), λ h. (text_eq_iff a b).1 (ap (λ o. get_or o a) h))

some_member : (ks : List Text) → (ltb 0 (length ks) ≡ true) ↔ ((k : Text) × (member k ks ≡ true))
some_member [] = (λ h. absurd (ground arith), λ h. absurd (ground arith))
some_member (k ∷ ks) = (λ h. (k, ground (arith, text_eq_iff k k)), λ h. ground arith)

member-distinct :
    (k : Text) (seen ks : List Text)
    → member k (distinct seen ks) ≡ (member k ks && not (member k seen))
unfolding distinct
member-distinct k seen [] = refl
member-distinct k seen (j ∷ ks) =
    ground (arith, text_eq_iff j k, member-distinct k seen ks, member-distinct k (j ∷ seen) ks)

-- What the chain of tests decides.
classify-conflicted_iff :
    (b l r : Option Text) → (is_conflicted (classify b l r) ≡ true) ↔ ((l ≢ b) × (r ≢ b) × (l ≢ r))
unfolding classify
classify-conflicted_iff b l r = grind (arith, same_iff l b, same_iff r b, same_iff l r)

classify-local_only_iff :
    (b l r : Option Text)
    → (is_local_only (classify b l r) ≡ true) ↔ ((l ≢ b) × ((r ≡ b) ⊎ (r ≡ l)))
unfolding classify
classify-local_only_iff b l r = grind (arith, same_iff l b, same_iff r b, same_iff l r)

classify-cloud_only_iff :
    (b l r : Option Text) → (is_cloud_only (classify b l r) ≡ true) ↔ ((l ≡ b) × (r ≢ b))
unfolding classify
classify-cloud_only_iff b l r = grind (arith, same_iff l b, same_iff r b, same_iff l r)

module _ (base local remote : Dict Text) where
  abbrev pub verdict : Text → Verdict
  verdict k = classify (lookup k base) (lookup k local) (lookup k remote)

  -- The three lists after a pass over `ks`, at the key `k`.
  record Passed (k : Text) (ks : List Text) (before after : ConflictReport) : Type 0 where
    conflicted_at :
        member k after.conflicted_keys
        ≡ (member k before.conflicted_keys || (member k ks && is_conflicted (verdict k)))
    local_at :
        member k after.local_only_keys
        ≡ (member k before.local_only_keys || (member k ks && is_local_only (verdict k)))
    cloud_at :
        member k after.cloud_only_keys
        ≡ (member k before.cloud_only_keys || (member k ks && is_cloud_only (verdict k)))

  module _ (k j : Text) {v : Verdict} (h : text_eq j k ≡ true → v ≡ verdict k) (ks : List Text)
      (f : Verdict → Bool) where
    add_hit :
        f v ≡ true → member k (ks ++ j ∷ []) ≡ (member k ks || (member k (j ∷ []) && f (verdict k)))
    add_hit e =
        any-append (λ s. text_eq s k) ks (j ∷ [])
        ∙ ap (λ b. member k ks || b)
            (elim (Bool-cases (text_eq j k)) [
              | inl same ↦ ground (arith, ap f (h same), e)
              | inr off ↦ ground arith
            ])

    add_miss : f v ≡ false → member k ks ≡ (member k ks || (member k (j ∷ []) && f (verdict k)))
    add_miss e = elim (Bool-cases (text_eq j k)) [
      | inl same ↦ ground (arith, ap f (h same), e)
      | inr off ↦ ground arith
    ]

  Passed-add_verdict :
      (k j : Text) (v : Verdict) (r : ConflictReport)
      → (text_eq j k ≡ true → v ≡ verdict k)
      → Passed k (j ∷ []) r (add_verdict v j r)
  Passed-add_verdict k j conflicted r h = record {
    conflicted_at = add_hit k j h r.conflicted_keys is_conflicted refl;
    local_at = add_miss k j h r.local_only_keys is_local_only refl;
    cloud_at = add_miss k j h r.cloud_only_keys is_cloud_only refl;
  }
  Passed-add_verdict k j local_only r h = record {
    conflicted_at = add_miss k j h r.conflicted_keys is_conflicted refl;
    local_at = add_hit k j h r.local_only_keys is_local_only refl;
    cloud_at = add_miss k j h r.cloud_only_keys is_cloud_only refl;
  }
  Passed-add_verdict k j cloud_only r h = record {
    conflicted_at = add_miss k j h r.conflicted_keys is_conflicted refl;
    local_at = add_miss k j h r.local_only_keys is_local_only refl;
    cloud_at = add_hit k j h r.cloud_only_keys is_cloud_only refl;
  }
  Passed-add_verdict k j unchanged r h = record {
    conflicted_at = add_miss k j h r.conflicted_keys is_conflicted refl;
    local_at = add_miss k j h r.local_only_keys is_local_only refl;
    cloud_at = add_miss k j h r.cloud_only_keys is_cloud_only refl;
  }

  Passed-trans :
      (k j : Text) (ks : List Text) (a b c : ConflictReport)
      → Passed k (j ∷ []) a b
      → Passed k ks b c
      → Passed k (j ∷ ks) a c
  Passed-trans k j ks a b c p q = record {
    conflicted_at = ground (arith, p.conflicted_at, q.conflicted_at);
    local_at = ground (arith, p.local_at, q.local_at);
    cloud_at = ground (arith, p.cloud_at, q.cloud_at);
  }

  member-detect_from :
      (k : Text) (ks : List Text) (r : ConflictReport)
      → Passed k ks r (detect_from base local remote ks r)
  unfolding detect_from
  member-detect_from k [] r = record {
    conflicted_at = ground arith;
    local_at = ground arith;
    cloud_at = ground arith;
  }
  member-detect_from k (j ∷ ks) r =
      Passed-trans k j ks _ _ _
        (Passed-add_verdict k j _ r (λ e. ap verdict ((text_eq_iff j k).0 e)))
        (member-detect_from k ks _)

  -- The keys of the three sides, of which none is known to be changed elsewhere.
  abbrev all_keys : List Text
  all_keys = keys base ++ keys local ++ keys remote

  abbrev detected : ConflictReport
  detected = detect_conflicts base local remote

  present :
      (k : Text)
      → member k (distinct [] all_keys) ≡ (has_key k base || has_key k local || has_key k remote)
  present k = ground (
    arith,
    member-distinct k [] all_keys,
    any-append (λ s. text_eq s k) (keys base ++ keys local) (keys remote),
    any-append (λ s. text_eq s k) (keys base) (keys local),
  )

  -- A key that is on no side has not changed.
  absent-unchanged :
      (k : Text)
      → (has_key k base || has_key k local || has_key k remote) ≡ false
      → verdict k ≡ unchanged
  unfolding classify
  absent-unchanged k h =
      let b : lookup k base ≡ none = lookup-absent k base (ground arith) in
      let l : lookup k local ≡ none = lookup-absent k local (ground arith) in
      let r : lookup k remote ≡ none = lookup-absent k remote (ground arith) in rw (b, l, r) refl

  detected_at :
      (k : Text)
      → Passed k
          (distinct [] all_keys)
          empty_report
          (detect_from base local remote (distinct [] all_keys) empty_report)
  detected_at k = member-detect_from k (distinct [] all_keys) empty_report

  -- For a verdict that no absent key has, the union of the keys misses none.
  spread :
      (k : Text) (f : Verdict → Bool)
      → f unchanged ≡ false
      → (member k (distinct [] all_keys) && f (verdict k)) ≡ f (verdict k)
  spread k f e = elim (Bool-cases (has_key k base || has_key k local || has_key k remote)) [
    | inl on ↦ ground (arith, present k, on)
    | inr off ↦ ground (arith, present k, ap f (absent-unchanged k off), e)
  ]

  -- The report lists a key as conflicted exactly where both sides changed it, differently; as
  -- local exactly where the local side changed it and the remote side did not, or changed it
  -- equally; and as remote exactly where only the remote side changed it.
  pub detect_conflicts-exact :
      (k : Text)
      → ((member k detected.conflicted_keys ≡ true) ↔ (
          (lookup k local ≢ lookup k base)
          × (lookup k remote ≢ lookup k base)
          × (lookup k local ≢ lookup k remote)))
        × ((member k detected.local_only_keys ≡ true) ↔ (
            (lookup k local ≢ lookup k base)
            × ((lookup k remote ≡ lookup k base) ⊎ (lookup k remote ≡ lookup k local))))
        × ((member k detected.cloud_only_keys ≡ true)
            ↔ ((lookup k local ≡ lookup k base) × (lookup k remote ≢ lookup k base)))
  unfolding detect_conflicts
  detect_conflicts-exact k = (
    rw ((detected_at k).conflicted_at, spread k is_conflicted refl) (classify-conflicted_iff _ _ _),
    rw ((detected_at k).local_at, spread k is_local_only refl) (classify-local_only_iff _ _ _),
    rw ((detected_at k).cloud_at, spread k is_cloud_only refl) (classify-cloud_only_iff _ _ _),
  )

  -- A conflict is reported exactly where some key is conflicted.
  pub has_conflict_iff :
      (detected.has_conflict ≡ true) ↔ ((k : Text) × (member k detected.conflicted_keys ≡ true))
  unfolding detect_conflicts
  has_conflict_iff = some_member _
