-- ===== src/Storage/Safe/Purge.antt =====
-- The purge of the recycle bin in src/storage/safe-storage.adapter.ts.
use mathlib.Core.Path.{subst}
use dbdock.Base.{
  ℕ, ◌+◌, ◌*◌, ◌<◌, ◌≡◌, Text, Bool, true, false, some, List, [], ◌∷◌, length, ends_with, filter,
  ltb, not, ◌&&◌, arith, inl, inr, Option-cases, Bool-cases,
}
use dbdock.Base.Effect.{ok, err, ◌>>=◌}
use dbdock.Base.Triple.{Outcome, Triple, Triple-pure, Triple-bind, Triple-any}
use dbdock.Storage.Adapter.{StorageAdapter, StorageObject}
use dbdock.Storage.Guard.{DeletionGuardPolicy, GuardError, validate_key_structure}
use dbdock.Storage.Guard.Keys.{validate_key_structure_iff}
use dbdock.Storage.Safe.{
  SafeState, Safe, refused, ensure, hard_delete, purge_objects, trash_meta_suffix, ms_per_day,
}

-- The code's own test on a listed object.
abbrev pub is_purgeable : ℕ → ℕ → StorageObject → Bool
is_purgeable now days obj =
    not (ends_with obj.key trash_meta_suffix) && ltb (obj.last_modified + days * ms_per_day) now

module _ (a : StorageAdapter) (policy : DeletionGuardPolicy) where
  abbrev Returns : ℕ → Safe a ℕ → Type 0
  Returns n m = Triple (λ _. Unit {0}) m (λ k _. k ≡ n) (λ _. Unit {0})

  purge_objects-Returns :
      (now days purged n : ℕ) (objects : List StorageObject)
      → n ≡ purged + length (filter (is_purgeable now days) objects)
      → Returns n (purge_objects a policy now days purged objects)
  unfolding purge_objects
  purge_objects-Returns now days purged n [] h = Triple-pure purged (λ _ _. omega arith)
  purge_objects-Returns now days purged n (o ∷ objects) h =
      elim (Bool-cases (ends_with o.key trash_meta_suffix)) [
        | inl side ↦ simp side (purge_objects-Returns now days purged n objects (ground arith))
        | inr main ↦ elim (Bool-cases (ltb (o.last_modified + days * ms_per_day) now)) [
          | inr fresh ↦
              simp (main, fresh) (purge_objects-Returns now days purged n objects (ground arith))
          | inl old ↦
              let rest = purge_objects-Returns now days (purged + 1) n objects (ground arith) in
              simp (main, old)
                (Triple-bind _ _ _ (Triple-any _)
                  (λ _. Triple-bind _ _ _ (Triple-any _) (λ _. rest)))
        ]
      ]

  -- A purge over a listing that returns a number returns that of the expired objects that are no
  -- sidecars.
  pub purge_objects-count :
      (now days : ℕ) (objects : List StorageObject) (s s' : SafeState a) (n : ℕ)
      → purge_objects a policy now days 0 objects s ≡ (ok n, s')
      → n ≡ length (filter (is_purgeable now days) objects)
  purge_objects-count now days objects s s' n h =
      subst (Outcome (λ k _. k ≡ length (filter (is_purgeable now days) objects)) (λ _. Unit {0})) h
        ((purge_objects-Returns now days 0 _ objects (omega arith)).run s tt)

  too_long :
      (key : Text) → 1024 < length key → (e : GuardError) × (validate_key_structure key ≡ some e)
  too_long key h = elim (Option-cases (validate_key_structure key)) [
    | inl fine ↦ let k = (validate_key_structure_iff key).0 fine in absurd (omega (arith, k.short))
    | inr bad ↦ bad
  ]

  -- A purge that meets an expired object whose key is longer than 1024 code units throws there: it
  -- has deleted nothing at that object, and never reaches the ones behind it.
  pub purge_objects-stuck :
      (now days purged : ℕ) (obj : StorageObject) (objects : List StorageObject) (s : SafeState a)
      → is_purgeable now days obj ≡ true
      → 1024 < length obj.key
      → (e : GuardError) × (purge_objects a policy now days purged (obj ∷ objects) s
          ≡ (err (refused e), s))
  unfolding purge_objects hard_delete ensure ◌>>=◌
  purge_objects-stuck now days purged obj objects s h long =
      let (e, bad) = too_long obj.key long in
      let main : ends_with obj.key trash_meta_suffix ≡ false = ground arith in
      let old : ltb (obj.last_modified + days * ms_per_day) now ≡ true = ground arith in
      (e, simp (main, old, bad))
