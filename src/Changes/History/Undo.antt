-- ===== src/Changes/History/Undo.antt =====
-- src/changes/history.ts: which change `findUndoTarget` finds.
use dbdock.Base.{
  ◌≡◌, refl, sym, ap, ◌∙◌, Text, Bool, Option, none, some, List, [], ◌∷◌, ◌++◌, map, take,
}
use mathlib.Core.List.{append_assoc, append-nil}
use dbdock.Base.Effect.{Effect, Result, ok, err, pure, ◌>>=◌, continue, rescue}
use dbdock.Base.Triple.{Outcome}
use dbdock.Changes.Record.{ChangeRecord}
use dbdock.Changes.History.{
  HistoryEntry, undo_search_limit, SkipReason, UndoSearch, reason_of, search_entries,
  find_undo_target,
}

module _ {E W C : Type 0} (read_checkpoint : Text → Effect E W C) (is_missing : E → Bool) where
  -- The reading of these checkpoints, one after the other, fails each time with the reason noted.
  abbrev pub AllFail : W → List (ChangeRecord × SkipReason E) → W → Type 0
  AllFail w [] v = v ≡ w
  AllFail w (skip ∷ skipped) v =
      (e : E) × (u : W) × (read_checkpoint skip.0.checkpoint_id w ≡ (err e, u))
      × (skip.1 ≡ reason_of read_checkpoint is_missing e)
      × AllFail u skipped v

  -- The changes passed over are the first ones, and the target is the next; or all were passed over.
  abbrev pub Ends :
      List ChangeRecord
      → W
      → List (ChangeRecord × SkipReason E)
      → Option (ChangeRecord × C)
      → W
      → Type 0
  Ends changes u skipped none v = (map (λ s. s.0) skipped ≡ changes) × (v ≡ u)
  Ends changes u skipped (some target) v =
      (rest : List ChangeRecord) × (map (λ s. s.0) skipped ++ target.0 ∷ rest ≡ changes)
      × (read_checkpoint target.0.checkpoint_id u ≡ (ok target.1, v))

  abbrev pub IsFound :
      List ChangeRecord
      → W
      → List (ChangeRecord × SkipReason E)
      → Option (ChangeRecord × C)
      → W
      → Type 0
  IsFound changes w skipped target v =
      (u : W) × (AllFail w skipped u × Ends changes u skipped target v)

  -- The search goes on from changes that were passed over before.
  abbrev FoundFrom :
      List (ChangeRecord × SkipReason E) → List ChangeRecord → W → UndoSearch E C → W → Type 0
  FoundFrom acc changes w found v =
      (more : List (ChangeRecord × SkipReason E)) × ((found.skipped ≡ acc ++ more)
        × IsFound changes w more found.target v)

  Ends-cons :
      (r : ChangeRecord) (skip : SkipReason E) (changes : List ChangeRecord) (u : W)
      (skipped : List (ChangeRecord × SkipReason E)) (target : Option (ChangeRecord × C)) (v : W)
      → Ends changes u skipped target v
      → Ends (r ∷ changes) u ((r, skip) ∷ skipped) target v
  Ends-cons r skip changes u skipped none v h = (ap (λ rs. r ∷ rs) h.0, h.1)
  Ends-cons r skip changes u skipped (some target) v h = (h.0, ap (λ rs. r ∷ rs) h.1, h.2)

  FoundFrom-cons :
      (acc : List (ChangeRecord × SkipReason E)) (r : ChangeRecord) (e : E)
      (changes : List ChangeRecord) (w u : W)
      → read_checkpoint r.checkpoint_id w ≡ (err e, u)
      → (found : UndoSearch E C) (v : W)
      → FoundFrom (acc ++ (r, reason_of read_checkpoint is_missing e) ∷ []) changes u found v
      → FoundFrom acc (r ∷ changes) w found v
  FoundFrom-cons acc r e changes w u failed found v (more, (same, (t, (fail, ends)))) = (
    (r, reason_of read_checkpoint is_missing e) ∷ more,
    (
      same ∙ append_assoc acc (_ ∷ []) more,
      (
        t,
        (
          (e, u, failed, refl, fail),
          Ends-cons r (reason_of read_checkpoint is_missing e) changes t more found.target v ends,
        ),
      ),
    ),
  )

  abbrev Finds :
      List (ChangeRecord × SkipReason E)
      → List ChangeRecord
      → W
      → Result E (UndoSearch E C) × W
      → Type 0
  Finds acc changes w r = Outcome (λ found v. FoundFrom acc changes w found v) (λ _. ⊥) r

  Outcome-later :
      (acc : List (ChangeRecord × SkipReason E)) (r : ChangeRecord) (e : E)
      (changes : List ChangeRecord) (w u : W)
      → read_checkpoint r.checkpoint_id w ≡ (err e, u)
      → (result : Result E (UndoSearch E C) × W)
      → Finds (acc ++ (r, reason_of read_checkpoint is_missing e) ∷ []) changes u result
      → Finds acc (r ∷ changes) w result
  Outcome-later acc r e changes w u failed (ok found, v) h =
      FoundFrom-cons acc r e changes w u failed found v h
  Outcome-later acc r e changes w u failed (err f, v) h = h

  search_entries-Finds :
      (entries : List HistoryEntry) (acc : List (ChangeRecord × SkipReason E)) (w : W)
      → Finds acc
          (map (λ e. e.change) entries)
          w
          (search_entries read_checkpoint is_missing entries acc w)
  unfolding search_entries ◌>>=◌
  search_entries-Finds [] acc w = ([], (sym (append-nil acc), (w, (refl, (refl, refl)))))
  search_entries-Finds (entry ∷ entries) acc w =
      after (read_checkpoint entry.change.checkpoint_id w) refl (λ e u.
        search_entries-Finds entries
          (acc ++ (entry.change, reason_of read_checkpoint is_missing e) ∷ []) u)
    where
      after :
          (r : Result E C × W)
          → read_checkpoint entry.change.checkpoint_id w ≡ r
          → ((e : E) (u : W)
              → Finds
                  (acc ++ (entry.change, reason_of read_checkpoint is_missing e) ∷ [])
                  (map (λ e. e.change) entries)
                  u
                  (search_entries read_checkpoint is_missing entries
                    (acc ++ (entry.change, reason_of read_checkpoint is_missing e) ∷ [])
                    u))
          → Finds acc (entry.change ∷ map (λ e. e.change) entries) w (
              rescue
                (continue r (λ checkpoint.
                  pure (record { target = some (entry.change, checkpoint); skipped = acc })))
                (λ e.
                  search_entries read_checkpoint is_missing entries
                    (acc ++ (entry.change, reason_of read_checkpoint is_missing e) ∷ [])))
      after (ok c, v) h later =
          ([], (sym (append-nil acc), (w, (refl, (map (λ e. e.change) entries, refl, h)))))
      after (err e, u) h later = Outcome-later acc entry.change e _ w u h _ (later e u)

  -- The search for a change to undo never throws. It passes over changes only, of the twenty newest,
  -- whose checkpoints it failed to read, each with its reason, and its target is the first behind
  -- them, with the checkpoint as it was read; with no target, it has passed over all twenty.
  pub find_undo_target-IsFound :
      (entries : List HistoryEntry) (w : W)
      → Outcome
          (λ found v.
            IsFound
              (map (λ e. e.change) (take undo_search_limit entries))
              w
              found.skipped
              found.target
              v)
          (λ _. ⊥)
          (find_undo_target read_checkpoint is_missing entries w)
  unfolding find_undo_target
  find_undo_target-IsFound entries w =
      from_start _ (search_entries-Finds (take undo_search_limit entries) [] w)
    where
      from_start :
          (r : Result E (UndoSearch E C) × W)
          → Finds [] (map (λ e. e.change) (take undo_search_limit entries)) w r
          → Outcome
              (λ found v.
                IsFound
                  (map (λ e. e.change) (take undo_search_limit entries))
                  w
                  found.skipped
                  found.target
                  v)
              (λ _. ⊥)
              r
      from_start (ok found, v) (more, (same, h)) = rw same h
      from_start (err e, v) h = h
