-- ===== src/Storage/Guard/Limiter.antt =====
-- The deletion circuit breaker of src/storage/deletion-guard.ts over a run of calls at times that
-- do not go back.
use mathlib.Core.List.{append_assoc}
use dbdock.Base.{
  ℕ, ◌+◌, ◌≤◌, ◌<◌, ◌≡◌, refl, sym, ap, ◌∙◌, ◌↔◌, none, List, [], ◌∷◌, ◌++◌, length, All, leb,
  arith, Bool-cases, inl, inr, All-append,
}
use dbdock.Storage.Guard.{DeletionRateLimiter, new_limiter, drop_expired, record_deletion}
use dbdock.Storage.Guard.Window.{
  note, run_from, FromOn, within, live, within-append, live-append, drop_expired_split,
  drop_expired-All, within-eq-zero, within-le-length, live-eq-zero, live-eq-length, FromOn-snoc,
  drop_expired-FromOn, drop_expired-All_of, expired_later, past_later, latest,
}

-- The loop invariant of a run: what was accepted is what is gone and what is kept.
record Tracks (max w now : ℕ) (l : DeletionRateLimiter) (accepted : List ℕ) : Type 0 where
  same_max : l.max ≡ max
  same_window : l.window_ms ≡ w
  gone : List ℕ
  split : accepted ≡ gone ++ l.events
  expired : All (λ e. e + w < now) gone
  bounded : (t : ℕ) → within t w accepted ≤ max
  ordered : FromOn 0 l.events
  past : All (λ e. e ≤ now) l.events

-- One more event keeps the bound, where the loop has left fewer than `max`.
within_one_more :
    (max w now : ℕ) (gone kept : List ℕ)
    → All (λ e. e + w < now) gone
    → length kept < max
    → ((t : ℕ) → within t w (gone ++ kept) ≤ max)
    → (t : ℕ) → within t w ((gone ++ kept) ++ now ∷ []) ≤ max
within_one_more max w now gone kept expired room bound t = elim (Bool-cases (leb now (t + w))) [
  | inl near ↦
      let split : within t w (gone ++ kept) ≡ within t w gone + within t w kept =
        within-append t w gone kept in
      let none_gone : within t w gone ≡ 0 = within-eq-zero t w now gone (ground arith) expired in
      rw (within-append t w (gone ++ kept) (now ∷ []), split, none_gone)
        (ground (arith, within-le-length t w kept))
  | inr far ↦ rw (within-append t w (gone ++ kept) (now ∷ [])) (ground (arith, bound t))
]

-- After the loop, before the test on the number of events.
trim_Tracks :
    {max w before : ℕ} (now : ℕ) {l : DeletionRateLimiter} {accepted : List ℕ}
    → before ≤ now
    → Tracks max w before l accepted
    → Tracks max w now (record l { events = drop_expired l.window_ms now l.events }) accepted
trim_Tracks {max} {w} {before} now {l} {accepted} le k =
    let (g, same, old) = drop_expired_split l.window_ms now l.events in
    record {
      same_max = k.same_max;
      same_window = k.same_window;
      gone = k.gone ++ g;
      split = k.split ∙ ap (λ es. k.gone ++ es) same ∙ sym (append_assoc k.gone g _);
      expired =
          All-append _ k.gone g (expired_later w before now k.gone le k.expired)
            (rw (← k.same_window) old);
      bounded = k.bounded;
      ordered = drop_expired-FromOn l.window_ms now 0 l.events k.ordered;
      past =
          drop_expired-All_of (λ e. e ≤ now) l.window_ms now l.events
            (past_later before now l.events le k.past);
    }

push_Tracks :
    {max w now : ℕ} {l : DeletionRateLimiter} {accepted : List ℕ}
    → Tracks max w now l accepted
    → length l.events < max
    → Tracks max w now (record l { events = l.events ++ now ∷ [] }) (accepted ++ now ∷ [])
push_Tracks {max} {w} {now} {l} {accepted} k room = record {
  same_max = k.same_max;
  same_window = k.same_window;
  gone = k.gone;
  split = ap (λ xs. xs ++ now ∷ []) k.split ∙ append_assoc k.gone l.events (now ∷ []);
  expired = k.expired;
  bounded =
      rw k.split
        (within_one_more max w now k.gone l.events k.expired room (rw (← k.split) k.bounded));
  ordered = FromOn-snoc 0 now l.events k.ordered k.past (omega arith);
  past = All-append _ l.events (now ∷ []) k.past (omega arith);
}

record_deletion-Tracks :
    {max w before : ℕ} (now : ℕ) {l : DeletionRateLimiter} {accepted : List ℕ}
    → before ≤ now
    → Tracks max w before l accepted
    → Tracks max w now (record_deletion l now).1 (note (record_deletion l now).0 now accepted)
unfolding record_deletion
record_deletion-Tracks now {l} {accepted} le k =
    let k' = trim_Tracks now {l = l} {accepted = accepted} le k in
    let test = leb l.max (length (drop_expired l.window_ms now l.events)) in
    elim (Bool-cases test) [
      | inl full ↦ rw full k'
      | inr room ↦ rw room (push_Tracks k' (ground (arith, k'.same_max)))
    ]

run_from-Tracks :
    {max w : ℕ} (before : ℕ) (l : DeletionRateLimiter) (accepted times : List ℕ)
    → FromOn before times
    → Tracks max w before l accepted
    → Tracks max w (latest before times) (run_from l accepted times).0 (run_from l accepted times).1
unfolding run_from
run_from-Tracks before l accepted [] h k = k
run_from-Tracks before l accepted (now ∷ times) h k =
    run_from-Tracks now _ _ times h.1 (record_deletion-Tracks now h.0 k)

new_limiter-Tracks : (max w : ℕ) → Tracks max w 0 (new_limiter max w) []
new_limiter-Tracks max w = record {
  same_max = refl;
  same_window = refl;
  gone = [];
  split = refl;
  expired = tt;
  bounded = λ t. omega arith;
  ordered = tt;
  past = tt;
}

run-Tracks :
    (max w : ℕ) (times : List ℕ)
    → FromOn 0 times
    → Tracks max w
        (latest 0 times)
        (run_from (new_limiter max w) [] times).0
        (run_from (new_limiter max w) [] times).1
run-Tracks max w times h = run_from-Tracks 0 _ [] times h (new_limiter-Tracks max w)

-- However the calls at non-decreasing times fall, no window of `windowMs` milliseconds, wherever it
-- begins, holds more than `max` of the deletions that the limiter let through.
pub record_deletion-bounded :
    (max w : ℕ) (times : List ℕ) (t : ℕ)
    → FromOn 0 times
    → within t w (run_from (new_limiter max w) [] times).1 ≤ max
record_deletion-bounded max w times t h = (run-Tracks max w times h).bounded t

live_of_Tracks :
    {max w now : ℕ} {l : DeletionRateLimiter} {accepted : List ℕ}
    → Tracks max w now l accepted
    → All (λ e. now ≤ e + w) l.events
    → live w now accepted ≡ length l.events
live_of_Tracks {w} {now} {l} k fresh =
    rw (k.split, live-append w now k.gone l.events, live-eq-zero w now k.gone k.expired)
      (omega (arith, live-eq-length w now l.events fresh))

goes_through_iff :
    {max w before : ℕ} (now : ℕ) {l : DeletionRateLimiter} {accepted : List ℕ}
    → before ≤ now
    → Tracks max w before l accepted
    → ((record_deletion l now).0 ≡ none) ↔ (live w now accepted < max)
unfolding record_deletion
goes_through_iff {w} now {l} {accepted} le k =
    let k' = trim_Tracks now {l = l} {accepted = accepted} le k in
    let fresh = drop_expired-All l.window_ms now 0 l.events k.ordered in
    let count = live_of_Tracks k' (rw (← k.same_window) fresh) in ground (arith, count, k'.same_max)

-- After any run of calls at non-decreasing times, a call at a time `now` not before the last one
-- goes through exactly when fewer than `max` of the deletions let through are still in the window
-- `windowMs` before `now`; it is refused in all other cases.
pub record_deletion_iff :
    (max w : ℕ) (times : List ℕ) (now : ℕ)
    → FromOn 0 times
    → latest 0 times ≤ now
    → ((record_deletion (run_from (new_limiter max w) [] times).0 now).0 ≡ none)
      ↔ (live w now (run_from (new_limiter max w) [] times).1 < max)
record_deletion_iff max w times now h le = goes_through_iff now le (run-Tracks max w times h)
