-- ===== src/Storage/Guard/Window.antt =====
-- Runs of the rate limiter of src/storage/deletion-guard.ts, windows of time, and the loop that
-- drops expired events.
use dbdock.Base.{
  ℕ, ◌+◌, ◌≤◌, ◌<◌, ◌≡◌, refl, ap, ◌&&◌, none, some, List, [], ◌∷◌, ◌++◌, length, filter, All, ltb,
  leb, arith, Bool-cases, inl, inr, filter-append, length-append,
}
use dbdock.Storage.Guard.{DeletionRateLimiter, drop_expired, record_deletion, Check}

abbrev pub note : Check → ℕ → List ℕ → List ℕ
note none now accepted = accepted ++ now ∷ []
note (some e) now accepted = accepted

-- Calls at the given times, one after the other, with the times of those that did not throw.
unfoldable pub run_from : DeletionRateLimiter → List ℕ → List ℕ → DeletionRateLimiter × List ℕ
run_from l accepted [] = (l, accepted)
run_from l accepted (now ∷ times) =
    let (c, l') = record_deletion l now in run_from l' (note c now accepted) times

-- The times are in order, from `start` on.
abbrev pub FromOn : ℕ → List ℕ → Type 0
FromOn start [] = Unit
FromOn start (now ∷ times) = (start ≤ now) × FromOn now times

-- The events that lie in the window of length `w` from `t` on, and those still live at `now`.
abbrev pub within : ℕ → ℕ → List ℕ → ℕ
within t w events = length (filter (λ e. leb t e && leb e (t + w)) events)

abbrev pub live : ℕ → ℕ → List ℕ → ℕ
live w now events = length (filter (λ e. leb now (e + w)) events)

pub within-append :
    (t w : ℕ) (xs ys : List ℕ) → within t w (xs ++ ys) ≡ within t w xs + within t w ys
within-append t w xs ys = rw filter-append (length-append _ _)

pub live-append :
    (w now : ℕ) (xs ys : List ℕ) → live w now (xs ++ ys) ≡ live w now xs + live w now ys
live-append w now xs ys = rw filter-append (length-append _ _)

-- The loop drops expired events only.
pub drop_expired_split :
    (w now : ℕ) (es : List ℕ)
    → (gone : List ℕ) × (es ≡ gone ++ drop_expired w now es) × All (λ e. e + w < now) gone
unfolding drop_expired
drop_expired_split w now [] = ([], refl, tt)
drop_expired_split w now (e ∷ es) = elim (Bool-cases (ltb (e + w) now)) [
  | inl old ↦
      let (gone, same, expired) = drop_expired_split w now es in
      (e ∷ gone, rw old (ap (◌∷◌ e) same), (ground arith, expired))
  | inr fresh ↦ ([], rw fresh, tt)
]

-- What stays is fresh, if the events are in order.
pub drop_expired-All :
    (w now start : ℕ) (es : List ℕ)
    → FromOn start es
    → All (λ e. now ≤ e + w) (drop_expired w now es)
unfolding drop_expired
drop_expired-All w now start [] h = tt
drop_expired-All w now start (e ∷ es) h = elim (Bool-cases (ltb (e + w) now)) [
  | inl old ↦ rw old (drop_expired-All w now e es h.1)
  | inr fresh ↦ rw fresh (let first : now ≤ e + w = ground arith in (first, later e es first h.1))
]
  where
    later : (a : ℕ) (xs : List ℕ) → now ≤ a + w → FromOn a xs → All (λ e. now ≤ e + w) xs
    later a [] first k = tt
    later a (x ∷ xs) first k = (omega arith, later x xs (omega arith) k.1)

pub within-eq-zero :
    (t w now : ℕ) (gone : List ℕ) → now ≤ t + w → All (λ e. e + w < now) gone → within t w gone ≡ 0
within-eq-zero t w now [] h k = refl
within-eq-zero t w now (e ∷ es) h k = ground (arith, within-eq-zero t w now es h k.1)

pub within-le-length : (t w : ℕ) (xs : List ℕ) → within t w xs ≤ length xs
within-le-length t w [] = omega arith
within-le-length t w (x ∷ xs) = ground (arith, within-le-length t w xs)

pub live-eq-zero : (w now : ℕ) (gone : List ℕ) → All (λ e. e + w < now) gone → live w now gone ≡ 0
live-eq-zero w now [] k = refl
live-eq-zero w now (e ∷ es) k = ground (arith, live-eq-zero w now es k.1)

pub live-eq-length :
    (w now : ℕ) (xs : List ℕ) → All (λ e. now ≤ e + w) xs → live w now xs ≡ length xs
live-eq-length w now [] k = refl
live-eq-length w now (e ∷ es) k = ground (arith, live-eq-length w now es k.1)

pub FromOn-snoc :
    (start now : ℕ) (es : List ℕ)
    → FromOn start es
    → All (λ e. e ≤ now) es
    → start ≤ now
    → FromOn start (es ++ now ∷ [])
FromOn-snoc start now [] h k le = (le, tt)
FromOn-snoc start now (e ∷ es) h k le = (h.0, FromOn-snoc e now es h.1 k.1 k.0)

FromOn-weaken : (a b : ℕ) (es : List ℕ) → a ≤ b → FromOn b es → FromOn a es
FromOn-weaken a b [] le h = tt
FromOn-weaken a b (e ∷ es) le h = (omega arith, h.1)

-- The rest of the loop keeps the order, and what holds of every event.
pub drop_expired-FromOn :
    (w now start : ℕ) (es : List ℕ) → FromOn start es → FromOn start (drop_expired w now es)
unfolding drop_expired
drop_expired-FromOn w now start [] h = tt
drop_expired-FromOn w now start (e ∷ es) h = elim (Bool-cases (ltb (e + w) now)) [
  | inl old ↦ rw old (FromOn-weaken start e _ h.0 (drop_expired-FromOn w now e es h.1))
  | inr fresh ↦ rw fresh h
]

pub drop_expired-All_of :
    (P : ℕ → Type 0) (w now : ℕ) (es : List ℕ) → All P es → All P (drop_expired w now es)
unfolding drop_expired
drop_expired-All_of P w now [] h = tt
drop_expired-All_of P w now (e ∷ es) h = elim (Bool-cases (ltb (e + w) now)) [
  | inl old ↦ rw old (drop_expired-All_of P w now es h.1)
  | inr fresh ↦ rw fresh h
]

pub expired_later :
    (w a b : ℕ) (es : List ℕ) → a ≤ b → All (λ e. e + w < a) es → All (λ e. e + w < b) es
expired_later w a b [] le h = tt
expired_later w a b (e ∷ es) le h = (omega arith, expired_later w a b es le h.1)

pub past_later : (a b : ℕ) (es : List ℕ) → a ≤ b → All (λ e. e ≤ a) es → All (λ e. e ≤ b) es
past_later a b [] le h = tt
past_later a b (e ∷ es) le h = (omega arith, past_later a b es le h.1)

-- The time of the last call of a run.
abbrev pub latest : ℕ → List ℕ → ℕ
latest start [] = start
latest start (now ∷ times) = latest now times
