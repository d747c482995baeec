-- ===== src/Retention/Marks.antt =====
-- Both policies walk a list from the newest entry to the oldest and mark entries by index and age.
-- What a rule marks that only gets stricter the further it goes is the tail of the list.
use dbdock.Base.{
  ℕ, suc, ◌+◌, ◌≤◌, ◌<◌, ◌≡◌, refl, ap, ◌⊎◌, inl, inr, Bool, true, false, List, [], ◌∷◌, ◌++◌,
  length, All, arith, Bool-cases,
}
use dbdock.Base.Sort.{IsSorted}

module _ {A B : Type 0} where
  -- `xs.map((x, index) => f(index, x))`, from a first index on.
  unfoldable pub map_index : (ℕ → A → B) → ℕ → List A → List B
  map_index f i [] = []
  map_index f i (x ∷ xs) = f i x ∷ map_index f (suc i) xs

  pub length-map_index :
      (f : ℕ → A → B) (i : ℕ) (xs : List A) → length (map_index f i xs) ≡ length xs
  unfolding map_index
  length-map_index f i [] = refl
  length-map_index f i (x ∷ xs) = ap suc (length-map_index f (suc i) xs)

-- The entries are some that are kept, and behind them those that are marked; the first `least`
-- (counted from index 0, where the list begins at index `i`) are kept.
pub record IsCut {B : Type 0} (flag : B → Bool) (least i : ℕ) (bs : List B) : Type 0 where
  pub kept : List B
  pub gone : List B
  pub split : bs ≡ kept ++ gone
  pub kept_unmarked : All (λ b. flag b ≡ false) kept
  pub gone_marked : All (λ b. flag b ≡ true) gone
  pub enough : (gone ≡ []) ⊎ (least ≤ i + length kept)

module _ {A B : Type 0} (le : A → A → Bool) (f : ℕ → A → B) (flag : B → Bool) (least : ℕ)
    (stricter : (i j : ℕ) (x y : A)
      → i < j
      → le x y ≡ true
      → flag (f i x) ≡ true
      → flag (f j y) ≡ true)
    (spares : (i : ℕ) (x : A) → flag (f i x) ≡ true → least ≤ i) where
  marked_each :
      (i j : ℕ) (x : A) (ys : List A)
      → i < j
      → flag (f i x) ≡ true
      → All (λ y. le x y ≡ true) ys
      → All (λ b. flag b ≡ true) (map_index f j ys)
  unfolding map_index
  marked_each i j x [] lt h k = tt
  marked_each i j x (y ∷ ys) lt h k =
      (stricter i j x y lt k.0 h, marked_each i (suc j) x ys (omega arith) h k.1)

  -- Over a sorted list.
  pub map_index-IsCut :
      (i : ℕ) (xs : List A) → IsSorted le xs → IsCut flag least i (map_index f i xs)
  unfolding map_index
  map_index-IsCut i [] h = record {
    kept = [];
    gone = [];
    split = refl;
    kept_unmarked = tt;
    gone_marked = tt;
    enough = inl refl;
  }
  map_index-IsCut i (x ∷ xs) h = elim (Bool-cases (flag (f i x))) [
    | inl marked ↦ record {
      kept = [];
      gone = f i x ∷ map_index f (suc i) xs;
      split = refl;
      kept_unmarked = tt;
      gone_marked = (marked, marked_each i (suc i) x xs (omega arith) marked h.0);
      enough = inr (omega (arith, spares i x marked));
    }
    | inr spared ↦
        let rest = map_index-IsCut (suc i) xs h.1 in
        record {
          kept = f i x ∷ rest.kept;
          gone = rest.gone;
          split = ap (◌∷◌ (f i x)) rest.split;
          kept_unmarked = (spared, rest.kept_unmarked);
          gone_marked = rest.gone_marked;
          enough = later rest.kept rest.gone rest.enough;
        }
  ]
    where
      later :
          (kept gone : List B)
          → (gone ≡ []) ⊎ (least ≤ suc i + length kept)
          → (gone ≡ []) ⊎ (least ≤ i + suc (length kept))
      later kept gone (inl e) = inl e
      later kept gone (inr e) = inr (omega arith)

-- Of a sorted list cut in two, all of the first part stand before all of the second.
pub IsSorted-split :
    {A : Type 0} (le : A → A → Bool) (xs ys : List A)
    → IsSorted le (xs ++ ys)
    → All (λ x. All (λ y. le x y ≡ true) ys) xs
IsSorted-split le [] ys h = tt
IsSorted-split le (x ∷ xs) ys h = (behind xs h.0, IsSorted-split le xs ys h.1)
  where
    behind : (zs : List _) → All (λ z. le x z ≡ true) (zs ++ ys) → All (λ z. le x z ≡ true) ys
    behind [] k = k
    behind (z ∷ zs) k = behind zs k.1
