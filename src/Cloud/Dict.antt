-- ===== src/Cloud/Dict.antt =====
-- A `Record<string, V>`: its own entries in the order of their insertion. Object keys here are
-- texts with a colon or hashes, so none is an array index or a name of `Object.prototype`.
use dbdock.Base.{
  Text, text_eq, text_eq_iff, ◌≡◌, refl, Bool, true, false, Option, none, some, List, [], ◌∷◌,
  arith, ◌||◌, if◌then◌else◌, any, ◌∙◌, Bool-cases, inl, inr,
}

abbrev pub Dict : Type 0 → Type 0
Dict V = List (Text × V)

module _ {V : Type 0} where
  -- `d[key]`
  unfoldable pub lookup : Text → Dict V → Option V
  lookup key [] = none
  lookup key ((k, v) ∷ d) = if text_eq k key then some v else lookup key d

  -- `d[key] = value`
  unfoldable pub insert : Text → V → Dict V → Dict V
  insert key value [] = (key, value) ∷ []
  insert key value ((k, v) ∷ d) =
      if text_eq k key then (k, value) ∷ d else (k, v) ∷ insert key value d

  -- `delete d[key]`
  unfoldable pub remove : Text → Dict V → Dict V
  remove key [] = []
  remove key ((k, v) ∷ d) = let rest = remove key d in if text_eq k key then rest else (k, v) ∷ rest

  -- `Object.keys(d)`
  abbrev pub keys : Dict V → List Text
  keys [] = []
  keys ((k, v) ∷ d) = k ∷ keys d

  -- `key in d`
  abbrev pub has_key : Text → Dict V → Bool
  has_key key d = any (λ k. text_eq k key) (keys d)

  pub lookup-insert :
      (j k : Text) (v : V) (d : Dict V)
      → lookup j (insert k v d) ≡ (if text_eq k j then some v else lookup j d)
  unfolding lookup insert
  lookup-insert j k v [] = refl
  lookup-insert j k v ((i, w) ∷ d) =
      ground (arith, text_eq_iff k j, text_eq_iff i k, text_eq_iff i j, lookup-insert j k v d)

  pub lookup-remove :
      (j k : Text) (d : Dict V) → lookup j (remove k d) ≡ (if text_eq k j then none else lookup j d)
  unfolding lookup remove
  lookup-remove j k [] = ground arith
  lookup-remove j k ((i, w) ∷ d) =
      ground (arith, text_eq_iff k j, text_eq_iff i k, text_eq_iff i j, lookup-remove j k d)

  -- Nothing is found exactly at the keys that the dictionary lacks.
  pub has_key-lookup :
      (key : Text) (d : Dict V)
      → has_key key d ≡ (elim (lookup key d) [ none ↦ false | some _ ↦ true ])
  unfolding lookup
  has_key-lookup key [] = refl
  has_key-lookup key ((k, v) ∷ d) = ground (arith, has_key-lookup key d)

  pub lookup-absent : (key : Text) (d : Dict V) → has_key key d ≡ false → lookup key d ≡ none
  unfolding lookup
  lookup-absent key [] h = refl
  lookup-absent key ((k, v) ∷ d) h = ground (arith, lookup-absent key d)

  -- No key twice, as in an object.
  abbrev pub IsObject : Dict V → Type 0
  IsObject [] = Unit
  IsObject ((k, v) ∷ d) = (has_key k d ≡ false) × IsObject d

  has_key-insert :
      (j k : Text) (v : V) (d : Dict V) → has_key j (insert k v d) ≡ (has_key j d || text_eq k j)
  unfolding insert
  has_key-insert j k v [] = ground arith
  has_key-insert j k v ((i, w) ∷ d) = ground (arith, text_eq_iff i k, has_key-insert j k v d)

  pub insert-IsObject : (k : Text) (v : V) (d : Dict V) → IsObject d → IsObject (insert k v d)
  unfolding insert
  insert-IsObject k v [] h = (refl, tt)
  insert-IsObject k v ((i, w) ∷ d) h = elim (Bool-cases (text_eq i k)) [
    | inl same ↦ rw same h
    | inr other ↦ rw other (
      has_key-insert i k v d ∙ ground (arith, h.0, text_eq_iff i k, text_eq_iff k i),
      insert-IsObject k v d h.1,
    )
  ]
