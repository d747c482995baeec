-- ===== src/Migration/Names/Snake.antt =====
-- src/migration/type.mapper.ts: what `toSnakeCase` makes of a name.
use dbdock.Base.{
  ℕ, is_space, Text, ◌≡◌, refl, ap, ◌∙◌, Bool, true, false, [], ◌∷◌, All, arith, Bool-cases, inl,
  inr,
}
use dbdock.Migration.Names.{
  is_upper, lower_char, to_lower, split_humps, is_break, join_breaks, to_snake_case,
}

-- Neither a capital nor what is replaced by an underscore.
abbrev pub IsSnake : Text → Type 0
IsSnake s = All (λ c. (is_upper c ≡ false) × (is_break c ≡ false)) s

split_humps-IsSnake : (s : Text) → IsSnake s → split_humps s ≡ s
unfolding split_humps
split_humps-IsSnake [] h = refl
split_humps-IsSnake (c ∷ []) h = refl
split_humps-IsSnake (c ∷ d ∷ s) h = ground (arith, split_humps-IsSnake (d ∷ s) h.1)

join_breaks-IsSnake : (b : Bool) (s : Text) → IsSnake s → join_breaks b s ≡ s
unfolding join_breaks
join_breaks-IsSnake b [] h = refl
join_breaks-IsSnake b (c ∷ s) h = rw h.0.1 (ap (λ t. c ∷ t) (join_breaks-IsSnake false s h.1))

to_lower-IsSnake : (s : Text) → IsSnake s → to_lower s ≡ s
to_lower-IsSnake [] h = refl
to_lower-IsSnake (c ∷ s) h = rw h.0.0 (ap (λ t. c ∷ t) (to_lower-IsSnake s h.1))

lower_char-snake :
    (c : ℕ)
    → is_break c ≡ false
    → (is_upper (lower_char c) ≡ false) × (is_break (lower_char c) ≡ false)
unfolding is_space
lower_char-snake c h = ground arith

to_lower-join_breaks : (b : Bool) (s : Text) → IsSnake (to_lower (join_breaks b s))
unfolding join_breaks is_space
to_lower-join_breaks b [] = tt
to_lower-join_breaks true (c ∷ s) = elim (Bool-cases (is_break c)) [
  | inl gap ↦ rw gap (to_lower-join_breaks true s)
  | inr word ↦ rw word (lower_char-snake c word, to_lower-join_breaks false s)
]
to_lower-join_breaks false (c ∷ s) = elim (Bool-cases (is_break c)) [
  | inl gap ↦ rw gap ((refl, refl), to_lower-join_breaks true s)
  | inr word ↦ rw word (lower_char-snake c word, to_lower-join_breaks false s)
]

-- A name in snake case has no capital, no white space, no dash and no dot, and to put it in snake case
-- again changes nothing: the column that is made of a column's name is that column.
pub to_snake_case-to_snake_case :
    (s : Text) → IsSnake (to_snake_case s) × (to_snake_case (to_snake_case s) ≡ to_snake_case s)
unfolding to_snake_case
to_snake_case-to_snake_case s = again (to_lower-join_breaks false (split_humps s))
  where
    again : {t : Text} → IsSnake t → IsSnake t × (to_lower (join_breaks false (split_humps t)) ≡ t)
    again {t} h = (
      h,
      ap (λ u. to_lower (join_breaks false u)) (split_humps-IsSnake t h)
          ∙ ap to_lower (join_breaks-IsSnake false t h)
          ∙ to_lower-IsSnake t h,
    )
