-- ===== src/Migration/Names.antt =====
-- src/migration/type.mapper.ts: the names of tables, columns and fields. Letters have a case only in
-- ASCII here.
pub mod Snake
use dbdock.Base.{
  ℕ, ◌+◌, ◌-◌, ◌==◌, leb, length, take, is_space, Text, codes, ends_with, Bool, true, false, ◌&&◌,
  ◌||◌, not, [], ◌∷◌, ◌++◌, map, any, if◌then◌else◌,
}

-- `[a-z]` and `[A-Z]`
abbrev pub is_lower : ℕ → Bool
is_lower c = leb 97 c && leb c 122

abbrev pub is_upper : ℕ → Bool
is_upper c = leb 65 c && leb c 90

abbrev pub lower_char : ℕ → ℕ
lower_char c = if is_upper c then c + 32 else c

-- `s.toLowerCase()`
abbrev pub to_lower : Text → Text
to_lower s = map lower_char s

-- `.replace(/([a-z])([A-Z])/g, '$1_$2')`
unfoldable pub split_humps : Text → Text
split_humps [] = []
split_humps (c ∷ []) = c ∷ []
split_humps (c ∷ d ∷ s) =
    let rest = split_humps (d ∷ s) in if is_lower c && is_upper d then c ∷ 95 ∷ rest else c ∷ rest

-- `[\s\-.]`
abbrev pub is_break : ℕ → Bool
is_break c = is_space c || c == 45 || c == 46

-- `.replace(/[\s\-.]+/g, '_')`; the flag says that a run has been replaced.
unfoldable pub join_breaks : Bool → Text → Text
join_breaks in_run [] = []
join_breaks in_run (c ∷ s) =
    let after = join_breaks true s in
    let word = join_breaks false s in
    if is_break c then (if in_run then after else 95 ∷ after) else c ∷ word

-- `toSnakeCase`
unfoldable pub to_snake_case : Text → Text
unfolding split_humps join_breaks is_space
to_snake_case s = to_lower (join_breaks false (split_humps s))

-- `toCamelCase` of mappers/postgres-to-mongo.mapper.ts
unfoldable pub to_camel_case : Text → Text
to_camel_case [] = []
to_camel_case (c ∷ []) = c ∷ []
to_camel_case (c ∷ d ∷ s) =
    let joined = to_camel_case s in
    let plain = to_camel_case (d ∷ s) in
    if c == 95 && is_lower d then (d - 32) ∷ joined else c ∷ plain

-- `word.slice(0, -n)`
abbrev pub drop_last : ℕ → Text → Text
drop_last n word = take (length word - n) word

-- `singularize`
unfoldable pub singularize : Text → Text
singularize word =
    if ends_with word (codes "ies")
    then drop_last 3 word ++ codes "y"
    else if ends_with word (codes "ses")
        || ends_with word (codes "xes")
        || ends_with word (codes "zes")
    then drop_last 2 word
    else if ends_with word (codes "s") && not (ends_with word (codes "ss"))
    then drop_last 1 word
    else word

-- `/[aeiou]y$/`
abbrev pub ends_in_vowel_y : Text → Bool
ends_in_vowel_y word =
    any (ends_with word) (codes "ay" ∷ codes "ey" ∷ codes "iy" ∷ codes "oy" ∷ codes "uy" ∷ [])

-- `pluralize`
unfoldable pub pluralize : Text → Text
pluralize word =
    if ends_with word (codes "y") && not (ends_in_vowel_y word)
    then drop_last 1 word ++ codes "ies"
    else if any (ends_with word) (codes "s" ∷ codes "x" ∷ codes "z" ∷ codes "ch" ∷ codes "sh" ∷ [])
    then word ++ codes "es"
    else word ++ codes "s"
