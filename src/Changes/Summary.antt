-- ===== src/Changes/Summary.antt =====
-- src/changes/schema-summary.ts and src/changes/metadata.ts: the texts of a record. The regular
-- expressions are read by functions that take the same steps; letters have a case in ASCII only.
pub mod Safe
pub mod Digits
pub mod Tests
use dbdock.Base.{
  ℕ, zero, suc, ◌+◌, ◌/◌, ◌==◌, ltb, leb, length, Text, String, codes, text_eq, includes, Bool,
  true, false, ◌&&◌, ◌||◌, not, Option, none, some, List, [], ◌∷◌, ◌++◌, filter, any, all,
  if◌then◌else◌,
}
use Prim.Native.Nat.{◌%◌}
use dbdock.Cloud.Dict.{Dict, lookup, has_key}
use dbdock.Migration.Names.{to_lower, is_lower, is_upper}

pub record SchemaSnapshot : Type 0 where
  pub tables : List Text
  pub columns : Dict Text

-- The five numbers of `schemaSummary`.
pub record SchemaChanges : Type 0 where
  pub added_tables : ℕ
  pub removed_tables : ℕ
  pub added_columns : ℕ
  pub removed_columns : ℕ
  pub changed_columns : ℕ

abbrev not_among : List Text → Text → Bool
not_among names name = not (any (λ n. text_eq n name) names)

abbrev same_type : Option Text → Option Text → Bool
same_type none none = true
same_type none (some t) = false
same_type (some s) none = false
same_type (some s) (some t) = text_eq s t

unfoldable pub changes_of : SchemaSnapshot → SchemaSnapshot → SchemaChanges
changes_of before after = record {
  added_tables = length (filter (not_among before.tables) after.tables);
  removed_tables = length (filter (not_among after.tables) before.tables);
  added_columns = length (filter (λ e. not (has_key e.0 before.columns)) after.columns);
  removed_columns = length (filter (λ e. not (has_key e.0 after.columns)) before.columns);
  changed_columns = length (
      filter
        (λ e.
          has_key e.0 before.columns
          && not (same_type (lookup e.0 before.columns) (lookup e.0 after.columns)))
        after.columns);
}

-- A number in a template: its decimal digits. The fuel is the number of digits at most.
unfoldable pub decimal_from : ℕ → ℕ → Text
decimal_from zero n = []
decimal_from (suc k) n =
    let front = decimal_from k (n / 10) in
    if ltb n 10 then (48 + n) ∷ [] else front ++ (48 + n % 10) ∷ []

abbrev pub decimal : ℕ → Text
decimal n = decimal_from (suc n) n

-- `count(number, noun, verb)`, where the noun has its blank.
abbrev pub count_text : ℕ → String → String → Text
count_text n noun verb =
    decimal n ++ (codes noun ++ ((if n == 1 then [] else codes "s") ++ codes verb))

unfoldable pub changes_text : SchemaChanges → Text
changes_text c =
    codes "Schema changes: "
    ++ (count_text c.added_tables " table" " added"
        ++ (codes ", "
            ++ (count_text c.removed_tables " table" " removed"
                ++ (codes ", "
                    ++ (count_text c.added_columns " column" " added"
                        ++ (codes ", "
                            ++ (count_text c.removed_columns " column" " removed"
                                ++ (codes ", "
                                    ++ count_text c.changed_columns " column" " changed"))))))))

abbrev pub is_unchanged : SchemaChanges → Bool
is_unchanged c =
    c.added_tables == 0
    && c.removed_tables == 0
    && c.added_columns == 0
    && c.removed_columns == 0
    && c.changed_columns == 0

-- `schemaSummary`
unfoldable pub schema_summary : SchemaSnapshot → SchemaSnapshot → Option Text
schema_summary before after =
    let c = changes_of before after in if is_unchanged c then none else some (changes_text c)

-- Steps of a regular expression: what is left behind a literal, behind `\d+`, behind `s?`.
unfoldable pub strip : Text → Text → Option Text
strip [] s = some s
strip (p ∷ pattern) [] = none
strip (p ∷ pattern) (c ∷ s) = let rest = strip pattern s in if c == p then rest else none

abbrev pub is_digit : ℕ → Bool
is_digit c = leb 48 c && leb c 57

unfoldable pub skip_digits : Text → Text
skip_digits [] = []
skip_digits (c ∷ s) = let rest = skip_digits s in if is_digit c then rest else c ∷ s

abbrev pub strip_number : Text → Option Text
strip_number [] = none
strip_number (c ∷ s) = if is_digit c then some (skip_digits s) else none

abbrev pub skip_s : Text → Text
skip_s [] = []
skip_s (c ∷ s) = if c == 115 then s else c ∷ s

abbrev pub and_then : Option Text → (Text → Option Text) → Option Text
and_then none f = none
and_then (some s) f = f s

-- `\d+ tables? added` and the like.
abbrev pub strip_count : String → String → Text → Option Text
strip_count noun verb s =
    and_then (strip_number s)
      (λ s. and_then (strip (codes noun) s) (λ s. strip (codes verb) (skip_s s)))

abbrev pub is_end : Option Text → Bool
is_end none = false
is_end (some []) = true
is_end (some (c ∷ s)) = false

-- The test for a summary of schema changes.
unfoldable pub is_schema_changes : Text → Bool
is_schema_changes s = is_end (
    and_then (strip (codes "Schema changes: ") s) (λ s.
      and_then (strip_count " table" " added" s) (λ s. and_then (strip (codes ", ") s) (λ s.
        and_then (strip_count " table" " removed" s) (λ s. and_then (strip (codes ", ") s) (λ s.
          and_then (strip_count " column" " added" s) (λ s. and_then (strip (codes ", ") s) (λ s.
            and_then (strip_count " column" " removed" s)
              (λ s. and_then (strip (codes ", ") s) (strip_count " column" " changed"))))))))))

abbrev pub sql_verbs : List Text
sql_verbs =
    codes "CREATE"
    ∷ codes "ALTER"
    ∷ codes "DROP"
    ∷ codes "TRUNCATE"
    ∷ codes "INSERT"
    ∷ codes "UPDATE"
    ∷ codes "DELETE"
    ∷ codes "GRANT"
    ∷ codes "REVOKE"
    ∷ []

-- The first of the alternatives that is a prefix.
unfoldable pub strip_verb : List Text → Text → Option Text
strip_verb [] s = none
strip_verb (v ∷ verbs) s =
    let rest = strip_verb verbs s in elim (strip v s) [ none ↦ rest | some t ↦ some t ]

-- `(, (CREATE|...))*$`, on fuel that the text's length is enough for.
unfoldable pub is_verb_tail : ℕ → Text → Bool
is_verb_tail n [] = true
is_verb_tail zero (c ∷ s) = false
is_verb_tail (suc n) (c ∷ s) = elim (and_then (strip (codes ", ") (c ∷ s)) (strip_verb sql_verbs)) [
  | none ↦ false
  | some t ↦ is_verb_tail n t
]

-- The test for a summary of SQL.
unfoldable pub is_sql_operations : Text → Bool
is_sql_operations s = elim (and_then (strip (codes "SQL operations: ") s) (strip_verb sql_verbs)) [
  | none ↦ false
  | some t ↦ is_verb_tail (length t) t
]

-- `SAFE_SUMMARIES`
abbrev pub safe_summaries : List Text
safe_summaries =
    codes "Run migration command"
    ∷ codes "Run guarded command"
    ∷ codes "Restore checkpoint"
    ∷ codes "Copy database"
    ∷ codes "Run SQL"
    ∷ []

abbrev pub is_fixed : Text → Bool
is_fixed s = any (λ t. text_eq t s) safe_summaries

abbrev pub is_safe_summary : Text → Bool
is_safe_summary s = is_fixed s || (is_schema_changes s || is_sql_operations s)

-- `safeSummary`
unfoldable pub safe_summary : Option Text → Text
safe_summary none = codes "Run guarded command"
safe_summary (some s) = if is_safe_summary s then s else codes "Run guarded command"

-- `\w`
abbrev is_word : ℕ → Bool
is_word c = is_lower c || is_upper c || is_digit c || c == 95

abbrev starts_word : Text → Bool
starts_word [] = false
starts_word (c ∷ s) = is_word c

-- A verb at this place, with a boundary behind it.
abbrev pub word_here : Text → Text → Bool
word_here verb s = elim (strip (to_lower verb) (to_lower s)) [
  | none ↦ false
  | some rest ↦ not (starts_word rest)
]

-- `/\bVERB\b/i`; the flag says that the unit before is of a word.
unfoldable pub has_word : Text → Bool → Text → Bool
has_word verb in_word [] = false
has_word verb in_word (c ∷ s) =
    (not in_word && word_here verb (c ∷ s)) || has_word verb (is_word c) s

-- The verbs behind the first, each after a comma.
abbrev pub tail_text : List Text → Text
tail_text [] = []
tail_text (v ∷ verbs) = codes ", " ++ (v ++ tail_text verbs)

abbrev pub operations_text : List Text → Text
operations_text [] = codes "Run SQL"
operations_text (v ∷ verbs) = codes "SQL operations: " ++ (v ++ tail_text verbs)

-- `sqlSummary`
unfoldable pub sql_summary : Text → Text
sql_summary sql = operations_text (filter (λ v. has_word v false sql) sql_verbs)

-- `RECORD_TEXT_LIMIT`
abbrev pub record_text_limit : ℕ
record_text_limit = 160

-- `[a-zA-Z0-9 ._@/+:-]`
abbrev is_label_char : ℕ → Bool
is_label_char c = is_lower c || is_upper c || is_digit c || any (λ d. c == d) (codes " ._@/+:-")

abbrev looks_secret : Text → Bool
looks_secret s =
    any (λ p. includes (to_lower s) (codes p))
      ("://" ∷ "password" ∷ "secret" ∷ "token=" ∷ "token:" ∷ [])

abbrev pub is_unsafe_label : Text → Bool
is_unsafe_label s = ltb record_text_limit (length s) || not (all is_label_char s) || looks_secret s

-- `safeLabel`; an empty label is none.
unfoldable pub safe_label : Option Text → Text → Text
safe_label none fallback = fallback
safe_label (some []) fallback = fallback
safe_label (some (c ∷ s)) fallback = if is_unsafe_label (c ∷ s) then fallback else c ∷ s
