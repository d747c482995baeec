-- ===== src/Schedules/Cron.antt =====
-- src/scheduler/schedule-manager.ts: `validateCronExpression`.
use dbdock.Base.{
  ℕ, ◌+◌, ◌-◌, ◌*◌, ◌==◌, ltb, leb, Text, codes, text_eq, includes, is_space, trim, Bool, false,
  ◌&&◌, ◌||◌, Option, none, some, List, [], ◌∷◌, length, not, if◌then◌else◌,
}

pub record Range : Type 0 where
  pub name : Text
  pub min : ℕ
  pub max : ℕ

pub data CronError : Type 0 where
  parts_expected : CronError
  not_a_number : Text → Text → CronError
  out_of_range : Text → CronError

abbrev pub valid_ranges : List Range
valid_ranges =
    record { name = codes "minute"; min = 0; max = 59 }
    ∷ record { name = codes "hour"; min = 0; max = 23 }
    ∷ record { name = codes "day"; min = 1; max = 31 }
    ∷ record { name = codes "month"; min = 1; max = 12 }
    ∷ record { name = codes "weekday"; min = 0; max = 7 }
    ∷ []

abbrev pub starts_space : Text → Bool
starts_space [] = false
starts_space (c ∷ s) = is_space c

abbrev pub prepend : ℕ → List Text → List Text
prepend c [] = (c ∷ []) ∷ []
prepend c (word ∷ words) = (c ∷ word) ∷ words

-- `s.split(/\s+/)`: a run of spaces parts two words, of which one may be empty at an end.
unfoldable pub split_spaces : Text → List Text
split_spaces [] = [] ∷ []
split_spaces (c ∷ s) =
    let rest = split_spaces s in
    if is_space c then (if starts_space s then rest else [] ∷ rest) else prepend c rest

-- The value of a digit below `base`, ten or sixteen.
abbrev pub digit : ℕ → ℕ → Option ℕ
digit base c =
    if leb b'0' c && leb c b'9'
    then some (c - b'0')
    else if leb b'a' c && leb c b'f' && (base == 16)
    then some (c - b'a' + 10)
    else if leb b'A' c && leb c b'F' && (base == 16)
    then some (c - b'A' + 10)
    else none

-- The longest prefix of digits, after `so_far`.
unfoldable pub digits : ℕ → Option ℕ → Text → Option ℕ
digits base so_far [] = so_far
digits base so_far (c ∷ s) = elim (digit base c) [
  | none ↦ so_far
  | some d ↦ digits base (some (elim so_far [ none ↦ d | some n ↦ n * base + d ])) s
]

abbrev pub without_plus : Text → Text
without_plus [] = []
without_plus (c ∷ s) = if c == b'+' then s else c ∷ s

abbrev pub radix : Text → Option ℕ
radix [] = none
radix (a ∷ []) = digits 10 none (a ∷ [])
radix (a ∷ b ∷ s) =
    if (a == b'0') && ((b == b'x') || (b == b'X'))
    then digits 16 none s
    else digits 10 none (a ∷ b ∷ s)

-- `parseInt` of a text with no space and no minus sign; `none` is `NaN`.
unfoldable pub parse_int : Text → Option ℕ
unfolding digits
parse_int part = radix (without_plus part)

abbrev pub check_number : Text → Range → Option ℕ → Option CronError
check_number part range none = some (not_a_number part range.name)
check_number part range (some num) =
    if ltb num range.min || ltb range.max num then some (out_of_range range.name) else none

-- The callback of `forEach`.
unfoldable pub check_part : Text → Range → Option CronError
check_part part range =
    if text_eq part (codes "*")
      || includes part (codes "-")
      || includes part (codes ",")
      || includes part (codes "/")
    then none
    else check_number part range (parse_int part)

abbrev pub first_error : Option CronError → Option CronError → Option CronError
first_error none later = later
first_error (some e) later = some e

unfoldable pub check_parts : List Text → List Range → Option CronError
check_parts [] ranges = none
check_parts (part ∷ parts) [] = none
check_parts (part ∷ parts) (range ∷ ranges) =
    first_error (check_part part range) (check_parts parts ranges)

-- `validateCronExpression`: `none` where it returns, else what it throws.
unfoldable pub validate_cron_expression : Text → Option CronError
validate_cron_expression cron =
    let parts = split_spaces (trim cron) in
    if not (length parts == 5) then some parts_expected else check_parts parts valid_ranges
