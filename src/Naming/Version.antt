-- ===== src/Naming/Version.antt =====
-- `next_versioned_connector_name`, `base_connector_name` and `is_versioned_connector_name`. The
-- pattern is `^(.+)\.(\d+)$`: digits hold no dot, so the match is read from the end of the name.
-- `$` also matches before one final newline, and `.` matches no newline.
use self_healing_kafka_syste.Base.{
  ℕ, ◌+◌, Bool, ◌&&◌, not, Option, none, some, [], ◌∷◌, ◌++◌, ◌==◌, if◌then◌else◌, all, length,
  is_some,
}
use self_healing_kafka_syste.Base.Text.{Text}
use self_healing_kafka_syste.Base.Decimal.{is_digit, read_decimal, print_padded}
use mathlib.Core.List.{reverse}

-- The digits at the end of a name, in order, and what precedes them, from its end.
unfoldable pub split_digits : Text → Text → Text × Text
split_digits acc [] = (acc, [])
split_digits acc (c ∷ s) =
    let rest = split_digits (c ∷ acc) s in if is_digit c then rest else (acc, c ∷ s)

abbrev pub no_newline : ℕ → Bool
no_newline c = not (c == 10)

-- The groups of the pattern, from the digits and the reversed rest.
unfoldable pub groups : Text × Text → Option (Text × Text)
groups ([], rest) = none
groups (d ∷ ds, []) = none
groups (d ∷ ds, c ∷ []) = none
groups (d ∷ ds, c ∷ b ∷ base) =
    if c == 46 && all no_newline (b ∷ base) then some (reverse (b ∷ base), d ∷ ds) else none

-- `$` before a final newline.
unfoldable pub drop_newline : Text → Text
drop_newline [] = []
drop_newline (c ∷ s) = if c == 10 then s else c ∷ s

unfoldable pub match_version : Text → Option (Text × Text)
unfolding split_digits groups drop_newline
match_version name = groups (split_digits [] (drop_newline (reverse name)))

-- `f"{base}.{n:0{w}d}"`.
abbrev pub versioned : Text → ℕ → ℕ → Text
versioned base w n = base ++ (46 ∷ print_padded w n)

unfoldable pub next_versioned_connector_name : Text → Text
next_versioned_connector_name name = elim (match_version name) [
  | none ↦ name ++ (46 ∷ 48 ∷ 48 ∷ 49 ∷ [])
  | some (base, digits) ↦ versioned base (length digits) (read_decimal digits + 1)
]

unfoldable pub base_connector_name : Text → Text
base_connector_name name = elim (match_version name) [ none ↦ name | some (base, digits) ↦ base ]

unfoldable pub is_versioned_connector_name : Text → Bool
is_versioned_connector_name name = is_some (match_version name)
