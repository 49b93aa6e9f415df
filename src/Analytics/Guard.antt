-- ===== src/Analytics/Guard.antt =====
-- `is_read_only_incident_query` of semantic/tsql.py.
use self_healing_kafka_syste.Base.{
  ℕ, zero, suc, ◌+◌, ◌-◌, Bool, true, false, ◌&&◌, not, List, [], ◌∷◌, ◌++◌, leb, ltb, ◌==◌,
  if◌then◌else◌, count_if, any, map,
}
use self_healing_kafka_syste.Base.Text.{Text, is_space, starts_with, has_infix, strip}
use self_healing_kafka_syste.Effect.Exn.{text}
use self_healing_kafka_syste.Analytics.Source.{IncidentFactSource}

-- `str.upper()` of ASCII text, which statements are.
abbrev pub upper : Text → Text
upper s = map (λ c. if leb 97 c && leb c 122 then c - 32 else c) s

-- Runs of white space become one space each.
unfoldable pub squeeze : Bool → Text → Text
squeeze after_space [] = []
squeeze after_space (c ∷ s) =
    let rest = squeeze (is_space c) s in
    if is_space c then (if after_space then rest else 32 ∷ rest) else c ∷ rest

-- `" ".join(statement.upper().split())`.
unfoldable pub normalized : Text → Text
unfolding squeeze
normalized s = squeeze false (strip (upper s))

abbrev pub starts_quote : Text → Bool
starts_quote [] = false
starts_quote (c ∷ s) = c == 39

-- After a quote, how far its literal goes; zero if it is not closed. Two quotes in a row stand for one,
-- unless the literal could not be closed then. The second number is that of the rest of the text.
unfoldable pub literal_lengths : Text → ℕ × ℕ
literal_lengths [] = (0, 0)
literal_lengths (c ∷ s) =
    let (next, doubled) = literal_lengths s in
    (
      if c == 39
          then (if starts_quote s && ltb 0 doubled then 2 + doubled else 1)
          else if ltb 0 next
          then suc next
          else 0,
      next,
    )

-- How long the literal is that starts with the first character.
abbrev pub quoted_length : Text → ℕ
quoted_length [] = 0
quoted_length (c ∷ s) = elim (c == 39) [
  | true ↦ (let n = (literal_lengths s).0 in if ltb 0 n then suc n else 0)
  | false ↦ 0
]

abbrev pub literal_at : Text → ℕ
literal_at [] = 0
literal_at (c ∷ s) = elim (c == 78) [
  | true ↦ (let n = quoted_length s in if ltb 0 n then suc n else 0)
  | false ↦ quoted_length (c ∷ s)
]

-- `re.sub(r"N?'(?:''|[^'])*'", "''", s)`, with so many characters to pass over.
unfoldable pub without_literals : ℕ → Text → Text
unfolding literal_lengths
without_literals n [] = []
without_literals (suc n) (c ∷ s) = without_literals n s
without_literals zero (c ∷ s) =
    let n = literal_at (c ∷ s) in
    let rest = without_literals (n - 1) s in if ltb 0 n then 39 ∷ 39 ∷ rest else c ∷ rest

abbrev pub banned : List Text
banned =
    text " INSERT "
    ∷ text " UPDATE "
    ∷ text " DELETE "
    ∷ text " MERGE "
    ∷ text " DROP "
    ∷ text " ALTER "
    ∷ text " CREATE "
    ∷ text " EXEC "
    ∷ text " TRUNCATE "
    ∷ []

unfoldable pub is_read_only_incident_query : Text → IncidentFactSource → Bool
unfolding normalized without_literals
is_read_only_incident_query statement source =
    let s = normalized statement in
    starts_with (text "WITH [FILTERED] AS") s
    && has_infix (text "FROM " ++ upper source.qualified_name) s
    && not (any (λ word. has_infix word s) banned)
    && count_if (λ c. c == 59) (without_literals 0 s) == 1
