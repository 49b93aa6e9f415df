-- ===== src/Retrieval/Chunking.antt =====
-- `_section_chunks` and `_split_oversized_paragraph` of rag/chunking.py.
use self_healing_kafka_syste.Base.{
  ℕ, zero, suc, ◌+◌, ◌-◌, ◌/◌, min, max, Bool, false, ◌&&◌, ◌||◌, not, List, [], ◌∷◌, ◌++◌, map,
  ltb, leb, ◌==◌, if◌then◌else◌, length, all, is_empty, keep_if,
}
use self_healing_kafka_syste.Base.Text.{Text, is_space, starts_with, strip}

-- `s[:n]` and `s[n:]`.
abbrev pub take : ℕ → Text → Text
take zero s = []
take (suc n) [] = []
take (suc n) (c ∷ s) = c ∷ take n s

abbrev pub drop : ℕ → Text → Text
drop zero s = s
drop (suc n) [] = []
drop (suc n) (c ∷ s) = drop n s

-- One more than `s.rfind(sub, 0, limit)`, for a `sub` that is not empty.
unfoldable pub rfind_end : Text → ℕ → Text → ℕ
rfind_end sub limit [] = 0
rfind_end sub limit (c ∷ s) =
    let later = rfind_end sub (limit - 1) s in
    if ltb 0 later
    then suc later
    else if leb (length sub) limit && starts_with sub (c ∷ s)
    then 1
    else 0

-- Where `str.splitlines()` ends a line; a carriage return takes a line feed along.
abbrev pub is_line_end : ℕ → Bool
is_line_end c =
    (leb 10 c && leb c 13) || (leb 28 c && leb c 30) || c == 133 || c == 8232 || c == 8233

abbrev pub onto_first : ℕ → List Text → List Text
onto_first c [] = (c ∷ []) ∷ []
onto_first c (l ∷ ls) = (c ∷ l) ∷ ls

-- `s.splitlines()`; `after_return` says that a carriage return came just before.
unfoldable pub splitlines_after : Bool → Text → List Text
splitlines_after after_return [] = []
splitlines_after after_return (c ∷ s) =
    let rest = splitlines_after (c == 13) s in
    if after_return && c == 10 then rest else if is_line_end c then [] ∷ rest else onto_first c rest

-- `x for x in (item.strip() for item in items) if x`.
abbrev pub strip_all : List Text → List Text
strip_all items = keep_if (λ s. not (is_empty s)) (map strip items)

unfoldable pub boundary_of : ℕ → Text → ℕ
boundary_of limit s =
    let last = max (rfind_end (46 ∷ 32 ∷ []) limit s) (rfind_end (32 ∷ []) limit s) in
    if leb (suc (limit / 2)) last then last else limit

-- The loop of `_split_oversized_paragraph`. For a limit above zero each round shortens the text, so its
-- length is enough fuel, and the first clause is met with an empty text only; for a limit of zero the loop
-- of the source does not end, and nothing is claimed.
unfoldable pub split_loop : ℕ → ℕ → Text → List Text
unfolding boundary_of
split_loop zero limit remaining = if is_empty remaining then [] else remaining ∷ []
split_loop (suc fuel) limit remaining =
    let boundary = boundary_of limit remaining in
    let rest = split_loop fuel limit (strip (drop boundary remaining)) in
    if ltb limit (length remaining)
    then strip (take boundary remaining) ∷ rest
    else if is_empty remaining
    then []
    else remaining ∷ []

abbrev pub fits : ℕ → Text → Bool
fits limit s = leb (length s) limit

unfoldable pub split_oversized_paragraph : ℕ → Text → List Text
unfolding splitlines_after split_loop
split_oversized_paragraph limit paragraph =
    let lines = strip_all (splitlines_after false paragraph) in
    if fits limit paragraph
    then paragraph ∷ []
    else if ltb 1 (length lines) && all (fits limit) lines
    then lines
    else split_loop (length paragraph) limit paragraph

-- How much of a text is the rest of a blank line, up to the last line feed in its leading spaces.
unfoldable pub blank_length : Text → ℕ
blank_length [] = 0
blank_length (c ∷ s) =
    let later = blank_length s in
    if not (is_space c) then 0 else if ltb 0 later then suc later else if c == 10 then 1 else 0

-- `re.split(r"\n\s*\n", s)`, with so many characters to pass over.
unfoldable pub split_blank_lines : ℕ → Text → List Text
unfolding blank_length
split_blank_lines n [] = [] ∷ []
split_blank_lines (suc n) (c ∷ s) = split_blank_lines n s
split_blank_lines zero (c ∷ s) =
    let blank = if c == 10 then blank_length s else 0 in
    let rest = split_blank_lines blank s in if ltb 0 blank then [] ∷ rest else onto_first c rest

-- `"\n\n".join(pieces)`.
unfoldable pub join : List Text → Text
join [] = []
join (p ∷ []) = p
join (p ∷ q ∷ ps) = p ++ (10 ∷ 10 ∷ join (q ∷ ps))

abbrev pub flush : List Text → List Text → List Text
flush [] later = later
flush (p ∷ current) later = join (p ∷ current) ∷ later

-- The loop of `_section_chunks` over the pieces, with `current` and `current_size`.
unfoldable pub gather : ℕ → List Text → List Text → ℕ → List Text
unfolding join
gather limit [] current size = flush current []
gather limit (piece ∷ pieces) current size =
    let extra = length piece + (if is_empty current then 0 else 2) in
    let full = not (is_empty current) && ltb limit (size + extra) in
    let rest =
      gather limit pieces (if full then piece ∷ [] else current ++ (piece ∷ []))
        (if full then length piece else size + extra) in
    if full then join current ∷ rest else rest

abbrev pub concat : List (List Text) → List Text
concat [] = []
concat (ps ∷ pss) = ps ++ concat pss

unfoldable pub body_limit : ℕ → ℕ
body_limit max_chars = max_chars - min 300 (max_chars / 3)

abbrev pub or_start : ℕ → Text → List Text → List Text
or_start limit s [] = take limit s ∷ []
or_start limit s (c ∷ chunks) = c ∷ chunks

unfoldable pub pieces_of : ℕ → Text → List Text
unfolding split_blank_lines split_oversized_paragraph
pieces_of limit s =
    concat (map (split_oversized_paragraph limit) (strip_all (split_blank_lines 0 s)))

unfoldable pub section_chunks : ℕ → Text → List Text
unfolding body_limit gather pieces_of
section_chunks max_chars s =
    let limit = body_limit max_chars in or_start limit s (gather limit (pieces_of limit s) [] 0)
