-- ===== src/Retrieval/Bounds.antt =====
-- The chunks of a section are within their bound.
use self_healing_kafka_syste.Base.{
  ℕ, zero, suc, ◌+◌, ◌-◌, ◌/◌, ◌≤◌, ◌<◌, min, Bool, true, false, ◌&&◌, List, [], ◌∷◌, ◌++◌, map,
  ◌≡◌, refl, ltb, if◌then◌else◌, length, length-append, all, is_empty, All, All-append, arith,
}
use self_healing_kafka_syste.Base.Text.{Text, is_space, keep_head, strip, skip_spaces, drop_spaces}
use self_healing_kafka_syste.Retrieval.Chunking.{
  take, drop, rfind_end, boundary_of, split_loop, fits, split_oversized_paragraph, strip_all,
  splitlines_after, join, gather, concat, body_limit, or_start, pieces_of, split_blank_lines,
  section_chunks,
}

abbrev pub IsWithin : ℕ → Text → Type 0
IsWithin limit s = length s ≤ limit

length-take : (n : ℕ) (s : Text) → length (take n s) ≤ n
length-take zero s = omega arith
length-take (suc n) [] = omega arith
length-take (suc n) (c ∷ s) = omega (arith, length-take n s)

length-drop : (n : ℕ) (s : Text) → length (drop n s) ≡ length s - n
length-drop zero s = omega arith
length-drop (suc n) [] = omega arith
length-drop (suc n) (c ∷ s) = omega (arith, length-drop n s)

length-skip_spaces : (s : Text) → length (skip_spaces s) ≤ length s
unfolding skip_spaces
length-skip_spaces [] = omega arith
length-skip_spaces (c ∷ s) = by_space (length-skip_spaces s) (is_space c)
  where
    by_space :
        length (skip_spaces s) ≤ length s
        → (b : Bool) → length (if b then skip_spaces s else c ∷ s) ≤ suc (length s)
    by_space ih true = omega (arith, ih)
    by_space ih false = omega arith

length-drop_spaces : (s : Text) → length (drop_spaces s) ≤ length s
unfolding drop_spaces
length-drop_spaces [] = omega arith
length-drop_spaces (c ∷ s) = by_rest (drop_spaces s) (length-drop_spaces s)
  where
    by_rest : (t : Text) → length t ≤ length s → length (keep_head c t) ≤ suc (length s)
    by_rest [] h = by_space (is_space c)
      where
        by_space : (b : Bool) → length (if b then [] else c ∷ []) ≤ suc (length s)
        by_space true = omega arith
        by_space false = omega arith
    by_rest (d ∷ t) h = omega (arith, h)

length-strip : (s : Text) → length (strip s) ≤ length s
unfolding strip
length-strip s = omega (arith, length-skip_spaces (drop_spaces s), length-drop_spaces s)

rfind_end-le : (sub : Text) (limit : ℕ) (s : Text) → 0 < length sub → rfind_end sub limit s ≤ limit
unfolding rfind_end
rfind_end-le sub limit [] h = omega arith
rfind_end-le sub limit (c ∷ s) h = ground (arith, rfind_end-le sub (limit - 1) s h, h)

boundary_of-lem :
    (limit : ℕ) (s : Text) → 0 < limit → (0 < boundary_of limit s) × (boundary_of limit s ≤ limit)
unfolding boundary_of
boundary_of-lem limit s h = ground (
  arith,
  rfind_end-le (46 ∷ 32 ∷ []) limit s (omega arith),
  rfind_end-le (32 ∷ []) limit s (omega arith),
  h,
)

fits-all : (limit : ℕ) (ls : List Text) → all (fits limit) ls ≡ true → All (IsWithin limit) ls
fits-all limit [] h = tt
fits-all limit (l ∷ ls) h = (ground (arith, h), fits-all limit ls (ground (arith, h)))

-- A round of the loop leaves a shorter text.
pub length-rest :
    (limit : ℕ) (s : Text)
    → 0 < limit
    → ltb limit (length s) ≡ true
    → length (strip (drop (boundary_of limit s) s)) < length s
length-rest limit s h longer =
    let n = boundary_of limit s in
    let (some_taken, n_le) = boundary_of-lem limit s h in
    ground (arith, longer, some_taken, length-strip (drop n s), length-drop n s)

split_loop-IsWithin :
    (fuel limit : ℕ) (s : Text)
    → 0 < limit
    → length s ≤ fuel
    → All (IsWithin limit) (split_loop fuel limit s)
unfolding split_loop
split_loop-IsWithin zero limit [] h k = tt
split_loop-IsWithin zero limit (c ∷ s) h k =
    let none_left : ⊥ = omega (arith, k) in elim none_left [ ]
split_loop-IsWithin (suc fuel) limit s h k =
    let n = boundary_of limit s in
    let (some_taken, n_le) = boundary_of-lem limit s h in
    by_length
      (λ (longer : ltb limit (length s) ≡ true).
        split_loop-IsWithin fuel limit (strip (drop n s)) h
          (omega (arith, length-rest limit s h longer, k)))
      (omega (arith, length-strip (take n s), length-take n s, n_le)) (ltb limit (length s)) refl
  where
    last : (t : Text) → length t ≤ limit → All (IsWithin limit) (if is_empty t then [] else t ∷ [])
    last [] e = tt
    last (c ∷ t) e = (e, tt)

    by_length :
        (ltb limit (length s) ≡ true
          → All (IsWithin limit) (split_loop fuel limit (strip (drop (boundary_of limit s) s))))
        → length (strip (take (boundary_of limit s) s)) ≤ limit
        → (b : Bool) → ltb limit (length s) ≡ b
        → All (IsWithin limit) (
            if b
            then strip (take (boundary_of limit s) s)
              ∷ split_loop fuel limit (strip (drop (boundary_of limit s) s))
            else if is_empty s
            then []
            else s ∷ [])
    by_length rest piece true e = (piece, rest e)
    by_length rest piece false e = last s (ground (arith, e))

-- Every piece of a paragraph is within the limit, whatever the paragraph is.
pub split_oversized_paragraph-IsWithin :
    (limit : ℕ) (s : Text) → 0 < limit → All (IsWithin limit) (split_oversized_paragraph limit s)
unfolding split_oversized_paragraph
split_oversized_paragraph-IsWithin limit s h =
    by_fit (fits limit s) refl (ltb 1 (length (strip_all (splitlines_after false s))))
      (all (fits limit) (strip_all (splitlines_after false s))) refl
  where
    by_fit :
        (a : Bool)
        → fits limit s ≡ a
        → (b c : Bool) → all (fits limit) (strip_all (splitlines_after false s)) ≡ c
        → All (IsWithin limit) (
            if a
            then s ∷ []
            else if b && c
            then strip_all (splitlines_after false s)
            else split_loop (length s) limit s)
    by_fit true e b c k = (ground (arith, e), tt)
    by_fit false e true true k = fits-all limit _ k
    by_fit false e true false k = split_loop-IsWithin (length s) limit s h (omega arith)
    by_fit false e false c k = split_loop-IsWithin (length s) limit s h (omega arith)

join-append :
    (p : Text) (ps : List Text) (q : Text)
    → length (join ((p ∷ ps) ++ (q ∷ []))) ≡ length (join (p ∷ ps)) + (length q + 2)
unfolding join
join-append p [] q = omega (arith, length-append p (10 ∷ 10 ∷ q))
join-append p (r ∷ ps) q = omega (
  arith,
  length-append p (10 ∷ 10 ∷ join ((r ∷ ps) ++ (q ∷ []))),
  length-append p (10 ∷ 10 ∷ join (r ∷ ps)),
  join-append r ps q,
)

gather-IsWithin :
    (limit : ℕ) (pieces current : List Text) (size : ℕ)
    → All (IsWithin limit) pieces
    → length (join current) ≡ size
    → size ≤ limit
    → All (IsWithin limit) (gather limit pieces current size)
unfolding gather
gather-IsWithin limit [] [] size h e k = tt
gather-IsWithin limit [] (p ∷ current) size h e k = (omega (arith, e, k), tt)
gather-IsWithin limit (piece ∷ pieces) [] size h e k =
    gather-IsWithin limit pieces (piece ∷ []) (size + (length piece + 0)) h.1
      (omega (arith, empty_size e)) (omega (arith, empty_size e, h.0))
  where
    empty_size : length (join []) ≡ size → 0 ≡ size
    empty_size e = e
gather-IsWithin limit (piece ∷ pieces) (p ∷ current) size h e k =
    by_room (λ now n. gather-IsWithin limit pieces now n h.1)
      (ltb limit (size + (length piece + 2))) refl
  where
    rest : Bool → List Text
    rest full =
        gather limit pieces (if full then piece ∷ [] else (p ∷ current) ++ (piece ∷ []))
          (if full then length piece else size + (length piece + 2))

    by_room :
        ((now : List Text) (n : ℕ)
          → length (join now) ≡ n
          → n ≤ limit
          → All (IsWithin limit) (gather limit pieces now n))
        → (b : Bool) → ltb limit (size + (length piece + 2)) ≡ b
        → All (IsWithin limit) (if b then join (p ∷ current) ∷ rest b else rest b)
    by_room ih true r = (omega (arith, e, k), ih (piece ∷ []) (length piece) refl h.0)
    by_room ih false r =
        ih ((p ∷ current) ++ (piece ∷ [])) (size + (length piece + 2))
          (omega (arith, join-append p current piece, e)) (ground (arith, r))

concat-IsWithin :
    (limit : ℕ) (ps : List Text)
    → 0 < limit
    → All (IsWithin limit) (concat (map (split_oversized_paragraph limit) ps))
concat-IsWithin limit [] h = tt
concat-IsWithin limit (p ∷ ps) h =
    All-append (IsWithin limit) (split_oversized_paragraph limit p) _
      (split_oversized_paragraph-IsWithin limit p h) (concat-IsWithin limit ps h)

-- For a maximum above zero, every chunk of a section leaves room for a header of 300 characters, or of a
-- third of the maximum if that is less.
pub section_chunks-IsWithin :
    (max_chars : ℕ) (s : Text)
    → 0 < max_chars
    → All (λ chunk. length chunk + min 300 (max_chars / 3) ≤ max_chars) (section_chunks max_chars s)
unfolding section_chunks body_limit
section_chunks-IsWithin max_chars s h =
    by_chunks
      (gather (max_chars - min 300 (max_chars / 3))
        (pieces_of (max_chars - min 300 (max_chars / 3)) s) [] 0)
      (gather-IsWithin (max_chars - min 300 (max_chars / 3)) _ [] 0 within refl (omega arith))
  where
    within :
        All
          (IsWithin (max_chars - min 300 (max_chars / 3)))
          (pieces_of (max_chars - min 300 (max_chars / 3)) s)
    within =
        concat-IsWithin (max_chars - min 300 (max_chars / 3)) (strip_all (split_blank_lines 0 s))
          (omega (arith, h))

    by_chunks :
        (cs : List Text)
        → All (IsWithin (max_chars - min 300 (max_chars / 3))) cs
        → All
            (λ chunk. length chunk + min 300 (max_chars / 3) ≤ max_chars)
            (or_start (max_chars - min 300 (max_chars / 3)) s cs)
    by_chunks [] k = (omega (arith, length-take (max_chars - min 300 (max_chars / 3)) s), tt)
    by_chunks (c ∷ cs) k = roomy (c ∷ cs) k
      where
        roomy :
            (ds : List Text)
            → All (IsWithin (max_chars - min 300 (max_chars / 3))) ds
            → All (λ chunk. length chunk + min 300 (max_chars / 3) ≤ max_chars) ds
        roomy [] k = tt
        roomy (d ∷ ds) k = (omega (arith, k.0), roomy ds k.1)
