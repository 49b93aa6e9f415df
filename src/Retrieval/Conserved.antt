-- ===== src/Retrieval/Conserved.antt =====
-- No character of a section but white space is lost or moved when it is cut into chunks.
use self_healing_kafka_syste.Base.{
  ℕ, zero, suc, ◌+◌, ◌≤◌, ◌<◌, arith, Bool, true, false, ◌&&◌, not, List, [], ◌∷◌, ◌++◌, map, ◌≡◌,
  refl, sym, ◌∙◌, ap, ltb, ◌==◌, if◌then◌else◌, length, all, is_empty,
}
use mathlib.Core.List.{append_assoc, append-nil}
use self_healing_kafka_syste.Base.Text.{Text, is_space, strip}
use self_healing_kafka_syste.Retrieval.Chunking.{
  take, drop, boundary_of, is_line_end, onto_first, split_loop, fits, split_oversized_paragraph,
  strip_all, splitlines_after, join, flush, gather, concat, body_limit, or_start, pieces_of,
  blank_length, split_blank_lines, section_chunks,
}
use self_healing_kafka_syste.Retrieval.Bounds.{length-rest}
use self_healing_kafka_syste.Retrieval.Visible.{
  visible, visible_all, line_end-space, line_feed-space, visible-space, visible-append,
  visible-strip, visible-take-drop, visible_all-append, visible_all-onto,
}

visible_all-splitlines_after :
    (b : Bool) (s : Text) → visible_all (splitlines_after b s) ≡ visible s
unfolding splitlines_after
visible_all-splitlines_after b [] = refl
visible_all-splitlines_after b (c ∷ s) =
    by_return (visible_all-splitlines_after (c == 13) s) b (c == 10) refl (is_line_end c) refl
  where
    rest : List Text
    rest = splitlines_after (c == 13) s

    by_return :
        visible_all rest ≡ visible s
        → (b x : Bool) → (c == 10) ≡ x
        → (y : Bool) → is_line_end c ≡ y
        → visible_all (if b && x then rest else if y then [] ∷ rest else onto_first c rest)
          ≡ visible (c ∷ s)
    by_return ih true true e y k = ih ∙ sym (visible-space c s (line_feed-space c e))
    by_return ih true false e true k = ih ∙ sym (visible-space c s (line_end-space c k))
    by_return ih true false e false k = visible_all-onto c rest s ih
    by_return ih false x e true k = ih ∙ sym (visible-space c s (line_end-space c k))
    by_return ih false x e false k = visible_all-onto c rest s ih

visible_all-strip_all : (ss : List Text) → visible_all (strip_all ss) ≡ visible_all ss
visible_all-strip_all [] = refl
visible_all-strip_all (s ∷ ss) = by_text (strip s) (visible-strip s) (visible_all-strip_all ss)
  where
    by_text :
        (t : Text)
        → visible t ≡ visible s
        → visible_all (strip_all ss) ≡ visible_all ss
        → visible_all (if not (is_empty t) then t ∷ strip_all ss else strip_all ss)
          ≡ visible s ++ visible_all ss
    by_text [] h ih = ih ∙ ap (λ u. u ++ visible_all ss) h
    by_text (c ∷ t) h ih = rw (h, ih)

visible_all-one : (s : Text) → visible_all (if is_empty s then [] else s ∷ []) ≡ visible s
visible_all-one [] = refl
visible_all-one (c ∷ s) = append-nil (visible (c ∷ s))

visible_all-split_loop :
    (fuel limit : ℕ) (s : Text)
    → 0 < limit
    → length s ≤ fuel
    → visible_all (split_loop fuel limit s) ≡ visible s
unfolding split_loop
visible_all-split_loop zero limit [] h k = refl
visible_all-split_loop zero limit (c ∷ s) h k =
    let none_left : ⊥ = omega (arith, k) in elim none_left [ ]
visible_all-split_loop (suc fuel) limit s h k =
    by_length
      (λ (longer : ltb limit (length s) ≡ true).
        visible_all-split_loop fuel limit (strip (drop (boundary_of limit s) s)) h
          (omega (arith, length-rest limit s h longer, k)))
      (ltb limit (length s)) refl
  where
    n : ℕ
    n = boundary_of limit s

    by_length :
        (ltb limit (length s) ≡ true
          → visible_all (split_loop fuel limit (strip (drop n s))) ≡ visible (strip (drop n s)))
        → (b : Bool) → ltb limit (length s) ≡ b
        → visible_all (
            if b
            then strip (take n s) ∷ split_loop fuel limit (strip (drop n s))
            else if is_empty s
            then []
            else s ∷ [])
          ≡ visible s
    by_length ih true e =
        rw (ih e, visible-strip (drop n s), visible-strip (take n s)) (visible-take-drop n s)
    by_length ih false e = visible_all-one s

visible_all-split_oversized_paragraph :
    (limit : ℕ) (s : Text) → 0 < limit → visible_all (split_oversized_paragraph limit s) ≡ visible s
unfolding split_oversized_paragraph
visible_all-split_oversized_paragraph limit s positive = by_fit (fits limit s) (
    ltb 1 (length (strip_all (splitlines_after false s)))
    && all (fits limit) (strip_all (splitlines_after false s)))
  where
    by_fit :
        (a b : Bool)
        → visible_all (
            if a
            then s ∷ []
            else if b
            then strip_all (splitlines_after false s)
            else split_loop (length s) limit s)
          ≡ visible s
    by_fit true b = append-nil (visible s)
    by_fit false true =
        visible_all-strip_all (splitlines_after false s) ∙ visible_all-splitlines_after false s
    by_fit false false = visible_all-split_loop (length s) limit s positive (omega arith)

-- The rest of a blank line is white space.
visible-blank_length : (s : Text) → visible (drop (blank_length s) s) ≡ visible s
unfolding blank_length
visible-blank_length [] = refl
visible-blank_length (c ∷ s) =
    by_space (visible-blank_length s) (is_space c) refl (ltb 0 (blank_length s)) (c == 10)
  where
    by_space :
        visible (drop (blank_length s) s) ≡ visible s
        → (b : Bool) → is_space c ≡ b
        → (z l : Bool)
        → visible (
            drop
              (if not b then 0 else if z then suc (blank_length s) else if l then 1 else 0)
              (c ∷ s))
          ≡ visible (c ∷ s)
    by_space ih false e z l = refl
    by_space ih true e true l = ih ∙ sym (visible-space c s e)
    by_space ih true e false true = sym (visible-space c s e)
    by_space ih true e false false = refl

visible_all-split_blank_lines :
    (n : ℕ) (s : Text) → visible_all (split_blank_lines n s) ≡ visible (drop n s)
unfolding split_blank_lines
visible_all-split_blank_lines zero [] = refl
visible_all-split_blank_lines (suc n) [] = refl
visible_all-split_blank_lines (suc n) (c ∷ s) = visible_all-split_blank_lines n s
visible_all-split_blank_lines zero (c ∷ s) =
    by_feed (λ k. visible_all-split_blank_lines k s) (c == 10) refl
  where
    split : ℕ → List Text
    split k = if ltb 0 k then [] ∷ split_blank_lines k s else onto_first c (split_blank_lines k s)

    by_length :
        ((k : ℕ) → visible_all (split_blank_lines k s) ≡ visible (drop k s))
        → (c == 10) ≡ true
        → (z : Bool)
        → visible_all (
            if z
            then [] ∷ split_blank_lines (blank_length s) s
            else onto_first c (split_blank_lines (blank_length s) s))
          ≡ visible (c ∷ s)
    by_length ih e true =
        (ih (blank_length s) ∙ visible-blank_length s)
        ∙ sym (visible-space c s (line_feed-space c e))
    by_length ih e false = visible_all-onto c _ s (ih (blank_length s) ∙ visible-blank_length s)

    by_feed :
        ((k : ℕ) → visible_all (split_blank_lines k s) ≡ visible (drop k s))
        → (x : Bool) → (c == 10) ≡ x
        → visible_all (split (if x then blank_length s else 0)) ≡ visible (c ∷ s)
    by_feed ih true e = by_length ih e (ltb 0 (blank_length s))
    by_feed ih false e = visible_all-onto c _ s (ih 0)

visible-join : (ps : List Text) → visible (join ps) ≡ visible_all ps
unfolding join is_space
visible-join [] = refl
visible-join (p ∷ []) = sym (append-nil (visible p))
visible-join (p ∷ q ∷ ps) =
    visible-append p (10 ∷ 10 ∷ join (q ∷ ps)) ∙ ap (λ u. visible p ++ u) (visible-join (q ∷ ps))

visible_all-flush : (ps : List Text) → visible_all (flush ps []) ≡ visible_all ps
visible_all-flush [] = refl
visible_all-flush (p ∷ ps) = append-nil _ ∙ visible-join (p ∷ ps)

visible_all-gather :
    (limit : ℕ) (pieces current : List Text) (size : ℕ)
    → visible_all (gather limit pieces current size) ≡ visible_all current ++ visible_all pieces
unfolding gather
visible_all-gather limit [] current size = visible_all-flush current ∙ sym (append-nil _)
visible_all-gather limit (piece ∷ pieces) current size =
    by_room (λ now size. visible_all-gather limit pieces now size)
      (not (is_empty current)
        && ltb limit (size + (length piece + (if is_empty current then 0 else 2))))
  where
    rest : Bool → List Text
    rest full =
        gather limit pieces (if full then piece ∷ [] else current ++ (piece ∷ [])) (
          if full
          then length piece
          else size + (length piece + (if is_empty current then 0 else 2)))

    moved :
        visible_all (current ++ (piece ∷ [])) ++ visible_all pieces
        ≡ visible_all current ++ (visible piece ++ visible_all pieces)
    moved =
        ap (λ u. u ++ visible_all pieces)
          (visible_all-append current (piece ∷ [])
            ∙ ap (λ u. visible_all current ++ u) (append-nil (visible piece)))
        ∙ append_assoc (visible_all current) (visible piece) (visible_all pieces)

    by_room :
        ((now : List Text) (size : ℕ)
          → visible_all (gather limit pieces now size) ≡ visible_all now ++ visible_all pieces)
        → (b : Bool)
        → visible_all (if b then join current ∷ rest b else rest b)
          ≡ visible_all current ++ (visible piece ++ visible_all pieces)
    by_room ih true =
        rw (visible-join current, ih (piece ∷ []) (length piece), append-nil (visible piece))
    by_room ih false = ih (current ++ (piece ∷ [])) _ ∙ moved

visible_all-pieces :
    (limit : ℕ) (ps : List Text)
    → 0 < limit
    → visible_all (concat (map (split_oversized_paragraph limit) ps)) ≡ visible_all ps
visible_all-pieces limit [] positive = refl
visible_all-pieces limit (p ∷ ps) positive =
    visible_all-append (split_oversized_paragraph limit p) _
    ∙ rw (
      visible_all-split_oversized_paragraph limit p positive,
      visible_all-pieces limit ps positive,
    )

-- A start of a text without visible characters has none.
visible-take : (n : ℕ) (s : Text) → visible s ≡ [] → visible (take n s) ≡ []
visible-take n s h =
    left_empty (visible (take n s)) (visible (drop n s)) (visible-take-drop n s ∙ h)
  where
    left_empty : (a b : Text) → a ++ b ≡ [] → a ≡ []
    left_empty [] b e = refl
    left_empty (c ∷ a) b e = cc

body_limit-positive : (max_chars : ℕ) → 0 < max_chars → 0 < body_limit max_chars
unfolding body_limit
body_limit-positive max_chars h = ground (arith, h)

-- For a maximum above zero, the chunks of a section have the characters of the section that are no white
-- space, each once and in their order.
pub visible_all-section_chunks :
    (max_chars : ℕ) (s : Text)
    → 0 < max_chars
    → visible_all (section_chunks max_chars s) ≡ visible s
unfolding section_chunks pieces_of
visible_all-section_chunks max_chars s positive =
    by_chunks (gather (body_limit max_chars) (pieces_of (body_limit max_chars) s) [] 0) (
      ((visible_all-gather (body_limit max_chars) (pieces_of (body_limit max_chars) s) [] 0
          ∙ visible_all-pieces (body_limit max_chars) (strip_all (split_blank_lines 0 s))
              (body_limit-positive max_chars positive))
        ∙ visible_all-strip_all (split_blank_lines 0 s))
      ∙ visible_all-split_blank_lines 0 s)
  where
    by_chunks :
        (cs : List Text)
        → visible_all cs ≡ visible s
        → visible_all (or_start (body_limit max_chars) s cs) ≡ visible s
    by_chunks [] h = (append-nil _ ∙ visible-take (body_limit max_chars) s (sym h)) ∙ h
    by_chunks (c ∷ cs) h = h
