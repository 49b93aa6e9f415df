-- ===== src/Retrieval/Visible.antt =====
-- The characters of texts that are no white space, and what the string methods make of them.
use self_healing_kafka_syste.Base.{
  ℕ, zero, suc, Bool, true, false, not, List, [], ◌∷◌, ◌++◌, ◌≡◌, refl, sym, ◌∙◌, ap, ◌==◌,
  if◌then◌else◌, keep_if, arith,
}
use mathlib.Core.List.{append_assoc}
use self_healing_kafka_syste.Base.Text.{Text, is_space, keep_head, strip, skip_spaces, drop_spaces}
use self_healing_kafka_syste.Retrieval.Chunking.{take, drop, is_line_end, onto_first}

-- The characters that are no white space.
abbrev pub visible : Text → Text
visible s = keep_if (λ c. not (is_space c)) s

-- Those of several texts, one after the other.
abbrev pub visible_all : List Text → Text
visible_all [] = []
visible_all (s ∷ ss) = visible s ++ visible_all ss

pub line_end-space : (c : ℕ) → is_line_end c ≡ true → is_space c ≡ true
unfolding is_space
line_end-space c h = ground (arith, h)

pub line_feed-space : (c : ℕ) → (c == 10) ≡ true → is_space c ≡ true
unfolding is_space
line_feed-space c h = ground (arith, h)

pub visible-space : (c : ℕ) (s : Text) → is_space c ≡ true → visible (c ∷ s) ≡ visible s
visible-space c s h = rw (h)

pub visible-append : (s t : Text) → visible (s ++ t) ≡ visible s ++ visible t
visible-append [] t = refl
visible-append (c ∷ s) t = by_space (visible-append s t) (is_space c)
  where
    by_space :
        visible (s ++ t) ≡ visible s ++ visible t
        → (b : Bool)
        → (if not b then c ∷ visible (s ++ t) else visible (s ++ t))
          ≡ (if not b then c ∷ visible s else visible s) ++ visible t
    by_space ih true = ih
    by_space ih false = ap (λ u. c ∷ u) ih

visible-skip_spaces : (s : Text) → visible (skip_spaces s) ≡ visible s
unfolding skip_spaces
visible-skip_spaces [] = refl
visible-skip_spaces (c ∷ s) = by_space (visible-skip_spaces s) (is_space c) refl
  where
    by_space :
        visible (skip_spaces s) ≡ visible s
        → (b : Bool) → is_space c ≡ b
        → visible (if b then skip_spaces s else c ∷ s) ≡ visible (c ∷ s)
    by_space ih true e = ih ∙ sym (visible-space c s e)
    by_space ih false e = refl

visible-drop_spaces : (s : Text) → visible (drop_spaces s) ≡ visible s
unfolding drop_spaces
visible-drop_spaces [] = refl
visible-drop_spaces (c ∷ s) = by_rest (drop_spaces s) (visible-drop_spaces s)
  where
    by_rest : (t : Text) → visible t ≡ visible s → visible (keep_head c t) ≡ visible (c ∷ s)
    by_rest [] h = by_space (is_space c) refl
      where
        by_space :
            (b : Bool) → is_space c ≡ b → visible (if b then [] else c ∷ []) ≡ visible (c ∷ s)
        by_space true e = h ∙ sym (visible-space c s e)
        by_space false e = rw (e) (ap (λ u. c ∷ u) h)
    by_rest (d ∷ t) h = by_head (is_space c)
      where
        by_head :
            (b : Bool)
            → (if not b then c ∷ visible (d ∷ t) else visible (d ∷ t))
              ≡ (if not b then c ∷ visible s else visible s)
        by_head true = h
        by_head false = ap (λ u. c ∷ u) h

pub visible-strip : (s : Text) → visible (strip s) ≡ visible s
unfolding strip
visible-strip s = visible-skip_spaces (drop_spaces s) ∙ visible-drop_spaces s

pub visible-take-drop : (n : ℕ) (s : Text) → visible (take n s) ++ visible (drop n s) ≡ visible s
visible-take-drop zero s = refl
visible-take-drop (suc n) [] = refl
visible-take-drop (suc n) (c ∷ s) = by_space (visible-take-drop n s) (is_space c)
  where
    by_space :
        visible (take n s) ++ visible (drop n s) ≡ visible s
        → (b : Bool)
        → (if not b then c ∷ visible (take n s) else visible (take n s)) ++ visible (drop n s)
          ≡ (if not b then c ∷ visible s else visible s)
    by_space ih true = ih
    by_space ih false = ap (λ u. c ∷ u) ih

pub visible_all-append :
    (ss ts : List Text) → visible_all (ss ++ ts) ≡ visible_all ss ++ visible_all ts
visible_all-append [] ts = refl
visible_all-append (s ∷ ss) ts =
    ap (λ u. visible s ++ u) (visible_all-append ss ts)
    ∙ sym (append_assoc (visible s) (visible_all ss) (visible_all ts))

visible_all-onto_first :
    (c : ℕ) (ls : List Text) → visible_all (onto_first c ls) ≡ visible (c ∷ []) ++ visible_all ls
visible_all-onto_first c [] = refl
visible_all-onto_first c (l ∷ ls) =
    ap (λ u. u ++ visible_all ls) (visible-append (c ∷ []) l)
    ∙ append_assoc (visible (c ∷ [])) (visible l) (visible_all ls)

-- The characters of a text after its first.
pub visible_all-onto :
    (c : ℕ) (ls : List Text) (s : Text)
    → visible_all ls ≡ visible s
    → visible_all (onto_first c ls) ≡ visible (c ∷ s)
visible_all-onto c ls s h =
    (visible_all-onto_first c ls ∙ ap (λ u. visible (c ∷ []) ++ u) h)
    ∙ sym (visible-append (c ∷ []) s)
