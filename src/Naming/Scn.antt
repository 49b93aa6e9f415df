-- ===== src/Naming/Scn.antt =====
-- `extract_last_scn`, `has_offsets` and `_parse_scn` of healing/offset_recovery.py.
use self_healing_kafka_syste.Base.{
  ℕ, Bool, true, false, Option, none, some, List, [], ◌∷◌, ltb, if◌then◌else◌, String,
}
use self_healing_kafka_syste.Base.Text.{Text, skip_spaces}
use self_healing_kafka_syste.Base.Decimal.{is_digit, read_decimal, print_decimal}
use self_healing_kafka_syste.Domain.Json.{
  Value, Items, Fields, nil, cons, end, field, null, bool, num, other_num, str, stamp, arr, obj,
  get, truthy, keep_truthy,
}
use self_healing_kafka_syste.Effect.Exn.{ExnKind, Result, ok, raised, text}

abbrev attribute_error : {A : Type 0} → Result A
attribute_error =
    raised (record { kind = ExnKind.other; message = text "object has no attribute 'get'" })

-- The group of `^(\d+)`, which may be empty here.
unfoldable pub leading_digits : Text → Text
leading_digits [] = []
leading_digits (c ∷ s) = let rest = leading_digits s in if is_digit c then c ∷ rest else []

abbrev number_of : Text → Option ℕ
number_of [] = none
number_of (c ∷ s) = some (read_decimal (c ∷ s))

-- A candidate: the number, whether its key is a commit SCN, and the raw text.
pub record Candidate : Type 0 where
  pub value : ℕ
  pub is_commit : Bool
  pub raw : Text

-- `max(candidates, key=…)`: the first of the greatest.
unfoldable pub best : Candidate → List Candidate → Candidate
best c [] = c
best c (d ∷ ds) = best (if ltb c.value d.value then d else c) ds

abbrev no_scn : Option Text × Option Text
no_scn = (none, none)

unfoldable pub choose : List Candidate → Option Text × Option Text
unfolding best
choose [] = no_scn
choose (c ∷ cs) =
    let top = best c cs in
    (some (print_decimal top.value), if top.is_commit then some top.raw else none)

module _ (repr : Value → Text) where
  -- `str(v)`.
  unfoldable pub text_of : Value → Text
  text_of null = text "None"
  text_of (bool true) = text "True"
  text_of (bool false) = text "False"
  text_of (num n) = print_decimal n
  text_of (other_num s b) = s
  text_of (str s) = s
  text_of (stamp t) = repr (stamp t)
  text_of (arr vs) = repr (arr vs)
  text_of (obj fs) = repr (obj fs)

  unfoldable pub parse_scn : Option Value → Option ℕ
  unfolding text_of leading_digits skip_spaces
  parse_scn none = none
  parse_scn (some null) = none
  parse_scn (some v) = number_of (leading_digits (skip_spaces (text_of v)))

  -- One key of an offset, in front of the candidates that follow.
  unfoldable pub candidate_at : Fields → String → Bool → List Candidate → List Candidate
  unfolding parse_scn
  candidate_at offset key commit later = elim (get key offset) [
    | none ↦ later
    | some v ↦ elim (parse_scn (some v)) [
      | none ↦ later
      | some n ↦ record { value = n; is_commit = commit; raw = text_of v } ∷ later
    ]
  ]

  abbrev candidates_of_offset : Fields → List Candidate → List Candidate
  candidates_of_offset offset later = candidate_at offset "commit_scn" true (
      candidate_at offset "commitScn" true (
        candidate_at offset "scn" false (
          candidate_at offset "snapshot_scn" false
            (candidate_at offset "snapshotScn" false later))))

  -- `item.get("offset") or {}`.
  abbrev offset_of : Value → Result Fields
  offset_of (obj fs) = elim (keep_truthy (get "offset" fs)) [
    | none ↦ ok end
    | some v ↦ elim v [ obj offset ↦ ok offset | _ ↦ attribute_error ]
  ]
  offset_of _ = attribute_error

  abbrev join : Result Fields → Result (List Candidate) → Result (List Candidate)
  join (ok offset) (ok later) = ok (candidates_of_offset offset later)
  join (raised x) _ = raised x
  join (ok offset) (raised x) = raised x

  unfoldable pub candidates : Items → Result (List Candidate)
  unfolding candidate_at
  candidates nil = ok []
  candidates (cons v vs) = let later = candidates vs in join (offset_of v) later

  -- `for item in offsets.get("offsets", [])`: an empty text or object has no items either.
  abbrev pub items_at : Fields → Result Items
  items_at fs = elim (get "offsets" fs) [
    | none ↦ ok nil
    | some v ↦ elim v [
      | arr vs ↦ ok vs
      | str s ↦ elim s [ [] ↦ ok nil | _ ∷ _ ↦ attribute_error ]
      | obj es ↦ elim es [ end ↦ ok nil | field _ _ _ ↦ attribute_error ]
      | _ ↦ attribute_error
    ]
  ]

  abbrev pub scn_of : Result Items → Result (Option Text × Option Text)
  scn_of (raised x) = raised x
  scn_of (ok vs) = elim (candidates vs) [ raised x ↦ raised x | ok cs ↦ ok (choose cs) ]

  -- `extract_last_scn`; `none` and a value that is false are no offsets.
  unfoldable pub extract_last_scn : Option Value → Result (Option Text × Option Text)
  unfolding candidates choose
  extract_last_scn offsets = elim (keep_truthy offsets) [
    | none ↦ ok no_scn
    | some v ↦ elim v [ obj fs ↦ scn_of (items_at fs) | _ ↦ attribute_error ]
  ]

abbrev truthy_at : Option Value → Bool
truthy_at none = false
truthy_at (some v) = truthy v

-- `has_offsets`: the payload, if it has offsets.
unfoldable pub has_offsets : Option Value → Result (Option Fields)
has_offsets offsets = elim (keep_truthy offsets) [
  | none ↦ ok none
  | some v ↦ elim v [
    | obj fs ↦ ok (if truthy_at (get "offsets" fs) then some fs else none)
    | _ ↦ attribute_error
  ]
]
