-- ===== src/Naming/Greatest.antt =====
-- The SCN that `extract_last_scn` of healing/offset_recovery.py chooses among the candidates of a payload.
use self_healing_kafka_syste.Base.{
  true, Option, none, some, List, [], ◌∷◌, ◌≡◌, ◌⊎◌, ltb, leb, if◌then◌else◌, All,
}
use self_healing_kafka_syste.Base.Text.{Text}
use self_healing_kafka_syste.Base.Decimal.{print_decimal}
use self_healing_kafka_syste.Effect.Exn.{Result, ok}
use self_healing_kafka_syste.Naming.Scn.{Candidate}

-- `c` is the first of the greatest: no later candidate is above it, and each earlier one is below it.
abbrev pub IsFirstGreatest : Candidate → List Candidate → Type 0
IsFirstGreatest c [] = ⊥
IsFirstGreatest c (d ∷ ds) =
    ((c ≡ d) × All (λ (e : Candidate). leb e.value c.value ≡ true) ds)
    ⊎ ((ltb d.value c.value ≡ true) × IsFirstGreatest c ds)

abbrev pub ScnPair : Type 0
ScnPair = Option Text × Option Text

-- What is logged: the number of that candidate, and its raw text if its key is one of a commit SCN.
pub record IsLatest (cs : List Candidate) (r : Result ScnPair) : Type 0 where
  pub latest : Candidate
  pub greatest : IsFirstGreatest latest cs
  pub logged :
      r ≡ ok (some (print_decimal latest.value), if latest.is_commit then some latest.raw else none)

-- Nothing is logged where no candidate is found.
abbrev pub IsLogged : List Candidate → Result ScnPair → Type 0
IsLogged [] r = r ≡ ok (none, none)
IsLogged (c ∷ cs) r = IsLatest (c ∷ cs) r
