-- ===== src/Analytics/Source.antt =====
-- semantic/fact_source.py: the sources of facts that may be queried.
use self_healing_kafka_syste.Base.{
  ℕ, Bool, false, not, ◌&&◌, ◌||◌, [], ◌∷◌, ◌++◌, leb, ◌==◌, if◌then◌else◌, length, all,
}
use self_healing_kafka_syste.Base.Text.{Text, text_eq, strip, lower}
use self_healing_kafka_syste.Effect.Exn.{Exn, ExnKind, Result, ok, raised, text}

pub record IncidentFactSource : Type 0 where
  pub key : Text
  pub qualified_name : Text
  pub evidence_source : Text

abbrev pub refuse : Text → Exn
refuse message = record { kind = ExnKind.value_error; message = message }

-- No character outside ASCII has a letter of the three modes for its lower case.
unfoldable pub normalize_fact_source_mode : Text → Result Text
normalize_fact_source_mode value =
    let mode = lower (strip value) in
    if text_eq mode (text "legacy") || text_eq mode (text "shadow") || text_eq mode (text "dbt")
    then ok mode
    else raised (refuse (text "CHAT_ANALYTICS_FACT_SOURCE must be legacy, shadow, or dbt"))

abbrev pub is_letter : ℕ → Bool
is_letter c = (leb 65 c && leb c 90) || (leb 97 c && leb c 122) || c == 95

abbrev pub is_word : ℕ → Bool
is_word c = is_letter c || (leb 48 c && leb c 57)

-- `[A-Za-z_][A-Za-z0-9_]{0,127}`, all of the text.
unfoldable pub is_schema_name : Text → Bool
is_schema_name [] = false
is_schema_name (c ∷ s) = is_letter c && all is_word s && leb (length s) 127

abbrev pub view_suffix : Text
view_suffix = text "].[vSemanticConnectorIncidentFacts]"

abbrev pub legacy_source : IncidentFactSource
legacy_source = record {
  key = text "legacy";
  qualified_name = text "[dbo].[vConnectorIncidentFacts]";
  evidence_source = text "vConnectorIncidentFacts";
}

abbrev pub dbt_source : Text → IncidentFactSource
dbt_source schema = record {
  key = text "dbt";
  qualified_name = 91 ∷ (schema ++ view_suffix);
  evidence_source = text "vSemanticConnectorIncidentFacts";
}

abbrev pub source_of_schema : Text → Result IncidentFactSource
source_of_schema schema =
    if is_schema_name schema
    then ok (dbt_source schema)
    else raised (refuse (text "CHAT_ANALYTICS_DBT_SCHEMA must be a SQL Server identifier"))

abbrev pub source_of_mode : Text → Result Text → Result IncidentFactSource
source_of_mode dbt_schema (raised x) = raised x
source_of_mode dbt_schema (ok mode) =
    if text_eq mode (text "legacy") || text_eq mode (text "shadow")
    then ok legacy_source
    else source_of_schema (strip dbt_schema)

unfoldable pub incident_fact_source : Text → Text → Result IncidentFactSource
unfolding normalize_fact_source_mode
incident_fact_source mode dbt_schema = source_of_mode dbt_schema (normalize_fact_source_mode mode)

abbrev pub word_prefix : Text → Text
word_prefix [] = []
word_prefix (c ∷ s) = let rest = word_prefix s in if is_word c then c ∷ rest else []

abbrev pub after_word : Text → Text
after_word [] = []
after_word (c ∷ s) = let rest = after_word s in if is_word c then rest else c ∷ s

-- `\[[A-Za-z_][A-Za-z0-9_]{0,127}\]\.\[vSemanticConnectorIncidentFacts\]`, all of the text.
unfoldable pub is_view : Text → Bool
unfolding is_schema_name
is_view [] = false
is_view (c ∷ s) = c == 91 && is_schema_name (word_prefix s) && text_eq (after_word s) view_suffix

abbrev pub source_eq : IncidentFactSource → IncidentFactSource → Bool
source_eq a b =
    text_eq a.key b.key
    && text_eq a.qualified_name b.qualified_name
    && text_eq a.evidence_source b.evidence_source

unfoldable pub is_valid_incident_fact_source : IncidentFactSource → Bool
unfolding is_view
is_valid_incident_fact_source v =
    if text_eq v.key (text "legacy")
    then source_eq v legacy_source
    else if not (text_eq v.key (text "dbt"))
        || not (text_eq v.evidence_source (text "vSemanticConnectorIncidentFacts"))
    then false
    else is_view v.qualified_name
