-- ===== src/Retrieval/Examples.antt =====
-- Tests of the chunks at concrete inputs.
use self_healing_kafka_syste.Base.{◌+◌, ◌/◌, ◌≤◌, min, ◌≡◌, All, length, arith}
use self_healing_kafka_syste.Base.Text.{Text}
use self_healing_kafka_syste.Effect.Exn.{text}
use self_healing_kafka_syste.Retrieval.Bounds
use self_healing_kafka_syste.Retrieval.Chunking.{section_chunks}
use self_healing_kafka_syste.Retrieval.Conserved
use self_healing_kafka_syste.Retrieval.Visible.{visible, visible_all}

-- Two paragraphs, the second of them too long for six characters.
abbrev section : Text
section = text "ab\n\ncd ef. gh ij"

section_chunks-IsWithin_example :
    All (λ chunk. length chunk + min 300 (9 / 3) ≤ 9) (section_chunks 9 section)
section_chunks-IsWithin_example = Bounds.section_chunks-IsWithin 9 section (omega arith)

visible_all-section_chunks_example : visible_all (section_chunks 9 section) ≡ visible section
visible_all-section_chunks_example = Conserved.visible_all-section_chunks 9 section (omega arith)
