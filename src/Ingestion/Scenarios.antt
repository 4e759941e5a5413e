-- ===== src/Ingestion/Scenarios.antt =====
-- Three sentences through the splitter and the chunker.
use opspilot_go_dev_kit.Prelude.{
  String, ◌≡◌, ◌⊎◌, refl, List, [], ◌∷◌, Result, ok, err, ◌==◌, if◌then◌else◌, map,
}
use opspilot_go_dev_kit.Prelude.Floats.{Float64, float_zero, float_lt, float_le}
use opspilot_go_dev_kit.Prelude.Paging.{pos}
use opspilot_go_dev_kit.Prelude.Strings.{trim_left, trim_right, trim_space}
use opspilot_go_dev_kit.Ingestion.Splitter.{
  Sentence, split, add_paragraphs, add_parts, paragraphs_from, split_sentences, split_from,
  is_sentence_end, min_length,
}
use opspilot_go_dev_kit.Ingestion.Chunker.{
  Settings, Chunk, Embedded, new_semantic_chunker, chunk, chunks_from, groups_of, embed_all,
  boundaries_from, split_at_boundaries, split_loop, enforce_constraints, merge_small, close_last,
  in_order, split_oversized, one_half,
}
use opspilot_go_dev_kit.Ingestion.Chunker.Kept.{Covers, chunk-Covers}

abbrev document : String
document = "The pump is leaking. Who saw it?\n\nThe invoice is 3.50 euros.  No."

abbrev found : List Sentence
found =
    record { text = "The pump is leaking."; index = 0 }
    ∷ record { text = "Who saw it?"; index = 1 }
    ∷ record { text = "The invoice is 3.50 euros."; index = 2 }
    ∷ []

split_test : split (pos 0) document ≡ found
unfolding split min_length paragraphs_from add_paragraphs add_parts split_sentences split_from
    is_sentence_end trim_left trim_right trim_space
split_test = refl

-- An embedding is the first letter here, and two are similar if they are the same.
abbrev embed : String → Result String String
embed text = if text == "" then err "empty" else ok text

abbrev similarity : String → String → Float64
similarity a b = if b == "Who saw it?" then one_half else float_zero

abbrev settings : Settings
settings = record { threshold = one_half; min_sentences = 1; max_sentences = 15 }

settings_test :
    new_semantic_chunker
      (record { threshold = float_zero; min_sentences = pos 1; max_sentences = pos 0 })
    ≡ settings
unfolding new_semantic_chunker float_le
settings_test = refl

chunk_test :
    (chunks : List (Chunk (Embedded String))) × (chunk embed similarity settings found ≡ ok chunks)
    × (map (λ c. c.text) chunks
        ≡ "The pump is leaking. Who saw it?" ∷ "The invoice is 3.50 euros." ∷ [])
unfolding chunk embed_all groups_of boundaries_from split_at_boundaries split_loop
    enforce_constraints merge_small close_last in_order split_oversized chunks_from float_lt
chunk_test = (_, refl, refl)

chunk-Covers_example :
    ((chunks : List (Chunk (Embedded String))) × (chunk embed similarity settings found ≡ ok chunks)
      × Covers embed similarity settings found chunks)
    ⊎ ((e : String) × (chunk embed similarity settings found ≡ err e)
        × (embed_all embed similarity 0 found ≡ err e))
chunk-Covers_example = chunk-Covers embed similarity settings found
