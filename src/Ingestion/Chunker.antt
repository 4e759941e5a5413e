-- ===== src/Ingestion/Chunker.antt =====
-- internal/ingestion/chunker.go: sentences into chunks. The embedder and the similarity of two embeddings,
-- which is arithmetic of `float64`, are arguments. Appending to a group that is a slice of the sentences
-- writes the sentences that stand there already, so a slice is a value here.
pub mod Groups
pub mod Sizes
pub mod Kept
use opspilot_go_dev_kit.Prelude.{
  ℕ, ◌+◌, ◌-◌, ◌/◌, zero, suc, String, ◌<>◌, Bool, true, false, Option, none, some, List, [], ◌∷◌,
  ◌++◌, map, Result, ok, err, if◌then◌else◌, eqb, ltb, leb, length, take, drop,
}
use opspilot_go_dev_kit.Prelude.Decimal.{decimal}
use opspilot_go_dev_kit.Prelude.Floats.{Float64, float_zero, float_lt, float_le}
use opspilot_go_dev_kit.Prelude.Paging.{ℤ, pos, negsuc}
use opspilot_go_dev_kit.Ingestion.Splitter.{Sentence}

pub record Options : Type 0 where
  pub threshold : Float64
  pub min_sentences : ℤ
  pub max_sentences : ℤ

pub record Settings : Type 0 where
  pub threshold : Float64
  pub min_sentences : ℕ
  pub max_sentences : ℕ

abbrev pub positive_or : ℕ → ℤ → ℕ
positive_or fallback (pos zero) = fallback
positive_or fallback (pos (suc n)) = suc n
positive_or fallback (negsuc n) = fallback

-- 0.5
abbrev pub one_half : Float64
one_half = record { bits = 0x3fe0000000000000 }

unfoldable pub new_semantic_chunker : Options → Settings
unfolding float_le
new_semantic_chunker opts = record {
  threshold = if float_le opts.threshold float_zero then one_half else opts.threshold;
  min_sentences = positive_or 2 opts.min_sentences;
  max_sentences = positive_or 15 opts.max_sentences;
}

pub record Chunk (A : Type 0) : Type 0 where
  pub chunk_id : String
  pub text : String
  pub sentences : List A
  pub is_parent : Bool

module _ {A : Type 0} where
  -- The loop of `splitAtBoundaries` from `prev` on, where `rest` are the sentences from there.
  unfoldable pub split_loop : ℕ → List A → List ℕ → List (List A)
  split_loop prev [] [] = []
  split_loop prev (s ∷ rest) [] = (s ∷ rest) ∷ []
  split_loop prev rest (b ∷ boundaries) =
      let groups = split_loop b (drop (b - prev) rest) boundaries in
      if ltb prev b then take (b - prev) rest ∷ groups else groups

  unfoldable pub split_at_boundaries : List A → List ℕ → List (List A)
  unfolding split_loop
  split_at_boundaries sentences [] = sentences ∷ []
  split_at_boundaries sentences (b ∷ boundaries) = split_loop 0 sentences (b ∷ boundaries)

  -- The last group of `merged` and the ones before it, the newest first: the loop that merges.
  unfoldable pub merge_small : ℕ → List (List A) → List A → List (List A) → List (List A) × List A
  merge_small min_sentences before last [] = (before, last)
  merge_small min_sentences before last (group ∷ groups) =
      if ltb (length last) min_sentences
      then merge_small min_sentences before (last ++ group) groups
      else merge_small min_sentences (last ∷ before) group groups

  -- The groups of a list that is the newest first, in front of others.
  unfoldable pub in_order : List (List A) → List (List A) → List (List A)
  in_order [] groups = groups
  in_order (group ∷ before) groups = in_order before (group ∷ groups)

  -- The groups in order, the trailing one merged where it is small.
  unfoldable pub close_last : ℕ → List (List A) × List A → List (List A)
  unfolding in_order
  close_last min_sentences ([], last) = last ∷ []
  close_last min_sentences (previous ∷ before, last) =
      if ltb (length last) min_sentences
      then in_order before ((previous ++ last) ∷ [])
      else in_order before (previous ∷ last ∷ [])

  unfoldable pub split_oversized : ℕ → List (List A) → List (List A)
  split_oversized max_sentences [] = []
  split_oversized max_sentences (group ∷ groups) =
      let rest = split_oversized max_sentences groups in
      let mid = length group / 2 in
      if leb (length group) max_sentences
      then group ∷ rest
      else take mid group ∷ drop mid group ∷ rest

  unfoldable pub enforce_constraints : ℕ → ℕ → List (List A) → List (List A)
  unfolding merge_small close_last split_oversized
  enforce_constraints min_sentences max_sentences [] = []
  enforce_constraints min_sentences max_sentences (group ∷ groups) =
      split_oversized max_sentences
        (close_last min_sentences (merge_small min_sentences [] group groups))

-- `strings.Join(texts, " ")`
abbrev pub join_texts : List String → String
join_texts [] = ""
join_texts (t ∷ []) = t
join_texts (t ∷ u ∷ ts) = t <> " " <> join_texts (u ∷ ts)

-- A sentence with the embedding that `Chunk` sets on it, none where it sets none.
pub record Embedded (V : Type 0) : Type 0 where
  pub sentence : Sentence
  pub embedding : Option V

abbrev pub texts_of : {V : Type 0} → List (Embedded V) → List String
texts_of group = map (λ e. e.sentence.text) group

abbrev pub bare : {V : Type 0} → Sentence → Embedded V
bare s = record { sentence = s; embedding = none }

-- The sentences with the embeddings at their places.
abbrev pub with_embeddings : {V : Type 0} → List Sentence → List V → List (Embedded V)
with_embeddings [] vecs = []
with_embeddings (s ∷ sentences) [] = bare s ∷ with_embeddings sentences []
with_embeddings (s ∷ sentences) (v ∷ vecs) =
    record { sentence = s; embedding = some v } ∷ with_embeddings sentences vecs

unfoldable pub chunks_from : {V : Type 0} → ℕ → List (List (Embedded V)) → List (Chunk (Embedded V))
chunks_from i [] = []
chunks_from i (group ∷ groups) =
    record {
      chunk_id = "chunk-" <> decimal i;
      text = join_texts (texts_of group);
      sentences = group;
      is_parent = true;
    }
    ∷ chunks_from (i + 1) groups

module _ {V : Type 0} (embed : String → Result String V) (similarity : V → V → Float64) where
  -- The loop over the sentences, with the index of the first: its error says which sentence failed.
  unfoldable pub embed_all : ℕ → List Sentence → Result String (List V)
  embed_all i [] = ok []
  embed_all i (s ∷ sentences) =
      let rest = embed_all (i + 1) sentences in
      elim (embed s.text) [
        | err e ↦ err ("embed sentence " <> decimal i <> ": " <> e)
        | ok vec ↦ elim rest [ err e ↦ err e | ok vecs ↦ ok (vec ∷ vecs) ]
      ]

  -- The boundaries, where `i` is the index of the first embedding given.
  unfoldable pub boundaries_from : Float64 → ℕ → List V → List ℕ
  unfolding float_lt
  boundaries_from threshold i [] = []
  boundaries_from threshold i (a ∷ []) = []
  boundaries_from threshold i (a ∷ b ∷ rest) =
      let later = boundaries_from threshold (i + 1) (b ∷ rest) in
      if float_lt (similarity a b) threshold then (i + 1) ∷ later else later

  -- The groups of two sentences or more.
  unfoldable pub groups_of : Settings → List Sentence → List V → List (List (Embedded V))
  unfolding split_at_boundaries boundaries_from enforce_constraints
  groups_of settings sentences vecs =
      enforce_constraints settings.min_sentences settings.max_sentences (
        split_at_boundaries (with_embeddings sentences vecs)
          (boundaries_from settings.threshold 0 vecs))

  unfoldable pub chunk : Settings → List Sentence → Result String (List (Chunk (Embedded V)))
  unfolding embed_all groups_of chunks_from
  chunk settings [] = ok []
  chunk settings (s ∷ []) = ok (
      record { chunk_id = "chunk-0"; text = s.text; sentences = bare s ∷ []; is_parent = true }
      ∷ [])
  chunk settings (s ∷ u ∷ sentences) = elim (embed_all 0 (s ∷ u ∷ sentences)) [
    | err e ↦ err e
    | ok vecs ↦ ok (chunks_from 0 (groups_of settings (s ∷ u ∷ sentences) vecs))
  ]
