-- ===== src/Ingestion/Chunker/Kept.antt =====
-- The chunks of a document and its sentences (internal/ingestion/chunker.go).
use opspilot_go_dev_kit.Prelude.{
  ℕ, ◌+◌, ◌*◌, ◌≤◌, suc, String, ◌≡◌, ◌⊎◌, true, inl, inr, refl, sym, ap, ◌∙◌, subst, List, [], ◌∷◌,
  map, Result, Result-cases, ok, err, length, All,
}
use opspilot_go_dev_kit.Prelude.Floats.{Float64}
use opspilot_go_dev_kit.Ingestion.Splitter.{Sentence}
use opspilot_go_dev_kit.Ingestion.Chunker.{
  Settings, Chunk, Embedded, with_embeddings, bare, chunks_from, join_texts, texts_of, embed_all,
  boundaries_from, groups_of, chunk, split_at_boundaries,
}
use opspilot_go_dev_kit.Ingestion.Chunker.Groups.{
  concat, enforce_constraints-concat, split_at_boundaries-concat, boundaries-Ascending,
}
use opspilot_go_dev_kit.Ingestion.Chunker.Sizes.{enforce_constraints-AtLeast}

-- The sentences of the chunks, in order.
abbrev pub sentences_in : {V : Type 0} → List (Chunk (Embedded V)) → List Sentence
sentences_in chunks = map (λ e. e.sentence) (concat (map (λ c. c.sentences) chunks))

chunks_from-groups :
    {V : Type 0} (i : ℕ) (groups : List (List (Embedded V)))
    → map (λ c. c.sentences) (chunks_from i groups) ≡ groups
unfolding chunks_from
chunks_from-groups i [] = refl
chunks_from-groups i (g ∷ groups) = ap (λ gs. g ∷ gs) (chunks_from-groups (i + 1) groups)

chunks_from_joined :
    {V : Type 0} (i : ℕ) (groups : List (List (Embedded V)))
    → All (λ c. c.text ≡ join_texts (texts_of c.sentences)) (chunks_from i groups)
unfolding chunks_from
chunks_from_joined i [] = tt
chunks_from_joined i (g ∷ groups) = (refl, chunks_from_joined (i + 1) groups)

chunks_from-All :
    {V : Type 0} (P : List (Embedded V) → Type 0) (i : ℕ) (groups : List (List (Embedded V)))
    → All P groups
    → All (λ c. P c.sentences) (chunks_from i groups)
unfolding chunks_from
chunks_from-All P i [] h = tt
chunks_from-All P i (g ∷ groups) h = (h.0, chunks_from-All P (i + 1) groups h.1)

with_embeddings-sentences :
    {V : Type 0} (sentences : List Sentence) (vecs : List V)
    → map (λ e. e.sentence) (with_embeddings sentences vecs) ≡ sentences
with_embeddings-sentences [] vecs = refl
with_embeddings-sentences (s ∷ sentences) [] =
    ap (λ ss. s ∷ ss) (with_embeddings-sentences sentences [])
with_embeddings-sentences (s ∷ sentences) (v ∷ vecs) =
    ap (λ ss. s ∷ ss) (with_embeddings-sentences sentences vecs)

module _ {V : Type 0} (embed : String → Result String V) (similarity : V → V → Float64)
    (settings : Settings) where
  groups_of-concat :
      (sentences : List Sentence) (vecs : List V)
      → concat (groups_of embed similarity settings sentences vecs) ≡ with_embeddings sentences vecs
  unfolding groups_of
  groups_of-concat sentences vecs =
      let bs = boundaries_from embed similarity settings.threshold 0 vecs in
      enforce_constraints-concat settings.min_sentences settings.max_sentences
        (split_at_boundaries (with_embeddings sentences vecs) bs)
      ∙ split_at_boundaries-concat (with_embeddings sentences vecs) bs
          (boundaries-Ascending embed similarity settings.threshold 0 vecs)

  -- What holds of the chunks of the sentences.
  pub record Covers (sentences : List Sentence) (chunks : List (Chunk (Embedded V))) : Type 0 where
    pub all_there : sentences_in chunks ≡ sentences
    pub joined : All (λ c. c.text ≡ join_texts (texts_of c.sentences)) chunks
    pub not_small :
        2 * settings.min_sentences ≤ settings.max_sentences + 1
        → settings.min_sentences ≤ length sentences
        → All (λ c. settings.min_sentences ≤ length c.sentences) chunks

  length-with_embeddings :
      (sentences : List Sentence) (vecs : List V)
      → length (with_embeddings sentences vecs) ≡ length sentences
  length-with_embeddings [] vecs = refl
  length-with_embeddings (s ∷ sentences) [] = ap suc (length-with_embeddings sentences [])
  length-with_embeddings (s ∷ sentences) (v ∷ vecs) = ap suc (length-with_embeddings sentences vecs)

  chunk_groups-Covers :
      (sentences : List Sentence) (vecs : List V)
      → Covers sentences (chunks_from 0 (groups_of embed similarity settings sentences vecs))
  unfolding groups_of
  chunk_groups-Covers sentences vecs =
      let groups = groups_of embed similarity settings sentences vecs in
      let raw =
        split_at_boundaries (with_embeddings sentences vecs)
          (boundaries_from embed similarity settings.threshold 0 vecs) in
      let m = settings.min_sentences in
      let all_raw : length (concat raw) ≡ length sentences =
        ap length (
          split_at_boundaries-concat (with_embeddings sentences vecs)
            (boundaries_from embed similarity settings.threshold 0 vecs)
            (boundaries-Ascending embed similarity settings.threshold 0 vecs))
        ∙ length-with_embeddings sentences vecs in
      record {
        all_there =
            ap (λ gs. map (λ e. e.sentence) (concat gs)) (chunks_from-groups 0 groups)
            ∙ (ap (map (λ e. e.sentence)) (groups_of-concat sentences vecs)
                ∙ with_embeddings-sentences sentences vecs);
        joined = chunks_from_joined 0 groups;
        not_small = λ h k.
            chunks_from-All (λ g. m ≤ length g) 0 groups
              (enforce_constraints-AtLeast m settings.max_sentences raw h
                (subst (λ n. m ≤ n) (sym all_raw) k));
      }

  single-Covers :
      (s : Sentence)
      → Covers (s ∷ []) (
          record { chunk_id = "chunk-0"; text = s.text; sentences = bare s ∷ []; is_parent = true }
          ∷ [])
  single-Covers s = record { all_there = refl; joined = (refl, tt); not_small = λ h k. (k, tt) }

-- `Chunk` returns, and unless the embedder fails on a sentence, the chunks hold the sentences, each once and in
-- their order, and each has the text of its sentences, joined by spaces. If there are as many sentences as
-- the minimum of a chunk, and twice the minimum is the maximum plus one at most, no chunk has fewer than
-- the minimum.
pub chunk-Covers :
    {V : Type 0} (embed : String → Result String V) (similarity : V → V → Float64)
    (settings : Settings) (sentences : List Sentence)
    → ((chunks : List (Chunk (Embedded V))) × (chunk embed similarity settings sentences
          ≡ ok chunks)
        × Covers embed similarity settings sentences chunks)
      ⊎ ((e : String) × (chunk embed similarity settings sentences ≡ err e)
          × (embed_all embed similarity 0 sentences ≡ err e))
unfolding chunk
chunk-Covers embed similarity settings [] =
    inl ([], refl, record { all_there = refl; joined = tt; not_small = λ h k. tt })
chunk-Covers embed similarity settings (s ∷ []) =
    inl (_, refl, single-Covers embed similarity settings s)
chunk-Covers embed similarity settings (s ∷ u ∷ sentences) =
    let all = s ∷ u ∷ sentences in
    elim (Result-cases (embed_all embed similarity 0 all)) [
      | inr (e, f) ↦ inr (e, rw (chunk, f), f)
      | inl (vecs, f) ↦ inl (
        chunks_from 0 (groups_of embed similarity settings all vecs),
        rw (chunk, f),
        chunk_groups-Covers embed similarity settings all vecs,
      )
    ]
