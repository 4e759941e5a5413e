-- ===== src/Ingestion/Splitter.antt =====
-- internal/ingestion/splitter.go: texts into sentences. A text is a sequence of characters, as `[]rune`
-- makes of valid UTF-8; its length counts bytes.
use opspilot_go_dev_kit.Prelude.{
  ℕ, zero, suc, String, ◌<>◌, Bool, true, ◌&&◌, ◌||◌, List, [], ◌∷◌, ◌++◌, if◌then◌else◌, eqb, ltb,
  length, ◌==◌,
}
use Prim.Native.Char.{Char, code}
use Prim.Native.String as Text
use Prim.Native.String.{len}
use opspilot_go_dev_kit.Prelude.Strings.{trim_space}
use opspilot_go_dev_kit.Prelude.Paging.{ℤ, pos, negsuc}

-- `Sentence` before its embedding is set.
pub record Sentence : Type 0 where
  pub text : String
  pub index : ℕ

abbrev pub is_newline : Char → Bool
is_newline c = eqb (code c) 10

abbrev pub is_stop : Char → Bool
is_stop c = eqb (code c) 0x2e || eqb (code c) 0x3f || eqb (code c) 0x21

-- What must follow a stop: a space, a newline, a carriage return or a tab, or the end of the text.
abbrev pub ends_here : String → Bool
ends_here Text.[] = true
ends_here (Text.◌∷◌ c s) = eqb (code c) 32 || eqb (code c) 10 || eqb (code c) 13 || eqb (code c) 9

-- `isSentenceEnd` at a character, given what follows it.
unfoldable pub is_sentence_end : Char → String → Bool
is_sentence_end c rest = is_stop c && ends_here rest

abbrev pub one : Char → String
one c = Text.◌∷◌ c Text.[]

-- The loop of `splitSentences`, with the text of the builder.
unfoldable pub split_from : String → String → List String
unfolding is_sentence_end
split_from current Text.[] = if current == "" then [] else current ∷ []
split_from current (Text.◌∷◌ c s) =
    let fresh = split_from "" s in
    let longer = split_from (current <> one c) s in
    if is_sentence_end c s then (current <> one c) ∷ fresh else longer

unfoldable pub split_sentences : String → List String
unfolding split_from
split_sentences text = split_from "" text

-- `strings.Split(text, "\n\n")`, with the text behind the last separator.
unfoldable pub paragraphs_from : String → String → List String
paragraphs_from current Text.[] = current ∷ []
paragraphs_from current (Text.◌∷◌ c Text.[]) = (current <> one c) ∷ []
paragraphs_from current (Text.◌∷◌ c (Text.◌∷◌ d s)) =
    let fresh = paragraphs_from "" s in
    let longer = paragraphs_from (current <> one c) (Text.◌∷◌ d s) in
    if is_newline c && is_newline d then current ∷ fresh else longer

-- `if minLen <= 0 { minLen = 10 }`
unfoldable pub min_length : ℤ → ℕ
min_length (pos zero) = 10
min_length (pos (suc n)) = suc n
min_length (negsuc n) = 10

-- The inner loop, behind the sentences found so far.
unfoldable pub add_parts : ℕ → List String → List Sentence → List Sentence
add_parts min_len [] sentences = sentences
add_parts min_len (raw ∷ parts) sentences =
    let part = trim_space raw in
    add_parts min_len parts (
      if ltb (len part) min_len
      then sentences
      else sentences ++ record { text = part; index = length sentences } ∷ [])

unfoldable pub add_paragraphs : ℕ → List String → List Sentence → List Sentence
unfolding add_parts split_sentences
add_paragraphs min_len [] sentences = sentences
add_paragraphs min_len (raw ∷ paragraphs) sentences =
    let para = trim_space raw in
    add_paragraphs min_len paragraphs (
      if ltb (len para) min_len
      then sentences
      else add_parts min_len (split_sentences para) sentences)

unfoldable pub split : ℤ → String → List Sentence
unfolding add_paragraphs paragraphs_from min_length
split min_len text = add_paragraphs (min_length min_len) (paragraphs_from "" text) []
