-- ===== src/RagSplit/Pieces.antt =====
-- pkg/rag/splitter.go: sentences, hard cuts, and the parts of a paragraph that is too long.
pub mod Keeps
pub mod Fits
use gen_runner.Prelude.{
  ℕ, zero, suc, ◌+◌, Bool, true, ◌&&◌, ◌||◌, Option, none, some, List, [], ◌∷◌, ◌++◌, ltb, leb,
  ◌==◌, if◌then◌else◌, length, is_empty, take, drop,
}
use gen_runner.Text.{Text, trim_space, trim_left_func}
use gen_runner.RagSplit.{push_text}

-- `unicodeSpaceNewline`
unfoldable pub unicode_space_newline : ℕ → Bool
unicode_space_newline r = r == 32 || r == 10 || r == 9 || r == 13

-- `chunkRunes`: each round takes `max_runes` code points off the front. The fuel bounds the rounds;
-- it is the length of the text.
unfoldable pub chunk_runes_from : ℕ → Text → ℕ → List Text
chunk_runes_from zero s max_runes = []
chunk_runes_from (suc fuel) s max_runes =
    let rest =
      chunk_runes_from fuel (trim_left_func unicode_space_newline (drop max_runes s)) max_runes in
    if is_empty s then [] else if leb (length s) max_runes then s ∷ [] else take max_runes s ∷ rest

unfoldable pub chunk_runes : Text → ℕ → List Text
chunk_runes s max_runes = chunk_runes_from (length s) s max_runes

unfoldable pub trim_parts : List Text → List Text
trim_parts [] = []
trim_parts (p ∷ ps) =
    let rest = trim_parts ps in if is_empty (trim_space p) then rest else trim_space p ∷ rest

unfoldable pub hard_split_runes : Text → ℕ → List Text
hard_split_runes s max_runes =
    if max_runes == 0 then s ∷ [] else trim_parts (chunk_runes s max_runes)

abbrev pub ellipsis : ℕ
ellipsis = 0x2026

-- What `utf8.DecodeRuneInString(s[i+1:])` sees behind the code point `c` at byte `i`. The ellipsis
-- takes three bytes, so behind its first byte stands no code point but `utf8.RuneError`.
unfoldable pub next_rune : ℕ → Text → Option ℕ
next_rune c rest = if c == ellipsis then some 0xfffd else elim rest [ [] ↦ none | d ∷ r ↦ some d ]

unfoldable pub may_follow : Option ℕ → Bool
may_follow none = true
may_follow (some d) = d == 32 || d == 10 || d == 9 || d == b'"' || d == b'\'' || d == b')'

-- Whether a sentence ends with `c`.
unfoldable pub ends_sentence : ℕ → Text → Bool
ends_sentence c rest =
    (c == b'.' || c == b'!' || c == b'?' || c == ellipsis) && may_follow (next_rune c rest)

-- The loop of `splitSentences`; `cur` is `s[start:i]`.
unfoldable pub sentences_from : List Text → Text → Text → List Text
sentences_from out cur [] = push_text out (trim_space cur)
sentences_from out cur (c ∷ s) =
    let cut = sentences_from (push_text out (trim_space (cur ++ c ∷ []))) [] s in
    let go_on = sentences_from out (cur ++ c ∷ []) s in if ends_sentence c s then cut else go_on

unfoldable pub split_sentences : Text → List Text
split_sentences s = sentences_from [] [] (trim_space s)

-- The variables of the loop of `splitOversizedParagraph`.
pub record Builder : Type 0 where
  pub out : List Text
  pub buf : Text
  pub count : ℕ

unfoldable pub flush : Builder → Builder
flush b = record { out = push_text b.out (trim_space b.buf); buf = []; count = 0 }

unfoldable pub add_sentence : Builder → Text → Builder
add_sentence b s =
    if ltb 0 b.count
    then record b { buf = b.buf ++ 32 ∷ s; count = b.count + 1 + length s }
    else record b { buf = b.buf ++ s; count = b.count + length s }

-- A sentence that is too long stands cut in `out`, with nothing before it in `buf`.
unfoldable pub place_long : ℕ → Builder → Text → Builder
place_long max_runes b s =
    let empty = flush b in record empty { out = empty.out ++ hard_split_runes s max_runes }

unfoldable pub place_sentence : ℕ → Builder → Text → Builder
place_sentence max_runes b s =
    let room = if ltb 0 b.count && ltb max_runes (b.count + 1 + length s) then flush b else b in
    if ltb max_runes (length s) then place_long max_runes room s else add_sentence room s

unfoldable pub place_all : ℕ → Builder → List Text → Builder
place_all max_runes b [] = flush b
place_all max_runes b (s ∷ ss) = place_all max_runes (place_sentence max_runes b s) ss

unfoldable pub split_by_sentences : Text → ℕ → List Text → List Text
split_by_sentences p max_runes sents =
    let out = (place_all max_runes (record { out = []; buf = []; count = 0 }) sents).out in
    if is_empty out then hard_split_runes p max_runes else out

unfoldable pub split_oversized_paragraph : Text → ℕ → List Text
split_oversized_paragraph p max_runes =
    if leb (length p) max_runes
    then p ∷ []
    else let sents = split_sentences p in
      if leb (length sents) 1
      then hard_split_runes p max_runes
      else split_by_sentences p max_runes sents
