-- ===== src/RagSplit/Overlap.antt =====
-- pkg/rag/splitter.go: the overlap of neighbouring chunks, and the splitting as a whole.
pub mod Laws
use gen_runner.Prelude.{
  ℕ, ◌+◌, ◌-◌, ◌||◌, List, [], ◌∷◌, ◌++◌, ltb, leb, ◌==◌, if◌then◌else◌, length, is_empty, drop,
}
use gen_runner.Text.{Text, codes, trim_space}
use gen_runner.RagSplit.{SplitOptions, normalized, TextPiece}
use gen_runner.RagSplit.Pieces.{split_oversized_paragraph}
use gen_runner.RagSplit.Merge.{merge_pieces}

unfoldable pub rune_suffix : Text → ℕ → Text
rune_suffix s max_runes =
    if max_runes == 0 || is_empty s
    then []
    else if leb (length s) max_runes
    then s
    else trim_space (drop (length s - max_runes) s)

-- The text of a chunk behind the end of the chunk before it.
unfoldable pub overlapped : ℕ → ℕ → Text → Text → Text
overlapped size overlap before text =
    let suffix = rune_suffix before overlap in
    let joined = suffix ++ codes "\n\n" ++ text in
    if is_empty suffix
    then text
    else if ltb (size + overlap) (length joined)
    then rune_suffix joined (size + overlap)
    else joined

-- The suffix is taken from the chunk before as it was, not from the overlapped one.
unfoldable pub overlap_from : ℕ → ℕ → Text → List Text → List Text
overlap_from size overlap before [] = []
overlap_from size overlap before (t ∷ ts) =
    overlapped size overlap before t ∷ overlap_from size overlap t ts

unfoldable pub apply_overlap : List Text → ℕ → ℕ → List Text
apply_overlap [] size overlap = []
apply_overlap (t ∷ ts) size overlap =
    if overlap == 0 || is_empty ts then t ∷ ts else t ∷ overlap_from size overlap t ts

-- The pieces of the blocks, in order.
unfoldable pub pieces_of : ℕ → TextPiece → List Text → List TextPiece
pieces_of size block [] = []
pieces_of size block (part ∷ parts) = record block { text = part } ∷ pieces_of size block parts

unfoldable pub split_blocks : ℕ → List TextPiece → List TextPiece
split_blocks size [] = []
split_blocks size (b ∷ bs) =
    pieces_of size b (split_oversized_paragraph b.text size) ++ split_blocks size bs

unfoldable pub texts_of : List TextPiece → List Text
texts_of [] = []
texts_of (p ∷ ps) = p.text ∷ texts_of ps

-- The texts of the chunks, from the blocks of the document.
unfoldable pub split_text : SplitOptions → List TextPiece → List Text
split_text opt blocks =
    let n = normalized opt in
    apply_overlap (texts_of (merge_pieces n.size (split_blocks n.size blocks))) n.size n.overlap
