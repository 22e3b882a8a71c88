-- ===== src/RagSplit/Merge.antt =====
-- pkg/rag/splitter.go, the loop of `SplitTextWithPDFPageBounds` that merges pieces into chunks.
pub mod Laws
use gen_runner.Prelude.{
  ℕ, ◌+◌, min, max, Bool, true, false, not, ◌&&◌, List, [], ◌∷◌, ◌++◌, leb, ◌==◌, if◌then◌else◌,
  length, is_empty,
}
use gen_runner.Text.{Text, text_eq, trim_space}
use gen_runner.RagSplit.{TextPiece}

unfoldable pub union_pdf_page_range : ℕ → ℕ → ℕ → ℕ → ℕ × ℕ
union_pdf_page_range lo hi lo₂ hi₂ =
    if lo₂ == 0 then (lo, hi) else if lo == 0 then (lo₂, hi₂) else (min lo₂ lo, max hi₂ hi)

unfoldable pub heading_paths_equal : List Text → List Text → Bool
heading_paths_equal [] [] = true
heading_paths_equal [] (y ∷ ys) = false
heading_paths_equal (x ∷ xs) [] = false
heading_paths_equal (x ∷ xs) (y ∷ ys) = text_eq x y && heading_paths_equal xs ys

-- The variables of the loop. `cur_runes` counts the code points of `cur`.
pub record Merger : Type 0 where
  pub merged : List TextPiece
  pub cur : Text
  pub cur_path : List Text
  pub cur_lo : ℕ
  pub cur_hi : ℕ
  pub cur_runes : ℕ

unfoldable pub empty_merger : Merger
empty_merger = record {
  merged = [];
  cur = [];
  cur_path = [];
  cur_lo = 0;
  cur_hi = 0;
  cur_runes = 0;
}

unfoldable pub push_piece : Merger → List TextPiece
push_piece m =
    let t = trim_space m.cur in
    if is_empty t
    then m.merged
    else m.merged
      ++ record { text = t; heading_path = m.cur_path; pdf_lo = m.cur_lo; pdf_hi = m.cur_hi } ∷ []

unfoldable pub flush : Merger → Merger
flush m = record empty_merger { merged = push_piece m }

-- `cur.WriteString(piece.text)` where nothing has been written.
unfoldable pub start : Merger → TextPiece → Merger
start m piece = record m {
  cur = m.cur ++ piece.text;
  cur_runes = length piece.text;
  cur_path = piece.heading_path;
  cur_lo = piece.pdf_lo;
  cur_hi = piece.pdf_hi;
}

unfoldable pub extend : Merger → TextPiece → Merger
extend m piece =
    let (lo, hi) = union_pdf_page_range m.cur_lo m.cur_hi piece.pdf_lo piece.pdf_hi in
    record m {
      cur = m.cur ++ 10 ∷ piece.text;
      cur_runes = m.cur_runes + (1 + length piece.text);
      cur_lo = lo;
      cur_hi = hi;
    }

unfoldable pub merge_piece : ℕ → Merger → TextPiece → Merger
merge_piece size m piece =
    if m.cur_runes == 0
    then start m piece
    else if not (heading_paths_equal m.cur_path piece.heading_path)
    then start (flush m) piece
    else if leb (m.cur_runes + 1 + length piece.text) size
    then extend m piece
    else start (flush m) piece

unfoldable pub merge_all : ℕ → Merger → List TextPiece → List TextPiece
merge_all size m [] = (flush m).merged
merge_all size m (piece ∷ pieces) = merge_all size (merge_piece size m piece) pieces

unfoldable pub merge_pieces : ℕ → List TextPiece → List TextPiece
merge_pieces size pieces = merge_all size empty_merger pieces
