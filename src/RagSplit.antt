-- ===== src/RagSplit.antt =====
-- pkg/rag/splitter.go: a document's text is cut into pieces, the pieces are merged into chunks, and
-- a chunk gets the end of the one before it in front. Byte offsets of the source are positions in
-- the list of code points. Metadata maps are left out; `file_name` and `source_format` do not
-- change the texts. The blocks of the document are given: what finds them in Markdown, RST and
-- plain texts, and the pages of a PDF, are left out.
pub mod Solid
pub mod Pieces
pub mod Merge
pub mod Overlap
use gen_runner.Prelude.{
  ℕ, zero, suc, ◌+◌, ◌-◌, ◌*◌, ◌/◌, ◌%◌, ◌^◌, ◌≤◌, ◌<◌, min, max, ◌≡◌, refl, sym, ap, ◌∙◌, subst,
  ◌≢◌, ◌↔◌, ◌⊎◌, inl, inr, Bool, true, false, not, ◌&&◌, ◌||◌, Option, none, some, List, [], ◌∷◌,
  ◌++◌, map, reverse, append_assoc, append-nil, arith, ltb, leb, ◌==◌, if◌then◌else◌, ltb→lt,
  lt→ltb, leb→le, le→leb, lt→leb_false, le→ltb_false, ==_iff, Bool-cases, Option-cases, List-cases,
  length, is_empty, get_elem?, set, take, drop, filter_by, all_by, All, length-append,
  length-reverse, length-map, length-set, take-append-drop, length-take, length-drop,
  take-append_left, drop-append_left, All-append, All-map_weaken,
}
use gen_runner.Prelude.Int.{ℤ, pos, negsuc, pos_part, is_negative}
use gen_runner.Text.{Text, codes, trim_space}

pub record SplitOptions : Type 0 where
  pub chunk_size_runes : ℤ
  pub chunk_overlap_runes : ℤ

-- The options that `normalized` gives are not negative.
pub record Sizes : Type 0 where
  pub size : ℕ
  pub overlap : ℕ

unfoldable pub normalized : SplitOptions → Sizes
normalized o =
    let size = if pos_part o.chunk_size_runes == 0 then 1024 else pos_part o.chunk_size_runes in
    let overlap = pos_part o.chunk_overlap_runes in
    record { size = size; overlap = if leb size overlap then size / 4 else overlap }

-- `textPiece`; a piece that is on no page of a PDF has page 0.
pub record TextPiece : Type 0 where
  pub text : Text
  pub heading_path : List Text
  pub pdf_lo : ℕ
  pub pdf_hi : ℕ

-- The parts of a loop that leaves blank texts out.
abbrev pub push_text : List Text → Text → List Text
push_text out t = if is_empty t then out else out ++ t ∷ []
