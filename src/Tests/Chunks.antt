-- ===== src/Tests/Chunks.antt =====
-- Runs of the splitter, and the theorems about it at concrete documents.
use gen_runner.Prelude.{◌+◌, ◌≡◌, refl, List, [], ◌∷◌}
use gen_runner.Prelude.Int.{pos}
use gen_runner.Text.{Text, codes, trim_space, trim_left_func, trim_right_func, is_space}
use gen_runner.RagSplit.{SplitOptions, normalized, TextPiece}
use gen_runner.RagSplit.Solid.{solids}
use gen_runner.RagSplit.Pieces.{
  split_sentences, sentences_from, ends_sentence, next_rune, may_follow,
}
use gen_runner.RagSplit.Pieces.Fits.{Fit}
use gen_runner.RagSplit.Merge.Laws.{solid_pieces}
use gen_runner.RagSplit.Overlap.{split_text}
use gen_runner.RagSplit.Overlap.Laws.{split_text-Fit, EachEndsIn, split_text-EachEndsIn}

abbrev options : SplitOptions
options = record { chunk_size_runes = pos 8; chunk_overlap_runes = pos 3 }

abbrev block : Text → TextPiece
block t = record { text = t; heading_path = []; pdf_lo = 0; pdf_hi = 0 }

abbrev blocks : List TextPiece
blocks = block (codes "One. Two. Three.") ∷ block (codes "Four") ∷ []

two_sentences : split_sentences (codes "One. Two.") ≡ codes "One." ∷ codes "Two." ∷ []
unfolding split_sentences sentences_from ends_sentence next_rune may_follow trim_space
    trim_left_func trim_right_func is_space
two_sentences = refl

-- An ellipsis ends no sentence.
ellipsis_goes_on : split_sentences (codes "One… Two.") ≡ codes "One… Two." ∷ []
unfolding split_sentences sentences_from ends_sentence next_rune may_follow trim_space
    trim_left_func trim_right_func is_space
ellipsis_goes_on = refl

split_text-Fit_example :
    Fit ((normalized options).size + (normalized options).overlap) (split_text options blocks)
split_text-Fit_example = split_text-Fit options blocks

split_text-EachEndsIn_example :
    (texts : List Text) × EachEndsIn (split_text options blocks) texts
    × (solids texts ≡ solid_pieces blocks)
split_text-EachEndsIn_example = split_text-EachEndsIn options blocks
