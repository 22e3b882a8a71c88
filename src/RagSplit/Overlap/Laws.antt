-- ===== src/RagSplit/Overlap/Laws.antt =====
-- pkg/rag/splitter.go: the texts and the sizes of chunks.
use gen_runner.Prelude.{
  ℕ, zero, suc, ◌+◌, ◌-◌, ◌≤◌, ◌<◌, ◌≡◌, refl, sym, ap, ◌∙◌, inl, inr, true, false, ◌||◌, List, [],
  ◌∷◌, ◌++◌, arith, ltb, leb, ◌==◌, Bool-cases, length, is_empty, drop, length-append, length-drop,
  All-append,
}
use gen_runner.Text.{Text, codes, trim_space}
use gen_runner.Text.Laws.{length-trim_space}
use gen_runner.RagSplit.{SplitOptions, normalized, TextPiece}
use gen_runner.RagSplit.Solid.{solid, solids, solid-append, solid-trim_space}
use gen_runner.RagSplit.Pieces.{split_oversized_paragraph}
use gen_runner.RagSplit.Pieces.Keeps.{solids-split_oversized_paragraph}
use gen_runner.RagSplit.Pieces.Fits.{Fit, split_oversized_paragraph-Fit}
use gen_runner.RagSplit.Merge.{merge_pieces}
use gen_runner.RagSplit.Merge.Laws.{
  solid_pieces, solid_pieces-append, FitPieces, solid_pieces-merge_pieces, merge_pieces-FitPieces,
}
use gen_runner.RagSplit.Overlap.{
  rune_suffix, overlapped, overlap_from, apply_overlap, pieces_of, split_blocks, texts_of,
  split_text,
}

-- The options that are used make sense.
pub normalized_sizes :
    (o : SplitOptions) → (0 < (normalized o).size) × ((normalized o).overlap < (normalized o).size)
unfolding normalized
normalized_sizes o = ground arith

pub length-rune_suffix : (s : Text) (n : ℕ) → length (rune_suffix s n) ≤ n
unfolding rune_suffix
length-rune_suffix s n =
    ground (arith, length-trim_space (drop (length s - n) s), length-drop (length s - n) s)

length-overlapped :
    (size overlap : ℕ) (before text : Text)
    → length text ≤ size + overlap
    → length (overlapped size overlap before text) ≤ size + overlap
unfolding overlapped
length-overlapped size overlap before text h = ground (
  arith,
  length-rune_suffix (rune_suffix before overlap ++ codes "\n\n" ++ text) (size + overlap),
)

overlap_from-Fit :
    (size overlap : ℕ) (before : Text) (ts : List Text)
    → Fit (size + overlap) ts
    → Fit (size + overlap) (overlap_from size overlap before ts)
unfolding overlap_from
overlap_from-Fit size overlap before [] h = tt
overlap_from-Fit size overlap before (t ∷ ts) h =
    (length-overlapped size overlap before t h.0, overlap_from-Fit size overlap t ts h.1)

apply_overlap-Fit :
    (ts : List Text) (size overlap : ℕ)
    → Fit (size + overlap) ts
    → Fit (size + overlap) (apply_overlap ts size overlap)
unfolding apply_overlap
apply_overlap-Fit [] size overlap h = tt
apply_overlap-Fit (t ∷ ts) size overlap h = elim (Bool-cases (overlap == 0 || is_empty ts)) [
  | inl e ↦ rw e h
  | inr e ↦ rw e (h.0, overlap_from-Fit size overlap t ts h.1)
]

pieces_of-FitPieces :
    (n : ℕ) (b : TextPiece) (parts : List Text) → Fit n parts → FitPieces n (pieces_of n b parts)
unfolding pieces_of
pieces_of-FitPieces n b [] h = tt
pieces_of-FitPieces n b (p ∷ ps) h = (h.0, pieces_of-FitPieces n b ps h.1)

split_blocks-FitPieces : (n : ℕ) (bs : List TextPiece) → 0 < n → FitPieces n (split_blocks n bs)
unfolding split_blocks
split_blocks-FitPieces n [] h = tt
split_blocks-FitPieces n (b ∷ bs) h =
    All-append (λ (p : TextPiece). length p.text ≤ n)
      (pieces_of n b (split_oversized_paragraph b.text n)) (split_blocks n bs)
      (pieces_of-FitPieces n b (split_oversized_paragraph b.text n)
        (split_oversized_paragraph-Fit b.text n h))
      (split_blocks-FitPieces n bs h)

texts_of-Fit : (n k : ℕ) (ps : List TextPiece) → FitPieces n ps → Fit (n + k) (texts_of ps)
unfolding texts_of
texts_of-Fit n k [] h = tt
texts_of-Fit n k (p ∷ ps) h = (omega (arith, h.0), texts_of-Fit n k ps h.1)

-- No chunk has more code points than the size and the overlap that are used, whatever the options
-- and the blocks of the document.
pub split_text-Fit :
    (opt : SplitOptions) (blocks : List TextPiece)
    → Fit ((normalized opt).size + (normalized opt).overlap) (split_text opt blocks)
unfolding split_text
split_text-Fit opt blocks =
    let n = normalized opt in
    let (some_size, _) = normalized_sizes opt in
    let pieces = split_blocks n.size blocks in
    apply_overlap-Fit (texts_of (merge_pieces n.size pieces)) n.size n.overlap (
      texts_of-Fit n.size n.overlap (merge_pieces n.size pieces)
        (merge_pieces-FitPieces n.size pieces (split_blocks-FitPieces n.size blocks some_size)))

solid_pieces-pieces_of :
    (n : ℕ) (b : TextPiece) (parts : List Text) → solid_pieces (pieces_of n b parts) ≡ solids parts
unfolding pieces_of solid_pieces solids
solid_pieces-pieces_of n b [] = refl
solid_pieces-pieces_of n b (p ∷ ps) =
    ap (λ (r : Text). solid p ++ r) (solid_pieces-pieces_of n b ps)

solid_pieces-split_blocks :
    (n : ℕ) (bs : List TextPiece) → solid_pieces (split_blocks n bs) ≡ solid_pieces bs
unfolding split_blocks solid_pieces
solid_pieces-split_blocks n [] = refl
solid_pieces-split_blocks n (b ∷ bs) = rw (
  solid_pieces-append (pieces_of n b (split_oversized_paragraph b.text n)) (split_blocks n bs),
  solid_pieces-pieces_of n b (split_oversized_paragraph b.text n),
  solids-split_oversized_paragraph b.text n,
  solid_pieces-split_blocks n bs,
)

solids-texts_of : (ps : List TextPiece) → solids (texts_of ps) ≡ solid_pieces ps
unfolding texts_of solids solid_pieces
solids-texts_of [] = refl
solids-texts_of (p ∷ ps) = ap (λ (r : Text). solid p.text ++ r) (solids-texts_of ps)

-- A chunk ends in a text, up to spaces.
abbrev pub EndsIn : Text → Text → Type 0
EndsIn chunk text = (front : Text) × (solid chunk ≡ front ++ solid text)

-- Each chunk ends in the text at its place, and there are as many.
abbrev pub EachEndsIn : List Text → List Text → Type 0
EachEndsIn [] [] = Unit
EachEndsIn [] (t ∷ ts) = ⊥
EachEndsIn (c ∷ cs) [] = ⊥
EachEndsIn (c ∷ cs) (t ∷ ts) = EndsIn c t × EachEndsIn cs ts

drop-append : (k : ℕ) (a text : Text) → k ≤ length a → drop k (a ++ text) ≡ drop k a ++ text
drop-append zero a text h = refl
drop-append (suc k) [] text h = absurd (omega arith)
drop-append (suc k) (c ∷ a) text h = drop-append k a text (omega arith)

drop-EndsIn : (k : ℕ) (a text : Text) → k ≤ length a → EndsIn (trim_space (drop k (a ++ text))) text
drop-EndsIn k a text h = (
  solid (drop k a),
  solid-trim_space (drop k (a ++ text))
      ∙ rw (drop-append k a text h) (solid-append (drop k a) text),
)

solid-blank : (a text : Text) → is_empty (a ++ text) ≡ true → solid text ≡ []
unfolding solid
solid-blank [] [] e = refl
solid-blank [] (c ∷ t) e = cc
solid-blank (c ∷ a) t e = cc

solid_nil : solid [] ≡ []
unfolding solid
solid_nil = refl

rune_suffix-EndsIn :
    (a text : Text) (n : ℕ) → length text ≤ n → 0 < n → EndsIn (rune_suffix (a ++ text) n) text
unfolding rune_suffix
rune_suffix-EndsIn a text n h p =
    let some_size : (n == 0) ≡ false = ground arith in
    elim (Bool-cases (is_empty (a ++ text))) [
      | inl e ↦ rw (some_size, e) ([], solid_nil ∙ sym (solid-blank a text e))
      | inr e ↦ elim (Bool-cases (leb (length (a ++ text)) n)) [
        | inl f ↦ rw (some_size, e, f) (solid a, solid-append a text)
        | inr f ↦
            rw (some_size, e, f)
              (drop-EndsIn (length (a ++ text) - n) a text (omega (arith, length-append a text)))
      ]
    ]

overlapped-EndsIn :
    (size overlap : ℕ) (before text : Text)
    → 0 < size
    → length text ≤ size + overlap
    → EndsIn (overlapped size overlap before text) text
unfolding overlapped
overlapped-EndsIn size overlap before text p h =
    let front = rune_suffix before overlap ++ codes "\n\n" in
    elim (Bool-cases (is_empty (rune_suffix before overlap))) [
      | inl e ↦ rw e ([], refl)
      | inr e ↦ elim (Bool-cases (ltb (size + overlap) (length (front ++ text)))) [
        | inl f ↦ rw (e, f) (rune_suffix-EndsIn front text (size + overlap) h (omega arith))
        | inr f ↦ rw (e, f) (solid front, solid-append front text)
      ]
    ]

overlap_from-EachEndsIn :
    (size overlap : ℕ) (before : Text) (ts : List Text)
    → 0 < size
    → Fit (size + overlap) ts
    → EachEndsIn (overlap_from size overlap before ts) ts
unfolding overlap_from
overlap_from-EachEndsIn size overlap before [] p h = tt
overlap_from-EachEndsIn size overlap before (t ∷ ts) p h =
    (overlapped-EndsIn size overlap before t p h.0, overlap_from-EachEndsIn size overlap t ts p h.1)

EachEndsIn-refl : (ts : List Text) → EachEndsIn ts ts
EachEndsIn-refl [] = tt
EachEndsIn-refl (t ∷ ts) = (([], refl), EachEndsIn-refl ts)

apply_overlap-EachEndsIn :
    (ts : List Text) (size overlap : ℕ)
    → 0 < size
    → Fit (size + overlap) ts
    → EachEndsIn (apply_overlap ts size overlap) ts
unfolding apply_overlap
apply_overlap-EachEndsIn [] size overlap p h = tt
apply_overlap-EachEndsIn (t ∷ ts) size overlap p h =
    elim (Bool-cases (overlap == 0 || is_empty ts)) [
      | inl e ↦ rw e (EachEndsIn-refl (t ∷ ts))
      | inr e ↦ rw e (([], refl), overlap_from-EachEndsIn size overlap t ts p h.1)
    ]

-- Up to spaces, each chunk ends in a text of its own, and these texts in a row are the document's
-- blocks: no code point but spaces is lost, doubled or moved, whatever the options.
pub split_text-EachEndsIn :
    (opt : SplitOptions) (blocks : List TextPiece)
    → (texts : List Text) × EachEndsIn (split_text opt blocks) texts
      × (solids texts ≡ solid_pieces blocks)
unfolding split_text
split_text-EachEndsIn opt blocks =
    let n = normalized opt in
    let (some_size, _) = normalized_sizes opt in
    let pieces = split_blocks n.size blocks in
    let texts = texts_of (merge_pieces n.size pieces) in
    let fit =
      texts_of-Fit n.size n.overlap (merge_pieces n.size pieces)
        (merge_pieces-FitPieces n.size pieces (split_blocks-FitPieces n.size blocks some_size)) in
    (
      texts,
      apply_overlap-EachEndsIn texts n.size n.overlap some_size fit,
      solids-texts_of (merge_pieces n.size pieces)
          ∙ solid_pieces-merge_pieces n.size pieces
          ∙ solid_pieces-split_blocks n.size blocks,
    )
