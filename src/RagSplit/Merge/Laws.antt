-- ===== src/RagSplit/Merge/Laws.antt =====
-- pkg/rag/splitter.go: the texts and the sizes of merged pieces.
use gen_runner.Prelude.{
  ℕ, ◌+◌, ◌≤◌, ◌≡◌, refl, sym, ◌∙◌, ◌⊎◌, inl, inr, List, [], ◌∷◌, ◌++◌, append_assoc, append-nil,
  arith, Bool-cases, length, is_empty, All, length-append, All-append,
}
use gen_runner.Text.{Text, is_space, trim_space}
use gen_runner.Text.Laws.{length-trim_space}
use gen_runner.RagSplit.{TextPiece}
use gen_runner.RagSplit.Solid.{solid, solid-append, solid-trim_space, solid_empty}
use gen_runner.RagSplit.Merge.{
  Merger, empty_merger, push_piece, flush, start, extend, merge_piece, merge_all, merge_pieces,
}

-- The code points of pieces that are no spaces.
unfoldable pub solid_pieces : List TextPiece → Text
solid_pieces [] = []
solid_pieces (p ∷ ps) = solid p.text ++ solid_pieces ps

abbrev pub FitPieces : ℕ → List TextPiece → Type 0
FitPieces n ps = All (λ (p : TextPiece). length p.text ≤ n) ps

pub solid_pieces-append :
    (ps qs : List TextPiece) → solid_pieces (ps ++ qs) ≡ solid_pieces ps ++ solid_pieces qs
unfolding solid_pieces
solid_pieces-append [] qs = refl
solid_pieces-append (p ∷ ps) qs =
    rw (solid_pieces-append ps qs, append_assoc (solid p.text) (solid_pieces ps) (solid_pieces qs))

abbrev held : Merger → Text
held m = solid_pieces m.merged ++ solid m.cur

-- What is merged is within the size, and the current text too, whose length is counted right.
record FitMerger (n : ℕ) (m : Merger) : Type 0 where
  fit : FitPieces n m.merged
  counted : length m.cur ≡ m.cur_runes
  room : m.cur_runes ≤ n

solid_pieces-push_piece : (m : Merger) → solid_pieces (push_piece m) ≡ held m
unfolding push_piece solid_pieces
solid_pieces-push_piece m = elim (Bool-cases (is_empty (trim_space m.cur))) [
  | inl e ↦
      let blank : solid m.cur ≡ [] =
        sym (solid-trim_space m.cur) ∙ solid_empty (trim_space m.cur) e in
      rw (e, blank, append-nil)
  | inr e ↦
      let last : TextPiece = record {
        text = trim_space m.cur;
        heading_path = m.cur_path;
        pdf_lo = m.cur_lo;
        pdf_hi = m.cur_hi;
      } in
      rw (e, solid_pieces-append m.merged (last ∷ []), append-nil, solid-trim_space m.cur)
]

held-flush : (m : Merger) → held (flush m) ≡ held m
unfolding flush solid empty_merger
held-flush m = rw append-nil (solid_pieces-push_piece m)

held-start : (m : Merger) (p : TextPiece) → held (start m p) ≡ held m ++ solid p.text
unfolding start
held-start m p =
    rw
      (solid-append m.cur p.text, append_assoc (solid_pieces m.merged) (solid m.cur) (solid p.text))

held-extend : (m : Merger) (p : TextPiece) → held (extend m p) ≡ held m ++ solid p.text
unfolding extend
held-extend m p =
    let gap : solid (10 ∷ p.text) ≡ solid p.text = unfold solid is_space in refl in
    rw (
      solid-append m.cur (10 ∷ p.text),
      gap,
      append_assoc (solid_pieces m.merged) (solid m.cur) (solid p.text),
    )

-- What a step may do: start in the current text if that is empty, start behind it, or extend it.
merge_piece-cases :
    (n : ℕ) (m : Merger) (p : TextPiece)
    → ((m.cur_runes ≡ 0) × (merge_piece n m p ≡ start m p))
      ⊎ ((merge_piece n m p ≡ start (flush m) p)
          ⊎ ((m.cur_runes + 1 + length p.text ≤ n) × (merge_piece n m p ≡ extend m p)))
unfolding merge_piece
merge_piece-cases n m p = ground arith

held-merge_piece :
    (n : ℕ) (m : Merger) (p : TextPiece) → held (merge_piece n m p) ≡ held m ++ solid p.text
held-merge_piece n m p = elim (merge_piece-cases n m p) [
  | inl (z, e) ↦ rw e (held-start m p)
  | inr (inl e) ↦ rw e (held-start (flush m) p ∙ rw (held-flush m))
  | inr (inr (k, e)) ↦ rw e (held-extend m p)
]

flush_merged : (m : Merger) → (flush m).merged ≡ push_piece m
unfolding flush
flush_merged m = refl

solid_pieces-merge_all :
    (n : ℕ) (m : Merger) (ps : List TextPiece)
    → solid_pieces (merge_all n m ps) ≡ held m ++ solid_pieces ps
unfolding merge_all
solid_pieces-merge_all n m [] =
    unfold solid_pieces in rw (append-nil, flush_merged m) (solid_pieces-push_piece m)
solid_pieces-merge_all n m (p ∷ ps) =
    solid_pieces-merge_all n (merge_piece n m p) ps
    ∙ unfold solid_pieces in
      (rw (held-merge_piece n m p) (append_assoc (held m) (solid p.text) (solid_pieces ps)))

-- The merged pieces hold the code points that are no spaces of the pieces, all and in order.
pub solid_pieces-merge_pieces :
    (n : ℕ) (ps : List TextPiece) → solid_pieces (merge_pieces n ps) ≡ solid_pieces ps
unfolding merge_pieces
solid_pieces-merge_pieces n ps =
    solid_pieces-merge_all n empty_merger ps ∙ unfold empty_merger solid_pieces solid in refl

flush-FitMerger : (n : ℕ) (m : Merger) → FitMerger n m → FitMerger n (flush m)
unfolding flush push_piece empty_merger
flush-FitMerger n m f = record {
  fit = elim (Bool-cases (is_empty (trim_space m.cur))) [
    | inl e ↦ rw e f.fit
    | inr e ↦ rw e (
        All-append (λ (p : TextPiece). length p.text ≤ n) m.merged _ f.fit
          (omega (arith, length-trim_space m.cur, f.counted, f.room), tt))
  ];
  counted = refl;
  room = omega arith;
}

start-FitMerger :
    (n : ℕ) (m : Merger) (p : TextPiece)
    → FitMerger n m
    → length m.cur ≡ 0
    → length p.text ≤ n
    → FitMerger n (start m p)
unfolding start
start-FitMerger n m p f z k = record {
  fit = f.fit;
  counted = omega (arith, length-append m.cur p.text, z);
  room = k;
}

extend-FitMerger :
    (n : ℕ) (m : Merger) (p : TextPiece)
    → FitMerger n m
    → m.cur_runes + 1 + length p.text ≤ n
    → FitMerger n (extend m p)
unfolding extend
extend-FitMerger n m p f k = record {
  fit = f.fit;
  counted = omega (arith, length-append m.cur (10 ∷ p.text), f.counted);
  room = omega (arith, k);
}

flush_cur : (m : Merger) → length (flush m).cur ≡ 0
unfolding flush empty_merger
flush_cur m = refl

merge_all-FitPieces :
    (n : ℕ) (m : Merger) (ps : List TextPiece)
    → FitMerger n m
    → FitPieces n ps
    → FitPieces n (merge_all n m ps)
unfolding merge_all
merge_all-FitPieces n m [] f h = (flush-FitMerger n m f).fit
merge_all-FitPieces n m (p ∷ ps) f h = merge_all-FitPieces n (merge_piece n m p) ps stepped h.1
  where
    stepped : FitMerger n (merge_piece n m p)
    stepped = elim (merge_piece-cases n m p) [
      | inl (z, e) ↦ rw e (start-FitMerger n m p f (f.counted ∙ z) h.0)
      | inr (inl e) ↦ rw e (start-FitMerger n (flush m) p (flush-FitMerger n m f) (flush_cur m) h.0)
      | inr (inr (k, e)) ↦ rw e (extend-FitMerger n m p f k)
    ]

-- If no piece is longer than the size, no merged piece is.
pub merge_pieces-FitPieces :
    (n : ℕ) (ps : List TextPiece) → FitPieces n ps → FitPieces n (merge_pieces n ps)
unfolding merge_pieces empty_merger
merge_pieces-FitPieces n ps h =
    merge_all-FitPieces n empty_merger ps (record { fit = tt; counted = refl; room = omega arith })
      h
