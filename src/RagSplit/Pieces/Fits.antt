-- ===== src/RagSplit/Pieces/Fits.antt =====
-- pkg/rag/splitter.go: the sizes of the parts of a paragraph.
use gen_runner.Prelude.{
  ℕ, zero, suc, ◌+◌, ◌≤◌, ◌<◌, ◌≡◌, refl, inl, inr, false, ◌&&◌, List, [], ◌∷◌, arith, ltb, leb,
  ◌==◌, if◌then◌else◌, leb→le, Bool-cases, length, is_empty, drop, All, length-append, length-take,
  All-append,
}
use gen_runner.Text.{Text, trim_left_func, trim_space}
use gen_runner.Text.Laws.{length-trim_space}
use gen_runner.RagSplit.{push_text}
use gen_runner.RagSplit.Pieces.{
  unicode_space_newline, chunk_runes_from, chunk_runes, trim_parts, hard_split_runes,
  split_sentences, Builder, flush, add_sentence, place_long, place_sentence, place_all,
  split_by_sentences, split_oversized_paragraph,
}

abbrev pub Fit : ℕ → List Text → Type 0
Fit n ts = All (λ t. length t ≤ n) ts

chunk_runes_from-Fit : (fuel : ℕ) (s : Text) (n : ℕ) → Fit n (chunk_runes_from fuel s n)
unfolding chunk_runes_from
chunk_runes_from-Fit zero s n = tt
chunk_runes_from-Fit (suc fuel) [] n = tt
chunk_runes_from-Fit (suc fuel) (c ∷ s) n = elim (Bool-cases (leb (length (c ∷ s)) n)) [
  | inl e ↦ rw e (leb→le _ _ e, tt)
  | inr e ↦ rw e (
    omega (arith, length-take n (c ∷ s)),
    chunk_runes_from-Fit fuel (trim_left_func unicode_space_newline (drop n (c ∷ s))) n,
  )
]

trim_parts-Fit : (n : ℕ) (ps : List Text) → Fit n ps → Fit n (trim_parts ps)
unfolding trim_parts
trim_parts-Fit n [] h = tt
trim_parts-Fit n (p ∷ ps) h = elim (Bool-cases (is_empty (trim_space p))) [
  | inl e ↦ rw e (trim_parts-Fit n ps h.1)
  | inr e ↦ rw e (omega (arith, h.0, length-trim_space p), trim_parts-Fit n ps h.1)
]

pub hard_split_runes-Fit : (s : Text) (n : ℕ) → 0 < n → Fit n (hard_split_runes s n)
unfolding hard_split_runes chunk_runes
hard_split_runes-Fit s n p =
    let some_size : (n == 0) ≡ false = ground arith in
    rw some_size
      (trim_parts-Fit n (chunk_runes_from (length s) s n) (chunk_runes_from-Fit (length s) s n))

pub push_text-Fit :
    (n : ℕ) (out : List Text) (t : Text) → Fit n out → length t ≤ n → Fit n (push_text out t)
push_text-Fit n out t h k = elim (Bool-cases (is_empty t)) [
  | inl e ↦ rw e h
  | inr e ↦ rw e (All-append (λ (t : Text). length t ≤ n) out (t ∷ []) h (k, tt))
]

-- What is placed is within the size, and so is the buffer, whose length is counted right.
record FitBuilder (n : ℕ) (b : Builder) : Type 0 where
  placed : Fit n b.out
  counted : length b.buf ≡ b.count
  room : b.count ≤ n

flush-FitBuilder : (n : ℕ) (b : Builder) → FitBuilder n b → FitBuilder n (flush b)
unfolding flush
flush-FitBuilder n b f = record {
  placed =
      push_text-Fit n b.out (trim_space b.buf) f.placed
        (omega (arith, length-trim_space b.buf, f.counted, f.room));
  counted = refl;
  room = omega arith;
}

add_sentence-FitBuilder :
    (n : ℕ) (b : Builder) (s : Text)
    → FitBuilder n b
    → length s ≤ n
    → (ltb 0 b.count && ltb n (b.count + 1 + length s)) ≡ false
    → FitBuilder n (add_sentence b s)
unfolding add_sentence
add_sentence-FitBuilder n b s f k free = elim (Bool-cases (ltb 0 b.count)) [
  | inl e ↦
      let under : ltb n (b.count + 1 + length s) ≡ false = ground (arith, e, free) in
      rw e (record {
        placed = f.placed;
        counted = omega (arith, length-append b.buf (32 ∷ s), f.counted);
        room = ground (arith, under);
      })
  | inr e ↦
      let none_yet : b.count ≡ 0 = ground (arith, e) in
      rw e (record {
        placed = f.placed;
        counted = omega (arith, length-append b.buf s, f.counted);
        room = omega (arith, none_yet, k);
      })
]

place_long-FitBuilder :
    (n : ℕ) (b : Builder) (s : Text) → 0 < n → FitBuilder n b → FitBuilder n (place_long n b s)
unfolding place_long
place_long-FitBuilder n b s p f =
    let g = flush-FitBuilder n b f in
    record {
      placed =
          All-append (λ (t : Text). length t ≤ n) (flush b).out (hard_split_runes s n) g.placed
            (hard_split_runes-Fit s n p);
      counted = g.counted;
      room = g.room;
    }

place_room :
    (n : ℕ) (r : Builder) (s : Text)
    → 0 < n
    → FitBuilder n r
    → (ltb 0 r.count && ltb n (r.count + 1 + length s)) ≡ false
    → FitBuilder n (if ltb n (length s) then place_long n r s else add_sentence r s)
place_room n r s p f free = elim (Bool-cases (ltb n (length s))) [
  | inl e ↦ rw e (place_long-FitBuilder n r s p f)
  | inr e ↦ rw e (add_sentence-FitBuilder n r s f (ground (arith, e)) free)
]

flush_free :
    (n : ℕ) (b : Builder) (k : ℕ)
    → (ltb 0 (flush b).count && ltb n ((flush b).count + 1 + k)) ≡ false
unfolding flush
flush_free n b k = refl

place_sentence-FitBuilder :
    (n : ℕ) (b : Builder) (s : Text) → 0 < n → FitBuilder n b → FitBuilder n (place_sentence n b s)
unfolding place_sentence
place_sentence-FitBuilder n b s p f =
    elim (Bool-cases (ltb 0 b.count && ltb n (b.count + 1 + length s))) [
      | inl e ↦
          rw e (place_room n (flush b) s p (flush-FitBuilder n b f) (flush_free n b (length s)))
      | inr e ↦ rw e (place_room n b s p f e)
    ]

place_all-Fit :
    (n : ℕ) (b : Builder) (ss : List Text) → 0 < n → FitBuilder n b → Fit n (place_all n b ss).out
unfolding place_all
place_all-Fit n b [] p f = (flush-FitBuilder n b f).placed
place_all-Fit n b (s ∷ ss) p f =
    place_all-Fit n (place_sentence n b s) ss p (place_sentence-FitBuilder n b s p f)

-- For a positive size no part of a paragraph has more code points than the size.
pub split_oversized_paragraph-Fit :
    (p : Text) (n : ℕ) → 0 < n → Fit n (split_oversized_paragraph p n)
unfolding split_oversized_paragraph split_by_sentences
split_oversized_paragraph-Fit p n h = elim (Bool-cases (leb (length p) n)) [
  | inl e ↦ rw e (leb→le _ _ e, tt)
  | inr e ↦ elim (Bool-cases (leb (length (split_sentences p)) 1)) [
    | inl f ↦ rw (e, f) (hard_split_runes-Fit p n h)
    | inr f ↦
        let b : Builder = record { out = []; buf = []; count = 0 } in
        elim (Bool-cases (is_empty (place_all n b (split_sentences p)).out)) [
          | inl g ↦ rw (e, f, g) (hard_split_runes-Fit p n h)
          | inr g ↦
              rw (e, f, g)
                (place_all-Fit n b (split_sentences p) h
                  (record { placed = tt; counted = refl; room = omega arith }))
        ]
  ]
]
