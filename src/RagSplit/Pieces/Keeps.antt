-- ===== src/RagSplit/Pieces/Keeps.antt =====
-- pkg/rag/splitter.go: the texts of the parts of a paragraph.
use gen_runner.Prelude.{
  ℕ, zero, suc, ◌+◌, ◌≤◌, ◌<◌, ◌≡◌, refl, sym, ap, ◌∙◌, inl, inr, true, ◌&&◌, List, [], ◌∷◌, ◌++◌,
  append_assoc, append-nil, arith, ltb, leb, ◌==◌, if◌then◌else◌, Bool-cases, length, is_empty,
  take, drop, take-append-drop, length-drop,
}
use gen_runner.Text.{Text, is_space, trim_left_func, trim_space}
use gen_runner.Text.Laws.{length-trim_left_func}
use gen_runner.RagSplit.{push_text}
use gen_runner.RagSplit.Solid.{
  solid, solids, solid-append, solids-append, solid-trim_left_func, solid-trim_space,
  solids-push_text, solid_empty,
}
use gen_runner.RagSplit.Pieces.{
  unicode_space_newline, chunk_runes_from, chunk_runes, trim_parts, hard_split_runes, ends_sentence,
  sentences_from, split_sentences, Builder, flush, add_sentence, place_long, place_sentence,
  place_all, split_by_sentences, split_oversized_paragraph,
}

space_newline-is_space : (c : ℕ) → unicode_space_newline c ≡ true → is_space c ≡ true
unfolding unicode_space_newline is_space
space_newline-is_space c h = ground arith

solids-chunk_runes_from :
    (fuel : ℕ) (s : Text) (max_runes : ℕ)
    → 0 < max_runes
    → length s ≤ fuel
    → solids (chunk_runes_from fuel s max_runes) ≡ solid s
unfolding chunk_runes_from solids
solids-chunk_runes_from zero [] max_runes p h = unfold solid in refl
solids-chunk_runes_from zero (c ∷ s) max_runes p h = absurd (omega arith)
solids-chunk_runes_from (suc fuel) [] max_runes p h = unfold solid in refl
solids-chunk_runes_from (suc fuel) (c ∷ s) max_runes p h =
    elim (Bool-cases (leb (length (c ∷ s)) max_runes)) [
      | inl e ↦ rw (e, append-nil)
      | inr e ↦
          let rest = drop max_runes (c ∷ s) in
          let shorter : length (trim_left_func unicode_space_newline rest) ≤ fuel = omega (
            arith,
            length-trim_left_func unicode_space_newline rest,
            length-drop max_runes (c ∷ s),
          ) in
          rw e (
            ap (λ (r : Text). solid (take max_runes (c ∷ s)) ++ r)
              (solids-chunk_runes_from fuel (trim_left_func unicode_space_newline rest) max_runes p
                  shorter
                ∙ solid-trim_left_func unicode_space_newline rest space_newline-is_space)
            ∙ sym (solid-append (take max_runes (c ∷ s)) rest)
            ∙ ap solid (take-append-drop max_runes (c ∷ s)))
    ]

solids-trim_parts : (ps : List Text) → solids (trim_parts ps) ≡ solids ps
unfolding trim_parts solids
solids-trim_parts [] = refl
solids-trim_parts (p ∷ ps) = elim (Bool-cases (is_empty (trim_space p))) [
  | inl e ↦
      let blank : solid p ≡ [] = sym (solid-trim_space p) ∙ solid_empty (trim_space p) e in
      rw (e, blank) (solids-trim_parts ps)
  | inr e ↦ rw (e, solid-trim_space p, solids-trim_parts ps)
]

pub solids-hard_split_runes :
    (s : Text) (max_runes : ℕ) → solids (hard_split_runes s max_runes) ≡ solid s
unfolding hard_split_runes chunk_runes solids
solids-hard_split_runes s max_runes = elim (Bool-cases (max_runes == 0)) [
  | inl e ↦ rw (e, append-nil)
  | inr e ↦
      rw (e, solids-trim_parts (chunk_runes_from (length s) s max_runes))
        (solids-chunk_runes_from (length s) s max_runes (ground (arith, e)) (omega arith))
]

solids-sentences_from :
    (out : List Text) (cur s : Text)
    → solids (sentences_from out cur s) ≡ solids out ++ solid (cur ++ s)
unfolding sentences_from
solids-sentences_from out cur [] =
    rw (append-nil, solids-push_text out (trim_space cur), solid-trim_space cur)
solids-sentences_from out cur (c ∷ s) = elim (Bool-cases (ends_sentence c s)) [
  | inl e ↦
      let seg = cur ++ c ∷ [] in
      rw (
        e,
        solids-sentences_from (push_text out (trim_space seg)) [] s,
        solids-push_text out (trim_space seg),
        solid-trim_space seg,
        append_assoc (solids out) (solid seg) (solid s),
        ← solid-append seg s,
        append_assoc cur (c ∷ []) s,
      )
  | inr e ↦ rw (e, solids-sentences_from out (cur ++ c ∷ []) s, append_assoc cur (c ∷ []) s)
]

pub solids-split_sentences : (s : Text) → solids (split_sentences s) ≡ solid s
unfolding split_sentences
solids-split_sentences s =
    solids-sentences_from [] [] (trim_space s) ∙ unfold solids in solid-trim_space s

-- What the builder holds.
abbrev held : Builder → Text
held b = solids b.out ++ solid b.buf

held-flush : (b : Builder) → held (flush b) ≡ held b
unfolding flush
held-flush b =
    rw (solids-push_text b.out (trim_space b.buf), solid-trim_space b.buf)
      (unfold solid in append-nil _)

held_empty : (b : Builder) → held (flush b) ≡ solids (flush b).out
unfolding flush solid
held_empty b = append-nil _

held-add_sentence : (b : Builder) (s : Text) → held (add_sentence b s) ≡ held b ++ solid s
unfolding add_sentence
held-add_sentence b s = elim (Bool-cases (ltb 0 b.count)) [
  | inl e ↦
      let gap : solid (32 ∷ s) ≡ solid s = unfold solid is_space in refl in
      rw (e, solid-append b.buf (32 ∷ s), gap, append_assoc (solids b.out) (solid b.buf) (solid s))
  | inr e ↦ rw (e, solid-append b.buf s, append_assoc (solids b.out) (solid b.buf) (solid s))
]

held-place_long : (n : ℕ) (b : Builder) (s : Text) → held (place_long n b s) ≡ held b ++ solid s
unfolding place_long
held-place_long n b s =
    rw
      (
        ← held-flush b,
        solids-append (flush b).out (hard_split_runes s n),
        solids-hard_split_runes s n,
      )
      (unfold flush solid in rw (append-nil, append-nil))

held-place_sentence :
    (n : ℕ) (b : Builder) (s : Text) → held (place_sentence n b s) ≡ held b ++ solid s
unfolding place_sentence
held-place_sentence n b s = elim (Bool-cases (ltb 0 b.count && ltb n (b.count + 1 + length s))) [
  | inl e ↦ rw (e, ← held-flush b) (placed (flush b))
  | inr e ↦ rw e (placed b)
]
  where
    placed :
        (r : Builder)
        → held (if ltb n (length s) then place_long n r s else add_sentence r s) ≡ held r ++ solid s
    placed r = elim (Bool-cases (ltb n (length s))) [
      | inl e ↦ rw e (held-place_long n r s)
      | inr e ↦ rw e (held-add_sentence r s)
    ]

held-place_all :
    (n : ℕ) (b : Builder) (ss : List Text) → solids (place_all n b ss).out ≡ held b ++ solids ss
unfolding place_all solids
held-place_all n b [] = rw append-nil (sym (held_empty b) ∙ held-flush b)
held-place_all n b (s ∷ ss) =
    held-place_all n (place_sentence n b s) ss
    ∙ rw (held-place_sentence n b s) (append_assoc (held b) (solid s) (solids ss))

-- The parts of a paragraph, for any size, hold the code points of it that are no spaces, all of
-- them and in order.
pub solids-split_oversized_paragraph :
    (p : Text) (max_runes : ℕ) → solids (split_oversized_paragraph p max_runes) ≡ solid p
unfolding split_oversized_paragraph split_by_sentences
solids-split_oversized_paragraph p max_runes = elim (Bool-cases (leb (length p) max_runes)) [
  | inl e ↦ rw e (unfold solids in append-nil _)
  | inr e ↦ elim (Bool-cases (leb (length (split_sentences p)) 1)) [
    | inl f ↦ rw (e, f) (solids-hard_split_runes p max_runes)
    | inr f ↦
        let b =
          place_all max_runes (record { out = []; buf = []; count = 0 }) (split_sentences p) in
        elim (Bool-cases (is_empty b.out)) [
          | inl g ↦ rw (e, f, g) (solids-hard_split_runes p max_runes)
          | inr g ↦
              rw (e, f, g)
                (held-place_all max_runes (record { out = []; buf = []; count = 0 })
                    (split_sentences p)
                  ∙ unfold solids solid in solids-split_sentences p)
        ]
  ]
]
