-- ===== src/History/Dropped/Laws.antt =====
-- internal/usecase/llm_history_tokens.go, `buildDroppedDialoguePlainText`: limits and cut messages.
use gen_runner.Prelude.{
  ℕ, ◌+◌, ◌≤◌, ◌<◌, ◌≡◌, refl, inl, inr, false, none, some, [], ◌∷◌, ◌++◌, arith, ltb, ◌==◌, lt→ltb,
  lt→leb_false, le→ltb_false, Bool-cases, length, take, length-append, length-take,
}
use native.Mathlib.Decide.{dec_le, dec_lt}
use gen_runner.Prelude.Int.{ℤ, pos_part}
use gen_runner.Text.{Text, codes}
use gen_runner.Text.Laws.{length-trim_space}
use gen_runner.History.{Message, Messages}
use gen_runner.History.Dropped.{
  truncate_runes, dropped_content, dropped_line, line_budget, dropped_loop,
  build_dropped_dialogue_plain_text,
}

length-dropped_loop :
    (max_runes used : ℕ) (out : Text) (ms : Messages)
    → length out ≡ used
    → used ≤ max_runes
    → length (dropped_loop max_runes used out ms) ≤ max_runes
unfolding dropped_loop
length-dropped_loop max_runes used out [] e h = omega arith
length-dropped_loop max_runes used out (none ∷ ms) e h =
    length-dropped_loop max_runes used out ms e h
length-dropped_loop max_runes used out (some m ∷ ms) e h =
    let line = dropped_line m (line_budget max_runes used m) in
    elim (Bool-cases (ltb (line_budget max_runes used m) 80)) [
      | inl c ↦ rw c (omega arith)
      | inr c ↦ elim (dec_le (used + length line) max_runes) [
        | no over ↦ rw (c, lt→ltb max_runes (used + length line) (omega arith)) (omega arith)
        | yes fits ↦
            rw (c, le→ltb_false max_runes (used + length line) fits)
              (length-dropped_loop max_runes (used + length line) (out ++ line) ms
                (omega (arith, length-append out line)) fits)
      ]
    ]

-- If the limit is positive, the text of the dropped messages has at most that many code points.
pub length-build_dropped_dialogue_plain_text :
    (ms : Messages) (max_runes : ℤ)
    → 0 < pos_part max_runes
    → length (build_dropped_dialogue_plain_text ms max_runes) ≤ pos_part max_runes
unfolding build_dropped_dialogue_plain_text
length-build_dropped_dialogue_plain_text ms max_runes h =
    let limit : (pos_part max_runes == 0) ≡ false = ground arith in
    rw limit (
      omega (
        arith,
        length-trim_space (dropped_loop (pos_part max_runes) 0 [] ms),
        length-dropped_loop (pos_part max_runes) 0 [] ms refl (omega arith),
      ))

length-truncate_runes :
    (s : Text) (n : ℕ) → 0 < n → n < length s → length (truncate_runes s n) ≡ n + 2
unfolding truncate_runes
length-truncate_runes s n h k =
    let pos_n : (n == 0) ≡ false = ground arith in
    rw (pos_n, lt→leb_false (length s) n k)
      (omega (arith, length-append (take n s) (codes "\n…"), length-take n s))

length-dropped_line :
    (m : Message) (n : ℕ)
    → 0 < n
    → n < length (dropped_content m)
    → length (dropped_line m n) ≡ length m.role + n + 5
unfolding dropped_line
length-dropped_line m n h k =
    let cut = truncate_runes (dropped_content m) n in
    rw (lt→ltb n (length (dropped_content m)) k) (
      omega (
        arith,
        length-append (m.role ++ codes ": " ++ cut) (codes "\n"),
        length-append (m.role ++ codes ": ") cut,
        length-append m.role (codes ": "),
        length-truncate_runes (dropped_content m) n h k,
      ))

-- If a message has more code points than the budget of its line, the text ends before it: its
-- shortened line is one code point too long, so it is not written, and neither is anything behind
-- it.
pub dropped_loop_cut :
    (max_runes used : ℕ) (out : Text) (m : Message) (ms : Messages)
    → line_budget max_runes used m < length (dropped_content m)
    → dropped_loop max_runes used out (some m ∷ ms) ≡ out
unfolding dropped_loop
dropped_loop_cut max_runes used out m ms over =
    let n = line_budget max_runes used m in
    elim (dec_lt n 80) [
      | yes small ↦ rw (lt→ltb n 80 small)
      | no large ↦
          let len = length-dropped_line m n (omega arith) over in
          rw (
            le→ltb_false n 80 (omega arith),
            lt→ltb max_runes (used + length (dropped_line m n)) (omega (arith, len)),
          )
    ]
