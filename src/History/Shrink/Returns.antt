-- ===== src/History/Shrink/Returns.antt =====
-- internal/usecase/llm_history_tokens.go: the shrinking loop on contents of at most 96 code points.
use gen_runner.Prelude.{
  ℕ, zero, suc, ◌≤◌, ◌<◌, ◌≡◌, refl, ◌∙◌, inl, inr, false, Option, none, some, [], ◌∷◌, ◌++◌, arith,
  if◌then◌else◌, le→leb, Bool-cases, Option-cases, length, All,
}
use native.Mathlib.Decide.{dec_le}
use gen_runner.Text.{trim_space, trim_left_func, trim_right_func}
use gen_runner.History.{Message, Messages, sum_approx_tokens}
use gen_runner.History.Shrink.{
  has_content, shrink_content, shrink_message, shrink_last, shrink_loop,
}
use gen_runner.History.Shrink.Laws.{
  Shrunk, shrink_last-eq-none, shrink_round-append, shrink_loop_round, shrink_loop_break,
  shrink_loop_fits, length-shrink_last,
}

abbrev pub IsShort : Option Message → Type 0
IsShort none = Unit
IsShort (some m) = length m.content ≤ 96

-- The messages that a round can still choose.
unfoldable pub count_content : Messages → ℕ
count_content [] = 0
count_content (m ∷ ms) = let n = count_content ms in if has_content m then suc n else n

pub count_content-le-length : (ms : Messages) → count_content ms ≤ length ms
unfolding count_content
count_content-le-length [] = omega arith
count_content-le-length (m ∷ ms) = ground (arith, count_content-le-length ms)

blank_message : (m : Option Message) → IsShort m → has_content (shrink_message m) ≡ false
unfolding has_content shrink_content trim_space trim_left_func trim_right_func
blank_message none h = refl
blank_message (some m) h = rw (le→leb _ _ h)

shrink_message-IsShort : (m : Option Message) → IsShort m → IsShort (shrink_message m)
unfolding shrink_content
shrink_message-IsShort none h = h
shrink_message-IsShort (some m) h = rw (le→leb _ _ h) (omega arith)

-- A round blanks one content.
abbrev Blanks : Messages → Option Messages → Type 0
Blanks ms none = Unit
Blanks ms (some ms') = All IsShort ms' × (count_content ms ≡ suc (count_content ms'))

Blanks-step :
    (m : Option Message) (ms : Messages) (o : Option Messages)
    → All IsShort (m ∷ ms)
    → Blanks ms o
    → Blanks (m ∷ ms) (elim o [
      | some ms' ↦ some (m ∷ ms')
      | none ↦ if has_content m then some (shrink_message m ∷ ms) else none
    ])
unfolding count_content
Blanks-step m ms none h b = elim (Bool-cases (has_content m)) [
  | inl e ↦
      let b = blank_message m h.0 in
      rw e ((shrink_message-IsShort m h.0, h.1), ground (arith, e, b))
  | inr e ↦ rw e tt
]
Blanks-step m ms (some r) h b = ((h.0, b.0), ground arith)

shrink_last-Blanks : (ms : Messages) → All IsShort ms → Blanks ms (shrink_last ms)
unfolding shrink_last
shrink_last-Blanks [] h = tt
shrink_last-Blanks (m ∷ ms) h = Blanks-step m ms (shrink_last ms) h (shrink_last-Blanks ms h.1)

Blanks-some :
    (ms ms' : Messages) → All IsShort ms → shrink_last ms ≡ some ms' → Blanks ms (some ms')
Blanks-some ms ms' h e = rw e at (shrink_last-Blanks ms h)

-- If no content before the preserved tail is longer than 96 code points, and the fuel is more than
-- the number of contents there that are not blank, then the loop returns messages that end in the
-- same tail, behind a front of the same length; and the total fits the budget or no content of that
-- front is left.
pub shrink_loop-Shrunk :
    (lower : ℕ → ℕ) (fuel budget : ℕ) (front tail : Messages)
    → All IsShort front
    → count_content front < fuel
    → Shrunk lower budget front tail (shrink_loop lower fuel budget (length tail) (front ++ tail))
shrink_loop-Shrunk lower zero budget front tail short enough = absurd (omega arith)
shrink_loop-Shrunk lower (suc fuel) budget front tail short enough =
    elim (dec_le (sum_approx_tokens lower (front ++ tail)) budget) [
      | yes fits ↦ (front, shrink_loop_fits lower fuel budget _ _ fits, refl, inl fits)
      | no over ↦ elim (Option-cases (shrink_last front)) [
        | inl e ↦ (
          front,
          shrink_loop_break lower fuel budget (length tail) (front ++ tail)
              (rw (shrink_round-append front tail, e)),
          refl,
          inr (shrink_last-eq-none front e),
        )
        | inr (front', e) ↦
            let b = Blanks-some front front' short e in
            let (out, r, len, why) =
              shrink_loop-Shrunk lower fuel budget front' tail b.0 (omega (arith, b.1)) in
            (
              out,
              shrink_loop_round lower fuel budget (length tail) (front ++ tail) (front' ++ tail)
                    (omega arith) (rw (shrink_round-append front tail, e))
                  ∙ r,
              len ∙ length-shrink_last front front' e,
              why,
            )
      ]
    ]
