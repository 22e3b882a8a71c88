-- ===== src/History/Shrink/Diverges.antt =====
-- internal/usecase/llm_history_tokens.go: the shrinking loop on a content of more than 96 code points.
use gen_runner.Prelude.{
  ℕ, zero, suc, ◌*◌, ◌/◌, ◌≤◌, ◌<◌, max, ◌≡◌, refl, sym, ◌∙◌, ◌⊎◌, inl, inr, true, false, Option,
  none, some, [], ◌∷◌, ◌++◌, append_assoc, arith, lt→leb_false, Option-cases, length, is_empty,
  take, length-append, length-take,
}
use gen_runner.Text.{Text, is_space, trim_left_func, trim_space}
use gen_runner.Text.Laws.{trim_space-append_last}
use gen_runner.History.{Message, Messages, sum_approx_tokens}
use gen_runner.History.Shrink.{
  truncation_notice, has_content, shrink_content, shrink_message, shrink_last, shrink_loop,
}
use gen_runner.History.Shrink.Laws.{shrink_round-append, shrink_loop_round}

-- More than 96 code points, not all of them spaces.
abbrev pub IsLong : Option Message → Type 0
IsLong none = ⊥
IsLong (some m) = (96 < length m.content) × (has_content (some m) ≡ true)

abbrev pub HasLong : Messages → Type 0
HasLong [] = ⊥
HasLong (m ∷ ms) = IsLong m ⊎ HasLong ms

abbrev notice_init : Text
notice_init = take 53 truncation_notice

notice_split : (r : Text) → r ++ truncation_notice ≡ (r ++ notice_init) ++ b']' ∷ []
notice_split r = sym (append_assoc r notice_init (b']' ∷ []))

bracket_is_no_space : is_space b']' ≡ false
unfolding is_space
bracket_is_no_space = refl

is_empty-append_last : (s : Text) (c : ℕ) → is_empty (s ++ c ∷ []) ≡ false
is_empty-append_last [] c = refl
is_empty-append_last (d ∷ s) c = refl

-- A content that ends in the notice is not blank.
notice_not_blank : (r : Text) → is_empty (trim_space (r ++ truncation_notice)) ≡ false
notice_not_blank r =
    rw (notice_split r, trim_space-append_last (r ++ notice_init) b']' bracket_is_no_space)
      (is_empty-append_last (trim_left_func is_space (r ++ notice_init)) b']')

-- Shrinking a long content gives a long content again: the notice alone makes up the quarter.
shrink_message-IsLong : (m : Option Message) → IsLong m → IsLong (shrink_message m)
unfolding shrink_content has_content
shrink_message-IsLong none h = h
shrink_message-IsLong (some m) h =
    let n = length m.content in
    rw (lt→leb_false n 96 h.0) (
      omega (
        arith,
        h.0,
        length-append (take (max (n * 3 / 4) 64) m.content) truncation_notice,
        length-take (max (n * 3 / 4) 64) m.content,
      ),
      rw (notice_not_blank (take (max (n * 3 / 4) 64) m.content)),
    )

shrink_last-HasLong :
    (ms : Messages) → HasLong ms → (ms' : Messages) × (shrink_last ms ≡ some ms') × HasLong ms'
unfolding shrink_last
shrink_last-HasLong [] h = absurd h
shrink_last-HasLong (m ∷ ms) (inr h) =
    let (ms', e, l) = shrink_last-HasLong ms h in (m ∷ ms', rw e, inr l)
shrink_last-HasLong (none ∷ ms) (inl h) = absurd h
shrink_last-HasLong (some m ∷ ms) (inl h) = elim (Option-cases (shrink_last ms)) [
  | inl e ↦ (shrink_message (some m) ∷ ms, rw (e, h.1), inl (shrink_message-IsLong (some m) h))
  | inr (r, e) ↦ (some m ∷ r, rw e, inl h)
]

sum-append-le :
    (lower : ℕ → ℕ) (xs ys : Messages)
    → sum_approx_tokens lower ys ≤ sum_approx_tokens lower (xs ++ ys)
unfolding sum_approx_tokens
sum-append-le lower [] ys = omega arith
sum-append-le lower (x ∷ xs) ys = omega (arith, sum-append-le lower xs ys)

-- If the preserved tail alone is over the budget and some message before it has a content of more
-- than 96 code points that is not blank, the shrinking loop does not return, whatever the fuel.
pub shrink_loop-eq-none :
    (lower : ℕ → ℕ) (fuel budget : ℕ) (front tail : Messages)
    → budget < sum_approx_tokens lower tail
    → HasLong front
    → shrink_loop lower fuel budget (length tail) (front ++ tail) ≡ none
unfolding shrink_loop
shrink_loop-eq-none lower zero budget front tail over long = refl
shrink_loop-eq-none lower (suc fuel) budget front tail over long =
    let (front', e, long') = shrink_last-HasLong front long in
    let over' : budget < sum_approx_tokens lower (front ++ tail) =
      omega (arith, sum-append-le lower front tail) in
    shrink_loop_round lower fuel budget (length tail) (front ++ tail) (front' ++ tail) over'
      (rw (shrink_round-append front tail, e))
    ∙ shrink_loop-eq-none lower fuel budget front' tail over long'
