-- ===== src/History/Shrink/Laws.antt =====
-- internal/usecase/llm_history_tokens.go: the rounds of the shrinking loop.
use gen_runner.Prelude.{
  ℕ, suc, ◌-◌, ◌≤◌, ◌<◌, ◌≡◌, ◌⊎◌, inl, inr, false, Option, none, some, [], ◌∷◌, ◌++◌, arith,
  Option-cases, length, All, length-append, take-append_left, drop-append_left,
}
use gen_runner.History.{sum_approx_tokens, Messages}
use gen_runner.History.Shrink.{shrink_loop, has_content, rejoin, shrink_last, shrink_round}

pub length-shrink_last :
    (ms : Messages) (ms' : Messages) → shrink_last ms ≡ some ms' → length ms' ≡ length ms
unfolding shrink_last
length-shrink_last [] ms' h = cc
length-shrink_last (m ∷ ms) ms' h = elim (Option-cases (shrink_last ms)) [
  | inl e ↦ ground (arith, e)
  | inr (r, e) ↦ ground (arith, e, length-shrink_last ms r e)
]

-- A round over a front and a preserved tail changes the front alone.
pub shrink_round-append :
    (front tail : Messages)
    → shrink_round (length tail) (front ++ tail) ≡ rejoin (shrink_last front) tail
unfolding shrink_round
shrink_round-append front tail =
    let e : length (front ++ tail) - length tail ≡ length front =
      omega (arith, length-append front tail) in
    rw (e, take-append_left front tail, drop-append_left front tail)

abbrev pub Blank : Messages → Type 0
Blank = All (λ m. has_content m ≡ false)

pub shrink_last-eq-none : (ms : Messages) → shrink_last ms ≡ none → Blank ms
unfolding shrink_last
shrink_last-eq-none [] h = tt
shrink_last-eq-none (m ∷ ms) h = elim (Option-cases (shrink_last ms)) [
  | inl e ↦ (ground (arith, e), shrink_last-eq-none ms e)
  | inr (r, e) ↦ absurd (ground (arith, e))
]

module _ (lower : ℕ → ℕ) where
  -- Over the budget the loop goes on with the next round.
  pub shrink_loop_round :
      (fuel budget preserve : ℕ) (ms ms' : Messages)
      → budget < sum_approx_tokens lower ms
      → shrink_round preserve ms ≡ some ms'
      → shrink_loop lower (suc fuel) budget preserve ms ≡ shrink_loop lower fuel budget preserve ms'
  unfolding shrink_loop
  shrink_loop_round fuel budget preserve ms ms' over e = ground arith

  pub shrink_loop_break :
      (fuel budget preserve : ℕ) (ms : Messages)
      → shrink_round preserve ms ≡ none
      → shrink_loop lower (suc fuel) budget preserve ms ≡ some ms
  unfolding shrink_loop
  shrink_loop_break fuel budget preserve ms e = ground arith

  pub shrink_loop_fits :
      (fuel budget preserve : ℕ) (ms : Messages)
      → sum_approx_tokens lower ms ≤ budget
      → shrink_loop lower (suc fuel) budget preserve ms ≡ some ms
  unfolding shrink_loop
  shrink_loop_fits fuel budget preserve ms fits = ground arith

  -- What a run that returns has reached: the preserved tail as it was, a front of the same number
  -- of messages, and either the budget or a front with no content left.
  abbrev pub Shrunk : ℕ → Messages → Messages → Option Messages → Type 0
  Shrunk budget front tail r =
      (out : Messages) × (r ≡ some (out ++ tail))
      × (length out ≡ length front)
      × ((sum_approx_tokens lower (out ++ tail) ≤ budget) ⊎ Blank out)
