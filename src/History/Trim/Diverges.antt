-- ===== src/History/Trim/Diverges.antt =====
-- internal/usecase/llm_history_tokens.go: trimming that comes to the shrinking loop.
use gen_runner.Prelude.{
  ℕ, ◌+◌, ◌<◌, min, ◌≡◌, inl, false, Option, [], ◌∷◌, arith, leb, le→leb, lt→leb_false, length,
}
use gen_runner.Prelude.Int.{ℤ, pos_part}
use gen_runner.History.{Message, Messages, sum_approx_tokens}
use gen_runner.History.Shrink.{shrink_to_budget}
use gen_runner.History.Shrink.Diverges.{IsLong, shrink_loop-eq-none}
use gen_runner.History.Trim.{out_of_fuel, trim_with_dropped}
use gen_runner.History.Trim.Laws.{lt→ne_zero, sum-append}

module _ (lower : ℕ → ℕ) where
  -- If the tail to be kept is all but the first message, has messages, and is over a positive limit
  -- by itself, and the first message has a content of more than 96 code points that is not blank,
  -- then trimming does not return, whatever the fuel.
  pub trim_with_dropped-out_of_fuel :
      (fuel : ℕ) (max_tokens tail_preserve : ℤ) (system m : Option Message) (tail : Messages)
      → IsLong system
      → pos_part tail_preserve ≡ length (m ∷ tail)
      → 0 < pos_part max_tokens
      → pos_part max_tokens < sum_approx_tokens lower (m ∷ tail)
      → trim_with_dropped lower fuel (system ∷ m ∷ tail) max_tokens tail_preserve ≡ out_of_fuel
  unfolding trim_with_dropped shrink_to_budget
  trim_with_dropped-out_of_fuel fuel max_tokens tail_preserve system m tail long q p over =
      let ms = system ∷ m ∷ tail in
      let exceeds : leb (sum_approx_tokens lower ms) (pos_part max_tokens) ≡ false =
        lt→leb_false _ _ (omega (arith, sum-append lower (system ∷ []) (m ∷ tail))) in
      let cap : min (length (m ∷ tail)) (length ms) ≡ length (m ∷ tail) = omega arith in
      rw (
        lt→ne_zero p,
        q,
        lt→leb_false (length ms) 1 (omega arith),
        le→leb (length ms) (1 + length (m ∷ tail)) (omega arith),
        exceeds,
        cap,
        shrink_loop-eq-none lower fuel (pos_part max_tokens) (system ∷ []) (m ∷ tail) over
            (inl long),
      )
