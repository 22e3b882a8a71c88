-- ===== src/History/Shrink.antt =====
-- internal/usecase/llm_history_tokens.go, `shrinkMessagesToApproxTokenBudget`. The clone of the
-- slice is the identity on values. The loop takes fuel, and `none` is fuel that ran out.
pub mod Laws
pub mod Diverges
pub mod Returns
use gen_runner.Prelude.{
  ℕ, zero, suc, ◌-◌, ◌*◌, ◌/◌, min, max, Bool, true, false, not, Option, none, some, [], ◌∷◌, ◌++◌,
  leb, if◌then◌else◌, length, is_empty, take, drop,
}
use gen_runner.Prelude.Int.{ℤ, pos_part}
use gen_runner.Text.{Text, codes, trim_space}
use gen_runner.History.{Message, Messages, sum_approx_tokens}

-- `llmContextTruncationNotice`, 54 code points.
abbrev pub truncation_notice : Text
truncation_notice = codes "\n\n[...фрагмент убран из‑за лимита контекста модели...]"

-- `out[i] != nil && strings.TrimSpace(out[i].Content) != ""`
unfoldable pub has_content : Option Message → Bool
has_content none = false
has_content (some m) = not (is_empty (trim_space m.content))

-- The new content of the chosen message.
unfoldable pub shrink_content : Text → Text
shrink_content r =
    if leb (length r) 96 then [] else take (max (length r * 3 / 4) 64) r ++ truncation_notice

abbrev pub shrink_message : Option Message → Option Message
shrink_message none = none
shrink_message (some m) = some (record m { content = shrink_content m.content })

-- Shrinks the last message with a content, if there is one.
unfoldable pub shrink_last : Messages → Option Messages
shrink_last [] = none
shrink_last (m ∷ ms) = elim (shrink_last ms) [
  | some ms' ↦ some (m ∷ ms')
  | none ↦ if has_content m then some (shrink_message m ∷ ms) else none
]

abbrev pub rejoin : Option Messages → Messages → Option Messages
rejoin none tail = none
rejoin (some front) tail = some (front ++ tail)

-- One round: `tailStart` bounds the search; `none` is the `break`.
unfoldable pub shrink_round : ℕ → Messages → Option Messages
shrink_round preserve ms =
    let tail_start = length ms - preserve in
    rejoin (shrink_last (take tail_start ms)) (drop tail_start ms)

module _ (lower : ℕ → ℕ) where
  unfoldable pub shrink_loop : ℕ → ℕ → ℕ → Messages → Option Messages
  shrink_loop zero budget preserve ms = none
  shrink_loop (suc fuel) budget preserve ms = elim (leb (sum_approx_tokens lower ms) budget) [
    | true ↦ some ms
    | false ↦ elim (shrink_round preserve ms) [
      | none ↦ some ms
      | some ms' ↦ shrink_loop fuel budget preserve ms'
    ]
  ]

  -- `max_tokens` is positive where the function is called, and `preserve_tail` is capped twice.
  unfoldable pub shrink_to_budget : ℕ → Messages → ℕ → ℤ → Option Messages
  shrink_to_budget fuel [] budget preserve_tail = some []
  shrink_to_budget fuel (m ∷ ms) budget preserve_tail =
      shrink_loop fuel budget (min (pos_part preserve_tail) (length (m ∷ ms))) (m ∷ ms)
