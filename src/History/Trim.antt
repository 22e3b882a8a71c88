-- ===== src/History/Trim.antt =====
-- internal/usecase/llm_history_tokens.go, `trimLLMMessagesByApproxTokensWithDropped`. A nil message
-- that the pairing test dereferences is a panic; fuel is that of the shrinking.
pub mod Laws
pub mod Diverges
use gen_runner.Prelude.{
  ℕ, zero, suc, ◌+◌, ◌-◌, ◌*◌, ◌/◌, ◌%◌, ◌^◌, ◌≤◌, ◌<◌, min, max, ◌≡◌, refl, sym, ap, ◌∙◌, subst,
  ◌≢◌, ◌↔◌, ◌⊎◌, inl, inr, Bool, true, false, not, ◌&&◌, ◌||◌, Option, none, some, List, [], ◌∷◌,
  ◌++◌, map, reverse, append_assoc, append-nil, arith, ltb, leb, ◌==◌, if◌then◌else◌, ltb→lt,
  lt→ltb, leb→le, le→leb, lt→leb_false, le→ltb_false, ==_iff, Bool-cases, Option-cases, List-cases,
  length, is_empty, get_elem?, set, take, drop, filter_by, all_by, All, length-append,
  length-reverse, length-map, length-set, take-append-drop, length-take, length-drop,
  take-append_left, drop-append_left, All-append, All-map_weaken,
}
use gen_runner.Prelude.Int.{ℤ, pos, pos_part}
use gen_runner.Text.{text_eq, trim_space}
use gen_runner.History.{
  Message, Messages, role_user, role_assistant, message_has_likely_vision_image,
  approximate_message_tokens, sum_approx_tokens,
}
use gen_runner.History.Shrink.{shrink_to_budget}

pub record Trimmed : Type 0 where
  pub messages : Messages
  pub trimmed : Bool
  pub dropped : Messages

pub data Outcome : Type 0 where
  done : Trimmed → Outcome
  panics out_of_fuel : Outcome

-- What the loop leaves: the rest of the middle, the dropped part, and the flag.
pub record Rest : Type 0 where
  pub middle : Messages
  pub dropped : Messages
  pub trimmed : Bool

abbrev pub unchanged : Messages → Outcome
unchanged ms = done (record { messages = ms; trimmed = false; dropped = [] })

-- The messages that are returned after the loop.
unfoldable pub finish_trim : Option Message → Messages → Messages → Option Rest → Outcome
finish_trim system others tail none = panics
finish_trim system others tail (some r) =
    if r.trimmed
    then done
        (record { messages = system ∷ (r.middle ++ tail); trimmed = true; dropped = r.dropped })
    else unchanged (system ∷ others)

module _ (lower : ℕ → ℕ) where
  -- The test that drops an answer together with the picture that it answers; `none` is the panic
  -- of a nil pointer, which `&&` meets only if the tests before it hold.
  unfoldable pub is_pair : Option Message → Option Message → Option Bool
  is_pair none n = none
  is_pair (some m) n =
      if text_eq m.role role_user && message_has_likely_vision_image lower (some m)
      then elim n [
        | none ↦ none
        | some k ↦ some (text_eq k.role role_assistant && is_empty (trim_space k.tool_calls_json))
      ]
      else some false

  -- The loop over the middle. `total` counts the middle too, so its subtraction is exact.
  unfoldable pub drop_loop : ℕ → Messages → ℕ → Messages → Bool → Option Rest
  drop_loop budget [] total dropped trimmed =
      some (record { middle = []; dropped = dropped; trimmed = trimmed })
  drop_loop budget (m ∷ []) total dropped trimmed =
      if leb total budget
      then some (record { middle = m ∷ []; dropped = dropped; trimmed = trimmed })
      else some (record { middle = []; dropped = dropped ++ m ∷ []; trimmed = true })
  drop_loop budget (m ∷ n ∷ rest) total dropped trimmed =
      let total₁ = total - approximate_message_tokens lower m in
      let total₂ = total₁ - approximate_message_tokens lower n in
      let single = drop_loop budget (n ∷ rest) total₁ (dropped ++ m ∷ []) true in
      let pair = drop_loop budget rest total₂ ((dropped ++ m ∷ []) ++ n ∷ []) true in
      if leb total budget
      then some (record { middle = m ∷ n ∷ rest; dropped = dropped; trimmed = trimmed })
      else elim (is_pair m n) [ none ↦ none | some both ↦ if both then pair else single ]

  -- The part of the function behind its early returns.
  unfoldable pub trim_middle : ℕ → ℕ → Messages → Outcome
  trim_middle budget keep [] = panics
  trim_middle budget keep (system ∷ others) =
      let middle_len = length others - keep in
      let middle = take middle_len others in
      let tail = drop middle_len others in
      let total =
        approximate_message_tokens lower system
        + sum_approx_tokens lower middle
        + sum_approx_tokens lower tail in
      if leb total budget
      then unchanged (system ∷ others)
      else finish_trim system others tail (drop_loop budget middle total [] false)

  unfoldable pub trim_with_dropped : ℕ → Messages → ℤ → ℤ → Outcome
  trim_with_dropped fuel ms max_tokens tail_preserve =
      let budget = pos_part max_tokens in
      let keep = pos_part tail_preserve in
      if budget == 0 || leb (length ms) 1
      then unchanged ms
      else if leb (length ms) (1 + keep)
      then if leb (sum_approx_tokens lower ms) budget
        then unchanged ms
        else elim (shrink_to_budget lower fuel ms budget (pos keep)) [
          | none ↦ out_of_fuel
          | some out ↦ done (record { messages = out; trimmed = true; dropped = [] })
        ]
      else trim_middle budget keep ms
