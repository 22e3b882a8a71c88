-- ===== src/History/Dropped.antt =====
-- internal/usecase/llm_history_tokens.go, the text of the dropped messages and the summary that is
-- put into the first message; chat_usecase_history_tokens.go, `filterHistoryForLLM`.
pub mod Laws
use gen_runner.Prelude.{
  ℕ, zero, suc, ◌+◌, ◌-◌, ◌*◌, ◌/◌, ◌%◌, ◌^◌, ◌≤◌, ◌<◌, min, max, ◌≡◌, refl, sym, ap, ◌∙◌, subst,
  ◌≢◌, ◌↔◌, ◌⊎◌, inl, inr, Bool, true, false, not, ◌&&◌, ◌||◌, Option, none, some, List, [], ◌∷◌,
  ◌++◌, map, reverse, append_assoc, append-nil, arith, ltb, leb, ◌==◌, if◌then◌else◌, ltb→lt,
  lt→ltb, leb→le, le→leb, lt→leb_false, le→ltb_false, ==_iff, Bool-cases, Option-cases, List-cases,
  length, is_empty, get_elem?, set, take, drop, filter_by, all_by, All, length-append,
  length-reverse, length-map, length-set, take-append-drop, length-take, length-drop,
  take-append_left, drop-append_left, All-append, All-map_weaken,
}
use gen_runner.Prelude.Int.{ℤ, pos, pos_part}
use gen_runner.Text.{Text, codes, text_eq, trim_space}
use gen_runner.History.{Message, Messages, role_assistant, role_tool}

-- `math.MaxInt` on a 64-bit platform.
abbrev pub max_int : ℕ
max_int = 2 ^ 63 - 1

-- `truncateRunes`; no call passes a negative number.
unfoldable pub truncate_runes : Text → ℕ → Text
truncate_runes s max_runes =
    if max_runes == 0
    then []
    else if leb (length s) max_runes
    then s
    else take max_runes s ++ codes "\n…"

-- The content of a line, with a tool's calls or a tool's name in front of it.
unfoldable pub dropped_content : Message → Text
dropped_content m =
    let content = trim_space m.content in
    let content =
      if text_eq m.role role_assistant && not (is_empty (trim_space m.tool_calls_json))
      then trim_space m.tool_calls_json ++ codes "\n" ++ content
      else content in
    let name = trim_space m.tool_name in
    if text_eq m.role role_tool && not (is_empty name)
    then codes "[" ++ name ++ codes "] " ++ content
    else content

-- The line of a message under a budget.
unfoldable pub dropped_line : Message → ℕ → Text
dropped_line m budget =
    let content = dropped_content m in
    let content = if ltb budget (length content) then truncate_runes content budget else content in
    m.role ++ codes ": " ++ content ++ codes "\n"

-- The runes that a message's content may take. The source computes in signed numbers; below 80 it
-- stops, and a negative number is 0 here.
abbrev pub line_budget : ℕ → ℕ → Message → ℕ
line_budget max_runes used m = max_runes - used - length m.role - 4

unfoldable pub dropped_loop : ℕ → ℕ → Text → Messages → Text
dropped_loop max_runes used out [] = out
dropped_loop max_runes used out (none ∷ ms) = dropped_loop max_runes used out ms
dropped_loop max_runes used out (some m ∷ ms) =
    let budget = line_budget max_runes used m in
    let line = dropped_line m budget in
    let rest = dropped_loop max_runes (used + length line) (out ++ line) ms in
    if ltb budget 80 then out else if ltb max_runes (used + length line) then out else rest

unfoldable pub build_dropped_dialogue_plain_text : Messages → ℤ → Text
build_dropped_dialogue_plain_text ms max_runes =
    let limit = if pos_part max_runes == 0 then max_int else pos_part max_runes in
    trim_space (dropped_loop limit 0 [] ms)

abbrev pub summary_heading : Text
summary_heading = codes "\n\n--- Резюме отброшенной части диалога ---\n"

-- A nil first message is a panic, `none`.
unfoldable pub inject_summary_after_system : Messages → Text → Option Messages
inject_summary_after_system [] summary = some []
inject_summary_after_system (first ∷ ms) summary =
    if is_empty (trim_space summary) then some (first ∷ ms) else elim first [
      | none ↦ none
      | some sys ↦ some (
          some (record sys {
            content = trim_space sys.content ++ summary_heading ++ trim_space summary;
          })
          ∷ ms)
    ]

-- Whether `filterHistoryForLLM` keeps a message.
unfoldable pub is_for_llm : Option Message → Bool
is_for_llm none = false
is_for_llm (some m) = not (
    text_eq m.role role_assistant
    && is_empty (trim_space m.content)
    && is_empty (trim_space m.tool_calls_json))

unfoldable pub filter_history_for_llm : Messages → Messages
filter_history_for_llm ms = filter_by is_for_llm ms
