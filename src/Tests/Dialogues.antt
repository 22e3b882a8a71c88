-- ===== src/Tests/Dialogues.antt =====
-- Runs of the history functions, and the theorems about them at concrete dialogues.
use gen_runner.Prelude.{
  ℕ, zero, suc, ◌+◌, ◌≤◌, ◌<◌, max, ◌≡◌, refl, true, false, ◌&&◌, Option, none, some, [], ◌∷◌, ◌++◌,
  arith, leb, if◌then◌else◌, length,
}
use gen_runner.Prelude.Int.{pos}
use gen_runner.Dict.{lookup, insert}
use gen_runner.SummaryCache.{SummaryCache, get, put, evict, store}
use gen_runner.SummaryCache.Fifo.{IsValid}
use gen_runner.DropSummary.{
  Request, any_runner, cached_summary, put_summary, ask_summary, summarize_body,
}
use gen_runner.DropSummary.Again.{IsSummarizedOnce, summarize_dropped_messages-IsSummarizedOnce}
use gen_runner.PromptBudget.{
  DocumentContextBlock, no_drops, place_blocks, place_block, format_document_context_block,
  add_drop, add_count, apply_instruction_safe_budget_manager, assemble_prompt_messages,
}
use gen_runner.PromptBudget.Fits.{IsTitled, sum_approx_tokens-assemble_prompt_messages}
use gen_runner.Text.{Text, codes, trim_space, trim_left_func, trim_right_func, is_space}
use gen_runner.History.Shrink.{has_content, shrink_loop}
use gen_runner.History.Shrink.Diverges.{IsLong}
use gen_runner.History.{Message, sum_approx_tokens, approximate_message_tokens}
use gen_runner.History.Trim.{out_of_fuel, trim_with_dropped}
use gen_runner.History.Trim.Laws.{Keeps, trim_with_dropped-Keeps}
use gen_runner.History.Trim.Diverges.{trim_with_dropped-out_of_fuel}
use gen_runner.History.Shrink.Laws.{Shrunk}
use gen_runner.History.Shrink.Returns.{shrink_loop-Shrunk, count_content}
use gen_runner.History.Dropped.{
  dropped_loop, build_dropped_dialogue_plain_text, line_budget, dropped_content,
}
use gen_runner.History.Dropped.Laws.{length-build_dropped_dialogue_plain_text, dropped_loop_cut}

-- `unicode.ToLower` on ASCII.
abbrev pub ascii_lower : ℕ → ℕ
ascii_lower c = if leb 65 c && leb c 90 then c + 32 else c

abbrev say : Text → Text → Option Message
say role content = some (record {
  role = role;
  content = content;
  attachment_name = [];
  attachment_mime = [];
  attachment_content = [];
  tool_call_id = [];
  tool_name = [];
  tool_calls_json = [];
})

abbrev system_prompt : Option Message
system_prompt = say (codes "system") (
    codes
      "Answer briefly, in the language of the question, and say so when you do not know what is asked for here.")

abbrev question : Option Message
question = say (codes "user") (codes "What is the capital of France, please?")

abbrev answer : Option Message
answer = say (codes "assistant") (codes "Paris.")

trim_with_dropped-Keeps_example :
    Keeps ascii_lower 20
      (say (codes "system") (codes "Be brief."))
      (question ∷ answer ∷ [])
      (question ∷ [])
      (trim_with_dropped ascii_lower 0
        (say (codes "system") (codes "Be brief.") ∷ ((question ∷ answer ∷ []) ++ question ∷ []))
        (pos 20)
        (pos 1))
trim_with_dropped-Keeps_example =
    trim_with_dropped-Keeps ascii_lower 0 (pos 20) (pos 1)
      (say (codes "system") (codes "Be brief.")) question (answer ∷ []) (question ∷ [])
      (tt, (tt, tt)) (omega arith) refl

question_over : 3 < sum_approx_tokens ascii_lower (question ∷ [])
unfolding sum_approx_tokens approximate_message_tokens
question_over = omega arith

system_prompt-IsLong : IsLong system_prompt
unfolding has_content trim_space trim_left_func trim_right_func is_space
system_prompt-IsLong = (omega arith, refl)

trim_with_dropped-out_of_fuel_example :
    trim_with_dropped ascii_lower 1000 (system_prompt ∷ question ∷ []) (pos 3) (pos 1) ≡ out_of_fuel
trim_with_dropped-out_of_fuel_example =
    trim_with_dropped-out_of_fuel ascii_lower 1000 (pos 3) (pos 1) system_prompt question []
      system_prompt-IsLong refl (omega arith) question_over

few_contents : count_content (answer ∷ question ∷ []) < 3
unfolding count_content has_content trim_space trim_left_func trim_right_func is_space
few_contents = omega arith

shrink_loop-Shrunk_example :
    Shrunk ascii_lower 3
      (answer ∷ question ∷ [])
      (question ∷ [])
      (shrink_loop ascii_lower 3 3 1 ((answer ∷ question ∷ []) ++ question ∷ []))
shrink_loop-Shrunk_example =
    shrink_loop-Shrunk ascii_lower 3 3 (answer ∷ question ∷ []) (question ∷ [])
      (omega arith, (omega arith, tt)) few_contents

length-build_dropped_dialogue_plain_text_example :
    length (build_dropped_dialogue_plain_text (question ∷ answer ∷ []) (pos 100)) ≤ 100
length-build_dropped_dialogue_plain_text_example =
    length-build_dropped_dialogue_plain_text (question ∷ answer ∷ []) (pos 100) (omega arith)

abbrev letters : ℕ → Text
letters zero = []
letters (suc n) = b'a' ∷ letters n

abbrev long_answer : Message
long_answer = record {
  role = codes "assistant";
  content = letters 200;
  attachment_name = [];
  attachment_mime = [];
  attachment_content = [];
  tool_call_id = [];
  tool_name = [];
  tool_calls_json = [];
}

long_over : line_budget 150 0 long_answer < length (dropped_content long_answer)
unfolding dropped_content trim_space trim_left_func trim_right_func is_space
long_over = omega arith

dropped_loop_cut_example : dropped_loop 150 0 [] (some long_answer ∷ question ∷ []) ≡ []
dropped_loop_cut_example = dropped_loop_cut 150 0 [] long_answer (question ∷ []) long_over

-- A block of a document.
abbrev document : Text → Text → DocumentContextBlock
document title body = record {
  title = codes " " ++ title;
  body = body;
  source_type = codes "attachment";
  source_file = [];
}

-- The second block does not fit and is too short to be cut.
dropped_block :
    let st =
      place_blocks 40
        (record { out = []; used_runes = 0; metrics = no_drops })
        (document (codes "a") (codes "1234567890")
          ∷ document (codes "b") (codes "1234567890 1234567890")
          ∷ []) in
    (length st.out ≡ 1)
    × (st.used_runes ≡ 18)
    × (lookup (codes "b") st.metrics.dropped_runes_by_file ≡ some 21)
unfolding place_blocks place_block format_document_context_block trim_space trim_left_func
    trim_right_func is_space add_drop add_count lookup insert
dropped_block = (refl, refl, refl)

titled : IsTitled (document (codes "a") (codes "text"))
unfolding trim_space trim_left_func trim_right_func is_space
titled = refl

sum_approx_tokens-assemble_prompt_messages_example :
    let kept =
      (apply_instruction_safe_budget_manager ascii_lower
        (pos 900)
        system_prompt
        []
        question
        (document (codes "a") (codes "text") ∷ [])).0 in
    sum_approx_tokens ascii_lower (assemble_prompt_messages system_prompt [] question kept)
    ≤ max
        (sum_approx_tokens ascii_lower (assemble_prompt_messages system_prompt [] question []))
        900
sum_approx_tokens-assemble_prompt_messages_example =
    sum_approx_tokens-assemble_prompt_messages ascii_lower (pos 900) system_prompt [] question
      (document (codes "a") (codes "text") ∷ []) (omega arith) (titled, tt)

abbrev key_of : Text → Text → Text
key_of model body = codes "k" ++ model

abbrev no_summaries : SummaryCache
no_summaries = record { max_entries = 2; keys = []; entries = [] }

no_summaries-IsValid : IsValid no_summaries
unfolding lookup
no_summaries-IsValid = (omega arith, omega arith, tt, λ k. refl)

abbrev says_short : Request → Option Text
says_short request = some (codes " short ")

-- The answer of a runner is trimmed and kept.
summarized_body :
    summarize_body says_short key_of (some no_summaries) any_runner (codes "m") (codes "text")
    ≡ some (record {
      text = codes "short";
      cache = some (record {
        max_entries = 2;
        keys = codes "km" ∷ [];
        entries = (codes "km", codes "short") ∷ [];
      });
      asked = record { route = any_runner; model = codes "m"; body = codes "text" } ∷ [];
    })
unfolding summarize_body ask_summary cached_summary put_summary put get evict store lookup insert
    trim_space trim_left_func trim_right_func is_space
summarized_body = refl

summarize_dropped_messages-IsSummarizedOnce_example :
    IsSummarizedOnce says_short
      (λ request. none)
      key_of
      true
      false
      true
      none
      no_summaries
      (codes "m")
      []
      []
      (question ∷ answer ∷ [])
summarize_dropped_messages-IsSummarizedOnce_example =
    summarize_dropped_messages-IsSummarizedOnce says_short (λ request. none) key_of true false true
      none no_summaries (codes "m") [] [] (question ∷ answer ∷ []) (λ m b. refl)
      no_summaries-IsValid
