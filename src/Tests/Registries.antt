-- ===== src/Tests/Registries.antt =====
-- Runs of the registry, and the theorems about it at concrete runners.
use gen_runner.Prelude.{◌≤◌, ◌≡◌, refl, subst, ◌⊎◌, inr, true, false, none, some, [], ◌∷◌, arith}
use gen_runner.Prelude.Int.{pos, pos_part}
use gen_runner.Text.{Text, codes, text_eq, trim_space, trim_left_func, trim_right_func, is_space}
use gen_runner.Dict.{lookup, Entries}
use gen_runner.Registry.{
  RunnerCoreHints, RunnerState, Registry, new_registry, set_enabled, is_enabled_runner,
  register_with_name_and_hints,
}
use gen_runner.Registry.Laws.{
  IsWellFiled, registers, enables, unregisters, run, run-new_registry-IsWellFiled,
  set_enabled-padded,
}
use gen_runner.Registry.Hints.{aggregate_chat_hints}
use gen_runner.Registry.Hints.Laws.{Within, Allows, aggregate_chat_hints-Within}

abbrev no_hints : RunnerCoreHints
no_hints = record {
  max_context_tokens = pos 4096;
  llm_history_max_messages = pos 0;
  llm_history_summarize_dropped = false;
  summary_max_input_runes = pos 0;
  summary_model = [];
  summary_runner_listen_address = [];
  summary_cache_entries = pos 0;
  max_tool_invocation_rounds = pos 0;
}

abbrev pub runner_at : Text → RunnerState
runner_at addr = record {
  id = pos 1;
  address = addr;
  host = codes "h";
  port = pos 1;
  name = [];
  enabled = true;
  selected_model = [];
  hints = some no_hints;
}

abbrev pub two_runners : Registry
two_runners = (codes "h:1", runner_at (codes "h:1")) ∷ (codes "h:2", runner_at (codes "h:2")) ∷ []

trimmed_addr : trim_space (codes "h:1") ≡ codes "h:1"
unfolding trim_space trim_left_func trim_right_func is_space
trimmed_addr = refl

run-new_registry-IsWellFiled_example : IsWellFiled (
    run (new_registry (runner_at (codes "h:1") ∷ [])) (
      registers (codes "h:2") [] none
      ∷ enables (codes "h:1") false
      ∷ unregisters (codes "h:1")
      ∷ []))
run-new_registry-IsWellFiled_example =
    run-new_registry-IsWellFiled (runner_at (codes "h:1") ∷ []) (
      registers (codes "h:2") [] none
      ∷ enables (codes "h:1") false
      ∷ unregisters (codes "h:1")
      ∷ [])

first_enabled : is_enabled_runner two_runners (codes "h:1") ≡ true
unfolding is_enabled_runner trim_space trim_left_func trim_right_func is_space lookup
first_enabled = refl

padded_addr : text_eq (codes "h:1 ") (trim_space (codes "h:1 ")) ≡ false
unfolding trim_space trim_left_func trim_right_func is_space
padded_addr = refl

no_runner : lookup {V = RunnerState} (trim_space (codes "h:1 ")) [] ≡ none
unfolding lookup
no_runner = refl

set_enabled-padded_example :
    set_enabled (register_with_name_and_hints [] (codes "h:1 ") [] none) (codes "h:1 ") false
    ≡ register_with_name_and_hints [] (codes "h:1 ") [] none
set_enabled-padded_example =
    set_enabled-padded [] (codes "h:1 ") [] none false (λ h. cc) padded_addr no_runner

two_runners_allow :
    Entries
      (λ k st. (h : RunnerCoreHints) → st.enabled ≡ true → st.hints ≡ some h → Allows 4096 h)
      two_runners
two_runners_allow = (
  (λ h t e.
      let same : no_hints ≡ h = ground (arith, e) in subst (Allows 4096) same (inr (omega arith))),
  (
    (λ h t e.
        let same : no_hints ≡ h = ground (arith, e) in
        subst (Allows 4096) same (inr (omega arith))),
    tt,
  ),
)

aggregate_chat_hints-Within_example :
    let limit = pos_part (aggregate_chat_hints two_runners).max_context_tokens in
    Entries
      (λ k st. (h : RunnerCoreHints) → st.enabled ≡ true → st.hints ≡ some h → Within limit h)
      two_runners
    × ((limit ≡ 0) ⊎ (4096 ≤ limit))
    × ((limit ≡ 0) ⊎ ((512 ≤ limit) × (limit ≤ 500_000)))
aggregate_chat_hints-Within_example =
    aggregate_chat_hints-Within two_runners 4096 (omega arith) two_runners_allow
