-- ===== src/DropSummary.antt =====
-- internal/usecase/history_drop_summary.go: the summary of the messages that were dropped. The hash
-- that makes a key of the cache and the answer of a runner are parameters; `none` is an error.
pub mod Again
use gen_runner.Prelude.{
  ℕ, zero, suc, ◌+◌, ◌-◌, ◌*◌, ◌/◌, ◌%◌, ◌^◌, ◌≤◌, ◌<◌, min, max, ◌≡◌, refl, sym, ap, ◌∙◌, subst,
  ◌≢◌, ◌↔◌, ◌⊎◌, inl, inr, Bool, true, false, not, ◌&&◌, ◌||◌, Option, none, some, List, [], ◌∷◌,
  ◌++◌, map, reverse, append_assoc, append-nil, arith, ltb, leb, ◌==◌, if◌then◌else◌, is_some,
  ltb→lt, lt→ltb, leb→le, le→leb, lt→leb_false, le→ltb_false, ==_iff, Bool-cases, Option-cases,
  List-cases, length, is_empty, get_elem?, set, take, drop, filter_by, all_by, All, is_empty-nil,
  length-append, length-reverse, length-map, length-set, take-append-drop, length-take, length-drop,
  take-append_left, drop-append_left, All-append, All-map_weaken, filter_by-All, filter_by-passes,
}
use gen_runner.Prelude.Int.{ℤ, pos}
use gen_runner.Text.{Text, codes, trim_space}
use gen_runner.Registry.{Registry, RunnerCoreHints}
use gen_runner.Registry.Hints.{aggregate_chat_hints}
use gen_runner.History.{Messages}
use gen_runner.History.Dropped.{build_dropped_dialogue_plain_text}
use gen_runner.SummaryCache.{SummaryCache, get, ensure_max, put}

-- Whom a summary is asked of: a runner at an address, or any of the pool.
pub data Route : Type 0 where
  on_runner : Text → Route
  any_runner : Route

-- The system message of a request is a constant, and is left out.
pub record Request : Type 0 where
  pub route : Route
  pub model : Text
  pub body : Text

-- The text, the cache after it, and the requests that were sent.
pub record Summarized : Type 0 where
  pub text : Text
  pub cache : Option SummaryCache
  pub asked : List Request

-- `service.RunnerCoreHints{}`
abbrev pub zero_hints : RunnerCoreHints
zero_hints = record {
  max_context_tokens = pos 0;
  llm_history_max_messages = pos 0;
  llm_history_summarize_dropped = false;
  summary_max_input_runes = pos 0;
  summary_model = [];
  summary_runner_listen_address = [];
  summary_cache_entries = pos 0;
  max_tool_invocation_rounds = pos 0;
}

unfoldable pub summary_hints : Option Registry → RunnerCoreHints
summary_hints none = zero_hints
summary_hints (some r) = aggregate_chat_hints r

unfoldable pub summary_model_of : RunnerCoreHints → Text → Text
summary_model_of hints chat_model =
    if is_empty hints.summary_model then trim_space chat_model else hints.summary_model

unfoldable pub summary_route : Bool → RunnerCoreHints → Text → Route
summary_route has_pool hints chat_runner_addr =
    if not (is_empty hints.summary_runner_listen_address) && has_pool
    then on_runner hints.summary_runner_listen_address
    else if not (is_empty (trim_space chat_runner_addr)) && has_pool
    then on_runner chat_runner_addr
    else any_runner

-- The summary that the cache has, if it is not blank.
unfoldable pub cached_summary : Option SummaryCache → Text → Option Text
cached_summary cache key = elim (get cache key) [
  | none ↦ none
  | some s ↦ if is_empty (trim_space s) then none else some (trim_space s)
]

-- `put` of a cache that may be nil.
unfoldable pub put_summary : Option SummaryCache → Text → Text → Option (Option SummaryCache)
put_summary none key out = some none
put_summary (some h) key out = elim (put h key out) [ none ↦ none | some h' ↦ some (some h') ]

module _ (ask : Request → Option Text) where
  -- From the request on; `none` is a panic of `put`.
  unfoldable pub ask_summary : Option SummaryCache → Text → Request → Option Summarized
  ask_summary cache key request =
      let nothing = some (record { text = []; cache = cache; asked = request ∷ [] }) in
      elim (ask request) [
        | none ↦ nothing
        | some answer ↦
            let out = trim_space answer in
            if is_empty out then nothing else elim (put_summary cache key out) [
              | none ↦ none
              | some cache' ↦ some (record { text = out; cache = cache'; asked = request ∷ [] })
            ]
      ]

  -- From the text of the dropped messages on.
  unfoldable pub summarize_body :
      (Text → Text → Text) → Option SummaryCache → Route → Text → Text → Option Summarized
  summarize_body cache_key cache route model body =
      if is_empty model || is_empty (trim_space body)
      then some (record { text = []; cache = cache; asked = [] })
      else elim (cached_summary cache (cache_key model body)) [
        | some s ↦ some (record { text = s; cache = cache; asked = [] })
        | none ↦
            ask_summary cache (cache_key model body)
              (record { route = route; model = model; body = body })
      ]

  unfoldable pub summarize_dropped_messages :
      (Text → Text → Text)
      → Bool
      → Bool
      → Option Registry
      → Option SummaryCache
      → Text
      → Text
      → Messages
      → Option Summarized
  summarize_dropped_messages cache_key has_repo has_pool reg cache chat_model chat_runner_addr
        dropped =
      let hints = summary_hints reg in
      if not has_repo || is_empty dropped
      then some (record { text = []; cache = cache; asked = [] })
      else summarize_body cache_key (ensure_max cache hints.summary_cache_entries)
          (summary_route has_pool hints chat_runner_addr) (summary_model_of hints chat_model)
          (build_dropped_dialogue_plain_text dropped hints.summary_max_input_runes)
