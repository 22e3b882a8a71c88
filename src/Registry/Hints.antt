-- ===== src/Registry/Hints.antt =====
-- internal/service/runner_hints.go: what the enabled runners' hints add up to. An `int` that is
-- not positive counts as "not given", so each is read by its positive part.
pub mod Pairs
pub mod Laws
use gen_runner.Prelude.{
  ℕ, zero, suc, ◌+◌, ◌-◌, ◌*◌, ◌/◌, ◌%◌, ◌^◌, ◌≤◌, ◌<◌, min, max, ◌≡◌, refl, sym, ap, ◌∙◌, subst,
  ◌≢◌, ◌↔◌, ◌⊎◌, inl, inr, Bool, true, false, not, ◌&&◌, ◌||◌, Option, none, some, List, [], ◌∷◌,
  ◌++◌, map, reverse, append_assoc, append-nil, arith, ltb, leb, ◌==◌, if◌then◌else◌, ltb→lt,
  lt→ltb, leb→le, le→leb, lt→leb_false, le→ltb_false, ==_iff, Bool-cases, Option-cases, List-cases,
  length, is_empty, get_elem?, set, take, drop, filter_by, all_by, All, length-append,
  length-reverse, length-map, length-set, take-append-drop, length-take, length-drop,
  take-append_left, drop-append_left, All-append, All-map_weaken,
}
use gen_runner.Prelude.Int.{ℤ, pos, pos_part}
use gen_runner.Text.{Text, trim_space}
use gen_runner.Registry.{RunnerCoreHints, RunnerState, Registry}

abbrev pub max_int32 : ℕ
max_int32 = 2 ^ 31 - 1

unfoldable pub default_runner_core_hints : RunnerCoreHints
default_runner_core_hints = record {
  max_context_tokens = pos 0;
  llm_history_max_messages = pos 0;
  llm_history_summarize_dropped = false;
  summary_max_input_runes = pos 0;
  summary_model = [];
  summary_runner_listen_address = [];
  summary_cache_entries = pos 0;
  max_tool_invocation_rounds = pos 0;
}

-- `normHistMax`, `normSummaryRunes` and `normToolRounds` are this one function.
unfoldable pub norm_non_negative : ℤ → ℤ
norm_non_negative n = if pos_part n == 0 then pos 0 else n

unfoldable pub norm_approx_tok : ℤ → ℤ
norm_approx_tok n =
    if pos_part n == 0
    then pos 0
    else if ltb (pos_part n) 512
    then pos 512
    else if ltb 500_000 (pos_part n)
    then pos 500_000
    else n

unfoldable pub norm_cache_entries : ℤ → ℤ
norm_cache_entries n =
    if pos_part n == 0 then pos 0 else if ltb 50_000 (pos_part n) then pos 50_000 else n

unfoldable pub finalize_chat_hints : RunnerCoreHints → RunnerCoreHints
finalize_chat_hints h = record h {
  llm_history_max_messages = norm_non_negative h.llm_history_max_messages;
  max_context_tokens = norm_approx_tok h.max_context_tokens;
  summary_max_input_runes = norm_non_negative h.summary_max_input_runes;
  max_tool_invocation_rounds = norm_non_negative h.max_tool_invocation_rounds;
  summary_cache_entries = norm_cache_entries h.summary_cache_entries;
  summary_model = trim_space h.summary_model;
  summary_runner_listen_address = trim_space h.summary_runner_listen_address;
}

-- `<` on strings goes by bytes, which in UTF-8 is the order of the code points.
abbrev pub text_leb : Text → Text → Bool
text_leb [] t = true
text_leb (c ∷ s) [] = false
text_leb (c ∷ s) (d ∷ t) = ltb c d || (c == d && text_leb s t)

abbrev pub Pair : Type 0
Pair = Text × RunnerCoreHints

unfoldable pub insert_pair : Pair → List Pair → List Pair
insert_pair p [] = p ∷ []
insert_pair p (q ∷ l) =
    let rest = insert_pair p l in if text_leb p.0 q.0 then p ∷ q ∷ l else q ∷ rest

-- A runner without hints, or not enabled, is passed over.
abbrev pub add_hints : Text → Option RunnerCoreHints → Bool → List Pair → List Pair
add_hints addr none on rest = rest
add_hints addr (some h) true rest = insert_pair (addr, h) rest
add_hints addr (some h) false rest = rest

-- The pairs of the enabled runners with hints, in the order of their addresses.
unfoldable pub hint_pairs : Registry → List Pair
hint_pairs [] = []
hint_pairs ((addr, st) ∷ r) = add_hints addr st.hints st.enabled (hint_pairs r)

-- `minPositive`: the least positive value, or 0.
unfoldable pub min_positive_from : (RunnerCoreHints → ℤ) → ℕ → Bool → List Pair → ℕ
min_positive_from get v found [] = if found then v else 0
min_positive_from get v found (p ∷ l) =
    let n = pos_part (get p.1) in
    min_positive_from get (if n == 0 then v else if ltb n v then n else v)
      (if n == 0 then found else true) l

unfoldable pub min_positive : (RunnerCoreHints → ℤ) → List Pair → ℕ
min_positive get l = min_positive_from get max_int32 false l

unfoldable pub any_summarize : List Pair → Bool
any_summarize [] = false
any_summarize (p ∷ l) = p.1.llm_history_summarize_dropped || any_summarize l

unfoldable pub max_cache : ℕ → List Pair → ℕ
max_cache m [] = m
max_cache m (p ∷ l) =
    let n = pos_part p.1.summary_cache_entries in max_cache (if ltb m n then n else m) l

-- The loop over `SummaryMaxInputRunes`, which starts at `math.MaxInt32` and takes that for none.
unfoldable pub min_summary_runes : ℕ → List Pair → ℕ
min_summary_runes v [] = if v == max_int32 then 0 else v
min_summary_runes v (p ∷ l) =
    let n = pos_part p.1.summary_max_input_runes in
    min_summary_runes (if ltb 0 n && ltb n v then n else v) l

-- The hints with the least context below `math.MaxInt32`, the first of them if there are more.
unfoldable pub bottleneck : ℕ → Option RunnerCoreHints → List Pair → Option RunnerCoreHints
bottleneck ctx best [] = best
bottleneck ctx best (p ∷ l) =
    let n = pos_part p.1.max_context_tokens in
    let better = not (n == 0) && ltb n ctx in
    bottleneck (if better then n else ctx) (if better then some p.1 else best) l

-- A text of the bottleneck, or else the first that is not blank.
unfoldable pub first_text : (RunnerCoreHints → Text) → List Pair → Text
first_text get [] = []
first_text get (p ∷ l) =
    let rest = first_text get l in let s = trim_space (get p.1) in if is_empty s then rest else s

unfoldable pub pick_text : (RunnerCoreHints → Text) → Option RunnerCoreHints → List Pair → Text
pick_text get best l =
    let s : Text = elim best [ none ↦ [] | some h ↦ trim_space (get h) ] in
    if is_empty s then first_text get l else s

unfoldable pub aggregate_pairs : List Pair → RunnerCoreHints
aggregate_pairs l =
    let best = bottleneck max_int32 none l in
    finalize_chat_hints (record {
      max_context_tokens = pos (min_positive (λ h. h.max_context_tokens) l);
      llm_history_max_messages = pos (min_positive (λ h. h.llm_history_max_messages) l);
      llm_history_summarize_dropped = any_summarize l;
      summary_max_input_runes = pos (min_summary_runes max_int32 l);
      summary_model = pick_text (λ h. h.summary_model) best l;
      summary_runner_listen_address = pick_text (λ h. h.summary_runner_listen_address) best l;
      summary_cache_entries = pos (max_cache 0 l);
      max_tool_invocation_rounds = pos (min_positive (λ h. h.max_tool_invocation_rounds) l);
    })

unfoldable pub aggregate_list : List Pair → RunnerCoreHints
aggregate_list [] = finalize_chat_hints default_runner_core_hints
aggregate_list (p ∷ l) = aggregate_pairs (p ∷ l)

unfoldable pub aggregate_chat_hints : Registry → RunnerCoreHints
aggregate_chat_hints r = aggregate_list (hint_pairs r)
