-- ===== src/Registry.antt =====
-- internal/service/registry.go: the runners that are known, by address. Every method holds the
-- registry's lock, so each is one step. Log lines are left out. The records that `GetRunners`
-- copies for the API are left out too.
pub mod Laws
pub mod Hints
use gen_runner.Prelude.{
  ℕ, zero, suc, ◌+◌, ◌-◌, ◌*◌, ◌/◌, ◌%◌, ◌^◌, ◌≤◌, ◌<◌, min, max, ◌≡◌, refl, sym, ap, ◌∙◌, subst,
  ◌≢◌, ◌↔◌, ◌⊎◌, inl, inr, Bool, true, false, not, ◌&&◌, ◌||◌, Option, none, some, List, [], ◌∷◌,
  ◌++◌, map, reverse, append_assoc, append-nil, arith, ltb, leb, ◌==◌, if◌then◌else◌, ltb→lt,
  lt→ltb, leb→le, le→leb, lt→leb_false, le→ltb_false, ==_iff, Bool-cases, Option-cases, List-cases,
  length, is_empty, get_elem?, set, take, drop, filter_by, all_by, All, length-append,
  length-reverse, length-map, length-set, take-append-drop, length-take, length-drop,
  take-append_left, drop-append_left, All-append, All-map_weaken,
}
use gen_runner.Prelude.Int.{ℤ, pos, negsuc, pos_part, ltb_ℤ, eq_ℤ}
use gen_runner.Text.{Text, trim_space}
use gen_runner.Dict.{Dict, lookup, insert, delete}

-- `RunnerCoreHints` of runner_hints.go.
pub record RunnerCoreHints : Type 0 where
  pub max_context_tokens : ℤ
  pub llm_history_max_messages : ℤ
  pub llm_history_summarize_dropped : Bool
  pub summary_max_input_runes : ℤ
  pub summary_model : Text
  pub summary_runner_listen_address : Text
  pub summary_cache_entries : ℤ
  pub max_tool_invocation_rounds : ℤ

pub record RunnerState : Type 0 where
  pub id : ℤ
  pub address : Text
  pub host : Text
  pub port : ℤ
  pub name : Text
  pub enabled : Bool
  pub selected_model : Text
  pub hints : Option RunnerCoreHints

abbrev pub Registry : Type 0
Registry = Dict RunnerState

-- `domain.Runner`, a row of the database.
pub record Runner : Type 0 where
  pub id : ℤ
  pub name : Text
  pub host : Text
  pub port : ℤ
  pub enabled : Bool
  pub selected_model : Text

-- `domain.RunnerListenAddress`; `join` is `net.JoinHostPort` of a host and a printed port.
unfoldable pub runner_listen_address : (Text → ℤ → Text) → Text → ℤ → Text
runner_listen_address join host port =
    let h = trim_space host in if is_empty h || pos_part port == 0 then [] else join h port

unfoldable pub runner_states_from_domain : (Text → ℤ → Text) → List Runner → List RunnerState
runner_states_from_domain join [] = []
runner_states_from_domain join (r ∷ rows) =
    let addr = runner_listen_address join r.host r.port in
    let rest = runner_states_from_domain join rows in
    if is_empty addr
    then rest
    else record {
      id = r.id;
      address = addr;
      host = trim_space r.host;
      port = r.port;
      name = trim_space r.name;
      enabled = r.enabled;
      selected_model = trim_space r.selected_model;
      hints = none;
    }
      ∷ rest

-- The loop of `ReplaceAll`: a later state of the same address wins.
unfoldable pub replace_from : Registry → List RunnerState → Registry
replace_from next [] = next
replace_from next (st ∷ states) =
    let addr = trim_space st.address in
    replace_from (if is_empty addr then next else insert addr (record st { address = addr }) next)
      states

unfoldable pub replace_all : Registry → List RunnerState → Registry
replace_all r states = replace_from [] states

unfoldable pub new_registry : List RunnerState → Registry
new_registry initial = replace_all [] initial

-- The state that `RegisterWithNameAndHints` stores.
unfoldable pub registered : Option RunnerState → Text → Text → Option RunnerCoreHints → RunnerState
registered none addr name hints = record {
  id = pos 0;
  address = addr;
  host = [];
  port = pos 0;
  name = trim_space name;
  enabled = true;
  selected_model = [];
  hints = hints;
}
registered (some st) addr name hints = record st {
  name = if is_empty (trim_space name) then st.name else trim_space name;
  hints = elim hints [ none ↦ st.hints | some h ↦ some h ];
}

unfoldable pub register_with_name_and_hints :
    Registry → Text → Text → Option RunnerCoreHints → Registry
register_with_name_and_hints r addr name hints =
    if is_empty addr then r else insert addr (registered (lookup addr r) addr name hints) r

unfoldable pub register : Registry → Text → Registry
register r addr = register_with_name_and_hints r addr [] none

unfoldable pub register_with_name : Registry → Text → Text → Registry
register_with_name r addr name = register_with_name_and_hints r addr name none

unfoldable pub unregister : Registry → Text → Registry
unregister r addr = elim (lookup addr r) [ none ↦ r | some st ↦ delete addr r ]

unfoldable pub set_enabled : Registry → Text → Bool → Registry
set_enabled r addr on =
    let a = trim_space addr in
    elim (lookup a r) [ none ↦ r | some st ↦ insert a (record st { enabled = on }) r ]

unfoldable pub has_active_runners : Registry → Bool
has_active_runners [] = false
has_active_runners ((k, st) ∷ r) = st.enabled || has_active_runners r

unfoldable pub get_enabled_addresses : Registry → List Text
get_enabled_addresses [] = []
get_enabled_addresses ((k, st) ∷ r) =
    let rest = get_enabled_addresses r in if st.enabled then st.address ∷ rest else rest

unfoldable pub is_enabled_runner : Registry → Text → Bool
is_enabled_runner r addr =
    let a = trim_space addr in
    if is_empty a then false else elim (lookup a r) [ none ↦ false | some st ↦ st.enabled ]

unfoldable pub get_by_id : Registry → ℤ → Option RunnerState
get_by_id [] id = none
get_by_id ((k, st) ∷ r) id =
    let rest = get_by_id r id in
    if pos_part id == 0 then none else if eq_ℤ st.id id then some st else rest

-- The pairs of `DefaultRunnerListenAddress`, and the first of them in the order of the ids. Go's
-- sort leaves the order of equal ids open; here the first pair met wins.
unfoldable pub least_id : Option (ℤ × Text) → Registry → Option (ℤ × Text)
least_id best [] = best
least_id best ((k, st) ∷ r) =
    let a = trim_space st.address in
    least_id
      (if not st.enabled || is_empty a then best else elim best [
        | none ↦ some (st.id, a)
        | some (i, b) ↦ if ltb_ℤ st.id i then some (st.id, a) else some (i, b)
      ])
      r

unfoldable pub default_runner_listen_address : Registry → Text
default_runner_listen_address r = elim (least_id none r) [ none ↦ [] | some (i, a) ↦ a ]
