-- ===== src/RunnerPool/Ask.antt =====
-- internal/service/pool.go: the questions that go to all enabled runners. What a runner answers is
-- the environment's, and so is the order in which the answers of `GetModels` come in.
use gen_runner.Prelude.{
  Bool, true, false, ◌&&◌, Option, none, some, List, [], ◌∷◌, if◌then◌else◌, is_empty,
}
use gen_runner.Text.{Text, text_eq}
use gen_runner.Registry.{Registry, get_enabled_addresses}
use gen_runner.Registry.Hints.{text_leb}
use gen_runner.RunnerPool.{Client, Pool, get_client}

-- `checks` is `CheckConnection` of a runner without an error and true; `lists` is its `GetModels`,
-- or no answer.
pub record Runners : Type 0 where
  pub dial : Text → Bool
  pub checks : Text → Bool
  pub lists : Text → Option (List Text)

abbrev pub has_client : Option Client → Bool
has_client none = false
has_client (some c) = true

unfoldable pub check_addresses : Runners → Pool → List Text → Pool × Bool
check_addresses env p [] = (p, false)
check_addresses env p (addr ∷ addrs) =
    let r = get_client env.dial p addr in
    let rest = check_addresses env (r.0) addrs in
    if has_client (r.1) && env.checks addr then (r.0, true) else rest

unfoldable pub check_connection : Runners → Registry → Pool → Pool × Bool
check_connection env registry p = check_addresses env p (get_enabled_addresses registry)

-- The set `seen`, kept in the order in which `slices.Sort` puts it.
unfoldable pub insert_model : Text → List Text → List Text
insert_model m [] = m ∷ []
insert_model m (n ∷ seen) =
    let rest = insert_model m seen in
    if text_eq m n then n ∷ seen else if text_leb m n then m ∷ n ∷ seen else n ∷ rest

unfoldable pub insert_models : List Text → List Text → List Text
insert_models [] seen = seen
insert_models (m ∷ ms) seen = insert_models ms (if is_empty m then seen else insert_model m seen)

-- The models of one runner, or none if it has no client or gives no answer.
abbrev pub models_of_runner : Runners → Text → Option Client → List Text
models_of_runner env addr none = []
models_of_runner env addr (some c) =
    if env.checks addr then elim (env.lists addr) [ none ↦ [] | some ms ↦ ms ] else []

unfoldable pub collect_models : Runners → Pool → List Text → List Text → Pool × List Text
collect_models env p [] seen = (p, seen)
collect_models env p (addr ∷ addrs) seen =
    let r = get_client env.dial p addr in
    collect_models env (r.0) addrs (insert_models (models_of_runner env addr (r.1)) seen)

-- `schedule` is the order in which the goroutines run; `none` is the error.
unfoldable pub get_models :
    Runners → (List Text → List Text) → Registry → Pool → Pool × Option (List Text)
get_models env schedule registry p =
    let r = collect_models env p (schedule (get_enabled_addresses registry)) [] in
    if is_empty (r.1) then (r.0, none) else (r.0, some (r.1))
