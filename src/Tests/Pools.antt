-- ===== src/Tests/Pools.antt =====
-- Runs of the runner pool, and the theorems about it at concrete pools.
use gen_runner.Prelude.{ℕ, ◌≡◌, refl, Bool, true, none, some, [], ◌∷◌, length, All}
use gen_runner.Text.{Text, codes, trim_space, trim_left_func, trim_right_func, is_space}
use gen_runner.Registry.{get_enabled_addresses}
use gen_runner.Dict.{lookup, insert}
use gen_runner.RunnerPool.Ask.{Runners, get_models, collect_models, insert_models, insert_model}
use gen_runner.RunnerPool.{store_client, get_client, new_pool, get_or_create_inflight, close_addr}
use gen_runner.RunnerPool.Probe.{ProbeResponse, answered, failed, Env, Candidate}
use gen_runner.RunnerPool.Probe.Laws.{IsWired, Good}
use gen_runner.RunnerPool.Pick.{picked, choose, best_from, pick_runner}
use gen_runner.RunnerPool.Pick.Laws.{pick_runner-Good}
use gen_runner.RunnerPool.Pick.Answers.{pick_runner-picked}
use gen_runner.RunnerPool.Streams.{
  System, wait_runner_idle, runner_idle, send_on_runner, here, next, sends,
}
use gen_runner.RunnerPool.Streams.Laws.{IsCounted}
use gen_runner.RunnerPool.Streams.Steps.{
  Reach-IsCounted, new_pool-IsCounted, runner_idle-close_addr,
}
use gen_runner.Tests.Registries.{two_runners}

abbrev runner_answer : ProbeResponse
runner_answer = record { backend_connected = true; server_models = none; gpus = some 7 ∷ [] }

abbrev up : Env
up = record { dial = λ a. true; probe = λ a. answered runner_answer; time_of = λ a. 1000 }

abbrev down : Env
down = record { dial = λ a. true; probe = λ a. failed; time_of = λ a. 900 }

abbrev fresh_system : System
fresh_system = record { pool = new_pool; held = [] }

abbrev candidate : Text → ℕ → Candidate
candidate a n = record { addr = a; client = record { dialled = a }; score = n }

second_chosen :
    choose (candidate (codes "h:1") 207 ∷ candidate (codes "h:2") 107 ∷ [])
    ≡ picked (candidate (codes "h:2") 107)
unfolding choose best_from
second_chosen = refl

enabled_two : get_enabled_addresses two_runners ≡ codes "h:1" ∷ codes "h:2" ∷ []
unfolding get_enabled_addresses
enabled_two = refl

new_pool-IsWired : IsWired new_pool
unfolding new_pool
new_pool-IsWired = tt

three_long : All (λ a. length a ≡ 3) (get_enabled_addresses two_runners)
three_long = rw enabled_two (refl, (refl, tt))

pick_runner-Good_example :
    let r = pick_runner down up (λ l. l) 900 two_runners (codes "m") new_pool in
    IsWired (r.0) × ((k : Candidate) → r.1 ≡ picked k → Good (λ a. length a ≡ 3) k)
pick_runner-Good_example =
    pick_runner-Good (λ a. length a ≡ 3) down up (λ l. l) (λ l h. h) 900 two_runners (codes "m")
      new_pool new_pool-IsWired three_long

pick_runner-picked_example :
    (k : Candidate) × ((pick_runner down up (λ l. l) 900 two_runners (codes "m") new_pool).1
      ≡ picked k)
pick_runner-picked_example =
    pick_runner-picked down up (λ l. l) (λ l a h. h) 900 two_runners (codes "m") (codes "h:2")
      new_pool (rw enabled_two) (refl, (runner_answer, refl, refl))

abbrev dial_all : Text → Bool
dial_all a = true

Reach-IsCounted_example : IsCounted (send_on_runner dial_all fresh_system (codes "h:1"))
Reach-IsCounted_example =
    Reach-IsCounted new_pool-IsCounted (next here (sends dial_all fresh_system (codes "h:1")))

runner_idle-close_addr_example :
    runner_idle
      (close_addr
        (send_on_runner dial_all fresh_system (codes "h:1")).pool
        (trim_space (codes "h:1")))
      (codes "h:1")
    ≡ true
runner_idle-close_addr_example =
    runner_idle-close_addr (send_on_runner dial_all fresh_system (codes "h:1")) (codes "h:1")
      (Reach-IsCounted new_pool-IsCounted (next here (sends dial_all fresh_system (codes "h:1"))))

-- Two runners that know some models, one of them twice.
abbrev talkative : Runners
talkative = record {
  dial = λ a. true;
  checks = λ a. true;
  lists = λ a. some (codes "qwen" ∷ [] ∷ codes "gemma" ∷ []);
}

models_sorted :
    (get_models talkative (λ l. l) two_runners new_pool).1
    ≡ some (codes "gemma" ∷ codes "qwen" ∷ [])
unfolding get_models collect_models insert_models insert_model get_enabled_addresses get_client
    store_client get_or_create_inflight lookup insert new_pool
models_sorted = refl

-- A blank address is an error.
blank_address : wait_runner_idle new_pool (codes " ") ≡ none
unfolding wait_runner_idle trim_space trim_left_func trim_right_func is_space
blank_address = refl
