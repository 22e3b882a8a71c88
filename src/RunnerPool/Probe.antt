-- ===== src/RunnerPool/Probe.antt =====
-- internal/service/pool.go: probing an address, and what the cache keeps of it. What a runner
-- answers, whether a client can be made, and the clock are the environment's.
pub mod Laws
pub mod Backoff
use gen_runner.Prelude.{
  ℕ, zero, suc, ◌+◌, ◌-◌, ◌*◌, ◌/◌, ◌%◌, ◌^◌, ◌≤◌, ◌<◌, min, max, ◌≡◌, refl, sym, ap, ◌∙◌, subst,
  ◌≢◌, ◌↔◌, ◌⊎◌, inl, inr, Bool, true, false, not, ◌&&◌, ◌||◌, Option, none, some, List, [], ◌∷◌,
  ◌++◌, map, reverse, append_assoc, append-nil, arith, ltb, leb, ◌==◌, if◌then◌else◌, ltb→lt,
  lt→ltb, leb→le, le→leb, lt→leb_false, le→ltb_false, ==_iff, Bool-cases, Option-cases, List-cases,
  length, is_empty, get_elem?, set, take, drop, filter_by, all_by, All, length-append,
  length-reverse, length-map, length-set, take-append-drop, length-take, length-drop,
  take-append_left, drop-append_left, All-append, All-map_weaken,
}
use gen_runner.Text.{Text, codes, text_eq}
use gen_runner.RunnerPool.{
  Client, ProbeEntry, Pool, get_or_create_inflight, get_client, record_probe_failure,
  record_probe_success, load_counter,
}

-- `RunnerProbeResponse`, with the fields that the pool reads; the pointers may be nil.
pub record ProbeResponse : Type 0 where
  pub backend_connected : Bool
  pub server_models : Option (List Text)
  pub gpus : List (Option ℕ)

pub data Answer : Type 0 where
  failed nil_response : Answer
  answered : ProbeResponse → Answer

pub record Env : Type 0 where
  pub dial : Text → Bool
  pub probe : Text → Answer
  pub time_of : Text → ℕ

pub record Candidate : Type 0 where
  pub addr : Text
  pub client : Client
  pub score : ℕ

abbrev pub contains : Text → List Text → Bool
contains t [] = false
contains t (s ∷ l) = text_eq s t || contains t l

unfoldable pub model_allowed : Text → List Text → Bool
model_allowed requested models =
    if is_empty requested || text_eq requested (codes "default")
    then true
    else if is_empty models
    then true
    else contains requested models

unfoldable pub max_gpu_util_from : ℕ → List (Option ℕ) → ℕ
max_gpu_util_from m [] = m
max_gpu_util_from m (none ∷ gpus) = max_gpu_util_from m gpus
max_gpu_util_from m (some u ∷ gpus) = max_gpu_util_from (if ltb m u then u else m) gpus

unfoldable pub max_gpu_util : List (Option ℕ) → ℕ
max_gpu_util gpus = max_gpu_util_from 0 gpus

-- `float64(inf)*100 + float64(gpuU)`, exact for an int32 and a uint32.
abbrev pub score_of : ℕ → ℕ → ℕ
score_of inf gpu = inf * 100 + gpu

-- The candidate of an address that may be picked, with the load that is counted for it.
unfoldable pub candidate_at : Pool → Text → Client → ℕ → Pool × Candidate
candidate_at p addr c gpu =
    let (p', ref) = get_or_create_inflight p addr in
    (p', record { addr = addr; client = c; score = score_of (load_counter p' ref) gpu })

abbrev pub models_of : ProbeResponse → List Text
models_of r = elim r.server_models [ none ↦ [] | some ms ↦ ms ]

unfoldable pub candidate_from_runner_probe :
    Pool → ℕ → Text → Client → Option ProbeResponse → Text → Bool → Pool × Option Candidate
candidate_from_runner_probe p now addr c none model model_matters =
    (record_probe_failure p now addr, none)
candidate_from_runner_probe p now addr c (some r) model model_matters =
    if not r.backend_connected
    then (record_probe_failure p now addr, none)
    else let gpu = max_gpu_util r.gpus in
      let p' = record_probe_success p now addr (models_of r) gpu in
      if model_matters && not (model_allowed model (models_of r))
      then (p', none)
      else let (p'', k) = candidate_at p' addr c gpu in (p'', some k)

unfoldable pub probe_with_client :
    Env → Pool → Text → Client → Answer → Text → Bool → Pool × Option Candidate
probe_with_client env p addr c failed model model_matters =
    (record_probe_failure p (env.time_of addr) addr, none)
probe_with_client env p addr c nil_response model model_matters =
    candidate_from_runner_probe p (env.time_of addr) addr c none model model_matters
probe_with_client env p addr c (answered r) model model_matters =
    candidate_from_runner_probe p (env.time_of addr) addr c (some r) model model_matters

-- A client that cannot be made leaves no entry in the cache.
unfoldable pub probe_client :
    Env → Pool × Option Client → Text → Text → Bool → Pool × Option Candidate
probe_client env (p, none) addr model model_matters = (p, none)
probe_client env (p, some c) addr model model_matters =
    probe_with_client env p addr c (env.probe addr) model model_matters

unfoldable pub probe_runner_address : Env → Pool → Text → Text → Bool → Pool × Option Candidate
probe_runner_address env p addr model model_matters =
    probe_client env (get_client env.dial p addr) addr model model_matters
