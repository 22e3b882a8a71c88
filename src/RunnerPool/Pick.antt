-- ===== src/RunnerPool/Pick.antt =====
-- internal/service/pool.go, `pickRunner`. The goroutines that probe run one after another, in the
-- order of the list: each works on its own address, and `schedule` gives the order.
pub mod Laws
pub mod Answers
use gen_runner.Prelude.{
  ℕ, zero, suc, ◌+◌, ◌-◌, ◌*◌, ◌/◌, ◌%◌, ◌^◌, ◌≤◌, ◌<◌, min, max, ◌≡◌, refl, sym, ap, ◌∙◌, subst,
  ◌≢◌, ◌↔◌, ◌⊎◌, inl, inr, Bool, true, false, not, ◌&&◌, ◌||◌, Option, none, some, List, [], ◌∷◌,
  ◌++◌, map, reverse, append_assoc, append-nil, arith, ltb, leb, ◌==◌, if◌then◌else◌, ltb→lt,
  lt→ltb, leb→le, le→leb, lt→leb_false, le→ltb_false, ==_iff, Bool-cases, Option-cases, List-cases,
  length, is_empty, get_elem?, set, take, drop, filter_by, all_by, All, length-append,
  length-reverse, length-map, length-set, take-append-drop, length-take, length-drop,
  take-append_left, drop-append_left, All-append, All-map_weaken,
}
use gen_runner.Text.{Text}
use gen_runner.Registry.{Registry, get_enabled_addresses}
use gen_runner.RunnerPool.{Client, ProbeEntry, Pool, probe_ttl, get_client, entry}
use gen_runner.RunnerPool.Probe.{Env, Candidate, model_allowed, candidate_at, probe_runner_address}

pub data PickError : Type 0 where
  no_enabled no_answer : PickError

pub data Picked : Type 0 where
  picked : Candidate → Picked
  refused : PickError → Picked

-- What the first loop finds: the candidates from the cache, and the addresses to probe.
pub record Sorted : Type 0 where
  pub pool : Pool
  pub from_cache : List Candidate
  pub to_probe : List Text

-- With a client at hand the address is a candidate at once.
unfoldable pub add_cached : Sorted → Text → ℕ → Pool × Option Client → Sorted
add_cached s addr gpu (p, none) = record s { pool = p }
add_cached s addr gpu (p, some client) =
    let (p', k) = candidate_at p addr client gpu in
    record s { pool = p'; from_cache = s.from_cache ++ k ∷ [] }

unfoldable pub cached : (Text → Bool) → Text → Text → Sorted → Sorted
cached dial model addr s =
    let e = entry s.pool addr in
    if not (model_allowed model e.models)
    then s
    else add_cached s addr e.max_gpu_util (get_client dial s.pool addr)

unfoldable pub sort_one : (Text → Bool) → ℕ → Text → Text → Sorted → Sorted
sort_one dial now model addr s =
    let e = entry s.pool addr in
    if e.ok && ltb now (e.probed_at + probe_ttl)
    then cached dial model addr s
    else if not e.ok && ltb now e.backoff_until
    then s
    else record s { to_probe = s.to_probe ++ addr ∷ [] }

unfoldable pub sort_all : (Text → Bool) → ℕ → Text → List Text → Sorted → Sorted
sort_all dial now model [] s = s
sort_all dial now model (addr ∷ addrs) s =
    sort_all dial now model addrs (sort_one dial now model addr s)

-- The probes of a list of addresses, with the candidates found so far.
abbrev pub add_found : List Candidate → Option Candidate → List Candidate
add_found found none = found
add_found found (some k) = found ++ k ∷ []

unfoldable pub probe_all :
    Env → Text → Bool → List Text → Pool → List Candidate → Pool × List Candidate
probe_all env model model_matters [] p found = (p, found)
probe_all env model model_matters (addr ∷ addrs) p found =
    let r = probe_runner_address env p addr model model_matters in
    probe_all env model model_matters addrs (r.0) (add_found found (r.1))

-- The first candidate with the least score.
unfoldable pub best_from : Candidate → List Candidate → Candidate
best_from best [] = best
best_from best (c ∷ cs) = best_from (if ltb c.score best.score then c else best) cs

unfoldable pub choose : List Candidate → Picked
choose [] = refused no_answer
choose (c ∷ cs) = picked (best_from c cs)

-- The second round asks every address again, whatever its models.
unfoldable pub fall_back :
    Env → (List Text → List Text) → List Text → Text → Pool × List Candidate → Pool × List Candidate
fall_back env schedule addrs model (p, []) = probe_all env model false (schedule addrs) p []
fall_back env schedule addrs model (p, c ∷ found) = (p, c ∷ found)

module _ (first second_round : Env) (schedule : List Text → List Text) where
  unfoldable pub pick_among : ℕ → List Text → Text → Pool → Pool × Picked
  pick_among now [] model p = (p, refused no_enabled)
  pick_among now (a ∷ addrs) model p =
      let s =
        sort_all first.dial now model (a ∷ addrs)
          (record { pool = p; from_cache = []; to_probe = [] }) in
      let probed = probe_all first model true (schedule s.to_probe) s.pool s.from_cache in
      let r = fall_back second_round schedule (a ∷ addrs) model probed in (r.0, choose r.1)

  unfoldable pub pick_runner : ℕ → Registry → Text → Pool → Pool × Picked
  pick_runner now registry model p = pick_among now (get_enabled_addresses registry) model p
