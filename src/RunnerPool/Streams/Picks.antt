-- ===== src/RunnerPool/Streams/Picks.antt =====
-- internal/service/pool.go: the load counters through `pickRunner`.
use gen_runner.Prelude.{
  ℕ, refl, Bool, true, false, Option, none, some, List, [], ◌∷◌, if◌then◌else◌,
}
use gen_runner.Text.{Text}
use gen_runner.Registry.{Registry, get_enabled_addresses}
use gen_runner.RunnerPool.{Client, Pool, get_client, record_probe_failure, record_probe_success}
use gen_runner.RunnerPool.Probe.{
  ProbeResponse, Answer, failed, nil_response, answered, Env, Candidate, candidate_at,
  candidate_from_runner_probe, probe_with_client, probe_client, probe_runner_address,
}
use gen_runner.RunnerPool.Pick.{
  Picked, picked, refused, Sorted, add_cached, cached, sort_one, sort_all, add_found, probe_all,
  fall_back, pick_among, pick_runner,
}
use gen_runner.RunnerPool.Streams.{System, send_picked}
use gen_runner.RunnerPool.Streams.Laws.{
  IsCounted, inflight-IsCounted, begin_stream-IsCounted, same_store-IsCounted, get_client-IsCounted,
}

pub send_picked-IsCounted :
    (s : System) (r : Pool × Picked)
    → IsCounted (record s { pool = r.0 })
    → IsCounted (send_picked s r)
unfolding send_picked
send_picked-IsCounted s (p, refused e) c = c
send_picked-IsCounted s (p, picked k) c = begin_stream-IsCounted (record s { pool = p }) k.addr c

module _ (held : List ℕ) where
  -- A pool whose counters count these streams.
  abbrev Counts : Pool → Type 0
  Counts p = IsCounted (record { pool = p; held = held })

  Counts-if {ℓ} :
      {A : Type ℓ} (pool_of : A → Pool) (b : Bool) (x y : A)
      → Counts (pool_of x)
      → Counts (pool_of y)
      → Counts (pool_of (if b then x else y))
  Counts-if pool_of true x y c d = c
  Counts-if pool_of false x y c d = d

  record_probe_failure-Counts :
      (p : Pool) (now : ℕ) (addr : Text) → Counts p → Counts (record_probe_failure p now addr)
  unfolding record_probe_failure
  record_probe_failure-Counts p now addr c =
      same_store-IsCounted (record { pool = p; held = held }) _ refl (λ f. f) c

  record_probe_success-Counts :
      (p : Pool) (now : ℕ) (addr : Text) (models : List Text) (gpu : ℕ)
      → Counts p
      → Counts (record_probe_success p now addr models gpu)
  unfolding record_probe_success
  record_probe_success-Counts p now addr models gpu c =
      same_store-IsCounted (record { pool = p; held = held }) _ refl (λ f. f) c

  candidate_at-Counts :
      (p : Pool) (addr : Text) (k : Client) (gpu : ℕ)
      → Counts p
      → Counts (candidate_at p addr k gpu).0
  unfolding candidate_at
  candidate_at-Counts p addr k gpu c =
      (inflight-IsCounted (record { pool = p; held = held }) addr c).0

  candidate_from_runner_probe-Counts :
      (p : Pool) (now : ℕ) (addr : Text) (k : Client) (o : Option ProbeResponse) (model : Text)
      (b : Bool)
      → Counts p
      → Counts (candidate_from_runner_probe p now addr k o model b).0
  unfolding candidate_from_runner_probe
  candidate_from_runner_probe-Counts p now addr k none model b c =
      record_probe_failure-Counts p now addr c
  candidate_from_runner_probe-Counts p now addr k (some r) model b c =
      let known = record_probe_success-Counts p now addr _ _ c in
      Counts-if (λ (r : Pool × Option Candidate). r.0) _ _ _
        (record_probe_failure-Counts p now addr c)
        (Counts-if (λ (r : Pool × Option Candidate). r.0) _ _ _ known
          (candidate_at-Counts _ addr k _ known))

  probe_with_client-Counts :
      (env : Env) (p : Pool) (addr : Text) (k : Client) (a : Answer) (model : Text) (b : Bool)
      → Counts p
      → Counts (probe_with_client env p addr k a model b).0
  unfolding probe_with_client
  probe_with_client-Counts env p addr k failed model b c =
      record_probe_failure-Counts p (env.time_of addr) addr c
  probe_with_client-Counts env p addr k nil_response model b c =
      candidate_from_runner_probe-Counts p (env.time_of addr) addr k none model b c
  probe_with_client-Counts env p addr k (answered r) model b c =
      candidate_from_runner_probe-Counts p (env.time_of addr) addr k (some r) model b c

  probe_client-Counts :
      (env : Env) (r : Pool × Option Client) (addr model : Text) (b : Bool)
      → Counts (r.0)
      → Counts (probe_client env r addr model b).0
  unfolding probe_client
  probe_client-Counts env (p, none) addr model b c = c
  probe_client-Counts env (p, some k) addr model b c =
      probe_with_client-Counts env p addr k (env.probe addr) model b c

  probe_runner_address-Counts :
      (env : Env) (p : Pool) (addr model : Text) (b : Bool)
      → Counts p
      → Counts (probe_runner_address env p addr model b).0
  unfolding probe_runner_address
  probe_runner_address-Counts env p addr model b c =
      probe_client-Counts env (get_client env.dial p addr) addr model b
        (get_client-IsCounted env.dial (record { pool = p; held = held }) addr c)

  add_cached-Counts :
      (s : Sorted) (addr : Text) (gpu : ℕ) (r : Pool × Option Client)
      → Counts (r.0)
      → Counts (add_cached s addr gpu r).pool
  unfolding add_cached
  add_cached-Counts s addr gpu (p, none) c = c
  add_cached-Counts s addr gpu (p, some k) c = candidate_at-Counts p addr k gpu c

  sort_one-Counts :
      (dial : Text → Bool) (now : ℕ) (model addr : Text) (s : Sorted)
      → Counts s.pool
      → Counts (sort_one dial now model addr s).pool
  unfolding sort_one cached
  sort_one-Counts dial now model addr s c =
      Counts-if (λ (t : Sorted). t.pool) _ _ _
        (Counts-if (λ (t : Sorted). t.pool) _ _ _ c
          (add_cached-Counts s addr _ (get_client dial s.pool addr)
            (get_client-IsCounted dial (record { pool = s.pool; held = held }) addr c)))
        (Counts-if (λ (t : Sorted). t.pool) _ _ _ c c)

  sort_all-Counts :
      (dial : Text → Bool) (now : ℕ) (model : Text) (addrs : List Text) (s : Sorted)
      → Counts s.pool
      → Counts (sort_all dial now model addrs s).pool
  unfolding sort_all
  sort_all-Counts dial now model [] s c = c
  sort_all-Counts dial now model (addr ∷ addrs) s c =
      sort_all-Counts dial now model addrs (sort_one dial now model addr s)
        (sort_one-Counts dial now model addr s c)

  probe_all-Counts :
      (env : Env) (model : Text) (b : Bool) (addrs : List Text) (p : Pool) (found : List Candidate)
      → Counts p
      → Counts (probe_all env model b addrs p found).0
  unfolding probe_all
  probe_all-Counts env model b [] p found c = c
  probe_all-Counts env model b (addr ∷ addrs) p found c =
      let r = probe_runner_address env p addr model b in
      probe_all-Counts env model b addrs (r.0) (add_found found (r.1))
        (probe_runner_address-Counts env p addr model b c)

  fall_back-Counts :
      (env : Env) (schedule : List Text → List Text) (addrs : List Text) (model : Text)
      (r : Pool × List Candidate)
      → Counts (r.0)
      → Counts (fall_back env schedule addrs model r).0
  unfolding fall_back
  fall_back-Counts env schedule addrs model (p, []) c =
      probe_all-Counts env model false (schedule addrs) p [] c
  fall_back-Counts env schedule addrs model (p, k ∷ found) c = c

  pick_among-Counts :
      (first second_round : Env) (schedule : List Text → List Text) (now : ℕ) (addrs : List Text)
      (model : Text) (p : Pool)
      → Counts p
      → Counts (pick_among first second_round schedule now addrs model p).0
  unfolding pick_among
  pick_among-Counts first second_round schedule now [] model p c = c
  pick_among-Counts first second_round schedule now (a ∷ addrs) model p c =
      fall_back-Counts second_round schedule (a ∷ addrs) model _ (
        probe_all-Counts first model true _ _ _ (
          sort_all-Counts first.dial now model (a ∷ addrs)
            (record { pool = p; from_cache = []; to_probe = [] }) c))

  pub pick_runner-IsCounted :
      (first second_round : Env) (schedule : List Text → List Text) (now : ℕ) (registry : Registry)
      (model : Text) (p : Pool)
      → IsCounted (record { pool = p; held = held })
      → IsCounted (record {
        pool = (pick_runner first second_round schedule now registry model p).0;
        held = held;
      })
  unfolding pick_runner
  pick_runner-IsCounted first second_round schedule now registry model p c =
      pick_among-Counts first second_round schedule now (get_enabled_addresses registry) model p c
