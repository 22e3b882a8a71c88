-- ===== src/RunnerPool/Probe/Laws.antt =====
-- internal/service/pool.go: the addresses that clients are made for.
use gen_runner.Prelude.{
  ℕ, ◌≡◌, refl, sym, ap, ◌∙◌, subst, inl, inr, Bool, Option, none, some, arith, Bool-cases,
  Option-cases,
}
use gen_runner.Text.{Text}
use gen_runner.Dict.{lookup, insert, Entries, insert-Entries, lookup-Entries}
use gen_runner.RunnerPool.{
  Client, Pool, get_or_create_inflight, store_client, get_client, record_probe_failure,
  record_probe_success,
}
use gen_runner.RunnerPool.Probe.{
  ProbeResponse, Answer, failed, nil_response, answered, Env, Candidate, candidate_at, max_gpu_util,
  models_of, candidate_from_runner_probe, probe_with_client, probe_client, probe_runner_address,
}

abbrev Made : Text → Client → Type 0
Made k c = c.dialled ≡ k

-- Every client was made for the address under which it stands.
abbrev pub IsWired : Pool → Type 0
IsWired p = Entries Made p.clients

-- A candidate whose address satisfies `P`, with the client of that address.
abbrev pub Good {κ} : (Text → Type κ) → Candidate → Type κ
Good P k = P k.addr × (k.client.dialled ≡ k.addr)

inflight_clients : (p : Pool) (addr : Text) → (get_or_create_inflight p addr).0.clients ≡ p.clients
unfolding get_or_create_inflight
inflight_clients p addr = ground arith

inflight_cache :
    (p : Pool) (addr : Text) → (get_or_create_inflight p addr).0.probe_cache ≡ p.probe_cache
unfolding get_or_create_inflight
inflight_cache p addr = ground arith

-- The client that `getClient` returns, and the pool that it leaves.
pub get_client-IsWired :
    (dial : Text → Bool) (p : Pool) (addr : Text) → IsWired p → IsWired (get_client dial p addr).0
unfolding get_client store_client
get_client-IsWired dial p addr w = elim (Option-cases (lookup addr p.clients)) [
  | inr (c, e) ↦ rw (e, get_client) w
  | inl e ↦ elim (Bool-cases (dial addr)) [
    | inl d ↦
        rw (e, get_client)
          (rw d (
            subst (Entries Made)
              (sym (
                inflight_clients
                  (record p { clients = insert addr (record { dialled = addr }) p.clients }) addr))
              (insert-Entries Made addr (record { dialled = addr }) p.clients refl w)))
    | inr d ↦ rw (e, get_client) (rw d w)
  ]
]

pub get_client-Made :
    (dial : Text → Bool) (p : Pool) (addr : Text) (c : Client)
    → IsWired p
    → (get_client dial p addr).1 ≡ some c
    → c.dialled ≡ addr
unfolding get_client
get_client-Made dial p addr c w h = elim (Option-cases (lookup addr p.clients)) [
  | inr (c', e) ↦ ground (arith, e, lookup-Entries Made addr c' p.clients e w)
  | inl e ↦ ground (arith, e)
]

pub candidate_at-fields :
    (p : Pool) (addr : Text) (c : Client) (gpu : ℕ)
    → ((candidate_at p addr c gpu).1.addr ≡ addr)
      × ((candidate_at p addr c gpu).1.client ≡ c)
      × ((candidate_at p addr c gpu).0.clients ≡ p.clients)
unfolding candidate_at
candidate_at-fields p addr c gpu = (refl, refl, inflight_clients p addr)

probe_response-clients :
    (p : Pool) (now : ℕ) (addr : Text) (c : Client) (r : Option ProbeResponse) (model : Text)
    (b : Bool)
    → (candidate_from_runner_probe p now addr c r model b).0.clients ≡ p.clients
unfolding candidate_from_runner_probe record_probe_failure record_probe_success
probe_response-clients p now addr c none model b = refl
probe_response-clients p now addr c (some r) model b =
    let gpu = max_gpu_util r.gpus in
    ground
      (arith, candidate_at-fields (record_probe_success p now addr (models_of r) gpu) addr c gpu)

probe_response_fields :
    (p : Pool) (now : ℕ) (addr : Text) (c : Client) (r : Option ProbeResponse) (model : Text)
    (b : Bool) (k : Candidate)
    → (candidate_from_runner_probe p now addr c r model b).1 ≡ some k
    → (k.addr ≡ addr) × (k.client ≡ c)
unfolding candidate_from_runner_probe
probe_response_fields p now addr c none model b k h = cc
probe_response_fields p now addr c (some r) model b k h =
    let gpu = max_gpu_util r.gpus in
    ground
      (arith, candidate_at-fields (record_probe_success p now addr (models_of r) gpu) addr c gpu)

probe_with_client-clients :
    (env : Env) (p : Pool) (addr : Text) (c : Client) (a : Answer) (model : Text) (b : Bool)
    → (probe_with_client env p addr c a model b).0.clients ≡ p.clients
unfolding probe_with_client record_probe_failure
probe_with_client-clients env p addr c failed model b = refl
probe_with_client-clients env p addr c nil_response model b =
    probe_response-clients p (env.time_of addr) addr c none model b
probe_with_client-clients env p addr c (answered r) model b =
    probe_response-clients p (env.time_of addr) addr c (some r) model b

probe_with_client_fields :
    (env : Env) (p : Pool) (addr : Text) (c : Client) (a : Answer) (model : Text) (b : Bool)
    (k : Candidate)
    → (probe_with_client env p addr c a model b).1 ≡ some k
    → (k.addr ≡ addr) × (k.client ≡ c)
unfolding probe_with_client
probe_with_client_fields env p addr c failed model b k h = cc
probe_with_client_fields env p addr c nil_response model b k h =
    probe_response_fields p (env.time_of addr) addr c none model b k h
probe_with_client_fields env p addr c (answered r) model b k h =
    probe_response_fields p (env.time_of addr) addr c (some r) model b k h

probe_client-IsWired :
    (env : Env) (r : Pool × Option Client) (addr model : Text) (b : Bool)
    → IsWired (r.0)
    → IsWired (probe_client env r addr model b).0
unfolding probe_client
probe_client-IsWired env (p, none) addr model b w = w
probe_client-IsWired env (p, some c) addr model b w =
    subst (Entries Made) (sym (probe_with_client-clients env p addr c (env.probe addr) model b)) w

probe_client_fields :
    (env : Env) (r : Pool × Option Client) (addr model : Text) (b : Bool) (k : Candidate)
    → (probe_client env r addr model b).1 ≡ some k
    → (k.addr ≡ addr) × (r.1 ≡ some k.client)
unfolding probe_client
probe_client_fields env (p, none) addr model b k h = cc
probe_client_fields env (p, some c) addr model b k h =
    let (a, e) = probe_with_client_fields env p addr c (env.probe addr) model b k h in
    (a, ap (λ (x : Client). some x) (sym e))

pub probe_runner_address-IsWired :
    (env : Env) (p : Pool) (addr model : Text) (b : Bool)
    → IsWired p
    → IsWired (probe_runner_address env p addr model b).0
unfolding probe_runner_address
probe_runner_address-IsWired env p addr model b w =
    probe_client-IsWired env (get_client env.dial p addr) addr model b
      (get_client-IsWired env.dial p addr w)

-- A probe that yields a candidate yields the probed address with its own client.
pub probe_runner_address-Good {κ} :
    (P : Text → Type κ) (env : Env) (p : Pool) (addr model : Text) (b : Bool) (k : Candidate)
    → IsWired p
    → P addr
    → (probe_runner_address env p addr model b).1 ≡ some k
    → Good P k
unfolding probe_runner_address
probe_runner_address-Good P env p addr model b k w q h =
    let (a, e) = probe_client_fields env (get_client env.dial p addr) addr model b k h in
    (subst P (sym a) q, get_client-Made env.dial p addr k.client w e ∙ sym a)
