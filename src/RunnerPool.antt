-- ===== src/RunnerPool.antt =====
-- internal/service/pool.go: the clients, the counters of running streams and the cache of probes.
-- Every map operation is one step under its lock. The counters are objects that streams hold on to
-- after the map has forgotten them, so they stand in a store and the map holds references.
pub mod Ask
pub mod Probe
pub mod Pick
pub mod Streams
use gen_runner.Prelude.{
  ℕ, zero, suc, ◌+◌, ◌-◌, ◌*◌, ◌/◌, ◌%◌, ◌^◌, ◌≤◌, ◌<◌, min, max, ◌≡◌, refl, sym, ap, ◌∙◌, subst,
  ◌≢◌, ◌↔◌, ◌⊎◌, inl, inr, Bool, true, false, not, ◌&&◌, ◌||◌, Option, none, some, List, [], ◌∷◌,
  ◌++◌, map, reverse, append_assoc, append-nil, arith, ltb, leb, ◌==◌, if◌then◌else◌, ltb→lt,
  lt→ltb, leb→le, le→leb, lt→leb_false, le→ltb_false, ==_iff, Bool-cases, Option-cases, List-cases,
  length, is_empty, get_elem?, set, take, drop, filter_by, all_by, All, length-append,
  length-reverse, length-map, length-set, take-append-drop, length-take, length-drop,
  take-append_left, drop-append_left, All-append, All-map_weaken,
}
use gen_runner.Text.{Text, codes, text_eq, trim_space}
use gen_runner.Dict.{Dict, lookup, insert, delete}

-- A `*LLMRunnerService` is known by the address that it was made for.
pub record Client : Type 0 where
  pub dialled : Text

-- `runnerProbeEntry`; times are in nanoseconds, and the zero `time.Time` is 0.
pub record ProbeEntry : Type 0 where
  pub ok : Bool
  pub models : List Text
  pub max_gpu_util : ℕ
  pub probed_at : ℕ
  pub backoff_until : ℕ
  pub fail_count : ℕ

abbrev pub zero_entry : ProbeEntry
zero_entry = record {
  ok = false;
  models = [];
  max_gpu_util = 0;
  probed_at = 0;
  backoff_until = 0;
  fail_count = 0;
}

-- `counters` is the store: the reference of a counter is its place.
pub record Pool : Type 0 where
  pub clients : Dict Client
  pub inflight : Dict ℕ
  pub counters : List ℕ
  pub probe_cache : Dict ProbeEntry

unfoldable pub new_pool : Pool
new_pool = record { clients = []; inflight = []; counters = []; probe_cache = [] }

abbrev pub second : ℕ
second = 10 ^ 9

abbrev pub probe_ttl : ℕ
probe_ttl = 5 * second

abbrev pub backoff_base : ℕ
backoff_base = second

abbrev pub backoff_max : ℕ
backoff_max = 30 * second

abbrev pub backoff_shift : ℕ
backoff_shift = 5

-- `LoadOrStore`: the reference of the address's counter, a new one at 0 if there is none.
unfoldable pub get_or_create_inflight : Pool → Text → Pool × ℕ
get_or_create_inflight p addr = elim (lookup addr p.inflight) [
  | some ref ↦ (p, ref)
  | none ↦
      let ref = length p.counters in
      (record p { inflight = insert addr ref p.inflight; counters = p.counters ++ 0 ∷ [] }, ref)
]

-- A client that was just made is stored, and its address gets a counter.
unfoldable pub store_client : Pool → Text → Client → Pool
store_client p addr c =
    (get_or_create_inflight (record p { clients = insert addr c p.clients }) addr).0

-- `dial` is `NewLLMRunnerService`: whether a client can be made for an address.
unfoldable pub get_client : (Text → Bool) → Pool → Text → Pool × Option Client
get_client dial p addr = elim (lookup addr p.clients) [
  | some c ↦ (p, some c)
  | none ↦
      if dial addr
      then (store_client p addr (record { dialled = addr }), some (record { dialled = addr }))
      else (p, none)
]

-- `Close` forgets the counters of the addresses that have a client, and all clients and probes.
unfoldable pub forget_counters : Dict Client → Dict ℕ → Dict ℕ
forget_counters [] counters = counters
forget_counters ((addr, c) ∷ m) counters = forget_counters m (delete addr counters)

unfoldable pub close : Pool → Pool
close p = record p {
  clients = [];
  inflight = forget_counters p.clients p.inflight;
  probe_cache = [];
}

unfoldable pub close_addr : Pool → Text → Pool
close_addr p addr = record p {
  clients = delete addr p.clients;
  inflight = delete addr p.inflight;
  probe_cache = delete addr p.probe_cache;
}

unfoldable pub backoff : ℕ → ℕ
backoff fail_count =
    let shift = min (fail_count - 1) backoff_shift in min (backoff_base * 2 ^ shift) backoff_max

-- The entry of an address; a Go map gives the zero value for a missing key.
unfoldable pub entry : Pool → Text → ProbeEntry
entry p addr = elim (lookup addr p.probe_cache) [ some e ↦ e | none ↦ zero_entry ]

unfoldable pub record_probe_failure : Pool → ℕ → Text → Pool
record_probe_failure p now addr =
    let fc = (entry p addr).fail_count + 1 in
    record p {
      probe_cache =
          insert addr
            (record {
              ok = false;
              models = [];
              max_gpu_util = 0;
              probed_at = now;
              backoff_until = now + backoff fc;
              fail_count = fc;
            })
            p.probe_cache;
    }

unfoldable pub record_probe_success : Pool → ℕ → Text → List Text → ℕ → Pool
record_probe_success p now addr models gpu = record p {
  probe_cache =
      insert addr
        (record {
          ok = true;
          models = models;
          max_gpu_util = gpu;
          probed_at = now;
          backoff_until = 0;
          fail_count = 0;
        })
        p.probe_cache;
}

-- The value at a place of the store.
unfoldable pub counter_at : List ℕ → ℕ → ℕ
counter_at [] ref = 0
counter_at (n ∷ ns) zero = n
counter_at (n ∷ ns) (suc ref) = counter_at ns ref

-- `atomic.Int32.Load` and `Add`. A stream takes away only what it added, so the counters stay at
-- least 0.
unfoldable pub load_counter : Pool → ℕ → ℕ
load_counter p ref = counter_at p.counters ref

unfoldable pub add_counter : Pool → ℕ → Pool
add_counter p ref = record p { counters = set p.counters ref (load_counter p ref + 1) }

unfoldable pub sub_counter : Pool → ℕ → Pool
sub_counter p ref = record p { counters = set p.counters ref (load_counter p ref - 1) }
