-- ===== src/RunnerPool/Streams.antt =====
-- internal/service/pool.go: sending to a runner, and the streams that go on after the call returns.
-- A stream holds the counter that it added to, from `ai.Add(1)` to `ai.Add(-1)`: until the send is
-- refused, or until `forwardStream` has passed on the last chunk.
pub mod Laws
pub mod Picks
pub mod Steps
use gen_runner.Registry.{Registry}
use gen_runner.RunnerPool.Probe.{Env}
use gen_runner.Prelude.{
  ℕ, zero, suc, ◌+◌, ◌-◌, ◌*◌, ◌/◌, ◌%◌, ◌^◌, ◌≤◌, ◌<◌, min, max, ◌≡◌, refl, sym, ap, ◌∙◌, subst,
  ◌≢◌, ◌↔◌, ◌⊎◌, inl, inr, Bool, true, false, not, ◌&&◌, ◌||◌, Option, none, some, List, [], ◌∷◌,
  ◌++◌, map, reverse, append_assoc, append-nil, arith, ltb, leb, ◌==◌, if◌then◌else◌, is_some,
  ltb→lt, lt→ltb, leb→le, le→leb, lt→leb_false, le→ltb_false, ==_iff, Bool-cases, Option-cases,
  List-cases, length, is_empty, get_elem?, set, take, drop, filter_by, all_by, All, is_empty-nil,
  length-append, length-reverse, length-map, length-set, take-append-drop, length-take, length-drop,
  take-append_left, drop-append_left, All-append, All-map_weaken, filter_by-All, filter_by-passes,
}
use gen_runner.Text.{Text, trim_space}
use gen_runner.RunnerPool.{
  Client, Pool, get_or_create_inflight, get_client, close, close_addr, load_counter, add_counter,
  sub_counter,
}
use gen_runner.RunnerPool.Pick.{pick_runner, Picked, picked, refused}
use gen_runner.RunnerPool.Probe.{Candidate}

pub record System : Type 0 where
  pub pool : Pool
  pub held : List ℕ

-- `ai.Add(1)`, of a stream that holds `ref` from then on.
unfoldable pub hold_counter : System → ℕ → System
hold_counter s ref = record { pool = add_counter s.pool ref; held = ref ∷ s.held }

-- `getOrCreateInflight` and `ai.Add(1)`.
unfoldable pub begin_stream : System → Text → System
begin_stream s addr =
    let (p, ref) = get_or_create_inflight s.pool addr in hold_counter (record s { pool = p }) ref

-- The held list without the first stream on a counter.
unfoldable pub release : ℕ → List ℕ → List ℕ
release ref [] = []
release ref (r ∷ rs) = let rest = release ref rs in if r == ref then rs else r ∷ rest

-- `ai.Add(-1)`, of a stream that holds `ref`.
unfoldable pub end_stream : System → ℕ → System
end_stream s ref = record { pool = sub_counter s.pool ref; held = release ref s.held }

-- `SendMessage`, `SendMessageWithRunnerToolAction`, `Embed` and `EmbedBatch`, from the pick on.
unfoldable pub send_picked : System → Pool × Picked → System
send_picked s (p, refused e) = record s { pool = p }
send_picked s (p, picked k) = begin_stream (record s { pool = p }) k.addr

-- The forms that name the runner.
unfoldable pub send_to_client : System → Text → Pool × Option Client → System
send_to_client s addr (p, none) = record s { pool = p }
send_to_client s addr (p, some c) = begin_stream (record s { pool = p }) addr

unfoldable pub send_on_runner : (Text → Bool) → System → Text → System
send_on_runner dial s runner_addr =
    let addr = trim_space runner_addr in
    if is_empty addr then s else send_to_client s addr (get_client dial s.pool addr)

-- What `WaitRunnerIdle` waits for, at one look, for an address that is not blank.
unfoldable pub runner_idle : Pool → Text → Bool
runner_idle p addr =
    let (p', ref) = get_or_create_inflight p (trim_space addr) in load_counter p' ref == 0

-- `WaitRunnerIdle` up to its first look; `none` is the error for a blank address.
unfoldable pub wait_runner_idle : Pool → Text → Option Bool
wait_runner_idle p addr = if is_empty (trim_space addr) then none else some (runner_idle p addr)

-- How many running streams hold a counter.
unfoldable pub count : ℕ → List ℕ → ℕ
count ref [] = 0
count ref (r ∷ rs) = let n = count ref rs in if r == ref then suc n else n

-- What may happen to the pool and its streams. `sends` and `picks` are whole calls. Other calls may
-- also stand between the parts of one: the parts are `chooses` or `connects`, then `looks`, which
-- gives a counter, and then `holds` for that counter, which stays in the store.
pub data Step : System → System → Type 0 where
  sends : (dial : Text → Bool) (s : System) (addr : Text) → Step s (send_on_runner dial s addr)
  picks :
      (first second_round : Env) (schedule : List Text → List Text) (now : ℕ) (registry : Registry)
      (model : Text) (s : System)
      → Step s (send_picked s (pick_runner first second_round schedule now registry model s.pool))
  chooses :
      (first second_round : Env) (schedule : List Text → List Text) (now : ℕ) (registry : Registry)
      (model : Text) (s : System)
      → Step s (record s {
        pool = (pick_runner first second_round schedule now registry model s.pool).0;
      })
  holds : (s : System) (ref : ℕ) → ref < length s.pool.counters → Step s (hold_counter s ref)
  ends : (s : System) (ref : ℕ) → 0 < count ref s.held → Step s (end_stream s ref)
  looks :
      (s : System) (addr : Text)
      → Step s (record s { pool = (get_or_create_inflight s.pool addr).0 })
  connects :
      (dial : Text → Bool) (s : System) (addr : Text)
      → Step s (record s { pool = (get_client dial s.pool addr).0 })
  closes : (s : System) → Step s (record s { pool = close s.pool })
  closes_addr : (s : System) (addr : Text) → Step s (record s { pool = close_addr s.pool addr })

pub data Reach (s : System) : System → Type 0 where
  here : Reach s s
  next : {t u : System} → Reach s t → Step t u → Reach s u
