-- ===== src/SessionPool.antt =====
-- internal/mcpclient/session_pool.go: the sessions with MCP servers that are kept open. The pool maps
-- the number of a server to the address of a connection, which a call holds on to: `conns` is the
-- store of connections, and an address is an index. Sessions are numbered as they are opened.
-- `acquire` is the part of `run` under the pool's lock, the rest is under that of the connection, so
-- that other calls may stand between the two.
pub mod Sound
pub mod Laws
pub mod Runs
pub mod Lost
use gen_runner.Prelude.{
  ℕ, zero, suc, ◌+◌, ◌-◌, ◌*◌, ◌/◌, ◌%◌, ◌^◌, ◌≤◌, ◌<◌, min, max, ◌≡◌, refl, sym, ap, ◌∙◌, subst,
  ◌≢◌, ◌↔◌, ◌⊎◌, inl, inr, Bool, true, false, not, ◌&&◌, ◌||◌, Option, none, some, List, [], ◌∷◌,
  ◌++◌, map, reverse, append_assoc, append-nil, arith, ltb, leb, ◌==◌, if◌then◌else◌, is_some,
  ltb→lt, lt→ltb, leb→le, le→leb, lt→leb_false, le→ltb_false, ==_iff, Bool-cases, Option-cases,
  List-cases, length, is_empty, get_elem?, set, take, drop, filter_by, all_by, All, is_empty-nil,
  length-append, length-reverse, length-map, length-set, take-append-drop, length-take, length-drop,
  take-append_left, drop-append_left, All-append, All-map_weaken, filter_by-All, filter_by-passes,
}
use gen_runner.Prelude.Int.{ℤ, pos, negsuc, pos_part}
use gen_runner.Text.{Text, codes, text_eq, trim_space}
use gen_runner.IdDict.{IdDict, id_eq, find, assign}

pub record PooledConn : Type 0 where
  pub fp : Text
  pub session : Option ℕ
  pub last_used : ℕ

pub record Sessions : Type 0 where
  pub by_id : IdDict ℕ
  pub conns : List PooledConn
  pub opened : ℕ
  pub closed : List ℕ

-- `&pooledServerConn{}`
abbrev pub empty_conn : PooledConn
empty_conn = record { fp = []; session = none; last_used = 0 }

-- The connection at an address that was given out.
unfoldable pub conn_at : List PooledConn → ℕ → PooledConn
conn_at conns a = elim (get_elem? conns a) [ none ↦ empty_conn | some c ↦ c ]

unfoldable pub acquire : Sessions → ℤ → Sessions × ℕ
acquire p id = elim (find id p.by_id) [
  | some a ↦ (p, a)
  | none ↦ (
    record p { by_id = assign id (length p.conns) p.by_id; conns = p.conns ++ empty_conn ∷ [] },
    length p.conns,
  )
]

-- `pc.session.Close()` and `pc.session = nil`, if there is one.
unfoldable pub close_session : Sessions → ℕ → Sessions
close_session p a = elim (conn_at p.conns a).session [
  | none ↦ p
  | some s ↦ record p {
    conns = set p.conns a (record (conn_at p.conns a) { session = none });
    closed = s ∷ p.closed;
  }
]

unfoldable pub open_session : Sessions → ℕ → Text → Sessions
open_session p a fp = record p {
  conns = set p.conns a (record (conn_at p.conns a) { fp = fp; session = some p.opened });
  opened = suc p.opened;
}

unfoldable pub touch : Sessions → ℕ → ℕ → Sessions
touch p a now = record p { conns = set p.conns a (record (conn_at p.conns a) { last_used = now }) }

-- What the operation on a session did; an error may be one of the transport, which
-- `isRetryableTransportError` tells from its text and the context.
pub data Outcome : Type 0 where
  done : Outcome
  failed : Bool → Outcome

-- What one round meets: the times at its start and after the operation, whether a connection can be
-- made, and the outcome.
pub record Round : Type 0 where
  pub now : ℕ
  pub done_at : ℕ
  pub connects : Bool
  pub outcome : Outcome

pub data Result : Type 0 where
  finished connect_error operation_error : Result

-- The session that is there when the round has closed a stale one. The difference of the times is
-- not below 0 here.
unfoldable pub without_stale : Sessions → ℕ → Text → ℕ → ℕ → Sessions
without_stale p a fp max_idle now =
    let c = conn_at p.conns a in
    if is_some c.session && (not (text_eq c.fp fp) || ltb max_idle (now - c.last_used))
    then close_session p a
    else p

-- The connection with a session, or `none` if none can be made.
unfoldable pub with_session : Sessions → ℕ → Text → Bool → Option Sessions
with_session p a fp connects =
    if is_some (conn_at p.conns a).session
    then some p
    else if connects
    then some (open_session p a fp)
    else none

-- A call of the operation: the session it ran on, and the sessions that were closed by then.
pub record Try : Type 0 where
  pub on : Option ℕ
  pub closed_before : List ℕ

-- From the end of the operation on: the result, whether the loop goes on when it may, and the calls of
-- the operation, the last one first.
unfoldable pub after_operation :
    Sessions → ℕ → Bool → ℕ → Outcome → List Try → Sessions × Result × Bool × List Try
after_operation ready a reused done_at done used = (touch ready a done_at, finished, false, used)
after_operation ready a reused done_at (failed retryable) used =
    (close_session (touch ready a done_at) a, operation_error, reused && retryable, used)

-- One round of the loop.
unfoldable pub run_round :
    Sessions → ℕ → Text → ℕ → Round → List Try → Sessions × Result × Bool × List Try
run_round p a fp max_idle r used =
    let q = without_stale p a fp max_idle r.now in
    let reused = is_some (conn_at q.conns a).session in
    elim (with_session q a fp r.connects) [
      | none ↦ (q, connect_error, false, used)
      | some ready ↦
          after_operation ready a reused r.done_at r.outcome
            ((record { on = (conn_at ready.conns a).session; closed_before = ready.closed }) ∷ used)
    ]

-- The loop of two rounds.
unfoldable pub run_on : Sessions → ℕ → Text → ℕ → Round → Round → Sessions × Result × List Try
run_on p a fp max_idle first second =
    let (q, result, again, used) = run_round p a fp max_idle first [] in
    let (q', result', again', used') = run_round q a fp max_idle second used in
    if again then (q', result', used') else (q, result, used)

-- The map without the server.
unfoldable pub forget : ℤ → IdDict ℕ → IdDict ℕ
forget id [] = []
forget id ((j, a) ∷ m) = let rest = forget id m in if id_eq j id then rest else (j, a) ∷ rest

unfoldable pub close_server : Sessions → ℤ → Sessions
close_server p id = if leb (pos_part id) 0 then p else elim (find id p.by_id) [
  | none ↦ p
  | some a ↦ close_session (record p { by_id = forget id p.by_id }) a
]

-- `SetHTTPSessionMaxIdleSec`, in seconds.
unfoldable pub session_max_idle_sec : ℤ → ℕ
session_max_idle_sec sec =
    let s = if leb (pos_part sec) 0 then 180 else pos_part sec in if ltb 600 s then 600 else s

-- `useHTTPSessionPool`, for the setting, the server's number and its transport in lower case without
-- spaces; `none` is a nil server.
unfoldable pub use_http_session_pool : Bool → Option (ℤ × Text) → Bool
use_http_session_pool reuse none = false
use_http_session_pool reuse (some (id, transport)) =
    reuse
    && not (leb (pos_part id) 0)
    && (text_eq transport (codes "sse") || text_eq transport (codes "streamable"))
