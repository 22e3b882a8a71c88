-- ===== src/SessionPool/Lost.antt =====
-- internal/mcpclient/session_pool.go: a server that is closed between the two locks of a run.
use gen_runner.Prelude.{
  ℕ, ◌≤◌, ◌≡◌, refl, ap, ◌∙◌, inl, inr, true, false, none, some, List, [], ◌∷◌, leb, lt→leb_false,
  Bool-cases,
}
use gen_runner.Prelude.Int.{ℤ, pos_part}
use gen_runner.Text.{Text}
use gen_runner.IdDict.{id_eq_refl, find, assign}
use gen_runner.SessionPool.{
  Sessions, empty_conn, conn_at, acquire, close_session, open_session, touch, done, Round, finished,
  without_stale, with_session, after_operation, run_round, run_on, forget, close_server,
}
use gen_runner.SessionPool.Sound.{is_in}

abbrev pub empty_pool : Sessions
empty_pool = record { by_id = []; conns = []; opened = 0; closed = [] }

unfoldable pub close_servers : Sessions → List ℤ → Sessions
close_servers p [] = p
close_servers p (id ∷ ids) = close_servers (close_server p id) ids

-- The pool after a call has its connection and the server was closed.
unfoldable pub overtaken : ℤ → Sessions
overtaken id = close_server ((acquire empty_pool id).0) id

overtaken_lem :
    (id : ℤ)
    → 1 ≤ pos_part id
    → overtaken id ≡ record { by_id = []; conns = empty_conn ∷ []; opened = 0; closed = [] }
unfolding overtaken acquire close_server close_session find assign forget conn_at
overtaken_lem id l =
    rw (overtaken, close_server, lt→leb_false (pos_part id) 0 l, id_eq_refl id)
      (rw (id_eq_refl id) refl)

find-no_entries : (p : Sessions) (id : ℤ) → p.by_id ≡ [] → find id p.by_id ≡ none
unfolding find
find-no_entries p id e = rw e refl

close_server_lem : (p : Sessions) (id : ℤ) → p.by_id ≡ [] → close_server p id ≡ p
unfolding close_server
close_server_lem p id e =
    let f = find-no_entries p id e in
    elim (Bool-cases (leb (pos_part id) 0)) [
      | inl z ↦ rw (close_server, z) refl
      | inr z ↦ rw (close_server, z, f) refl
    ]

close_servers_lem : (p : Sessions) (ids : List ℤ) → p.by_id ≡ [] → close_servers p ids ≡ p
unfolding close_servers
close_servers_lem p [] e = refl
close_servers_lem p (id ∷ ids) e =
    ap (λ q. close_servers q ids) (close_server_lem p id e) ∙ close_servers_lem p ids e

abbrev ran : Text → Round → Sessions
ran fp r = record {
  by_id = [];
  conns = (record { fp = fp; session = some 0; last_used = r.done_at }) ∷ [];
  opened = 1;
  closed = [];
}

run_lem :
    (fp : Text) (max_idle : ℕ) (first second : Round)
    → first.connects ≡ true
    → first.outcome ≡ done
    → run_on
        (record { by_id = []; conns = empty_conn ∷ []; opened = 0; closed = [] })
        0
        fp
        max_idle
        first
        second
      ≡ (ran fp first, finished, (record { on = some 0; closed_before = [] }) ∷ [])
unfolding run_on run_round without_stale with_session open_session touch after_operation conn_at
run_lem fp max_idle first second c o = rw (run_on, run_round, c, o) refl

-- On a new pool: a call takes the connection of a server, the server is closed, and then the call
-- connects and its operation succeeds. The session stays open, and closing any servers does not
-- close it.
pub is_in-close_servers :
    (id : ℤ) (fp : Text) (max_idle : ℕ) (first second : Round) (ids : List ℤ)
    → 1 ≤ pos_part id
    → first.connects ≡ true
    → first.outcome ≡ done
    → let (q, result, used) =
        run_on (overtaken id) ((acquire empty_pool id).1) fp max_idle first second in
      (result ≡ finished)
      × (used ≡ (record { on = some 0; closed_before = [] }) ∷ [])
      × (is_in 0 (close_servers q ids).closed ≡ false)
unfolding acquire find
is_in-close_servers id fp max_idle first second ids l c o =
    rw
      (
        overtaken_lem id l,
        run_lem fp max_idle first second c o,
        close_servers_lem (ran fp first) ids refl,
      )
      (refl, refl, refl)
