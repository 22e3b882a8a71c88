-- ===== src/Tests/Caches.antt =====
-- Runs of the summary cache, the upload limit, the list cache and the session pool, and the theorems
-- at concrete inputs.
use gen_runner.Prelude.{
  ℕ, zero, suc, ◌+◌, ◌≡◌, refl, sym, ap, ◌∙◌, true, false, none, some, List, [], ◌∷◌, arith,
}
use gen_runner.Prelude.Int.{ℤ, pos, negsuc}
use gen_runner.Text.{Text, codes}
use gen_runner.Dict.{lookup}
use gen_runner.IdDict.{find}
use gen_runner.SummaryCache.{SummaryCache, new_history_summary_cache, get}
use gen_runner.SummaryCache.Fifo.{IsValid, view}
use gen_runner.SummaryCache.Runs.{
  Call, put_call, run_calls, fifo_call, fifo_calls, run_calls-Refines,
}
use gen_runner.UploadLimit.{opens_window, max_bytes_per_min, check_put_session_file_rate, allowed}
use gen_runner.UploadLimit.Laws.{Request, request_uploads, since_opened, IsWithinLimits}
use gen_runner.UploadLimit.Spaced.{openings, IsSpaced, request_uploads-IsWithinLimits}
use gen_runner.ListCache.{
  CacheState, Event, asks, fetched, invalidated, find_entry, cached, steps, ToolsListCache,
  invalidate_server_id,
}
use gen_runner.ListCache.Hits.{OnePerServer, log_steps}
use gen_runner.ListCache.Laws.{
  IsFresh, steps-IsFresh, cached-invalidate_server_id, cached-fetched-invalidated,
}
use gen_runner.SessionPool.{
  Sessions, conn_at, Round, done, failed, finished, acquire, run_on, run_round, without_stale,
  with_session, open_session, close_session, touch, after_operation,
}
use gen_runner.SessionPool.Sound.{held, is_in, IsSoundPool}
use gen_runner.SessionPool.Runs.{RunKeeps, run_on-RunKeeps}
use gen_runner.SessionPool.Lost.{empty_pool, close_servers, overtaken, is_in-close_servers}

-- Three keys in a cache of two, of which the second is written again.
abbrev three_puts : List Call
three_puts =
    put_call (codes "a") (codes "1")
    ∷ put_call (codes "b") (codes "2")
    ∷ put_call (codes "b") (codes "3")
    ∷ put_call (codes "c") (codes "4")
    ∷ []

oldest_evicted :
    (fifo_calls (2, []) three_puts).1 ≡ (codes "b", codes "3") ∷ (codes "c", codes "4") ∷ []
unfolding fifo_calls fifo_call lookup
oldest_evicted = refl

run_calls-Refines_example :
    (h : SummaryCache) × (run_calls (new_history_summary_cache (pos 2)) three_puts ≡ some h)
    × IsValid h
    × ((h.max_entries, view h) ≡ fifo_calls (2, []) three_puts)
    × ((k : Text) → get (some h) k ≡ lookup k ((fifo_calls (2, []) three_puts).1))
run_calls-Refines_example = run_calls-Refines 1 three_puts

-- An upload over the limit opens a window, and the next one is refused.
big_first_upload :
    (check_put_session_file_rate [] 0 (pos 1) (pos (max_bytes_per_min + 1))).1 ≡ allowed
unfolding check_put_session_file_rate find opens_window
big_first_upload = refl

abbrev two_requests : List Request
two_requests =
    (record { time = 0; user = pos 1; byte_len = pos 10 })
    ∷ (record { time = 5; user = pos 1; byte_len = negsuc 3 })
    ∷ []

request_uploads-IsWithinLimits_example :
    IsSpaced (openings (pos 1) ((request_uploads ([], []) two_requests).1))
    × IsWithinLimits (since_opened (pos 1) ((request_uploads ([], []) two_requests).1))
request_uploads-IsWithinLimits_example =
    request_uploads-IsWithinLimits two_requests (pos 1) (omega arith, (omega arith, tt))
      (omega arith, (omega arith, tt))

abbrev no_entries : CacheState ℕ
no_entries = record { entries = []; pending = [] }

abbrev one_fetch : List (Event ℕ)
one_fetch = asks (pos 7) (codes "f") 100 (pos 50) ∷ fetched 0 (some 42) ∷ []

steps-IsFresh_example :
    OnePerServer (steps no_entries one_fetch).entries
    × ((id : ℤ) (fp : Text) (now : ℕ) (items : ℕ)
        → cached (steps no_entries one_fetch).entries id fp now ≡ some items
        → IsFresh (log_steps no_entries [] one_fetch) id fp now items)
steps-IsFresh_example = steps-IsFresh one_fetch

no_hit : cached no_entries.entries (pos 7) (codes "f") 100 ≡ none
unfolding cached find_entry
no_hit = refl

cached-fetched-invalidated_example :
    cached
      (steps no_entries (
        asks (pos 7) (codes "f") 100 (pos 50)
        ∷ invalidated (pos 7)
        ∷ fetched 0 (some 42)
        ∷ [])).entries
      (pos 7)
      (codes "f")
      120
    ≡ some 42
cached-fetched-invalidated_example =
    cached-fetched-invalidated no_entries (pos 7) (codes "f") 100 120 50 42 (omega arith)
      (omega arith) no_hit (omega arith)

abbrev no_lists : ToolsListCache ℕ ℕ ℕ
no_lists = record { tools = no_entries; resources = no_entries; prompts = no_entries }

cached-invalidate_server_id_example :
    (cached (invalidate_server_id no_lists (pos 7)).tools.entries (pos 7) (codes "f") 1 ≡ none)
    × (cached (invalidate_server_id no_lists (pos 7)).resources.entries (pos 7) (codes "f") 1
        ≡ none)
    × (cached (invalidate_server_id no_lists (pos 7)).prompts.entries (pos 7) (codes "f") 1 ≡ none)
cached-invalidate_server_id_example =
    cached-invalidate_server_id no_lists (pos 7) (codes "f") 1 (omega arith)

abbrev succeeds : Round
succeeds = record { now = 5; done_at = 6; connects = true; outcome = done }

abbrev breaks : Round
breaks = record { now = 5; done_at = 6; connects = true; outcome = failed true }

-- One connection, with the session 0.
abbrev one_session : Sessions
one_session = record {
  by_id = (pos 7, 0) ∷ [];
  conns = (record { fp = codes "f"; session = some 0; last_used = 1 }) ∷ [];
  opened = 1;
  closed = [];
}

only_session : (a s : ℕ) → held one_session.conns a ≡ some s → (a ≡ 0) × (s ≡ 0)
unfolding conn_at
only_session zero s h = (refl, ground (arith, h))
only_session (suc a) s h = ground (arith, h)

one_session-IsSoundPool : IsSoundPool one_session
unfolding conn_at
one_session-IsSoundPool = (
  (λ a s h. (omega (arith, (only_session a s h).1), refl)),
  (λ a b s h g. (only_session a s h).0 ∙ sym ((only_session b s g).0)),
  (λ s l n. (0, ap some (omega (arith, l)))),
  λ s h. ground (arith, h),
)

-- The session that breaks is replaced, and the operation is tried again on the new one.
tried_again :
    (run_on one_session 0 (codes "f") 10 breaks succeeds).2
    ≡ (record { on = some 1; closed_before = 0 ∷ [] })
      ∷ (record { on = some 0; closed_before = [] })
      ∷ []
unfolding run_on run_round without_stale with_session open_session close_session touch
    after_operation conn_at
tried_again = refl

run_on-RunKeeps_example :
    RunKeeps one_session 0 (run_on one_session 0 (codes "f") 10 breaks succeeds)
run_on-RunKeeps_example =
    run_on-RunKeeps one_session 0 (codes "f") 10 breaks succeeds (omega arith)
      one_session-IsSoundPool

is_in-close_servers_example :
    let (q, result, used) =
      run_on
        (overtaken (pos 7))
        ((acquire empty_pool (pos 7)).1)
        (codes "f")
        10
        succeeds
        succeeds in
    (result ≡ finished)
    × (used ≡ (record { on = some 0; closed_before = [] }) ∷ [])
    × (is_in 0 (close_servers q (pos 7 ∷ [])).closed ≡ false)
is_in-close_servers_example =
    is_in-close_servers (pos 7) (codes "f") 10 succeeds succeeds (pos 7 ∷ []) (omega arith) refl
      refl
