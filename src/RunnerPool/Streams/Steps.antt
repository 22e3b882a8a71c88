-- ===== src/RunnerPool/Streams/Steps.antt =====
-- internal/service/pool.go: the load counters through any interleaving, and idle runners.
use gen_runner.Prelude.{ℕ, ◌≡◌, refl, ap, ◌∙◌, true, [], ◌==◌, length}
use gen_runner.Text.{Text, trim_space}
use gen_runner.Dict.{delete-Entries, lookup-delete_self}
use gen_runner.RunnerPool.{
  new_pool, get_or_create_inflight, close, close_addr, load_counter, counter_at,
}
use gen_runner.RunnerPool.Pick.{pick_runner}
use gen_runner.RunnerPool.Streams.{
  System, Step, sends, picks, chooses, holds, ends, looks, connects, closes, closes_addr, Reach,
  here, next, count, runner_idle,
}
use gen_runner.RunnerPool.Streams.Laws.{
  IsCounted, InStore, inflight-IsCounted, end_stream-IsCounted, hold_counter-IsCounted,
  same_store-IsCounted, get_client-IsCounted, send_on_runner-IsCounted, forget_counters-Entries,
  count_fresh,
}
use gen_runner.RunnerPool.Streams.Picks.{send_picked-IsCounted, pick_runner-IsCounted}

-- Every step keeps the count.
Step-IsCounted : {s t : System} → Step s t → IsCounted s → IsCounted t
unfolding close close_addr
Step-IsCounted (sends dial s addr) c = send_on_runner-IsCounted dial s addr c
Step-IsCounted (ends s ref h) c = end_stream-IsCounted s ref h c
Step-IsCounted (looks s addr) c = (inflight-IsCounted s addr c).0
Step-IsCounted (connects dial s addr) c = get_client-IsCounted dial s addr c
Step-IsCounted (picks first second_round schedule now registry model s) c =
    send_picked-IsCounted s (pick_runner first second_round schedule now registry model s.pool)
      (pick_runner-IsCounted s.held first second_round schedule now registry model s.pool c)
Step-IsCounted (chooses first second_round schedule now registry model s) c =
    pick_runner-IsCounted s.held first second_round schedule now registry model s.pool c
Step-IsCounted (holds s ref h) c = hold_counter-IsCounted s ref h c
Step-IsCounted (closes s) c =
    same_store-IsCounted s _ refl
      (forget_counters-Entries (length s.pool.counters) s.pool.clients s.pool.inflight) c
Step-IsCounted (closes_addr s addr) c =
    same_store-IsCounted s _ refl
      (delete-Entries (InStore (length s.pool.counters)) addr s.pool.inflight) c

-- Whatever calls and streams interleave from a system in which every counter of the store is the
-- number of running streams that hold it (and every reference lies in the store), the same holds
-- afterwards: no stream is lost, none is counted twice, and none takes a counter below zero.
pub Reach-IsCounted : {s t : System} → IsCounted s → Reach s t → IsCounted t
Reach-IsCounted c here = c
Reach-IsCounted c (next r st) = Step-IsCounted st (Reach-IsCounted c r)

-- A new pool without streams.
pub new_pool-IsCounted : IsCounted (record { pool = new_pool; held = [] })
unfolding new_pool load_counter counter_at count
new_pool-IsCounted = record { filed = tt; in_store = tt; exact = λ ref. refl }

-- If every counter is the number of running streams that hold it, a runner looks idle exactly when
-- no running stream holds the counter that the map gives for its trimmed address.
pub runner_idle-count :
    (s : System) (addr : Text)
    → IsCounted s
    → runner_idle s.pool addr
      ≡ (count (get_or_create_inflight s.pool (trim_space addr)).1 s.held == 0)
unfolding runner_idle
runner_idle-count s addr c =
    let r = get_or_create_inflight s.pool (trim_space addr) in
    let (c', _) = inflight-IsCounted s (trim_space addr) c in
    ap (λ (n : ℕ). n == 0) (c'.exact (r.1))

-- If every counter is the number of running streams that hold it, then a runner looks idle once its
-- trimmed address is closed, however many of its streams go on: they hold a counter that the map
-- has forgotten.
pub runner_idle-close_addr :
    (s : System) (addr : Text)
    → IsCounted s
    → runner_idle (close_addr s.pool (trim_space addr)) addr ≡ true
unfolding close_addr get_or_create_inflight
runner_idle-close_addr s addr c =
    let t = record s { pool = close_addr s.pool (trim_space addr) } in
    let ct = Step-IsCounted (closes_addr s (trim_space addr)) c in
    let gone = lookup-delete_self (trim_space addr) s.pool.inflight in
    runner_idle-count t addr ct
    ∙ rw (gone, get_or_create_inflight)
        (rw (count_fresh (length s.pool.counters) s.held c.in_store))
