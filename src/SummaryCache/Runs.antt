-- ===== src/SummaryCache/Runs.antt =====
-- internal/usecase/history_summary_cache.go: any run of `put` and `ensureMax` calls on a new cache,
-- against the queue.
use gen_runner.Prelude.{
  ℕ, suc, ◌≤◌, min, max, ◌≡◌, refl, ap, ◌∙◌, inl, inr, Option, none, some, List, [], ◌∷◌, arith,
  ltb, leb, lt→leb_false, Bool-cases,
}
use gen_runner.Prelude.Int.{ℤ, pos, negsuc, pos_part}
use gen_runner.Text.{Text}
use gen_runner.Dict.{lookup}
use gen_runner.SummaryCache.{
  SummaryCache, new_history_summary_cache, normalize_history_summary_cache_entries, get, ensure_max,
  put,
}
use gen_runner.SummaryCache.Fifo.{IsValid, view, fifo_put}
use gen_runner.SummaryCache.Refines.{put-Puts, get-view}

pub data Call : Type 0 where
  put_call : Text → Text → Call
  ensure_max_call : ℤ → Call

-- `none` is a panic.
unfoldable pub run_call : SummaryCache → Call → Option SummaryCache
run_call h (put_call k v) = put h k v
run_call h (ensure_max_call m) = ensure_max (some h) m

unfoldable pub run_calls : Option SummaryCache → List Call → Option SummaryCache
run_calls none cs = none
run_calls (some h) [] = some h
run_calls (some h) (c ∷ cs) = run_calls (run_call h c) cs

-- The queue and its bound, which only grows and is at most the larger of 50000 and the first bound.
unfoldable pub fifo_call : ℕ × List (Text × Text) → Call → ℕ × List (Text × Text)
fifo_call (limit, q) (put_call k v) = (limit, fifo_put limit k v q)
fifo_call (limit, q) (ensure_max_call m) = (max limit (min (pos_part m) 50000), q)

unfoldable pub fifo_calls : ℕ × List (Text × Text) → List Call → ℕ × List (Text × Text)
fifo_calls s [] = s
fifo_calls s (c ∷ cs) = fifo_calls (fifo_call s c) cs

abbrev pub Implements : SummaryCache → ℕ × List (Text × Text) → Type 0
Implements h s = IsValid h × ((h.max_entries, view h) ≡ s)

normalize_lem : (m : ℤ) → normalize_history_summary_cache_entries m ≡ min (pos_part m) 50000
unfolding normalize_history_summary_cache_entries
normalize_lem (pos n) = ground arith
normalize_lem (negsuc n) = omega arith

abbrev with_max : SummaryCache → ℕ → SummaryCache
with_max h n = record h { max_entries = n }

ensure_max_lem :
    (h : SummaryCache) (m : ℤ)
    → ensure_max (some h) m ≡ some (with_max h (max h.max_entries (min (pos_part m) 50000)))
unfolding ensure_max
ensure_max_lem h m = elim (Bool-cases (leb (pos_part m) 0)) [
  | inl e ↦ rw e (ap (λ n. some (with_max h n)) (ground arith))
  | inr e ↦ elim (Bool-cases (ltb h.max_entries (min (pos_part m) 50000))) [
    | inl l ↦
        rw (normalize_lem m, e, l, lt→leb_false (min (pos_part m) 50000) 0 (ground arith))
          (ap (λ n. some (with_max h n)) (ground arith))
    | inr l ↦
        rw (normalize_lem m, e, l, lt→leb_false (min (pos_part m) 50000) 0 (ground arith))
          (ap (λ n. some (with_max h n)) (ground arith))
  ]
]

with_max-IsValid :
    (h : SummaryCache) (n : ℕ) → h.max_entries ≤ n → IsValid h → IsValid (with_max h n)
with_max-IsValid h n l i = (omega (arith, i.0), omega (arith, i.1), i.2, i.3)

-- Raising the bound keeps a cache valid.
pub ensure_max-IsValid :
    (h : SummaryCache) (m : ℤ)
    → IsValid h
    → (h' : SummaryCache) × (ensure_max (some h) m ≡ some h') × IsValid h'
ensure_max-IsValid h m i =
    let n = max h.max_entries (min (pos_part m) 50000) in
    (with_max h n, ensure_max_lem h m, with_max-IsValid h n (omega arith) i)

run_call-Implements :
    (h : SummaryCache) (c : Call)
    → IsValid h
    → (h' : SummaryCache) × (run_call h c ≡ some h')
      × Implements h' (fifo_call (h.max_entries, view h) c)
unfolding run_call fifo_call
run_call-Implements h (put_call k v) i =
    let (h', r, i', m, q) = put-Puts h k v i in (h', r, (i', cc))
run_call-Implements h (ensure_max_call m) i =
    let n = max h.max_entries (min (pos_part m) 50000) in
    (with_max h n, ensure_max_lem h m, (with_max-IsValid h n (omega arith) i, refl))

run_calls-Implements :
    (h : SummaryCache) (cs : List Call)
    → IsValid h
    → (h' : SummaryCache) × (run_calls (some h) cs ≡ some h')
      × Implements h' (fifo_calls (h.max_entries, view h) cs)
unfolding run_calls fifo_calls
run_calls-Implements h [] i = (h, refl, (i, refl))
run_calls-Implements h (c ∷ cs) i =
    let (h', r, (i', e)) = run_call-Implements h c i in
    let (h2, r2, (i2, e2)) = run_calls-Implements h' cs i' in
    (h2, ap (λ o. run_calls o cs) r ∙ r2, (i2, e2 ∙ ap (λ s. fifo_calls s cs) e))

new_cache-Implements :
    (n : ℕ)
    → (h : SummaryCache) × (new_history_summary_cache (pos (suc n)) ≡ some h)
      × Implements h (suc n, [])
unfolding new_history_summary_cache lookup
new_cache-Implements n = (
  record { max_entries = suc n; keys = []; entries = [] },
  refl,
  ((omega arith, omega arith, tt, λ k. refl), refl),
)

-- Any run of puts and limit changes on a new cache with room for at least one entry returns without
-- a panic, the cache is valid, holds at most as many entries as its bound, and reading any key
-- finds what the queue finds that made the same calls.
pub run_calls-Refines :
    (n : ℕ) (cs : List Call)
    → (h : SummaryCache) × (run_calls (new_history_summary_cache (pos (suc n))) cs ≡ some h)
      × IsValid h
      × ((h.max_entries, view h) ≡ fifo_calls (suc n, []) cs)
      × ((k : Text) → get (some h) k ≡ lookup k ((fifo_calls (suc n, []) cs).1))
run_calls-Refines n cs =
    let (h0, r0, (i0, e0)) = new_cache-Implements n in
    let (h, r, (i, e)) = run_calls-Implements h0 cs i0 in
    let q = e ∙ ap (λ s. fifo_calls s cs) e0 in
    (
      h,
      ap (λ o. run_calls o cs) r0 ∙ r,
      i,
      q,
      λ k. get-view h k i ∙ ap (λ (s : ℕ × List (Text × Text)). lookup k (s.1)) q,
    )
