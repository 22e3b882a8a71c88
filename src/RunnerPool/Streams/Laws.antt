-- ===== src/RunnerPool/Streams/Laws.antt =====
-- internal/service/pool.go: the load counters through each operation.
use gen_runner.Prelude.{
  ℕ, zero, suc, ◌+◌, ◌-◌, ◌<◌, ◌≡◌, refl, sym, ◌∙◌, subst, inl, inr, Bool, Option, none, some, List,
  [], ◌∷◌, ◌++◌, arith, ◌==◌, if◌then◌else◌, Bool-cases, Option-cases, length, is_empty, set, All,
  length-append, length-set,
}
use gen_runner.Text.{Text, trim_space}
use gen_runner.Dict.{
  Dict, lookup, insert, delete, Entries, insert-Entries, delete-Entries, lookup-Entries,
}
use gen_runner.RunnerPool.{
  Client, Pool, get_or_create_inflight, store_client, get_client, forget_counters, counter_at,
  load_counter, add_counter, sub_counter,
}
use gen_runner.RunnerPool.Streams.{
  System, count, hold_counter, begin_stream, release, end_stream, send_to_client, send_on_runner,
}

counter_at-append : (ns : List ℕ) (ref : ℕ) → counter_at (ns ++ 0 ∷ []) ref ≡ counter_at ns ref
unfolding counter_at
counter_at-append [] zero = refl
counter_at-append [] (suc ref) = refl
counter_at-append (n ∷ ns) zero = refl
counter_at-append (n ∷ ns) (suc ref) = counter_at-append ns ref

counter_at-set :
    (ns : List ℕ) (i v j : ℕ)
    → i < length ns
    → counter_at (set ns i v) j ≡ (if i == j then v else counter_at ns j)
unfolding counter_at
counter_at-set [] i v j h = absurd (omega arith)
counter_at-set (n ∷ ns) zero v zero h = refl
counter_at-set (n ∷ ns) zero v (suc j) h = ground arith
counter_at-set (n ∷ ns) (suc i) v zero h = ground arith
counter_at-set (n ∷ ns) (suc i) v (suc j) h = ground (arith, counter_at-set ns i v j)

count-release :
    (ref j : ℕ) (rs : List ℕ)
    → 0 < count ref rs
    → count j (release ref rs) ≡ (if ref == j then count j rs - 1 else count j rs)
unfolding count release
count-release ref j [] h = absurd (omega arith)
count-release ref j (r ∷ rs) h = ground (arith, count-release ref j rs)

release-All : (n ref : ℕ) (rs : List ℕ) → All (λ r. r < n) rs → All (λ r. r < n) (release ref rs)
unfolding release
release-All n ref [] h = tt
release-All n ref (r ∷ rs) h = ground (arith, release-All n ref rs h.1)

count_pos-lt : (n ref : ℕ) (rs : List ℕ) → All (λ r. r < n) rs → 0 < count ref rs → ref < n
unfolding count
count_pos-lt n ref [] h k = absurd (omega arith)
count_pos-lt n ref (r ∷ rs) h k = ground (arith, count_pos-lt n ref rs h.1)

pub count_fresh : (n : ℕ) (rs : List ℕ) → All (λ r. r < n) rs → count n rs ≡ 0
unfolding count
count_fresh n [] h = refl
count_fresh n (r ∷ rs) h = ground (arith, count_fresh n rs h.1)

abbrev pub InStore : ℕ → Text → ℕ → Type 0
InStore n k ref = ref < n

-- The references are in the store, and every counter is the number of streams that hold it.
pub record IsCounted (s : System) : Type 0 where
  pub filed : Entries (InStore (length s.pool.counters)) s.pool.inflight
  pub in_store : All (λ r. r < length s.pool.counters) s.held
  pub exact : (ref : ℕ) → load_counter s.pool ref ≡ count ref s.held

Entries-grow : (n : ℕ) (m : Dict ℕ) → Entries (InStore n) m → Entries (InStore (suc n)) m
Entries-grow n [] h = tt
Entries-grow n ((k, r) ∷ m) h = (omega arith, Entries-grow n m h.1)

All-grow : (n : ℕ) (rs : List ℕ) → All (λ r. r < n) rs → All (λ r. r < suc n) rs
All-grow n [] h = tt
All-grow n (r ∷ rs) h = (omega arith, All-grow n rs h.1)

length-snoc : (ns : List ℕ) → length (ns ++ 0 ∷ []) ≡ suc (length ns)
length-snoc ns = omega (arith, length-append ns (0 ∷ []))

pub inflight-IsCounted :
    (s : System) (addr : Text)
    → IsCounted s
    → let r = get_or_create_inflight s.pool addr in
      IsCounted (record s { pool = r.0 }) × (r.1 < length (r.0.counters))
unfolding get_or_create_inflight load_counter
inflight-IsCounted s addr c = elim (Option-cases (lookup addr s.pool.inflight)) [
  | inr (ref, e) ↦
      rw (e, get_or_create_inflight)
        (c, lookup-Entries (InStore (length s.pool.counters)) addr ref s.pool.inflight e c.filed)
  | inl e ↦
      let ns = s.pool.counters in
      rw (e, get_or_create_inflight)
        (
          record {
            filed = rw (length-snoc ns) (
                insert-Entries (InStore (suc (length ns))) addr (length ns) s.pool.inflight
                  (omega arith) (Entries-grow (length ns) s.pool.inflight c.filed));
            in_store = rw (length-snoc ns) (All-grow (length ns) s.held c.in_store);
            exact = λ ref. counter_at-append ns ref ∙ c.exact ref;
          },
          omega (arith, length-snoc ns),
        )
]

pub hold_counter-IsCounted :
    (s : System) (ref : ℕ)
    → ref < length s.pool.counters
    → IsCounted s
    → IsCounted (hold_counter s ref)
unfolding hold_counter add_counter load_counter count
hold_counter-IsCounted s ref fits c =
    let ns = s.pool.counters in
    let len = length-set ns ref (counter_at ns ref + 1) in
    record {
      filed = rw len c.filed;
      in_store = (rw len fits, subst (λ n. All (λ r. r < n) s.held) (sym len) c.in_store);
      exact = λ j.
          counter_at-set ns ref (counter_at ns ref + 1) j fits
          ∙ ground (arith, c.exact j, c.exact ref);
    }

pub begin_stream-IsCounted :
    (s : System) (addr : Text) → IsCounted s → IsCounted (begin_stream s addr)
unfolding begin_stream
begin_stream-IsCounted s addr c =
    let r = get_or_create_inflight s.pool addr in
    let (c', fits) = inflight-IsCounted s addr c in
    hold_counter-IsCounted (record s { pool = r.0 }) (r.1) fits c'

pub end_stream-IsCounted :
    (s : System) (ref : ℕ) → 0 < count ref s.held → IsCounted s → IsCounted (end_stream s ref)
unfolding end_stream sub_counter load_counter
end_stream-IsCounted s ref h c =
    let ns = s.pool.counters in
    let fits = count_pos-lt (length ns) ref s.held c.in_store h in
    let len = length-set ns ref (counter_at ns ref - 1) in
    record {
      filed = rw len c.filed;
      in_store = rw len (release-All (length ns) ref s.held c.in_store);
      exact = λ j.
          counter_at-set ns ref (counter_at ns ref - 1) j fits
          ∙ ground (arith, c.exact j, c.exact ref, count-release ref j s.held h);
    }

-- A pool with the same store and no more references than before.
pub same_store-IsCounted :
    (s : System) (p : Pool)
    → p.counters ≡ s.pool.counters
    → (Entries (InStore (length s.pool.counters)) s.pool.inflight
        → Entries (InStore (length s.pool.counters)) p.inflight)
    → IsCounted s
    → IsCounted (record s { pool = p })
unfolding load_counter
same_store-IsCounted s p e keeps c = record {
  filed = rw e (keeps c.filed);
  in_store = rw e c.in_store;
  exact = λ ref. rw e (c.exact ref);
}

pub get_client-IsCounted :
    (dial : Text → Bool) (s : System) (addr : Text)
    → IsCounted s
    → IsCounted (record s { pool = (get_client dial s.pool addr).0 })
unfolding get_client store_client
get_client-IsCounted dial s addr c = elim (Option-cases (lookup addr s.pool.clients)) [
  | inr (k, e) ↦ rw (e, get_client) c
  | inl e ↦ elim (Bool-cases (dial addr)) [
    | inr d ↦ rw (e, get_client) (rw d c)
    | inl d ↦
        let p = record s.pool {
          clients = insert addr (record { dialled = addr }) s.pool.clients;
        } in
        rw (e, get_client)
          (rw d
            (inflight-IsCounted (record s { pool = p }) addr
              (same_store-IsCounted s p refl (λ f. f) c)).0)
  ]
]

send_to_client-IsCounted :
    (s : System) (addr : Text) (r : Pool × Option Client)
    → IsCounted (record s { pool = r.0 })
    → IsCounted (send_to_client s addr r)
unfolding send_to_client
send_to_client-IsCounted s addr (p, none) c = c
send_to_client-IsCounted s addr (p, some k) c =
    begin_stream-IsCounted (record s { pool = p }) addr c

pub send_on_runner-IsCounted :
    (dial : Text → Bool) (s : System) (addr : Text)
    → IsCounted s
    → IsCounted (send_on_runner dial s addr)
unfolding send_on_runner
send_on_runner-IsCounted dial s addr c = elim (Bool-cases (is_empty (trim_space addr))) [
  | inl e ↦ rw e c
  | inr e ↦ rw e (
      send_to_client-IsCounted s (trim_space addr) (get_client dial s.pool (trim_space addr))
        (get_client-IsCounted dial s (trim_space addr) c))
]

pub forget_counters-Entries :
    (n : ℕ) (clients : Dict Client) (m : Dict ℕ)
    → Entries (InStore n) m
    → Entries (InStore n) (forget_counters clients m)
unfolding forget_counters
forget_counters-Entries n [] m h = h
forget_counters-Entries n ((a, c) ∷ cs) m h =
    forget_counters-Entries n cs (delete a m) (delete-Entries (InStore n) a m h)
