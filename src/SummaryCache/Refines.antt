-- ===== src/SummaryCache/Refines.antt =====
-- internal/usecase/history_summary_cache.go: the cache does what the queue does, call by call and
-- over whole runs of calls.
use gen_runner.Prelude.{
  ◌≡◌, refl, ap, ◌∙◌, inl, inr, true, false, ◌||◌, some, List, [], ◌∷◌, ◌++◌, arith, is_some,
  Bool-cases, Option-cases, is_empty, length-append,
}
use gen_runner.Text.{contains, Text, text_eq}
use gen_runner.Text.Laws.{text_eq_iff, text_eq_refl}
use gen_runner.Dict.{Dict, lookup, insert, lookup-insert}
use gen_runner.SummaryCache.{SummaryCache, get, store, put}
use gen_runner.SummaryCache.Fifo.{
  IsValid, value, entries_of, view, update, fifo_put, contains-append, append-Distinct,
  entries_of-ext, length-entries_of, lookup-entries_of, value-insert, contains_ne, evict-Evicted,
}

update-entries_of :
    (m : Dict Text) (ks : List Text) (k v : Text)
    → entries_of (insert k v m) ks ≡ update k v (entries_of m ks)
update-entries_of m [] k v = refl
update-entries_of m (j ∷ ks) k v = rw (value-insert m k j v, update-entries_of m ks k v)

entries_of-append :
    (m : Dict Text) (ks js : List Text)
    → entries_of m (ks ++ js) ≡ entries_of m ks ++ entries_of m js
entries_of-append m [] js = refl
entries_of-append m (k ∷ ks) js =
    ap (λ (q : List (Text × Text)). (k, value m k) ∷ q) (entries_of-append m ks js)

entries_of-insert_new :
    (m : Dict Text) (ks : List Text) (k v : Text)
    → contains ks k ≡ false
    → entries_of (insert k v m) (ks ++ k ∷ []) ≡ entries_of m ks ++ (k, v) ∷ []
entries_of-insert_new m ks k v h =
    rw (entries_of-append (insert k v m) ks (k ∷ []), value-insert m k k v, text_eq_refl k)
      (rw
        (entries_of-ext (insert k v m) m ks
          (λ j e. value-insert m k j v ∙ rw (contains_ne ks k j h e)))
        refl)

is_some-lookup-view :
    (h : SummaryCache) (k : Text) → is_some (lookup k (view h)) ≡ contains h.keys k
is_some-lookup-view h k = ground (arith, lookup-entries_of h.entries h.keys k)

-- `get` on a valid cache finds the pair of the queue.
pub get-view : (h : SummaryCache) (k : Text) → IsValid h → get (some h) k ≡ lookup k (view h)
unfolding get value
get-view h k (l, n, d, e) = elim (Option-cases (lookup k h.entries)) [
  | inl o ↦ ground (arith, o, e k, lookup-entries_of h.entries h.keys k)
  | inr (v, o) ↦ ground (arith, o, e k, lookup-entries_of h.entries h.keys k)
]

-- On a valid cache `put` does not panic, it keeps the cache valid, and it does what a queue does.
abbrev pub Puts : SummaryCache → Text → Text → Type 0
Puts h k v =
    (h' : SummaryCache) × (put h k v ≡ some h')
    × IsValid h'
    × (h'.max_entries ≡ h.max_entries)
    × (view h' ≡ fifo_put h.max_entries k v (view h))

insert-known :
    (h : SummaryCache) (k v : Text)
    → contains h.keys k ≡ true
    → ((j : Text) → is_some (lookup j h.entries) ≡ contains h.keys j)
    → (j : Text) → is_some (lookup j (insert k v h.entries)) ≡ contains h.keys j
insert-known h k v t e j = elim (Bool-cases (text_eq k j)) [
  | inl i ↦
      ground
        (arith, lookup-insert k j v h.entries, i, t, ap (contains h.keys) ((text_eq_iff k j).0 i))
  | inr i ↦ ground (arith, lookup-insert k j v h.entries, i, e j)
]

put-known :
    (h : SummaryCache) (k v : Text)
    → IsValid h
    → (is_empty k || is_empty v) ≡ false
    → contains h.keys k ≡ true
    → Puts h k v
unfolding put
put-known h k v (l, n, d, e) b t = elim (Option-cases (lookup k h.entries)) [
  | inl o ↦ ground (arith, o, e k, t)
  | inr (w, o) ↦ (
    record h { entries = insert k v h.entries },
    rw (b, o),
    (l, n, d, insert-known h k v t e),
    refl,
    rw (b, is_some-lookup-view h k, t) (update-entries_of h.entries h.keys k v),
  )
]

put-new :
    (h : SummaryCache) (k v : Text)
    → IsValid h
    → (is_empty k || is_empty v) ≡ false
    → contains h.keys k ≡ false
    → Puts h k v
unfolding put store
put-new h k v (l, n, d, e) b t = elim (Option-cases (lookup k h.entries)) [
  | inr (w, o) ↦ ground (arith, o, e k, t)
  | inl o ↦
      let (ks, m, r, d', e', l', q, s) = evict-Evicted h.max_entries h.keys h.entries l d e in
      let fresh : contains ks k ≡ false = elim (Bool-cases (contains ks k)) [
        | inl x ↦ ground (arith, t, s k x)
        | inr x ↦ x
      ] in
      (
        store h k v (ks, m),
        rw (b, o, r),
        (
          l,
          omega (arith, length-append ks (k ∷ []), l'),
          append-Distinct ks k d' fresh,
          λ j. ground (arith, lookup-insert k j v m, contains-append ks k j, e' j),
        ),
        refl,
        rw (b, is_some-lookup-view h k, t, length-entries_of h.entries h.keys)
            (entries_of-insert_new m ks k v fresh ∙ ap (λ p. p ++ (k, v) ∷ []) q),
      )
]

pub put-Puts : (h : SummaryCache) (k v : Text) → IsValid h → Puts h k v
unfolding put
put-Puts h k v i = elim (Bool-cases (is_empty k || is_empty v)) [
  | inl b ↦ (h, rw b, i, refl, rw b refl)
  | inr b ↦ elim (Bool-cases (contains h.keys k)) [
    | inl t ↦ put-known h k v i b t
    | inr t ↦ put-new h k v i b t
  ]
]
