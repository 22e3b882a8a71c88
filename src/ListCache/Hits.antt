-- ===== src/ListCache/Hits.antt =====
-- internal/mcpclient/tools_list_cache.go: what a hit returns, whatever calls and invalidations
-- interleave.
use gen_runner.Prelude.{
  ℕ, suc, ◌+◌, ◌≡◌, refl, inl, inr, Bool, true, false, not, ◌&&◌, none, some, List, [], ◌∷◌, arith,
  ltb, leb, Bool-cases, Option-cases, get_elem?, filter_by, All, All-map_weaken, filter_by-All,
  filter_by-passes,
}
use gen_runner.Prelude.Int.{ℤ, pos_part}
use gen_runner.Text.{Text, text_eq}
use gen_runner.IdDict.{id_eq}
use gen_runner.ListCache.{
  CacheEntry, Pending, has_key, cached, store, invalidate, CacheState, Event, asks, fetched,
  invalidated, ask, finish, step, steps,
}

-- A list that a server gave, with the call it was fetched for.
pub record Fetched {ℓ} (A : Type ℓ) : Type ℓ where
  pub call : Pending
  pub answer : A

module _ {ℓ} {A : Type ℓ} where
  -- The lists that were fetched, the last one first.
  unfoldable pub log_step : CacheState A → List (Fetched A) → Event A → List (Fetched A)
  log_step s log (asks id fp now ttl) = log
  log_step s log (fetched i none) = log
  log_step s log (fetched i (some items)) = elim (get_elem? s.pending i) [
    | none ↦ log
    | some p ↦ (record { call = p; answer = items }) ∷ log
  ]
  log_step s log (invalidated id) = log

  unfoldable pub log_steps : CacheState A → List (Fetched A) → List (Event A) → List (Fetched A)
  log_steps s log [] = log
  log_steps s log (e ∷ es) = log_steps (step s e) (log_step s log e) es

  -- The list of the entry was fetched for its configuration, and lives for the call's time to live
  -- from the time of the call on.
  abbrev pub IsLogged : List (Fetched A) → CacheEntry A → Type ℓ
  IsLogged log e =
      (k : ℕ) × (f : Fetched A) × (get_elem? log k ≡ some f)
      × (f.call.server_id ≡ e.server_id)
      × (f.call.fp ≡ e.fp)
      × (f.answer ≡ e.items)
      × (e.until ≡ f.call.asked_at + f.call.ttl)

  IsLogged-later :
      (f : Fetched A) (log : List (Fetched A)) (e : CacheEntry A)
      → IsLogged log e
      → IsLogged (f ∷ log) e
  IsLogged-later f log e (k, g, a, b, c, d, u) = (suc k, g, a, b, c, d, u)

  -- A server has one entry at most.
  abbrev pub OnePerServer : List (CacheEntry A) → Type 0
  OnePerServer [] = Unit
  OnePerServer (e ∷ es) = All (λ d. id_eq d.server_id e.server_id ≡ false) es × OnePerServer es

  filter_by-OnePerServer :
      (p : CacheEntry A → Bool) (es : List (CacheEntry A))
      → OnePerServer es
      → OnePerServer (filter_by p es)
  filter_by-OnePerServer p [] h = tt
  filter_by-OnePerServer p (e ∷ es) h = elim (Bool-cases (p e)) [
    | inl q ↦ rw q (
      filter_by-All (λ d. id_eq d.server_id e.server_id ≡ false) p es h.0,
      filter_by-OnePerServer p es h.1,
    )
    | inr q ↦ rw q (filter_by-OnePerServer p es h.1)
  ]

  abbrev pub IsValid : List (Fetched A) → List (CacheEntry A) → Type ℓ
  IsValid log es = All (IsLogged log) es × OnePerServer es

  -- Two tests in a row leave no entry of the server.
  others_lem :
      (id : ℤ) (fp : Text) (e : CacheEntry A)
      → not (id_eq e.server_id id && not (text_eq e.fp fp)) ≡ true
      → not (has_key id fp e) ≡ true
      → id_eq e.server_id id ≡ false
  unfolding has_key
  others_lem id fp e g h = ground (arith, g, h)

  no_server :
      (id : ℤ) (fp : Text) (es : List (CacheEntry A))
      → All (λ e. not (id_eq e.server_id id && not (text_eq e.fp fp)) ≡ true) es
      → All (λ e. not (has_key id fp e) ≡ true) es
      → All (λ e. id_eq e.server_id id ≡ false) es
  no_server id fp [] g h = tt
  no_server id fp (e ∷ es) g h = (others_lem id fp e g.0 h.0, no_server id fp es g.1 h.1)

  store-IsValid :
      (log : List (Fetched A)) (es : List (CacheEntry A)) (p : Pending) (items : A)
      → IsValid log es
      → IsValid ((record { call = p; answer = items }) ∷ log) (store es p items)
  unfolding store
  store-IsValid log es p items (h, o) =
      let f : Fetched A = record { call = p; answer = items } in
      let t1 = λ (e : CacheEntry A). ltb p.asked_at e.until in
      let t2 =
        λ (e : CacheEntry A). not (id_eq e.server_id p.server_id && not (text_eq e.fp p.fp)) in
      let t3 = λ (e : CacheEntry A). not (has_key p.server_id p.fp e) in
      let later = All-map_weaken (IsLogged log) (IsLogged (f ∷ log)) (IsLogged-later f log) es h in
      let es1 = filter_by t1 es in
      let es2 = filter_by t2 es1 in
      (
        (
          (0, f, refl, refl, refl, refl, refl),
          filter_by-All (IsLogged (f ∷ log)) t3 es2 (
              filter_by-All (IsLogged (f ∷ log)) t2 es1
                (filter_by-All (IsLogged (f ∷ log)) t1 es later)),
        ),
        (
          no_server p.server_id p.fp (filter_by t3 es2)
              (filter_by-All (λ e. t2 e ≡ true) t3 es2 (filter_by-passes t2 es1))
              (filter_by-passes t3 es2),
          filter_by-OnePerServer t3 es2
              (filter_by-OnePerServer t2 es1 (filter_by-OnePerServer t1 es o)),
        ),
      )

  step-IsValid :
      (s : CacheState A) (log : List (Fetched A)) (e : Event A)
      → IsValid log s.entries
      → IsValid (log_step s log e) (step s e).entries
  unfolding step log_step ask finish invalidate
  step-IsValid s log (asks id fp now ttl) h = elim (Bool-cases (leb (pos_part id) 0)) [
    | inl z ↦ rw z h
    | inr z ↦ elim (Option-cases (cached s.entries id fp now)) [
      | inl c ↦ rw (z, c) h
      | inr (items, c) ↦ rw (z, c) h
    ]
  ]
  step-IsValid s log (fetched i none) h = elim (Option-cases (get_elem? s.pending i)) [
    | inl e ↦ rw (finish, e) h
    | inr (p, e) ↦ rw (finish, e) h
  ]
  step-IsValid s log (fetched i (some items)) h = elim (Option-cases (get_elem? s.pending i)) [
    | inl e ↦ rw (finish, log_step, e) h
    | inr (p, e) ↦ rw (finish, log_step, e) (store-IsValid log s.entries p items h)
  ]
  step-IsValid s log (invalidated id) h = elim (Bool-cases (leb (pos_part id) 0)) [
    | inl z ↦ rw z h
    | inr z ↦ rw z (
      filter_by-All (IsLogged log) (λ e. not (id_eq e.server_id id)) s.entries h.0,
      filter_by-OnePerServer (λ e. not (id_eq e.server_id id)) s.entries h.1,
    )
  ]

  pub steps-IsValid :
      (s : CacheState A) (log : List (Fetched A)) (es : List (Event A))
      → IsValid log s.entries
      → IsValid (log_steps s log es) (steps s es).entries
  unfolding steps log_steps
  steps-IsValid s log [] h = h
  steps-IsValid s log (e ∷ es) h =
      steps-IsValid (step s e) (log_step s log e) es (step-IsValid s log e h)
