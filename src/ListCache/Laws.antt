-- ===== src/ListCache/Laws.antt =====
-- internal/mcpclient/tools_list_cache.go: hits, invalidations, and a fetch that an invalidation
-- overtakes.
use gen_runner.Prelude.{
  ℕ, ◌+◌, ◌≤◌, ◌<◌, ◌≡◌, refl, ◌∙◌, subst, inl, inr, true, false, not, none, some, List, [], ◌∷◌,
  arith, ltb, leb, ltb→lt, lt→ltb, lt→leb_false, Bool-cases, Option-cases, get_elem?, filter_by,
  All, filter_by-passes,
}
use gen_runner.Prelude.Int.{ℤ, pos, pos_part}
use gen_runner.Text.{Text}
use gen_runner.Text.Laws.{text_eq_iff, text_eq_refl}
use gen_runner.IdDict.{id_eq, id_eq_iff, id_eq_refl}
use gen_runner.ListCache.{
  CacheEntry, Pending, effective_ttl, has_key, find_entry, cached, store, invalidate, CacheState,
  Event, asks, fetched, invalidated, ask, finish, step, steps, ToolsListCache,
  invalidate_server_tools, invalidate_server_resources, invalidate_server_prompts,
  invalidate_server_id,
}
use gen_runner.ListCache.Hits.{Fetched, log_steps, IsLogged, OnePerServer, steps-IsValid}

effective_ttl_lem : (ttl : ℕ) → 1 ≤ ttl → effective_ttl (pos ttl) ≡ ttl
unfolding effective_ttl
effective_ttl_lem ttl t = rw (effective_ttl, lt→leb_false ttl 0 t) refl

module _ {ℓ} {A : Type ℓ} where
  find_entry-IsLogged :
      (log : List (Fetched A)) (id : ℤ) (fp : Text) (e : CacheEntry A) (es : List (CacheEntry A))
      → find_entry id fp es ≡ some e
      → All (IsLogged log) es
      → IsLogged log e × (e.server_id ≡ id) × (e.fp ≡ fp)
  unfolding find_entry has_key
  find_entry-IsLogged log id fp e [] h a = ground (arith, h)
  find_entry-IsLogged log id fp e (d ∷ es) h a = elim (Bool-cases (has_key id fp d)) [
    | inl t ↦
        let same : d ≡ e = ground (arith, t, h) in
        subst (λ x. IsLogged log x × (x.server_id ≡ id) × (x.fp ≡ fp)) same
          (
            a.0,
            (id_eq_iff d.server_id id).0 (ground (arith, t)),
            (text_eq_iff d.fp fp).0 (ground (arith, t)),
          )
    | inr t ↦ find_entry-IsLogged log id fp e es (ground (arith, t, h)) a.1
  ]

  -- What a hit returns: the list of a fetch for the same server and configuration, by a call whose
  -- time to live is not over.
  abbrev pub IsFresh : List (Fetched A) → ℤ → Text → ℕ → A → Type ℓ
  IsFresh log id fp now items =
      (k : ℕ) × (f : Fetched A) × (get_elem? log k ≡ some f)
      × (f.call.server_id ≡ id)
      × (f.call.fp ≡ fp)
      × (f.answer ≡ items)
      × (now < f.call.asked_at + f.call.ttl)

  cached-IsFresh :
      (log : List (Fetched A)) (es : List (CacheEntry A)) (id : ℤ) (fp : Text) (now : ℕ) (items : A)
      → cached es id fp now ≡ some items
      → All (IsLogged log) es
      → IsFresh log id fp now items
  unfolding cached
  cached-IsFresh log es id fp now items h a = elim (Option-cases (find_entry id fp es)) [
    | inl e ↦ ground (arith, e, h)
    | inr (e, f) ↦
        let ((k, g, at, s, p, i, u), same, fps) = find_entry-IsLogged log id fp e es f a in
        elim (Bool-cases (ltb now e.until)) [
          | inl t ↦ (
            k,
            g,
            at,
            s ∙ same,
            p ∙ fps,
            i ∙ ground (arith, f, t, h),
            omega (arith, u, ltb→lt now e.until t),
          )
          | inr t ↦ ground (arith, f, t, h)
        ]
  ]

  -- Whatever calls, fetches and invalidations came before, in any order: a server has one entry at
  -- most, and what a hit returns was fetched for the same server and configuration, for a call whose
  -- time to live is not over.
  pub steps-IsFresh :
      (events : List (Event A))
      → let s = steps (record { entries = []; pending = [] }) events in
        OnePerServer s.entries
        × ((id : ℤ) (fp : Text) (now : ℕ) (items : A)
            → cached s.entries id fp now ≡ some items
            → IsFresh (log_steps (record { entries = []; pending = [] }) [] events) id fp now items)
  steps-IsFresh events =
      let s0 : CacheState A = record { entries = []; pending = [] } in
      let (a, o) = steps-IsValid s0 [] events (tt, tt) in
      (
        o,
        λ id fp now items h.
            cached-IsFresh (log_steps s0 [] events) (steps s0 events).entries id fp now items h a,
      )

  find_entry-none :
      (id : ℤ) (fp : Text) (es : List (CacheEntry A))
      → All (λ e. not (id_eq e.server_id id) ≡ true) es
      → find_entry id fp es ≡ none
  unfolding find_entry has_key
  find_entry-none id fp [] h = refl
  find_entry-none id fp (e ∷ es) h = ground (arith, h.0, find_entry-none id fp es h.1)

  -- After an invalidation of a server nothing of it is a hit.
  pub cached-invalidate :
      (es : List (CacheEntry A)) (id : ℤ) (fp : Text) (now : ℕ)
      → 1 ≤ pos_part id
      → cached (invalidate es id) id fp now ≡ none
  unfolding cached invalidate
  cached-invalidate es id fp now l =
      let z : leb (pos_part id) 0 ≡ false = lt→leb_false (pos_part id) 0 l in
      rw
        (
          cached,
          invalidate,
          z,
          find_entry-none id fp (filter_by (λ e. not (id_eq e.server_id id)) es)
              (filter_by-passes (λ e. not (id_eq e.server_id id)) es),
        )
        refl

  ask_lem :
      (s : CacheState A) (id : ℤ) (fp : Text) (now : ℕ) (ttl : ℤ)
      → 1 ≤ pos_part id
      → cached s.entries id fp now ≡ none
      → ask s id fp now ttl ≡ record s {
        pending =
            (record { server_id = id; fp = fp; asked_at = now; ttl = effective_ttl ttl })
            ∷ s.pending;
      }
  unfolding ask
  ask_lem s id fp now ttl l c = rw (ask, lt→leb_false (pos_part id) 0 l, c) refl

  cached-store :
      (es : List (CacheEntry A)) (p : Pending) (items : A) (later : ℕ)
      → later < p.asked_at + p.ttl
      → cached (store es p items) p.server_id p.fp later ≡ some items
  unfolding cached store find_entry has_key
  cached-store es p items later h =
      ground (arith, id_eq_refl p.server_id, text_eq_refl p.fp, lt→ltb later (p.asked_at + p.ttl) h)

  -- A list that was asked for before an invalidation and arrives after it is kept all the same: a
  -- call made then is a hit and returns it, until its time to live is over.
  pub cached-fetched-invalidated :
      (s : CacheState A) (id : ℤ) (fp : Text) (now later ttl : ℕ) (items : A)
      → 1 ≤ pos_part id
      → 1 ≤ ttl
      → cached s.entries id fp now ≡ none
      → later < now + ttl
      → cached
          (steps s
            (asks id fp now (pos ttl) ∷ invalidated id ∷ fetched 0 (some items) ∷ [])).entries
          id
          fp
          later
        ≡ some items
  unfolding steps step finish
  cached-fetched-invalidated s id fp now later ttl items l t c h =
      let p : Pending = record {
        server_id = id;
        fp = fp;
        asked_at = now;
        ttl = effective_ttl (pos ttl);
      } in
      rw (ask_lem s id fp now (pos ttl) l c) (
        cached-store (invalidate s.entries id) p items later
          (omega (arith, h, effective_ttl_lem ttl t)))

module _ {ℓ} {T R P : Type ℓ} where
  -- After `InvalidateServerID` nothing of the server is a hit, of any kind and configuration, at any
  -- time.
  pub cached-invalidate_server_id :
      (c : ToolsListCache T R P) (id : ℤ) (fp : Text) (now : ℕ)
      → 1 ≤ pos_part id
      → (cached (invalidate_server_id c id).tools.entries id fp now ≡ none)
        × (cached (invalidate_server_id c id).resources.entries id fp now ≡ none)
        × (cached (invalidate_server_id c id).prompts.entries id fp now ≡ none)
  unfolding invalidate_server_id invalidate_server_tools invalidate_server_resources
      invalidate_server_prompts
  cached-invalidate_server_id c id fp now l = rw (lt→leb_false (pos_part id) 0 l) (
    cached-invalidate c.tools.entries id fp now l,
    cached-invalidate c.resources.entries id fp now l,
    cached-invalidate c.prompts.entries id fp now l,
  )
