-- ===== src/DropSummary/Again.antt =====
-- internal/usecase/history_drop_summary.go: a summary that was made once is taken from the cache.
use gen_runner.Prelude.{
  ◌≡◌, refl, subst, ◌⊎◌, inl, inr, Bool, false, not, ◌||◌, Option, some, [], ◌∷◌, arith, ltb, leb,
  Bool-cases, Option-cases, is_empty,
}
use gen_runner.Prelude.Int.{ℤ, pos_part}
use gen_runner.Text.{Text, trim_space}
use gen_runner.Text.Trims.{trim_space-trim_space}
use gen_runner.Dict.{lookup, insert, lookup-insert_self}
use gen_runner.Registry.{Registry}
use gen_runner.History.{Messages}
use gen_runner.History.Dropped.{build_dropped_dialogue_plain_text}
use gen_runner.SummaryCache.{
  normalize_history_summary_cache_entries, SummaryCache, get, ensure_max, put, evict, store,
}
use gen_runner.SummaryCache.Fifo.{IsValid}
use gen_runner.SummaryCache.Refines.{put-Puts}
use gen_runner.SummaryCache.Runs.{ensure_max-IsValid}
use gen_runner.DropSummary.{
  Route, Request, Summarized, summary_hints, summary_model_of, summary_route, cached_summary,
  put_summary, ask_summary, summarize_body, summarize_dropped_messages,
}

get-put :
    (h h' : SummaryCache) (k v : Text)
    → is_empty k ≡ false
    → is_empty v ≡ false
    → put h k v ≡ some h'
    → get (some h') k ≡ some v
unfolding put get store
get-put h h' k v a b e = elim (Option-cases (lookup k h.entries)) [
  | inr (old, o) ↦
      let same : record h { entries = insert k v h.entries } ≡ h' = ground (arith, a, b, o, e) in
      subst (λ (q : SummaryCache). lookup k q.entries ≡ some v) same
        (lookup-insert_self k v h.entries)
  | inl o ↦ elim (Option-cases (evict h.max_entries h.keys h.entries)) [
    | inl n ↦ ground (arith, a, b, o, n, e)
    | inr (kept, n) ↦
        let same : store h k v kept ≡ h' = ground (arith, a, b, o, n, e) in
        subst (λ (q : SummaryCache). lookup k q.entries ≡ some v) same
          (lookup-insert_self k v kept.1)
  ]
]

get-ensure_max :
    (h : SummaryCache) (m : ℤ) (k : Text) → get (ensure_max (some h) m) k ≡ get (some h) k
unfolding get ensure_max
get-ensure_max h m k =
    let n = normalize_history_summary_cache_entries m in
    elim (Bool-cases (leb (pos_part m) 0 || leb n 0)) [
      | inl e ↦ rw e refl
      | inr e ↦ elim (Bool-cases (ltb h.max_entries n)) [
        | inl f ↦ rw (e, f) refl
        | inr f ↦ rw (e, f) refl
      ]
    ]

-- The cache has a summary under a key.
abbrev Has : Option SummaryCache → Text → Text → Type 0
Has cache key s = cached_summary cache key ≡ some s

cached_summary-get :
    (cache : Option SummaryCache) (key s : Text)
    → get cache key ≡ some s
    → is_empty s ≡ false
    → trim_space s ≡ s
    → Has cache key s
unfolding cached_summary
cached_summary-get cache key s g e t = rw (cached_summary, g, t, e) refl

put_summary_lem :
    (h : SummaryCache) (key out : Text)
    → is_empty key ≡ false
    → is_empty out ≡ false
    → trim_space out ≡ out
    → IsValid h
    → (h' : SummaryCache) × (put_summary (some h) key out ≡ some (some h')) × Has (some h') key out
unfolding put_summary
put_summary_lem h key out k o t i =
    let (h', p, valid, bound, same) = put-Puts h key out i in
    (
      h',
      rw (put_summary, p) refl,
      cached_summary-get (some h') key out (get-put h h' key out k o p) o t,
    )

-- The text is empty, or the cache has it.
abbrev IsKept : Text → Summarized → Type 0
IsKept key r = (r.text ≡ []) ⊎ ((h : SummaryCache) × (r.cache ≡ some h) × Has (some h) key r.text)

ask_summary-IsKept :
    (ask : Request → Option Text) (h : SummaryCache) (key : Text) (request : Request)
    → is_empty key ≡ false
    → IsValid h
    → (r : Summarized) × (ask_summary ask (some h) key request ≡ some r) × IsKept key r
unfolding ask_summary
ask_summary-IsKept ask h key request k i =
    let nothing : Summarized = record { text = []; cache = some h; asked = request ∷ [] } in
    elim (Option-cases (ask request)) [
      | inl e ↦ (nothing, rw (ask_summary, e) refl, inl refl)
      | inr (answer, e) ↦
          let out = trim_space answer in
          elim (Bool-cases (is_empty out)) [
            | inl f ↦ (nothing, rw (ask_summary, e, f) refl, inl refl)
            | inr f ↦
                let (h', p, has) = put_summary_lem h key out k f (trim_space-trim_space answer) i in
                (
                  record { text = out; cache = some h'; asked = request ∷ [] },
                  rw (ask_summary, e, f, p) refl,
                  inr (h', refl, has),
                )
          ]
    ]

-- The text is empty, or it was asked for with a model and a text, and the cache has it.
abbrev IsKeptFor : Text → Text → Text → Summarized → Type 0
IsKeptFor key model body r =
    (r.text ≡ [])
    ⊎ (((is_empty model || is_empty (trim_space body)) ≡ false)
        × ((h : SummaryCache) × (r.cache ≡ some h) × Has (some h) key r.text))

IsKept-for :
    (key model body : Text) (r : Summarized)
    → (is_empty model || is_empty (trim_space body)) ≡ false
    → IsKept key r
    → IsKeptFor key model body r
IsKept-for key model body r e (inl z) = inl z
IsKept-for key model body r e (inr k) = inr (e, k)

summarize_body-IsKept :
    (ask : Request → Option Text) (cache_key : Text → Text → Text) (h : SummaryCache)
    (route : Route) (model body : Text)
    → is_empty (cache_key model body) ≡ false
    → IsValid h
    → (r : Summarized) × (summarize_body ask cache_key (some h) route model body ≡ some r)
      × IsKeptFor (cache_key model body) model body r
unfolding summarize_body
summarize_body-IsKept ask cache_key h route model body k i =
    let key = cache_key model body in
    elim (Bool-cases (is_empty model || is_empty (trim_space body))) [
      | inl e ↦
          (record { text = []; cache = some h; asked = [] }, rw (summarize_body, e) refl, inl refl)
      | inr e ↦ elim (Option-cases (cached_summary (some h) key)) [
        | inr (s, f) ↦ (
          record { text = s; cache = some h; asked = [] },
          rw (summarize_body, e, f) refl,
          inr (e, (h, refl, f)),
        )
        | inl f ↦
            let request : Request = record { route = route; model = model; body = body } in
            let (r, a, kept) = ask_summary-IsKept ask h key request k i in
            (r, rw (summarize_body, e, f) a, IsKept-for key model body r e kept)
      ]
    ]

-- With a summary in the cache nothing is asked.
summarize_body-Has :
    (ask : Request → Option Text) (cache_key : Text → Text → Text) (cache : Option SummaryCache)
    (route : Route) (model body s : Text)
    → (is_empty model || is_empty (trim_space body)) ≡ false
    → Has cache (cache_key model body) s
    → summarize_body ask cache_key cache route model body
      ≡ some (record { text = s; cache = cache; asked = [] })
unfolding summarize_body
summarize_body-Has ask cache_key cache route model body s e has = rw (summarize_body, e, has) refl

Has-ensure_max :
    (h : SummaryCache) (m : ℤ) (key s : Text)
    → Has (some h) key s
    → Has (ensure_max (some h) m) key s
unfolding cached_summary
Has-ensure_max h m key s has = rw (cached_summary, get-ensure_max h m key) has

-- What a summary does, and what a second one for the same messages does after it.
abbrev pub IsSummarizedOnce :
    (Request → Option Text)
    → (Request → Option Text)
    → (Text → Text → Text)
    → Bool
    → Bool
    → Bool
    → Option Registry
    → SummaryCache
    → Text
    → Text
    → Text
    → Messages
    → Type 0
IsSummarizedOnce ask ask' key has_repo pool pool' reg h model addr addr' dropped =
    (r : Summarized) × (summarize_dropped_messages ask key has_repo pool reg (some h) model addr
        dropped
      ≡ some r)
    × ((r.text ≡ [])
        ⊎ ((c : Option SummaryCache) × (summarize_dropped_messages ask' key has_repo pool' reg
                r.cache model addr' dropped
              ≡ some (record { text = r.text; cache = c; asked = [] }))))

-- On a valid cache, and with keys that are not empty, a summary of dropped messages returns without a
-- panic. If its text is not empty, then a second one for the same messages, model and registry gives
-- the same text and asks no runner, whatever the runners would answer then.
pub summarize_dropped_messages-IsSummarizedOnce :
    (ask ask' : Request → Option Text) (cache_key : Text → Text → Text) (has_repo pool pool' : Bool)
    (reg : Option Registry) (h : SummaryCache) (model addr addr' : Text) (dropped : Messages)
    → ((m b : Text) → is_empty (cache_key m b) ≡ false)
    → IsValid h
    → IsSummarizedOnce ask ask' cache_key has_repo pool pool' reg h model addr addr' dropped
unfolding summarize_dropped_messages
summarize_dropped_messages-IsSummarizedOnce ask ask' cache_key has_repo pool pool' reg h model addr
      addr' dropped k i =
    let hints = summary_hints reg in
    let m = hints.summary_cache_entries in
    let model' = summary_model_of hints model in
    let body = build_dropped_dialogue_plain_text dropped hints.summary_max_input_runes in
    let (h1, l, i1) = ensure_max-IsValid h m i in
    let (r, e, kept) =
      summarize_body-IsKept ask cache_key h1 (summary_route pool hints addr) model' body
        (k model' body) i1 in
    elim (Bool-cases (not has_repo || is_empty dropped)) [
      | inl z ↦ (
        record { text = []; cache = some h; asked = [] },
        rw (summarize_dropped_messages, z) refl,
        inl refl,
      )
      | inr z ↦ (
        r,
        rw (summarize_dropped_messages, z, l) e,
        elim kept [
          | inl t ↦ inl t
          | inr (f, (h2, c, has)) ↦ inr (
            ensure_max (some h2) m,
            rw (summarize_dropped_messages, z, c)
                (summarize_body-Has ask' cache_key (ensure_max (some h2) m)
                  (summary_route pool' hints addr') model' body r.text f
                  (Has-ensure_max h2 m (cache_key model' body) r.text has)),
          )
        ],
      )
    ]
