-- ===== src/ListCache.antt =====
-- internal/mcpclient/tools_list_cache.go: the cache of what an MCP server lists. The three maps, of
-- tools, resources and prompts, have the same code, which is modelled once for any type `A` of
-- lists. A server is known by its number and the fingerprint of its configuration. Times and
-- durations are nanoseconds. The fetch is the server's answer, and a call is two steps, before and
-- after it, which those of other calls may stand between; fetches that are shared give the same
-- answer to each call. Log lines and metrics are left out.
pub mod Hits
pub mod Laws
use gen_runner.Prelude.{
  ℕ, zero, suc, ◌+◌, ◌-◌, ◌*◌, ◌/◌, ◌%◌, ◌^◌, ◌≤◌, ◌<◌, min, max, ◌≡◌, refl, sym, ap, ◌∙◌, subst,
  ◌≢◌, ◌↔◌, ◌⊎◌, inl, inr, Bool, true, false, not, ◌&&◌, ◌||◌, Option, none, some, List, [], ◌∷◌,
  ◌++◌, map, reverse, append_assoc, append-nil, arith, ltb, leb, ◌==◌, if◌then◌else◌, is_some,
  ltb→lt, lt→ltb, leb→le, le→leb, lt→leb_false, le→ltb_false, ==_iff, Bool-cases, Option-cases,
  List-cases, length, is_empty, get_elem?, set, take, drop, filter_by, all_by, All, is_empty-nil,
  length-append, length-reverse, length-map, length-set, take-append-drop, length-take, length-drop,
  take-append_left, drop-append_left, All-append, All-map_weaken, filter_by-All, filter_by-passes,
}
use gen_runner.Prelude.Int.{ℤ, pos, negsuc, pos_part}
use gen_runner.Text.{Text, text_eq}
use gen_runner.IdDict.{id_eq}

-- `DefaultToolsListCacheTTL`
abbrev pub default_tools_list_cache_ttl : ℕ
default_tools_list_cache_ttl = 120_000_000_000

-- A key of the map and its value.
pub record CacheEntry {ℓ} (A : Type ℓ) : Type ℓ where
  pub server_id : ℤ
  pub fp : Text
  pub items : A
  pub until : ℕ

-- A call that waits for its fetch.
pub record Pending : Type 0 where
  pub server_id : ℤ
  pub fp : Text
  pub asked_at : ℕ
  pub ttl : ℕ

-- `ttl <= 0` is the default.
unfoldable pub effective_ttl : ℤ → ℕ
effective_ttl ttl = if leb (pos_part ttl) 0 then default_tools_list_cache_ttl else pos_part ttl

-- The list without its `i`-th element.
unfoldable pub without : ℕ → List Pending → List Pending
without i [] = []
without zero (p ∷ ps) = ps
without (suc i) (p ∷ ps) = p ∷ without i ps

module _ {ℓ} {A : Type ℓ} where
  unfoldable pub has_key : ℤ → Text → CacheEntry A → Bool
  has_key id fp e = id_eq e.server_id id && text_eq e.fp fp

  unfoldable pub find_entry : ℤ → Text → List (CacheEntry A) → Option (CacheEntry A)
  find_entry id fp [] = none
  find_entry id fp (e ∷ es) =
      let rest = find_entry id fp es in if has_key id fp e then some e else rest

  -- Before the fetch: the list of a hit.
  unfoldable pub cached : List (CacheEntry A) → ℤ → Text → ℕ → Option A
  cached es id fp now = elim (find_entry id fp es) [
    | none ↦ none
    | some e ↦ if ltb now e.until then some e.items else none
  ]

  -- After the fetch: what expired and what other configurations of the server left goes, and the
  -- list is put under its key.
  unfoldable pub store : List (CacheEntry A) → Pending → A → List (CacheEntry A)
  store es p items =
      let unexpired = filter_by (λ e. ltb p.asked_at e.until) es in
      let current =
        filter_by (λ e. not (id_eq e.server_id p.server_id && not (text_eq e.fp p.fp))) unexpired in
      (record { server_id = p.server_id; fp = p.fp; items = items; until = p.asked_at + p.ttl })
      ∷ filter_by (λ e. not (has_key p.server_id p.fp e)) current

  -- `InvalidateServerTools` and its like; `none` is a nil cache.
  unfoldable pub invalidate : List (CacheEntry A) → ℤ → List (CacheEntry A)
  invalidate es id =
      if leb (pos_part id) 0 then es else filter_by (λ e. not (id_eq e.server_id id)) es

-- The cache and the calls that wait.
pub record CacheState {ℓ} (A : Type ℓ) : Type ℓ where
  pub entries : List (CacheEntry A)
  pub pending : List Pending

-- A step of a call, or of an invalidation: a call asks, at a time and with a time to live; the
-- fetch of a waiting call ends with a list or an error.
pub data Event {ℓ} (A : Type ℓ) : Type ℓ where
  asks : ℤ → Text → ℕ → ℤ → Event A
  fetched : ℕ → Option A → Event A
  invalidated : ℤ → Event A

module _ {ℓ} {A : Type ℓ} where
  -- `ListToolsCached` up to the fetch. A server without a number is listed without the cache.
  unfoldable pub ask : CacheState A → ℤ → Text → ℕ → ℤ → CacheState A
  ask s id fp now ttl = if leb (pos_part id) 0 then s else elim (cached s.entries id fp now) [
    | some items ↦ s
    | none ↦ record s {
      pending =
          (record { server_id = id; fp = fp; asked_at = now; ttl = effective_ttl ttl }) ∷ s.pending;
    }
  ]

  -- The end of the fetch of the `i`-th waiting call.
  unfoldable pub finish : CacheState A → ℕ → Option A → CacheState A
  finish s i answer = elim (get_elem? s.pending i) [
    | none ↦ s
    | some p ↦ record {
      entries = elim answer [ none ↦ s.entries | some items ↦ store s.entries p items ];
      pending = without i s.pending;
    }
  ]

  unfoldable pub step : CacheState A → Event A → CacheState A
  step s (asks id fp now ttl) = ask s id fp now ttl
  step s (fetched i answer) = finish s i answer
  step s (invalidated id) = record s { entries = invalidate s.entries id }

  unfoldable pub steps : CacheState A → List (Event A) → CacheState A
  steps s [] = s
  steps s (e ∷ es) = steps (step s e) es

-- The three caches. A nil cache lists without one and has nothing to invalidate.
pub record ToolsListCache {ℓ} (T R P : Type ℓ) : Type ℓ where
  pub tools : CacheState T
  pub resources : CacheState R
  pub prompts : CacheState P

module _ {ℓ} {T R P : Type ℓ} where
  unfoldable pub ask_tools : ToolsListCache T R P → ℤ → Text → ℕ → ℤ → ToolsListCache T R P
  ask_tools c id fp now ttl = record c { tools = ask c.tools id fp now ttl }

  unfoldable pub finish_tools : ToolsListCache T R P → ℕ → Option T → ToolsListCache T R P
  finish_tools c i answer = record c { tools = finish c.tools i answer }

  unfoldable pub ask_resources : ToolsListCache T R P → ℤ → Text → ℕ → ℤ → ToolsListCache T R P
  ask_resources c id fp now ttl = record c { resources = ask c.resources id fp now ttl }

  unfoldable pub finish_resources : ToolsListCache T R P → ℕ → Option R → ToolsListCache T R P
  finish_resources c i answer = record c { resources = finish c.resources i answer }

  unfoldable pub ask_prompts : ToolsListCache T R P → ℤ → Text → ℕ → ℤ → ToolsListCache T R P
  ask_prompts c id fp now ttl = record c { prompts = ask c.prompts id fp now ttl }

  unfoldable pub finish_prompts : ToolsListCache T R P → ℕ → Option P → ToolsListCache T R P
  finish_prompts c i answer = record c { prompts = finish c.prompts i answer }

  unfoldable pub invalidate_server_tools : ToolsListCache T R P → ℤ → ToolsListCache T R P
  invalidate_server_tools c id = record c {
    tools = record c.tools { entries = invalidate c.tools.entries id };
  }

  unfoldable pub invalidate_server_resources : ToolsListCache T R P → ℤ → ToolsListCache T R P
  invalidate_server_resources c id = record c {
    resources = record c.resources { entries = invalidate c.resources.entries id };
  }

  unfoldable pub invalidate_server_prompts : ToolsListCache T R P → ℤ → ToolsListCache T R P
  invalidate_server_prompts c id = record c {
    prompts = record c.prompts { entries = invalidate c.prompts.entries id };
  }

  -- The pooled session, which is closed first, is not part of the cache.
  unfoldable pub invalidate_server_id : ToolsListCache T R P → ℤ → ToolsListCache T R P
  invalidate_server_id c id =
      if leb (pos_part id) 0
      then c
      else invalidate_server_prompts (invalidate_server_resources (invalidate_server_tools c id) id)
          id
