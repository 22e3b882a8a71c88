-- ===== src/SummaryCache.antt =====
-- internal/usecase/history_summary_cache.go: the bounded cache of summaries of dropped messages. A
-- nil cache is `none`. An operation that reads outside a slice panics, which is `none` too.
pub mod Fifo
pub mod Refines
pub mod Runs
use gen_runner.Prelude.{
  ℕ, zero, suc, ◌+◌, ◌-◌, ◌*◌, ◌/◌, ◌%◌, ◌^◌, ◌≤◌, ◌<◌, min, max, ◌≡◌, refl, sym, ap, ◌∙◌, subst,
  ◌≢◌, ◌↔◌, ◌⊎◌, inl, inr, Bool, true, false, not, ◌&&◌, ◌||◌, Option, none, some, List, [], ◌∷◌,
  ◌++◌, map, reverse, append_assoc, append-nil, arith, ltb, leb, ◌==◌, if◌then◌else◌, ltb→lt,
  lt→ltb, leb→le, le→leb, lt→leb_false, le→ltb_false, ==_iff, Bool-cases, Option-cases, List-cases,
  length, is_empty, get_elem?, set, take, drop, filter_by, all_by, All, length-append,
  length-reverse, length-map, length-set, take-append-drop, length-take, length-drop,
  take-append_left, drop-append_left, All-append, All-map_weaken,
}
use gen_runner.Prelude.Int.{ℤ, pos, negsuc, pos_part}
use gen_runner.Text.{Text, text_eq}
use gen_runner.Dict.{Dict, lookup, insert, delete}

pub record SummaryCache : Type 0 where
  pub max_entries : ℕ
  pub keys : List Text
  pub entries : Dict Text

unfoldable pub new_history_summary_cache : ℤ → Option SummaryCache
new_history_summary_cache (pos zero) = none
new_history_summary_cache (pos (suc n)) =
    some (record { max_entries = suc n; keys = []; entries = [] })
new_history_summary_cache (negsuc n) = none

unfoldable pub normalize_history_summary_cache_entries : ℤ → ℕ
normalize_history_summary_cache_entries (pos n) = if ltb 50000 n then 50000 else n
normalize_history_summary_cache_entries (negsuc n) = 0

unfoldable pub get : Option SummaryCache → Text → Option Text
get none key = none
get (some h) key = lookup key h.entries

unfoldable pub ensure_max : Option SummaryCache → ℤ → Option SummaryCache
ensure_max none m = none
ensure_max (some h) m =
    let n = normalize_history_summary_cache_entries m in
    if leb (pos_part m) 0 || leb n 0
    then some h
    else some (if ltb h.max_entries n then record h { max_entries = n } else h)

-- The loop that drops the oldest key while there are `limit` keys or more.
unfoldable pub evict : ℕ → List Text → Dict Text → Option (List Text × Dict Text)
evict limit [] entries = if leb limit 0 then none else some ([], entries)
evict limit (old ∷ keys) entries =
    let rest = evict limit keys (delete old entries) in
    if leb limit (suc (length keys)) then rest else some (old ∷ keys, entries)

unfoldable pub store : SummaryCache → Text → Text → List Text × Dict Text → SummaryCache
store h key summary (keys, entries) = record h {
  keys = keys ++ key ∷ [];
  entries = insert key summary entries;
}

-- `none` is a panic. The cache is not nil here: `put` of a nil cache does nothing.
unfoldable pub put : SummaryCache → Text → Text → Option SummaryCache
put h key summary =
    if is_empty key || is_empty summary then some h else elim (lookup key h.entries) [
      | some old ↦ some (record h { entries = insert key summary h.entries })
      | none ↦ elim (evict h.max_entries h.keys h.entries) [
        | none ↦ none
        | some kept ↦ some (store h key summary kept)
      ]
    ]
