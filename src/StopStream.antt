-- ===== src/StopStream.antt =====
-- llm-runner/service/stop_stream.go: what is streamed of a completion whose end may be a stop
-- sequence, with `MergeStopSequences` of chat_messages.go. `by_length` is `sort.Slice` by falling
-- byte length, which leaves the order of equal lengths open.
pub mod Cuts
pub mod Trims
pub mod Streams
use gen_runner.Prelude.{
  ℕ, zero, suc, ◌+◌, ◌-◌, ◌*◌, ◌/◌, ◌%◌, ◌^◌, ◌≤◌, ◌<◌, min, max, ◌≡◌, refl, sym, ap, ◌∙◌, subst,
  ◌≢◌, ◌↔◌, ◌⊎◌, inl, inr, Bool, true, false, not, ◌&&◌, ◌||◌, Option, none, some, List, [], ◌∷◌,
  ◌++◌, map, reverse, append_assoc, append-nil, arith, ltb, leb, ◌==◌, if◌then◌else◌, is_some,
  ltb→lt, lt→ltb, leb→le, le→leb, lt→leb_false, le→ltb_false, ==_iff, Bool-cases, Option-cases,
  List-cases, length, is_empty, get_elem?, set, take, drop, filter_by, all_by, All, is_empty-nil,
  length-append, length-reverse, length-map, length-set, take-append-drop, length-take, length-drop,
  take-append_left, drop-append_left, All-append, All-map_weaken,
}
use gen_runner.Text.{Text, codes, text_eq, trim_space, trim_right_func, has_prefix, contains}

-- `strings.HasSuffix(s, t)`
abbrev pub has_suffix : Text → Text → Bool
has_suffix s t = has_prefix (reverse s) (reverse t)

-- The characters of the cutset `" \t\r\n"`.
abbrev pub is_trailing : ℕ → Bool
is_trailing c = c == 0x20 || c == 9 || c == 13 || c == 10

-- One run over the stops: what is left of the text, and whether something was cut.
unfoldable pub strip_round : List Text → Text → Bool → Text × Bool
strip_round [] out changed = (out, changed)
strip_round (t ∷ st) out changed =
    let cut = not (is_empty t) && has_suffix out t in
    strip_round st (if cut then take (length out - length t) out else out) (changed || cut)

-- The loop of `trimTrailingStops`; `none` is that the fuel ran out.
unfoldable pub strip_from : ℕ → List Text → Text → Option Text
strip_from zero st out = none
strip_from (suc fuel) st out =
    let (out', changed) = strip_round st out false in
    let rest = strip_from fuel st out' in if changed then rest else some out'

unfoldable pub merge_into : List Text → List Text → List Text
merge_into out [] = out
merge_into out (s ∷ l) =
    merge_into
      (if is_empty (trim_space s) || contains out (trim_space s)
        then out
        else out ++ trim_space s ∷ [])
      l

-- The set `seen` holds what `out` holds.
unfoldable pub merge_stop_sequences : List Text → List Text → List Text
merge_stop_sequences client preset = merge_into (merge_into [] client) preset

abbrev pub chat_ml_im_end : Text
chat_ml_im_end = codes "<|im_end|>"

abbrev pub chat_ml_im_end_fw : Text
chat_ml_im_end_fw = 0x3c ∷ 0xff5c ∷ (codes "im_end" ++ 0xff5c ∷ 0x3e ∷ [])

abbrev pub llama_eot : Text
llama_eot = codes "<|eot_id|>"

abbrev pub completion_noise_suffixes : List Text
completion_noise_suffixes =
    chat_ml_im_end
    ∷ (chat_ml_im_end ++ 10 ∷ [])
    ∷ (chat_ml_im_end ++ 13 ∷ 10 ∷ [])
    ∷ chat_ml_im_end_fw
    ∷ llama_eot
    ∷ (llama_eot ++ 10 ∷ [])
    ∷ (llama_eot ++ 13 ∷ 10 ∷ [])
    ∷ []

-- The stops without spaces around them, and the most code points of one.
unfoldable pub cleaned_stops : List Text → List Text
cleaned_stops [] = []
cleaned_stops (s ∷ stops) =
    let rest = cleaned_stops stops in if is_empty (trim_space s) then rest else trim_space s ∷ rest

unfoldable pub longest : ℕ → List Text → ℕ
longest n [] = n
longest n (s ∷ stops) = longest (if ltb n (length s) then length s else n) stops

-- The filter, with the chunks that it emitted, in order.
pub record StopStreamFilter : Type 0 where
  pub stops : List Text
  pub max_runes : ℕ
  pub buf : Text
  pub emitted : List Text

unfoldable pub emit : StopStreamFilter → Text → StopStreamFilter
emit f chunk = record f { emitted = f.emitted ++ chunk ∷ [] }

-- The loop leaves `maxRunes` code points, so it runs once at most.
unfoldable pub emit_surplus : StopStreamFilter → StopStreamFilter
emit_surplus f =
    let surplus = length f.buf - f.max_runes in
    if ltb f.max_runes (length f.buf)
    then emit (record f { buf = drop surplus f.buf }) (take surplus f.buf)
    else f

unfoldable pub push : StopStreamFilter → Text → StopStreamFilter
push f piece =
    if is_empty piece
    then f
    else if f.max_runes == 0
    then emit f piece
    else emit_surplus (record f { buf = f.buf ++ piece })

module _ (by_length : List Text → List Text) where
  -- The fuel is enough: each round that goes on makes the text shorter.
  unfoldable pub trim_trailing_stops : Text → List Text → Option Text
  trim_trailing_stops s stops =
      if is_empty s || is_empty stops
      then some s
      else elim (strip_from (suc (length s)) (by_length stops) s) [
        | none ↦ none
        | some out ↦ some (trim_right_func is_trailing out)
      ]

  unfoldable pub sanitize_completion_suffix : Text → Option Text
  sanitize_completion_suffix s = trim_trailing_stops s completion_noise_suffixes

  unfoldable pub new_stop_stream_filter : List Text → StopStreamFilter
  new_stop_stream_filter stops =
      let cleaned = cleaned_stops (merge_stop_sequences stops completion_noise_suffixes) in
      record { stops = by_length cleaned; max_runes = longest 0 cleaned; buf = []; emitted = [] }

  unfoldable pub flush : StopStreamFilter → Option StopStreamFilter
  flush f = elim (trim_trailing_stops f.buf f.stops) [
    | none ↦ none
    | some once ↦ elim (sanitize_completion_suffix once) [
      | none ↦ none
      | some rest ↦ let g = record f { buf = [] } in some (if is_empty rest then g else emit g rest)
    ]
  ]
