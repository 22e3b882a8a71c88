-- ===== src/ToolText/Blob.antt =====
-- internal/usecase/chat_tool_loop.go: the order in which an answer is searched for a call.
-- `find_action` is the first group of the regular expression `reActionJSON`, and `is_call` the test
-- that candidates are put to, `Parse.is_call` of some decoder.
pub mod Calls
use gen_runner.Prelude.{
  ℕ, zero, suc, ◌+◌, ◌-◌, ◌*◌, ◌/◌, ◌%◌, ◌^◌, ◌≤◌, ◌<◌, min, max, ◌≡◌, refl, sym, ap, ◌∙◌, subst,
  ◌≢◌, ◌↔◌, ◌⊎◌, inl, inr, Bool, true, false, not, ◌&&◌, ◌||◌, Option, none, some, List, [], ◌∷◌,
  ◌++◌, map, reverse, append_assoc, append-nil, arith, ltb, leb, ◌==◌, if◌then◌else◌, ltb→lt,
  lt→ltb, leb→le, le→leb, lt→leb_false, le→ltb_false, ==_iff, Bool-cases, Option-cases, List-cases,
  length, is_empty, get_elem?, set, take, drop, filter_by, all_by, All, length-append,
  length-reverse, length-map, length-set, take-append-drop, length-take, length-drop,
  take-append_left, drop-append_left, All-append, All-map_weaken,
}
use gen_runner.Text.{Text, codes, trim_space, has_prefix}
use gen_runner.ToolText.{leading_of, extract_leading_json_array, extract_leading_json_object}

abbrev pub fence : Text
fence = codes "```"

-- `strings.Cut`, for a separator that is not empty.
unfoldable pub cut : Text → Text → Option (Text × Text)
cut [] sep = none
cut (c ∷ s) sep =
    let rest = cut s sep in
    if has_prefix (c ∷ s) sep
    then some ([], drop (length sep) (c ∷ s))
    else elim rest [ none ↦ none | some (before, after) ↦ some (c ∷ before, after) ]

-- `strings.ContainsAny(s, " \t")`
unfoldable pub has_blank : Text → Bool
has_blank [] = false
has_blank (c ∷ s) = c == 0x20 || c == 9 || has_blank s

abbrev pub starts_json : Text → Bool
starts_json raw = has_prefix raw (codes "[") || has_prefix raw (codes "{")

-- What follows an opening fence, without the word that names the language.
unfoldable pub fence_body : Text → Text
fence_body after_open = elim (cut after_open (10 ∷ [])) [
  | none ↦ after_open
  | some (line, more) ↦
      let first = trim_space line in
      if not (is_empty first) && not (has_blank first) then more else after_open
]

module _ (find_action : Text → Option Text) (is_call : Text → Bool) where
  unfoldable pub extract_cohere_action_json : Text → Text
  extract_cohere_action_json text = elim (find_action text) [ none ↦ [] | some m ↦ trim_space m ]

  -- The text of a fence, if it is a call.
  unfoldable pub fenced_call : Text → Text
  fenced_call before =
      let raw = trim_space before in if starts_json (trim_space raw) && is_call raw then raw else []

  -- The loop, on fuel; `none` is that it ran out. An empty text is that no call was found.
  unfoldable pub fenced_from : ℕ → Text → Option Text
  fenced_from zero s = none
  fenced_from (suc fuel) s = elim (cut s fence) [
    | none ↦ some []
    | some (skipped, after_open) ↦
        let rest = fenced_from fuel after_open in
        elim (cut (fence_body after_open) fence) [
          | none ↦ some []
          | some (before, after) ↦
              if is_empty (fenced_call before) then rest else some (fenced_call before)
        ]
  ]

  -- Each round drops three code points or more, so this fuel is enough.
  unfoldable pub extract_first_fenced_tool_array : Text → Option Text
  extract_first_fenced_tool_array text = fenced_from (suc (length text)) text

  unfoldable pub extract_first_json_array : Text → Text
  extract_first_json_array text = elim (cut text (codes "```json")) [
    | none ↦ []
    | some (skipped, rest) ↦ elim (cut rest fence) [
      | none ↦ []
      | some (before, after) ↦ fenced_call before
    ]
  ]

  -- The loops over the opening brackets, whose candidate is found by `leading`.
  unfoldable pub embedded_from : ℕ → (Text → Text) → Text → Text
  embedded_from o leading [] = []
  embedded_from o leading (b ∷ s) =
      let rest = embedded_from o leading s in
      if b == o
      then if not (is_empty (leading (b ∷ s))) && is_call (leading (b ∷ s))
        then leading (b ∷ s)
        else rest
      else rest

  unfoldable pub extract_embedded_json_array : Text → Text
  extract_embedded_json_array text = embedded_from 0x5b extract_leading_json_array text

  unfoldable pub extract_embedded_json_object : Text → Text
  extract_embedded_json_object text = embedded_from 0x7b extract_leading_json_object text

  -- From the leading array on.
  unfoldable pub unfenced_blob : Text → Text
  unfenced_blob text =
      if not (is_empty (extract_leading_json_array text))
      then extract_leading_json_array text
      else if not (is_empty (extract_leading_json_object text))
          && is_call (extract_leading_json_object text)
      then extract_leading_json_object text
      else if not (is_empty (extract_embedded_json_array text))
      then extract_embedded_json_array text
      else extract_embedded_json_object text

  unfoldable pub extract_tool_action_blob : Text → Option Text
  extract_tool_action_blob text =
      if not (is_empty (extract_cohere_action_json text))
      then some (extract_cohere_action_json text)
      else if not (is_empty (extract_first_json_array text))
      then some (extract_first_json_array text)
      else elim (extract_first_fenced_tool_array text) [
        | none ↦ none
        | some s ↦ some (if is_empty s then unfenced_blob text else s)
      ]
