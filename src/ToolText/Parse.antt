-- ===== src/ToolText/Parse.antt =====
-- internal/usecase/chat_tool_loop.go: reading the calls of tools out of JSON. Decoding is
-- `encoding/json`, a parameter: `decode_rows` reads a list of rows, `decode_call` an object with a
-- name and arguments under the keys named, `decode_string` a string, and `reencode` is reading any
-- value and writing it again. The JSON texts of parameters are kept as texts.
pub mod Laws
use gen_runner.Prelude.{
  ℕ, zero, suc, ◌+◌, ◌-◌, ◌*◌, ◌/◌, ◌%◌, ◌^◌, ◌≤◌, ◌<◌, min, max, ◌≡◌, refl, sym, ap, ◌∙◌, subst,
  ◌≢◌, ◌↔◌, ◌⊎◌, inl, inr, Bool, true, false, not, ◌&&◌, ◌||◌, Option, none, some, List, [], ◌∷◌,
  ◌++◌, map, reverse, append_assoc, append-nil, arith, ltb, leb, ◌==◌, if◌then◌else◌, ltb→lt,
  lt→ltb, leb→le, le→leb, lt→leb_false, le→ltb_false, ==_iff, Bool-cases, Option-cases, List-cases,
  length, is_empty, get_elem?, set, take, drop, filter_by, all_by, All, length-append,
  length-reverse, length-map, length-set, take-append-drop, length-take, length-drop,
  take-append_left, drop-append_left, All-append, All-map_weaken,
}
use gen_runner.Text.{Text, codes, text_eq, trim_space, has_prefix}

pub record CohereActionRow : Type 0 where
  pub tool_name : Text
  pub parameters : Text

unfoldable pub tool_action_rows_have_names : List CohereActionRow → Bool
tool_action_rows_have_names [] = false
tool_action_rows_have_names (r ∷ rows) =
    not (is_empty (trim_space r.tool_name)) || tool_action_rows_have_names rows

abbrev pub empty_object : Text
empty_object = codes "{}"

abbrev pub is_null : Text → Bool
is_null raw = is_empty raw || text_eq raw (codes "null")

-- The keys of the three shapes of a single call.
abbrev pub call_keys : List (Text × Text)
call_keys =
    (codes "name", codes "arguments")
    ∷ (codes "tool", codes "arguments")
    ∷ (codes "tool_name", codes "parameters")
    ∷ []

module _ (decode_rows : Text → Option (List CohereActionRow))
    (decode_call : Text → Text → Text → Option (Text × Text)) (decode_string : Text → Option Text)
    (reencode : Text → Option Text) where
  -- From the test for a string on; `none` is an error.
  unfoldable pub encode_parameters : Text → Option Text
  encode_parameters raw =
      if has_prefix raw (codes "\"")
      then elim (decode_string raw) [
        | none ↦ none
        | some encoded ↦
            if is_empty (trim_space encoded)
            then some empty_object
            else reencode (trim_space encoded)
      ]
      else reencode raw

  unfoldable pub normalize_tool_parameters : Text → Option Text
  normalize_tool_parameters raw =
      if is_null (trim_space raw) then some empty_object else encode_parameters (trim_space raw)

  unfoldable pub normalize_row : CohereActionRow → Option CohereActionRow
  normalize_row row = elim (normalize_tool_parameters row.parameters) [
    | none ↦ none
    | some params ↦ some (record { tool_name = trim_space row.tool_name; parameters = params })
  ]

  unfoldable pub normalize_tool_action_rows : List CohereActionRow → Option (List CohereActionRow)
  normalize_tool_action_rows [] = some []
  normalize_tool_action_rows (row ∷ rows) = elim (normalize_row row) [
    | none ↦ none
    | some r ↦ elim (normalize_tool_action_rows rows) [ none ↦ none | some rs ↦ some (r ∷ rs) ]
  ]

  -- The three legacy shapes in order: the first that decodes with a name.
  unfoldable pub parse_single : List (Text × Text) → Text → Option (List CohereActionRow)
  parse_single [] blob = none
  parse_single ((name_key, args_key) ∷ keys) blob =
      let rest = parse_single keys blob in
      elim (decode_call name_key args_key blob) [
        | none ↦ rest
        | some call ↦
            if is_empty (trim_space (call.0))
            then rest
            else normalize_tool_action_rows (
                (record {
                  tool_name = trim_space (call.0);
                  parameters = if is_null (call.1) then empty_object else call.1;
                })
                ∷ [])
      ]

  -- From the trimmed text on, when it is not empty.
  unfoldable pub parse_blob : Text → Option (List CohereActionRow)
  parse_blob blob = elim (decode_rows blob) [
    | none ↦ parse_single call_keys blob
    | some rows ↦
        if is_empty rows
        then if has_prefix (trim_space blob) (codes "[") then none else parse_single call_keys blob
        else normalize_tool_action_rows rows
  ]

  unfoldable pub parse_cohere_action_list : Text → Option (List CohereActionRow)
  parse_cohere_action_list blob =
      if is_empty (trim_space blob) then some [] else parse_blob (trim_space blob)

  -- The test that candidates are put to: `err == nil && len(rows) > 0 && …`.
  unfoldable pub is_call : Text → Bool
  is_call blob = elim (parse_cohere_action_list blob) [
    | none ↦ false
    | some rows ↦ not (is_empty rows) && tool_action_rows_have_names rows
  ]
