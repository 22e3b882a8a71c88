-- ===== src/ToolNames.antt =====
-- internal/usecase/chat_tool_loop.go: which declared tool a name from the model stands for, and the
-- limits of the tool loop. `to_lower` is `strings.ToLower`, and `text_of` takes the bytes of a
-- tool's own name as a text. The log lines are left out.
pub mod Resolve
pub mod Complete
pub mod Declared
pub mod Limits
use gen_runner.Prelude.{
  ℕ, zero, suc, ◌+◌, ◌-◌, ◌*◌, ◌/◌, ◌%◌, ◌^◌, ◌≤◌, ◌<◌, min, max, ◌≡◌, refl, sym, ap, ◌∙◌, subst,
  ◌≢◌, ◌↔◌, ◌⊎◌, inl, inr, Bool, true, false, not, ◌&&◌, ◌||◌, Option, none, some, List, [], ◌∷◌,
  ◌++◌, map, reverse, append_assoc, append-nil, arith, ltb, leb, ◌==◌, if◌then◌else◌, is_some,
  ltb→lt, lt→ltb, leb→le, le→leb, lt→leb_false, le→ltb_false, ==_iff, Bool-cases, Option-cases,
  List-cases, length, is_empty, get_elem?, set, take, drop, filter_by, all_by, All, is_empty-nil,
  length-append, length-reverse, length-map, length-set, take-append-drop, length-take, length-drop,
  take-append_left, drop-append_left, All-append, All-map_weaken,
}
use gen_runner.Prelude.Int.{ℤ, pos, negsuc, ltb_ℤ}
use gen_runner.Text.{Text, codes, text_eq, trim_space, contains}
use gen_runner.ToolText.Parse.{CohereActionRow}
use gen_runner.ToolAlias.{match_alias, parse_int, parse_tool_alias}

-- `strings.ReplaceAll(s, "-", "_")`
unfoldable pub dashes_replaced : Text → Text
dashes_replaced [] = []
dashes_replaced (c ∷ s) = (if c == 0x2d then 0x5f else c) ∷ dashes_replaced s

-- `<` on strings; the order of the bytes is that of the code points.
unfoldable pub text_ltb : Text → Text → Bool
text_ltb s [] = false
text_ltb [] (d ∷ t) = true
text_ltb (c ∷ s) (d ∷ t) = if c == d then text_ltb s t else ltb c d

pub record Candidate : Type 0 where
  pub sid : ℕ
  pub canon : Text

-- `hits[i].sid < hits[j].sid`, and the names where they are equal.
unfoldable pub candidate_ltb : Candidate → Candidate → Bool
candidate_ltb a b = if a.sid == b.sid then text_ltb a.canon b.canon else ltb a.sid b.sid

-- The first of the candidates when they are sorted.
unfoldable pub least : Candidate → List Candidate → Candidate
least a [] = a
least a (b ∷ l) = least (if candidate_ltb b a then b else a) l

-- The element of a list that has one.
unfoldable pub only : List Text → Option Text
only [] = none
only (c ∷ []) = some c
only (c ∷ d ∷ l) = none

pub record ExecutableToolCall : Type 0 where
  pub requested_name : Text
  pub resolved_name : Text
  pub call_parameters : Text

module _ (to_lower : Text → Text) (text_of : List ℕ → Text) where
  unfoldable pub normalize_tool_name : Text → Text
  normalize_tool_name s = dashes_replaced (to_lower (trim_space s))

  -- `tools` are the names of the declared tools.
  unfoldable pub allowed_tool_name_set : List Text → List Text
  allowed_tool_name_set [] = []
  allowed_tool_name_set (t ∷ tools) =
      let rest = allowed_tool_name_set tools in
      if is_empty (normalize_tool_name t) then rest else normalize_tool_name t ∷ rest

  -- The names of the declared tools that are aliases of a tool on the server.
  unfoldable pub canon_list : ℕ → List Text → List Text
  canon_list sid [] = []
  canon_list sid (t ∷ tools) =
      let rest = canon_list sid tools in
      if is_empty (normalize_tool_name t)
      then rest
      else elim (parse_tool_alias (normalize_tool_name t)) [
        | none ↦ rest
        | some (tsid, orig) ↦ if tsid == sid then normalize_tool_name t ∷ rest else rest
      ]

  unfoldable pub try_recover_alias : List Text → Text → Option Text
  try_recover_alias tools n = elim (match_alias n) [
    | none ↦ none
    | some (ds, hs) ↦ elim (parse_int ds) [
      | none ↦ none
      | some sid ↦ if leb sid 0 then none else only (canon_list sid tools)
    ]
  ]

  unfoldable pub hits : List Text → Text → List Text → List Candidate
  hits allowed n [] = []
  hits allowed n (t ∷ tools) =
      let rest = hits allowed n tools in
      if is_empty (normalize_tool_name t) || not (contains allowed (normalize_tool_name t))
      then rest
      else elim (parse_tool_alias (normalize_tool_name t)) [
        | none ↦ rest
        | some (sid, orig) ↦
            if not (leb sid 0) && text_eq (normalize_tool_name (text_of orig)) n
            then (record { sid = sid; canon = normalize_tool_name t }) ∷ rest
            else rest
      ]

  -- From the search for short names on.
  unfoldable pub pick_hit : List Text → Text → List Candidate → Option Text
  pick_hit tools n [] = try_recover_alias tools n
  pick_hit tools n (h ∷ hs) = some ((least h hs).canon)

  -- The declared tools are `none` if there are no parameters.
  unfoldable pub resolve_declared_tool_name : Option (List Text) → Text → Option Text
  resolve_declared_tool_name none raw = none
  resolve_declared_tool_name (some tools) raw =
      let n = normalize_tool_name raw in
      if is_empty n
      then none
      else if contains (allowed_tool_name_set tools) n
      then some n
      else pick_hit tools n (hits (allowed_tool_name_set tools) n tools)

  unfoldable pub resolve_executable_tool_calls :
      Option (List Text) → List CohereActionRow → Option (List ExecutableToolCall)
  resolve_executable_tool_calls tools [] = some []
  resolve_executable_tool_calls tools (row ∷ rows) =
      let rest = resolve_executable_tool_calls tools rows in
      elim (resolve_declared_tool_name tools row.tool_name) [
        | none ↦ none
        | some resolved ↦ elim rest [
          | none ↦ none
          | some calls ↦ some (
              (record {
                requested_name = row.tool_name;
                resolved_name = resolved;
                call_parameters = row.parameters;
              })
              ∷ calls)
        ]
      ]

  unfoldable pub is_direct_answer_tool : Text → Bool
  is_direct_answer_tool name =
      text_eq (normalize_tool_name name) (codes "directly_answer")
      || text_eq (normalize_tool_name name) (codes "directlyanswer")

unfoldable pub executable_calls_to_action_rows : List ExecutableToolCall → List CohereActionRow
executable_calls_to_action_rows [] = []
executable_calls_to_action_rows (c ∷ calls) =
    (record { tool_name = c.resolved_name; parameters = c.call_parameters })
    ∷ executable_calls_to_action_rows calls
