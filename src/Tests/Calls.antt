-- ===== src/Tests/Calls.antt =====
-- Runs of the search for tool calls, of aliases, names and tool chains, and the theorems at concrete
-- inputs.
use gen_runner.Prelude.{
  ◌≡◌, refl, ◌≢◌, ◌⊎◌, Bool, false, Option, none, some, List, [], ◌∷◌, arith, if◌then◌else◌,
  is_some, length, all_by,
}
use gen_runner.Prelude.Int.{pos}
use gen_runner.Text.{
  contains, Text, codes, text_eq, trim_space, trim_left_func, trim_right_func, is_space, has_prefix,
}
use gen_runner.ToolText.{
  scan_step, scan_from, leading_of, extract_leading_json_array, extract_leading_json_object,
}
use gen_runner.ToolText.Shortest.{Extracted, extract_leading_json_array-Extracted}
use gen_runner.ToolText.Parse.{
  CohereActionRow, parse_cohere_action_list, normalize_tool_parameters, normalize_row,
  normalize_tool_action_rows, encode_parameters, parse_single, parse_blob,
}
use gen_runner.ToolText.Parse.Laws.{AreRead, IsDecoded, parse_cohere_action_list-AreRead}
use gen_runner.ToolText.Blob.{extract_cohere_action_json, extract_tool_action_blob}
use gen_runner.ToolText.Blob.Calls.{IsCallOrEmpty, IsWithoutCall, extract_tool_action_blob-IsCall}
use gen_runner.ToolAlias.{tool_alias, parse_tool_alias, decimal, decimal_from, hex, hex_digit}
use gen_runner.ToolAlias.RoundTrip.{parse_tool_alias-tool_alias}
use gen_runner.ToolNames.{
  executable_calls_to_action_rows, normalize_tool_name, dashes_replaced, resolve_declared_tool_name,
  allowed_tool_name_set, resolve_executable_tool_calls, ExecutableToolCall,
}
use gen_runner.ToolNames.Resolve.{IsDeclared}
use gen_runner.ToolNames.Declared.{
  IsStandIn, AreResolved, resolve_declared_tool_name-IsDeclared,
  resolve_executable_tool_calls-AreResolved,
}
use gen_runner.History.{Message, Messages, role_user, role_assistant, role_tool}
use gen_runner.ToolChains.{PartitionElement, partition_messages_for_tool_chain_ui}
use gen_runner.ToolChains.Cover.{range, shown}
use gen_runner.ToolChains.Partition.{shown-partition_messages_for_tool_chain_ui}

-- A bracket in a string does not count.
abbrev citation : Text
citation = codes " [1, \"]\"] and more"

citation_found : extract_leading_json_array citation ≡ codes "[1, \"]\"]"
unfolding extract_leading_json_array leading_of scan_from scan_step trim_space trim_left_func
    trim_right_func is_space
citation_found = refl

extract_leading_json_array-Extracted_example :
    Extracted 0x5b 0x5d (trim_space citation) (extract_leading_json_array citation)
    × Extracted 0x7b 0x7d (trim_space citation) (extract_leading_json_object citation)
extract_leading_json_array-Extracted_example = extract_leading_json_array-Extracted citation

abbrev no_action : Text → Option Text
no_action text = none

abbrev object_list : Text → Bool
object_list s = has_prefix s (codes "[{")

abbrev answer : Text
answer = codes "so: [{\"tool_name\": \"a\"}]"

extract_tool_action_blob-IsCall_example :
    (r : Text) × (extract_tool_action_blob no_action object_list answer ≡ some r)
    × (IsCallOrEmpty no_action object_list r
        ⊎ ((r ≡ extract_cohere_action_json no_action object_list answer)
            ⊎ (r ≡ extract_leading_json_array answer)))
    × (r ≡ []
        → IsWithoutCall no_action object_list 0x5b extract_leading_json_array answer
          × IsWithoutCall no_action object_list 0x7b extract_leading_json_object answer)
extract_tool_action_blob-IsCall_example =
    extract_tool_action_blob-IsCall no_action object_list answer

-- Decoders that know one call.
abbrev no_rows : Text → Option (List CohereActionRow)
no_rows s = none

abbrev one_call : Text → Text → Text → Option (Text × Text)
one_call name args s =
    if text_eq name (codes "tool") then some (codes " search ", codes "null") else none

abbrev keep : Text → Option Text
keep s = some s

abbrev searched : List CohereActionRow
searched = (record { tool_name = codes "search"; parameters = codes "{}" }) ∷ []

call_read : parse_cohere_action_list no_rows one_call keep keep (codes "{..}") ≡ some searched
unfolding parse_cohere_action_list parse_blob parse_single normalize_tool_action_rows normalize_row
    normalize_tool_parameters encode_parameters trim_space trim_left_func trim_right_func is_space
call_read = refl

parse_cohere_action_list-AreRead_example :
    ((trim_space (codes "{..}") ≡ []) × (searched ≡ []))
    ⊎ ((trim_space (codes "{..}") ≢ [])
        × AreRead no_rows one_call keep keep
            (IsDecoded no_rows one_call keep keep (trim_space (codes "{..}")))
            searched)
parse_cohere_action_list-AreRead_example =
    parse_cohere_action_list-AreRead no_rows one_call keep keep (codes "{..}") searched call_read

alias_printed : tool_alias (pos 12) (0x61 ∷ 0xff ∷ []) ≡ codes "mcp_12_h61ff"
unfolding tool_alias decimal decimal_from hex hex_digit
alias_printed = refl

parse_tool_alias-tool_alias_example :
    parse_tool_alias (tool_alias (pos 12) (0x61 ∷ 0xff ∷ [])) ≡ some (12, 0x61 ∷ 0xff ∷ [])
parse_tool_alias-tool_alias_example =
    parse_tool_alias-tool_alias 12 (0x61 ∷ 0xff ∷ []) (omega arith) (omega arith) refl
      (omega arith, (omega arith, tt))

-- Names that are lower case already, of ASCII bytes.
abbrev same_text : Text → Text
same_text s = s

abbrev declared : List Text
declared = codes "web-search" ∷ codes "read" ∷ []

name_resolved :
    resolve_declared_tool_name same_text same_text (some declared) (codes " web_search")
    ≡ some (codes "web_search")
unfolding resolve_declared_tool_name normalize_tool_name dashes_replaced allowed_tool_name_set
    trim_space trim_left_func trim_right_func is_space
name_resolved = refl

resolve_declared_tool_name-IsDeclared_example :
    IsDeclared same_text same_text declared (codes "web_search")
    × ((codes "web_search" ≡ normalize_tool_name same_text same_text (codes " web_search"))
        ⊎ ((contains
                (allowed_tool_name_set same_text same_text declared)
                (normalize_tool_name same_text same_text (codes " web_search"))
              ≡ false)
            × IsStandIn same_text same_text declared
                (normalize_tool_name same_text same_text (codes " web_search"))
                (codes "web_search")))
resolve_declared_tool_name-IsDeclared_example =
    resolve_declared_tool_name-IsDeclared same_text same_text declared (codes " web_search")
      (codes "web_search") name_resolved

resolve_executable_tool_calls-AreResolved_example :
    (is_some (resolve_executable_tool_calls same_text same_text (some declared) searched)
      ≡ all_by
          (λ row.
            is_some (resolve_declared_tool_name same_text same_text (some declared) row.tool_name))
          searched)
    × ((calls : List ExecutableToolCall)
        → resolve_executable_tool_calls same_text same_text (some declared) searched ≡ some calls
        → AreResolved same_text same_text declared searched calls
            (executable_calls_to_action_rows calls))
resolve_executable_tool_calls-AreResolved_example =
    resolve_executable_tool_calls-AreResolved same_text same_text declared searched

abbrev message : Text → Text → Option Message
message role calls = some (record {
  role = role;
  content = codes "x";
  attachment_name = [];
  attachment_mime = [];
  attachment_content = [];
  tool_call_id = [];
  tool_name = [];
  tool_calls_json = calls;
})

abbrev chat : Messages
chat =
    message role_user []
    ∷ message role_assistant (codes "[{}]")
    ∷ message role_tool []
    ∷ message role_assistant []
    ∷ none
    ∷ []

shown-partition_messages_for_tool_chain_ui_example :
    (els : List PartitionElement) × (partition_messages_for_tool_chain_ui chat ≡ some els)
    × (shown els ≡ range 0 (length chat))
shown-partition_messages_for_tool_chain_ui_example = shown-partition_messages_for_tool_chain_ui chat
