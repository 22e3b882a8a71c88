-- ===== src/ToolChains.antt =====
-- internal/chatui/tool_chain_partition.go: the messages of a chat as single ones and chains of tool
-- calls. A partition element is one of the two pointers that the struct holds. The loops are on fuel;
-- each round of them moves on in the list.
pub mod Cover
pub mod Partition
use gen_runner.Prelude.{
  ℕ, zero, suc, ◌+◌, ◌-◌, ◌*◌, ◌/◌, ◌%◌, ◌^◌, ◌≤◌, ◌<◌, min, max, ◌≡◌, refl, sym, ap, ◌∙◌, subst,
  ◌≢◌, ◌↔◌, ◌⊎◌, inl, inr, Bool, true, false, not, ◌&&◌, ◌||◌, Option, none, some, List, [], ◌∷◌,
  ◌++◌, map, reverse, append_assoc, append-nil, arith, ltb, leb, ◌==◌, if◌then◌else◌, is_some,
  ltb→lt, lt→ltb, leb→le, le→leb, lt→leb_false, le→ltb_false, ==_iff, Bool-cases, Option-cases,
  List-cases, length, is_empty, get_elem?, set, take, drop, filter_by, all_by, All, is_empty-nil,
  length-append, length-reverse, length-map, length-set, take-append-drop, length-take, length-drop,
  take-append_left, drop-append_left, All-append, All-map_weaken,
}
use gen_runner.Text.{Text, text_eq, trim_space}
use gen_runner.History.{Message, Messages, role_assistant, role_tool}

pub record ToolSegment : Type 0 where
  pub lead_index : ℕ
  pub tool_start : ℕ
  pub tool_end : ℕ

pub record ToolChainGroup : Type 0 where
  pub segments : List ToolSegment
  pub final_assistant_idx : Option ℕ

pub data PartitionElement : Type 0 where
  single_index : ℕ → PartitionElement
  chain : ToolChainGroup → PartitionElement

unfoldable pub assistant_has_tool_calls : Option Message → Bool
assistant_has_tool_calls none = false
assistant_has_tool_calls (some m) =
    text_eq m.role role_assistant && not (is_empty (trim_space m.tool_calls_json))

unfoldable pub is_tool_message : Option Message → Bool
is_tool_message none = false
is_tool_message (some m) = text_eq m.role role_tool

unfoldable pub is_assistant : Option Message → Bool
is_assistant none = false
is_assistant (some m) = text_eq m.role role_assistant

-- How many messages at the start of a list are of the tool's role.
unfoldable pub tool_run : Messages → ℕ
tool_run [] = 0
tool_run (m ∷ msgs) = let rest = tool_run msgs in if is_tool_message m then suc rest else 0

-- `nil, next` if no segment was found, or the group of the segments.
unfoldable pub end_chain : List ToolSegment → ℕ → ℕ → Option ToolChainGroup × ℕ
end_chain [] next_if_none next = (none, next_if_none)
end_chain (s ∷ segs) next_if_none next =
    (some (record { segments = s ∷ segs; final_assistant_idx = none }), next)

-- What follows the segment: `te` is the index behind it.
unfoldable pub after_segment :
    Messages
    → List ToolSegment
    → ℕ
    → Option (Option ToolChainGroup × ℕ)
    → Option (Option ToolChainGroup × ℕ)
after_segment msgs segs te continued = elim (get_elem? msgs te) [
  | none ↦ some (some (record { segments = segs; final_assistant_idx = none }), length msgs)
  | some nxt ↦
      if not (is_assistant nxt)
      then some (some (record { segments = segs; final_assistant_idx = none }), te)
      else if assistant_has_tool_calls nxt
      then continued
      else some (some (record { segments = segs; final_assistant_idx = some te }), te + 1)
]

-- The loop of `consumeToolChain`; `none` is that the fuel ran out.
unfoldable pub consume_from :
    ℕ → Messages → ℕ → ℕ → List ToolSegment → Option (Option ToolChainGroup × ℕ)
consume_from zero msgs start cur segs = none
consume_from (suc fuel) msgs start cur segs =
    let run = tool_run (drop (cur + 1) msgs) in
    let segs' =
      segs ++ (record { lead_index = cur; tool_start = cur + 1; tool_end = cur + run }) ∷ [] in
    let continued = consume_from fuel msgs start (cur + 1 + run) segs' in
    elim (get_elem? msgs cur) [
      | none ↦ some (end_chain segs (start + 1) cur)
      | some m ↦
          if not (assistant_has_tool_calls m)
          then some (end_chain segs (start + 1) cur)
          else if run == 0
          then some (end_chain segs (cur + 1) cur)
          else after_segment msgs segs' (cur + 1 + run) continued
    ]

unfoldable pub consume_tool_chain : Messages → ℕ → Option (Option ToolChainGroup × ℕ)
consume_tool_chain msgs start = consume_from (suc (length msgs)) msgs start start []

-- The loop of `PartitionMessagesForToolChainUI`.
unfoldable pub partition_from : ℕ → Messages → ℕ → Option (List PartitionElement)
partition_from zero msgs i = none
partition_from (suc fuel) msgs i = elim (get_elem? msgs i) [
  | none ↦ some []
  | some m ↦
      elim (if assistant_has_tool_calls m then consume_tool_chain msgs i else some (none, i + 1)) [
        | none ↦ none
        | some (group, next) ↦ elim (partition_from fuel msgs next) [
          | none ↦ none
          | some rest ↦ some (elim group [ none ↦ single_index i | some g ↦ chain g ] ∷ rest)
        ]
      ]
]

unfoldable pub partition_messages_for_tool_chain_ui : Messages → Option (List PartitionElement)
partition_messages_for_tool_chain_ui msgs = partition_from (suc (length msgs)) msgs 0
