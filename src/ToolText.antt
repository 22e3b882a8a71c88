-- ===== src/ToolText.antt =====
-- internal/usecase/chat_tool_loop.go: finding the call of a tool in the text of an answer (the same
-- code stands in llm-runner/tool_action_extract.go). The scanners go over bytes and compare them
-- with ASCII ones, which on valid UTF-8 is going over code points.
pub mod Parse
pub mod Blob
pub mod Scans
pub mod Shortest
use gen_runner.Prelude.{
  ℕ, zero, suc, ◌+◌, ◌-◌, ◌*◌, ◌/◌, ◌%◌, ◌^◌, ◌≤◌, ◌<◌, min, max, ◌≡◌, refl, sym, ap, ◌∙◌, subst,
  ◌≢◌, ◌↔◌, ◌⊎◌, inl, inr, Bool, true, false, not, ◌&&◌, ◌||◌, Option, none, some, List, [], ◌∷◌,
  ◌++◌, map, reverse, append_assoc, append-nil, arith, ltb, leb, ◌==◌, if◌then◌else◌, ltb→lt,
  lt→ltb, leb→le, le→leb, lt→leb_false, le→ltb_false, ==_iff, Bool-cases, Option-cases, List-cases,
  length, is_empty, get_elem?, set, take, drop, filter_by, all_by, All, length-append,
  length-reverse, length-map, length-set, take-append-drop, length-take, length-drop,
  take-append_left, drop-append_left, All-append, All-map_weaken,
}
use gen_runner.Text.{Text, trim_space}

abbrev pub quote : ℕ
quote = 0x22

abbrev pub backslash : ℕ
backslash = 0x5c

-- The variables of the loop in `extractLeadingJSONArray`. The depth is at least 1 after the first
-- code point, which is the opening bracket.
pub record Scan : Type 0 where
  pub depth : ℕ
  pub in_string : Bool
  pub escape : Bool

abbrev pub start_scan : Scan
start_scan = record { depth = 0; in_string = false; escape = false }

-- One round of the loop, on `b`; `none` is the return at the bracket that closes the first one.
-- `o` and `c` are the brackets.
unfoldable pub scan_step : ℕ → ℕ → Scan → ℕ → Option Scan
scan_step o c s b =
    if s.escape
    then some (record s { escape = false })
    else if s.in_string
    then some (
        if b == backslash
        then record s { escape = true }
        else if b == quote
        then record s { in_string = false }
        else s)
    else if b == quote
    then some (record s { in_string = true })
    else if b == o
    then some (record s { depth = suc s.depth })
    else if b == c
    then if s.depth == 1 then none else some (record s { depth = s.depth - 1 })
    else some s

-- The loop: the text up to the return, with the bracket, and the empty text if there is none.
unfoldable pub scan_from : ℕ → ℕ → Scan → Text → Text
scan_from o c st [] = []
scan_from o c st (b ∷ s) = elim (scan_step o c st b) [
  | none ↦ b ∷ []
  | some st' ↦ let rest = scan_from o c st' s in if is_empty rest then [] else b ∷ rest
]

-- The functions from the trimmed text on.
unfoldable pub leading_of : ℕ → ℕ → Text → Text
leading_of o c [] = []
leading_of o c (b ∷ s) = if b == o then scan_from o c start_scan (b ∷ s) else []

unfoldable pub extract_leading_json_array : Text → Text
extract_leading_json_array text = leading_of 0x5b 0x5d (trim_space text)

unfoldable pub extract_leading_json_object : Text → Text
extract_leading_json_object text = leading_of 0x7b 0x7d (trim_space text)
