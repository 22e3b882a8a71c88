-- ===== src/History.antt =====
-- internal/usecase/llm_history_tokens.go, the estimate of a message's tokens, with
-- `IsImageAttachment` of pkg/document/image.go. `lower` is Go's `unicode.ToLower` on one code point.
pub mod Trim
pub mod Shrink
pub mod Dropped
use gen_runner.Prelude.{
  ℕ, zero, suc, ◌+◌, ◌-◌, ◌*◌, ◌/◌, ◌%◌, ◌^◌, ◌≤◌, ◌<◌, min, max, ◌≡◌, refl, sym, ap, ◌∙◌, subst,
  ◌≢◌, ◌↔◌, ◌⊎◌, inl, inr, Bool, true, false, not, ◌&&◌, ◌||◌, Option, none, some, List, [], ◌∷◌,
  ◌++◌, map, reverse, append_assoc, append-nil, arith, ltb, leb, ◌==◌, if◌then◌else◌, ltb→lt,
  lt→ltb, leb→le, le→leb, lt→leb_false, le→ltb_false, ==_iff, Bool-cases, Option-cases, List-cases,
  length, is_empty, get_elem?, set, take, drop, filter_by, all_by, All, is_empty-nil, length-append,
  length-reverse, length-map, length-set, take-append-drop, length-take, length-drop,
  take-append_left, drop-append_left, All-append, All-map_weaken,
}
use gen_runner.Prelude.Int.{ℤ, pos, pos_part}
use gen_runner.Text.{contains, Text, codes, text_eq, trim_space, has_prefix}

-- `domain.Message`: the fields that the estimate and the trimming read.
pub record Message : Type 0 where
  pub role : Text
  pub content : Text
  pub attachment_name : Text
  pub attachment_mime : Text
  pub attachment_content : List ℕ
  pub tool_call_id : Text
  pub tool_name : Text
  pub tool_calls_json : Text

-- A `[]*domain.Message`; `none` is a nil pointer.
abbrev pub Messages : Type 0
Messages = List (Option Message)

abbrev pub role_user : Text
role_user = codes "user"

abbrev pub role_assistant : Text
role_assistant = codes "assistant"

abbrev pub role_tool : Text
role_tool = codes "tool"

-- `filepath.Ext`: from the last dot of the last path element, or empty. `ext` is the suffix found
-- so far.
file_ext_from : Text → Text → Text
file_ext_from [] ext = ext
file_ext_from (c ∷ s) ext =
    file_ext_from s (if c == b'/' then [] else if c == b'.' then c ∷ s else ext)

unfoldable pub file_ext : Text → Text
unfolding file_ext_from
file_ext s = file_ext_from s []

abbrev pub image_extensions : List Text
image_extensions = codes ".jpg" ∷ codes ".jpeg" ∷ codes ".png" ∷ codes ".gif" ∷ codes ".webp" ∷ []

-- `const HistoryTruncatedClientNotice` is shown by the client and computes nothing.
module _ (lower : ℕ → ℕ) where
  -- `strings.ToLower`
  unfoldable pub to_lower : Text → Text
  to_lower s = map lower s

  unfoldable pub is_image_attachment : Text → Bool
  unfolding file_ext to_lower trim_space
  is_image_attachment name = contains image_extensions (to_lower (file_ext (trim_space name)))

  unfoldable pub message_has_likely_vision_image : Option Message → Bool
  unfolding is_image_attachment to_lower trim_space
  message_has_likely_vision_image none = false
  message_has_likely_vision_image (some m) =
      if is_empty m.attachment_content
      then false
      else let mt = to_lower (trim_space m.attachment_mime) in
        if has_prefix mt (codes "image/")
        then true
        else if is_empty mt
        then is_image_attachment m.attachment_name || is_empty (trim_space m.attachment_name)
        else false

-- `byteLen` is the length of a slice, so `byteLen <= 0` is `byteLen == 0`.
unfoldable pub approx_vision_image_tokens : ℕ → ℕ
approx_vision_image_tokens byte_count =
    if byte_count == 0 then 0 else min (max (byte_count / 16) 256) 8192

module _ (lower : ℕ → ℕ) where
  -- The runes that the attachment adds.
  unfoldable pub attachment_runes : Message → ℕ
  unfolding message_has_likely_vision_image
  attachment_runes m =
      if is_empty m.attachment_content
      then length m.attachment_name
      else if message_has_likely_vision_image lower (some m)
      then if is_empty (trim_space m.attachment_mime)
        then length m.attachment_name
        else length m.attachment_mime
      else length m.attachment_content / 4 + length m.attachment_mime

  -- `extraTok`
  unfoldable pub extra_tokens : Message → ℕ
  unfolding message_has_likely_vision_image approx_vision_image_tokens
  extra_tokens m =
      if is_empty m.attachment_content
      then 0
      else if message_has_likely_vision_image lower (some m)
      then approx_vision_image_tokens (length m.attachment_content)
      else 0

  -- The last test of the source, `tok < 1`, cannot hold, and is kept.
  unfoldable pub approximate_message_tokens : Option Message → ℕ
  unfolding attachment_runes extra_tokens
  approximate_message_tokens none = 0
  approximate_message_tokens (some m) =
      let runes =
        length m.content
        + length m.tool_calls_json
        + length m.tool_name
        + length m.tool_call_id
        + attachment_runes m in
      let tok = runes / 4 + 6 + extra_tokens m in if ltb tok 1 then 1 else tok

  unfoldable pub sum_approx_tokens : Messages → ℕ
  sum_approx_tokens [] = 0
  sum_approx_tokens (m ∷ ms) = approximate_message_tokens m + sum_approx_tokens ms

-- `n` is an `int`: what is not positive means that there is no limit.
unfoldable pub normalize_history_max_tokens : ℤ → ℤ
normalize_history_max_tokens n =
    if pos_part n == 0
    then pos 0
    else if ltb (pos_part n) 512
    then pos 512
    else if ltb 500_000 (pos_part n)
    then pos 500_000
    else n
