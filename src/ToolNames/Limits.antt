-- ===== src/ToolNames/Limits.antt =====
-- internal/usecase/chat_tool_loop.go: the limits of the tool loop, and the reading of a stream of
-- chunks that are forwarded.
use gen_runner.Prelude.{
  ℕ, ◌≤◌, ◌<◌, ◌≡◌, refl, ap, subst, inl, inr, Bool, true, false, ◌&&◌, ◌||◌, Option, none, some,
  List, [], ◌∷◌, ◌++◌, arith, ltb, leb, if◌then◌else◌, Bool-cases, length, is_empty, take,
  length-append, length-take, take-append_left,
}
use gen_runner.Prelude.Int.{ℤ, pos_part}
use gen_runner.Text.{Text, codes}
use gen_runner.Registry.{Registry}
use gen_runner.Registry.Hints.{aggregate_chat_hints}

abbrev pub max_tool_result_runes : ℕ
max_tool_result_runes = 8000

abbrev pub min_tool_exec_seconds : ℕ
min_tool_exec_seconds = 30

abbrev pub max_tool_exec_seconds : ℕ
max_tool_exec_seconds = 300

abbrev pub default_tool_exec_seconds : ℕ
default_tool_exec_seconds = 120

abbrev pub default_tool_loop_rounds : ℕ
default_tool_loop_rounds = 12

abbrev pub max_tool_loop_rounds_cap : ℕ
max_tool_loop_rounds_cap = 128

-- In seconds.
unfoldable pub tool_execution_duration : ℤ → ℕ
tool_execution_duration timeout =
    let s = if leb (pos_part timeout) 0 then default_tool_exec_seconds else pos_part timeout in
    let t = if ltb s min_tool_exec_seconds then min_tool_exec_seconds else s in
    if ltb max_tool_exec_seconds t then max_tool_exec_seconds else t

-- `n < 1` cannot hold of the default or of a hint above 0, but it is tested.
unfoldable pub clamp_rounds : ℕ → ℕ
clamp_rounds n =
    if ltb n 1 then 1 else if ltb max_tool_loop_rounds_cap n then max_tool_loop_rounds_cap else n

-- The rounds the aggregated hints give, if they are above 0.
unfoldable pub hinted_rounds : Option Registry → ℕ
hinted_rounds none = default_tool_loop_rounds
hinted_rounds (some reg) =
    let hinted = pos_part (aggregate_chat_hints reg).max_tool_invocation_rounds in
    if ltb 0 hinted then hinted else default_tool_loop_rounds

unfoldable pub max_tool_invocation_rounds : Option Registry → ℕ
max_tool_invocation_rounds reg = clamp_rounds (hinted_rounds reg)

unfoldable pub truncate_tool_result : Text → Text
truncate_tool_result s =
    if leb (length s) max_tool_result_runes
    then s
    else take max_tool_result_runes s ++ codes "\n...(обрезано)"

pub record StreamChunk : Type 0 where
  pub content : Text
  pub reasoning_content : Text

unfoldable pub contents : List StreamChunk → Text
contents [] = []
contents (c ∷ cs) = c.content ++ contents cs

-- `forward` says whether the receiver took a chunk, after those it was given before. The result is
-- the text, whether anything was streamed, and the chunks that were given to the receiver.
module _ (forward : List StreamChunk → StreamChunk → Bool) where
  unfoldable pub drain_from :
      List StreamChunk → Bool → List StreamChunk → Text × Bool × List StreamChunk
  drain_from sent streamed [] = ([], streamed, sent)
  drain_from sent streamed (c ∷ cs) =
      let skip = is_empty c.content && is_empty c.reasoning_content in
      let sent' = if skip then sent else sent ++ c ∷ [] in
      let (raw, any, given) = drain_from sent' (if skip then streamed else true) cs in
      if skip || forward sent c
      then (c.content ++ raw, any, given)
      else (c.content ++ contents cs, true, sent')

  unfoldable pub drain_llm_stream_channel_forward :
      List StreamChunk → Text × Bool × List StreamChunk
  drain_llm_stream_channel_forward cs = drain_from [] false cs

-- A tool runs for 30 to 300 seconds, and for what the session asks where that lies between.
pub tool_execution_duration_bounds :
    (timeout : ℤ)
    → (30 ≤ tool_execution_duration timeout)
      × (tool_execution_duration timeout ≤ 300)
      × (30 ≤ pos_part timeout
          → pos_part timeout ≤ 300
          → tool_execution_duration timeout ≡ pos_part timeout)
unfolding tool_execution_duration
tool_execution_duration_bounds timeout = (ground arith, ground arith, λ l u. ground (arith, l, u))

-- The tool loop has from 1 to 128 rounds, whatever the hints of the runners are.
pub max_tool_invocation_rounds_bounds :
    (reg : Option Registry)
    → (1 ≤ max_tool_invocation_rounds reg) × (max_tool_invocation_rounds reg ≤ 128)
unfolding max_tool_invocation_rounds clamp_rounds
max_tool_invocation_rounds_bounds reg = (ground arith, ground arith)

length_short : (s : Text) (n : ℕ) → n < length s → length (take n s) ≡ n
length_short s n h = omega (arith, length-take n s, h)

-- A result has at most 8015 code points, and it is the tool's, or its first 8000 code points with a
-- note.
pub truncate_tool_result_bounds :
    (s : Text)
    → (length (truncate_tool_result s) ≤ 8015) × (take 8000 (truncate_tool_result s) ≡ take 8000 s)
unfolding truncate_tool_result
truncate_tool_result_bounds s = elim (Bool-cases (leb (length s) max_tool_result_runes)) [
  | inl e ↦ rw (truncate_tool_result, e) (ground (arith, e), refl)
  | inr e ↦
      rw (truncate_tool_result, e)
        (
          omega (
            arith,
            length-append (take 8000 s) (codes "\n...(обрезано)"),
            length_short s 8000 (ground (arith, e)),
          ),
          subst (λ n. take n (take 8000 s ++ codes "\n...(обрезано)") ≡ take 8000 s)
              (length_short s 8000 (ground (arith, e)))
              (take-append_left (take 8000 s) (codes "\n...(обрезано)")),
        )
]

module _ (forward : List StreamChunk → StreamChunk → Bool) where
  drain_from-contents :
      (sent : List StreamChunk) (streamed : Bool) (cs : List StreamChunk)
      → (drain_from forward sent streamed cs).0 ≡ contents cs
  unfolding drain_from contents
  drain_from-contents sent streamed [] = refl
  drain_from-contents sent streamed (c ∷ cs) =
      let skip = is_empty c.content && is_empty c.reasoning_content in
      elim (Bool-cases (skip || forward sent c)) [
        | inl e ↦
            rw (drain_from, e)
              (ap (λ (r : Text). c.content ++ r)
                (drain_from-contents (if skip then sent else sent ++ c ∷ [])
                  (if skip then streamed else true) cs))
        | inr e ↦ rw (drain_from, e) refl
      ]

  -- The text that was read is that of all chunks in order, also of those after a chunk that the
  -- receiver did not take.
  drain_llm_stream_channel_forward-contents :
      (cs : List StreamChunk) → (drain_llm_stream_channel_forward forward cs).0 ≡ contents cs
  unfolding drain_llm_stream_channel_forward
  drain_llm_stream_channel_forward-contents cs = drain_from-contents [] false cs
