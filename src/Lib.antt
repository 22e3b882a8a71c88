-- ===== src/Lib.antt =====
-- The verification library of gen-runner, a chat server in Go that spreads requests over several
-- runners of language models.
--
-- The parts, and the files that model them:
-- Text.antt: Go strings as lists of code points, with `strings.TrimSpace` and its kin.
-- Dict.antt: Go maps with text keys as association lists. A Go map is walked in any order; here
--   it is walked in the order of insertion.
-- History.antt and below: internal/usecase/llm_history_tokens.go. The estimate of tokens
--   (`approximate_message_tokens`), the trimming of a dialogue to a limit (History/Trim:
--   `trim_with_dropped` is `trimLLMMessagesByApproxTokensWithDropped`), the shrinking of contents
--   (History/Shrink: `shrink_loop` is the loop of `shrinkMessagesToApproxTokenBudget`), and the text
--   of what was dropped (History/Dropped).
-- MdPatch.antt and below: pkg/document/md_patch.go. `apply_patch_json` is
--   `ApplyMarkdownPatchJSON`, `apply_one` is `applyOneMdPatch` with a function for each operation.
-- Registry.antt, Registry/Hints.antt: internal/service/registry.go and runner_hints.go. One
--   function for each method; the lock of each method makes it one step.
-- RunnerPool.antt and below: internal/service/pool.go. The clients, load counters and probe cache
--   (`Pool`), probing (RunnerPool/Probe), `pickRunner` (RunnerPool/Pick), and the interleaving of
--   picks, sends, ends, closes and looks, and of their parts, as a step relation
--   (RunnerPool/Streams).
-- RagSplit.antt and below: pkg/rag/splitter.go. Sentences and hard cuts (RagSplit/Pieces), merging
--   (RagSplit/Merge), overlap and the whole (RagSplit/Overlap).
-- RunnerRing.antt and below: llm-runner/pool.go. The ring of runners (`Ring` is `Pool`), the choice in
--   turn (`pick_runner`) and the attempts of `SendMessage` (RunnerRing/Send).
-- SummaryCache.antt and below: internal/usecase/history_summary_cache.go. The cache (`SummaryCache` is
--   `historySummaryCache`), the queue it is compared with (SummaryCache/Fifo), runs of calls
--   (SummaryCache/Runs).
-- DropSummary.antt and below: internal/usecase/history_drop_summary.go, around the cache of summaries.
-- PromptBudget.antt and below: internal/usecase/chat_usecase_prompt_assembly.go and
--   chat_usecase_instruction_budget.go, with the counts of what is dropped (PromptBudget/Drops).
-- UploadLimit.antt and below: internal/usecase/put_session_file_rate_limit.go, with what a run of
--   uploads is held to (UploadLimit/Laws) and the times of its windows (UploadLimit/Spaced).
-- ToolText.antt and below: internal/usecase/chat_tool_loop.go, the search for a tool call in an
--   answer: the bracket scanners, the reading of a call (ToolText/Parse), the order of the search
--   (ToolText/Blob).
-- ToolAlias.antt and below: internal/mcpclient/alias.go.
-- ToolNames.antt and below: internal/usecase/chat_tool_loop.go, the names of tools
--   (`resolve_declared_tool_name`) and the limits of the loop (ToolNames/Limits).
-- ToolChains.antt and below: internal/chatui/tool_chain_partition.go.
-- StopStream.antt and below: llm-runner/service/stop_stream.go, with `MergeStopSequences` of
--   llm-runner/service/chat_messages.go.
-- ListCache.antt and below: internal/mcpclient/tools_list_cache.go. A call of `ListToolsCached` is two
--   steps, `ask_tools` before the fetch and `finish_tools` after it; `steps` lets calls and
--   invalidations interleave.
-- SessionPool.antt and below: internal/mcpclient/session_pool.go. `run` of the pool is two steps,
--   `acquire` under the lock of the pool and `run_on` under that of the connection, so that
--   `close_server` may stand between them.
-- IdDict.antt: Go maps with integer keys as association lists.
-- Prelude.antt and below: shared names, Boolean tests, lists, signed numbers.
-- Tests.antt and below: runs at concrete inputs.
--
-- How they interact: a pool picks among the enabled addresses of the registry; the aggregated hints
-- of the registry give the limit to which the history is trimmed, and the rounds of the tool loop. An
-- answer is searched for a call, the call's name is resolved among the declared tools, of which those
-- of an MCP server are declared under aliases. What the trimming drops is summarized, and the
-- cache keeps the summaries; the blocks of documents share what the limit leaves besides the history.
--
-- Bounds and fuel: loops whose end is not plain from their text take fuel, and `none` is that it ran
-- out. The shrinking loop takes any number, since it need not return, and the results say when it does
-- and when it does not. The others take one more than the length of what they walk, and each round
-- that goes on makes that shorter: cutting code points, cutting stops (`strip_from`), fences
-- (`fenced_from`), and tool chains (`consume_from`, `partition_from`). Printing a number takes one more
-- than the number (`decimal_from`). An `int` has 64 bits where a sum can reach that (`add_int`,
-- `add_int64`); elsewhere lengths and counts are far from it. The index of the ring has 32 bits and
-- wraps around.
--
-- Not modelled: decoding of JSON, regular expressions but that of aliases, sorting by length, dialling,
-- the answers of probes and servers, Unicode case mapping and the clock, which are parameters; log
-- lines; what only copies data to the API; the database, the gRPC handlers, the rounds of the tool
-- loop and the tools, the transport of the MCP client, the readers of document formats, the inference
-- in llm-runner, the MCP servers, the client application.
pub mod Prelude
pub mod Text
pub mod Dict
pub mod IdDict
pub mod History
pub mod MdPatch
pub mod Registry
pub mod RunnerPool
pub mod RagSplit
pub mod RunnerRing
pub mod SummaryCache
pub mod UploadLimit
pub mod ToolText
pub mod ToolAlias
pub mod ToolNames
pub mod ToolChains
pub mod StopStream
pub mod ListCache
pub mod SessionPool
pub mod PromptBudget
pub mod DropSummary
pub mod Tests
