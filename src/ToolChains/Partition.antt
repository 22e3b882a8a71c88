-- ===== src/ToolChains/Partition.antt =====
-- internal/chatui/tool_chain_partition.go: the elements in a row show the messages, each once.
use gen_runner.Prelude.{
  ℕ, zero, suc, ◌+◌, ◌-◌, ◌≤◌, ◌<◌, ◌≡◌, refl, sym, ap, ◌∙◌, inl, inr, Option, none, some, List, [],
  ◌∷◌, ◌++◌, arith, if◌then◌else◌, Bool-cases, Option-cases, length, get_elem?,
}
use gen_runner.History.{Message, Messages}
use gen_runner.ToolChains.{
  ToolChainGroup, PartitionElement, single_index, chain, assistant_has_tool_calls, consume_from,
  consume_tool_chain, partition_from, partition_messages_for_tool_chain_ui,
}
use gen_runner.ToolChains.Cover.{
  range, shown, Consumed, range-append, get_elem?-lt, get_elem?-none, consume_from-Consumed,
}

abbrev Partitioned : ℕ → Messages → ℕ → Type 0
Partitioned fuel msgs i =
    (els : List PartitionElement) × (partition_from fuel msgs i ≡ some els)
    × (shown els ≡ range i (length msgs - i))

-- One element and the rest.
abbrev element : ℕ → Option ToolChainGroup → PartitionElement
element i group = elim group [ none ↦ single_index i | some g ↦ chain g ]

shown-element :
    (msgs : Messages) (i : ℕ) (group : Option ToolChainGroup) (next : ℕ)
    (els : List PartitionElement)
    → i < length msgs
    → Consumed msgs i (group, next)
    → shown els ≡ range next (length msgs - next)
    → shown (element i group ∷ els) ≡ range i (length msgs - i)
shown-element msgs i none next els l c h =
    let e : length msgs - i ≡ suc (length msgs - next) = omega (arith, l, c) in
    let f : next ≡ suc i = omega (arith, c) in
    rw e (ap (λ (s : List ℕ). i ∷ s) (h ∙ ap (λ n. range n (length msgs - next)) f))
shown-element msgs i (some g) next els l (a, b, c) h =
    let e : length msgs - i ≡ next - i + (length msgs - next) = omega (arith, a, b) in
    let f : i + (next - i) ≡ next = omega (arith, a) in
    rw (c, h, e)
      (sym (
        range-append i (next - i) (length msgs - next)
        ∙ ap (λ n. range i (next - i) ++ range n (length msgs - next)) f))

next_lem :
    (msgs : Messages) (i : ℕ) (group : Option ToolChainGroup) (next : ℕ)
    → i < length msgs
    → Consumed msgs i (group, next)
    → (i < next) × (next ≤ length msgs)
next_lem msgs i none next l c = (omega (arith, c), omega (arith, l, c))
next_lem msgs i (some g) next l (a, b, c) = (a, b)

consumed_lem :
    (msgs : Messages) (i : ℕ) (m : Option Message)
    → i < length msgs
    → (r : Option ToolChainGroup × ℕ) × ((if assistant_has_tool_calls m
          then consume_tool_chain msgs i
          else some (none, i + 1))
        ≡ some r)
      × Consumed msgs i r
unfolding consume_tool_chain
consumed_lem msgs i m l = elim (Bool-cases (assistant_has_tool_calls m)) [
  | inl t ↦
      let e : i ≡ i + 0 = omega arith in
      let (r, f, d) =
        consume_from-Consumed (suc (length msgs)) msgs i 0 [] refl (omega (arith, l))
          (omega arith) in
      (r, rw t (ap (λ n. consume_from (suc (length msgs)) msgs i n []) e ∙ f), d)
  | inr t ↦ ((none, i + 1), rw t refl, refl)
]

partition_from-Partitioned :
    (fuel : ℕ) (msgs : Messages) (i : ℕ)
    → i ≤ length msgs
    → length msgs - i < fuel
    → Partitioned fuel msgs i
unfolding partition_from
partition_from-Partitioned zero msgs i l f = ground (arith, f)
partition_from-Partitioned (suc fuel) msgs i l f = elim (Option-cases (get_elem? msgs i)) [
  | inl e ↦
      let z : length msgs - i ≡ 0 = omega (arith, get_elem?-none msgs i e) in
      ([], rw (partition_from, e) refl, rw z refl)
  | inr (m, e) ↦
      let at = get_elem?-lt msgs i m e in
      let ((group, next), g, d) = consumed_lem msgs i m at in
      let (up, within) = next_lem msgs i group next at d in
      let (els, h, s) =
        partition_from-Partitioned fuel msgs next within (omega (arith, f, up, at)) in
      (
        element i group ∷ els,
        rw (partition_from, e, g, h) refl,
        shown-element msgs i group next els at d s,
      )
]

-- The partition of any messages returns, and the messages that its elements show, one after the
-- other, are all messages, each once and in order.
pub shown-partition_messages_for_tool_chain_ui :
    (msgs : Messages)
    → (els : List PartitionElement) × (partition_messages_for_tool_chain_ui msgs ≡ some els)
      × (shown els ≡ range 0 (length msgs))
unfolding partition_messages_for_tool_chain_ui
shown-partition_messages_for_tool_chain_ui msgs =
    let e : length msgs - 0 ≡ length msgs = omega arith in
    let (els, p, s) =
      partition_from-Partitioned (suc (length msgs)) msgs 0 (omega arith) (omega arith) in
    (els, p, s ∙ ap (range 0) e)
