-- ===== src/ToolChains/Cover.antt =====
-- internal/chatui/tool_chain_partition.go: the partition returns, and it shows each message once and
-- in order.
use gen_runner.Prelude.{
  ℕ, zero, suc, ◌+◌, ◌-◌, ◌≤◌, ◌<◌, ◌≡◌, refl, sym, ap, ◌∙◌, inl, inr, Option, none, some, List, [],
  ◌∷◌, ◌++◌, append_assoc, append-nil, arith, ◌==◌, Bool-cases, Option-cases, length, get_elem?,
  drop, length-drop,
}
use gen_runner.History.{Messages}
use gen_runner.ToolChains.{
  ToolSegment, ToolChainGroup, PartitionElement, single_index, chain, assistant_has_tool_calls,
  is_assistant, tool_run, end_chain, after_segment, consume_from,
}

-- `k` numbers from `a` on.
abbrev pub range : ℕ → ℕ → List ℕ
range a zero = []
range a (suc k) = a ∷ range (suc a) k

abbrev pub segment_indices : List ToolSegment → List ℕ
segment_indices [] = []
segment_indices (s ∷ segs) =
    s.lead_index ∷ (range s.tool_start (suc s.tool_end - s.tool_start) ++ segment_indices segs)

abbrev pub group_indices : ToolChainGroup → List ℕ
group_indices g =
    segment_indices g.segments ++ elim g.final_assistant_idx [ none ↦ [] | some i ↦ i ∷ [] ]

-- The messages that a list of elements shows.
abbrev pub shown : List PartitionElement → List ℕ
shown [] = []
shown (single_index i ∷ els) = i ∷ shown els
shown (chain g ∷ els) = group_indices g ++ shown els

pub range-append : (a j k : ℕ) → range a (j + k) ≡ range a j ++ range (a + j) k
range-append a zero k =
    let e : 0 + k ≡ k = omega arith in let f : a + 0 ≡ a = omega arith in rw (e, f) refl
range-append a (suc j) k =
    let e : suc j + k ≡ suc (j + k) = omega arith in
    let f : a + suc j ≡ suc a + j = omega arith in
    rw (e, f) (ap (λ (l : List ℕ). a ∷ l) (range-append (suc a) j k))

segment_indices-append :
    (segs : List ToolSegment) (s : ToolSegment)
    → segment_indices (segs ++ s ∷ []) ≡ segment_indices segs ++ segment_indices (s ∷ [])
segment_indices-append [] s = refl
segment_indices-append (t ∷ segs) s =
    ap (λ (l : List ℕ). t.lead_index ∷ l)
      (ap (λ (l : List ℕ). range t.tool_start (suc t.tool_end - t.tool_start) ++ l)
          (segment_indices-append segs s)
        ∙ sym (
            append_assoc (range t.tool_start (suc t.tool_end - t.tool_start)) (segment_indices segs)
              (segment_indices (s ∷ []))))

length-tool_run : (msgs : Messages) → tool_run msgs ≤ length msgs
unfolding tool_run
length-tool_run [] = omega arith
length-tool_run (m ∷ msgs) = ground (arith, length-tool_run msgs)

pub get_elem?-lt : {A : Type 0} (l : List A) (i : ℕ) (a : A) → get_elem? l i ≡ some a → i < length l
get_elem?-lt [] i a h = ground (arith, h)
get_elem?-lt (b ∷ l) zero a h = omega arith
get_elem?-lt (b ∷ l) (suc i) a h = omega (arith, get_elem?-lt l i a h)

pub get_elem?-none : {A : Type 0} (l : List A) (i : ℕ) → get_elem? l i ≡ none → length l ≤ i
get_elem?-none [] i h = omega arith
get_elem?-none (b ∷ l) zero h = ground (arith, h)
get_elem?-none (b ∷ l) (suc i) h = omega (arith, get_elem?-none l i h)

-- A segment with its tools continues the range.
segment_range :
    (segs : List ToolSegment) (start k run : ℕ)
    → segment_indices segs ≡ range start k
    → segment_indices (
        segs
        ++ (record {
          lead_index = start + k;
          tool_start = start + k + 1;
          tool_end = start + k + run;
        })
          ∷ [])
      ≡ range start (k + suc run)
segment_range segs start k run h =
    let e : suc (start + k + run) - (start + k + 1) ≡ run = omega arith in
    let f : start + k + 1 ≡ suc (start + k) = omega arith in
    segment_indices-append segs
      (record { lead_index = start + k; tool_start = start + k + 1; tool_end = start + k + run })
    ∙ rw (h, e, f, append-nil (range (suc (start + k)) run)) (sym (range-append start k (suc run)))

-- What a chain shows, and where the next element starts.
abbrev pub Consumed : Messages → ℕ → Option ToolChainGroup × ℕ → Type 0
Consumed msgs start (none, next) = next ≡ start + 1
Consumed msgs start (some g, next) =
    (start < next) × (next ≤ length msgs) × (group_indices g ≡ range start (next - start))

open_chain-Consumed :
    (msgs : Messages) (segs : List ToolSegment) (start k : ℕ)
    → segment_indices segs ≡ range start (suc k)
    → start + suc k ≤ length msgs
    → Consumed msgs start
        (some (record { segments = segs; final_assistant_idx = none }), start + suc k)
open_chain-Consumed msgs segs start k h l =
    let e : start + suc k - start ≡ suc k = omega arith in
    (omega arith, l, append-nil (segment_indices segs) ∙ rw e h)

closed_chain-Consumed :
    (msgs : Messages) (segs : List ToolSegment) (start k : ℕ)
    → segment_indices segs ≡ range start (suc k)
    → start + suc k < length msgs
    → Consumed msgs start (
      some (record { segments = segs; final_assistant_idx = some (start + suc k) }),
      start + suc k + 1,
    )
closed_chain-Consumed msgs segs start k h l =
    let e : start + suc k + 1 - start ≡ suc k + 1 = omega arith in
    (omega arith, omega (arith, l), rw (h, e) (sym (range-append start (suc k) 1)))

end_chain-Consumed :
    (msgs : Messages) (segs : List ToolSegment) (start k next : ℕ)
    → segment_indices segs ≡ range start k
    → start + k ≤ length msgs
    → (segs ≡ [] → next ≡ start + 1)
    → Consumed msgs start (end_chain segs next (start + k))
unfolding end_chain
end_chain-Consumed msgs [] start k next h l n = n refl
end_chain-Consumed msgs (s ∷ segs) start zero next h l n = ground (arith, h)
end_chain-Consumed msgs (s ∷ segs) start (suc k) next h l n =
    open_chain-Consumed msgs (s ∷ segs) start k h l

after_segment-Consumed :
    (msgs : Messages) (segs : List ToolSegment) (start k : ℕ)
    (continued : Option (Option ToolChainGroup × ℕ))
    → segment_indices segs ≡ range start (suc k)
    → start + suc k ≤ length msgs
    → (start + suc k < length msgs
        → (r : Option ToolChainGroup × ℕ) × (continued ≡ some r) × Consumed msgs start r)
    → (r : Option ToolChainGroup × ℕ) × (after_segment msgs segs (start + suc k) continued ≡ some r)
      × Consumed msgs start r
unfolding after_segment
after_segment-Consumed msgs segs start k continued h l c =
    elim (Option-cases (get_elem? msgs (start + suc k))) [
      | inl e ↦
          let full : length msgs ≡ start + suc k =
            omega (arith, l, get_elem?-none msgs (start + suc k) e) in
          (
            (some (record { segments = segs; final_assistant_idx = none }), start + suc k),
            rw (after_segment, e, full) refl,
            open_chain-Consumed msgs segs start k h l,
          )
      | inr (m, e) ↦ elim (Bool-cases (is_assistant m)) [
        | inr a ↦ (
          (some (record { segments = segs; final_assistant_idx = none }), start + suc k),
          rw (after_segment, e, a) refl,
          open_chain-Consumed msgs segs start k h l,
        )
        | inl a ↦ elim (Bool-cases (assistant_has_tool_calls m)) [
          | inl t ↦
              let (r, f, d) = c (get_elem?-lt msgs (start + suc k) m e) in
              (r, rw (after_segment, e, a, t) f, d)
          | inr t ↦ (
            (
              some (record { segments = segs; final_assistant_idx = some (start + suc k) }),
              start + suc k + 1,
            ),
            rw (after_segment, e, a, t) refl,
            closed_chain-Consumed msgs segs start k h (get_elem?-lt msgs (start + suc k) m e),
          )
        ]
      ]
    ]

no_segments :
    (segs : List ToolSegment) (start k : ℕ)
    → segment_indices segs ≡ range start k
    → segs ≡ []
    → k ≡ 0
no_segments segs start zero h e = refl
no_segments segs start (suc k) h e = ground (arith, h, e)

pub consume_from-Consumed :
    (fuel : ℕ) (msgs : Messages) (start k : ℕ) (segs : List ToolSegment)
    → segment_indices segs ≡ range start k
    → start + k ≤ length msgs
    → length msgs - (start + k) < fuel
    → (r : Option ToolChainGroup × ℕ) × (consume_from fuel msgs start (start + k) segs ≡ some r)
      × Consumed msgs start r
unfolding consume_from
consume_from-Consumed zero msgs start k segs h l f = ground (arith, f)
consume_from-Consumed (suc fuel) msgs start k segs h l f =
    let ended = λ (next : ℕ) (n : segs ≡ [] → next ≡ start + 1).
      end_chain-Consumed msgs segs start k next h l n in
    elim (Option-cases (get_elem? msgs (start + k))) [
      | inl e ↦ (
        end_chain segs (start + 1) (start + k),
        rw (consume_from, e) refl,
        ended (start + 1) (λ z. refl),
      )
      | inr (m, e) ↦ elim (Bool-cases (assistant_has_tool_calls m)) [
        | inr t ↦ (
          end_chain segs (start + 1) (start + k),
          rw (consume_from, e, t) refl,
          ended (start + 1) (λ z. refl),
        )
        | inl t ↦ elim (Bool-cases (tool_run (drop (start + k + 1) msgs) == 0)) [
          | inl z ↦ (
            end_chain segs (start + k + 1) (start + k),
            rw (consume_from, e, t, z) refl,
            ended (start + k + 1) (λ y. omega (arith, no_segments segs start k h y)),
          )
          | inr z ↦
              let run = tool_run (drop (start + k + 1) msgs) in
              let segs' =
                segs
                ++ (record {
                  lead_index = start + k;
                  tool_start = start + k + 1;
                  tool_end = start + k + run;
                })
                  ∷ [] in
              let l' : start + suc (k + run) ≤ length msgs = omega (
                arith,
                get_elem?-lt msgs (start + k) m e,
                length-tool_run (drop (start + k + 1) msgs),
                length-drop (start + k + 1) msgs,
              ) in
              let at : start + k + 1 + run ≡ start + suc (k + run) = omega arith in
              let count : k + suc run ≡ suc (k + run) = omega arith in
              let h' : segment_indices segs' ≡ range start (suc (k + run)) =
                segment_range segs start k run h ∙ ap (range start) count in
              let (r, g, d) =
                after_segment-Consumed msgs segs' start (k + run)
                  (consume_from fuel msgs start (start + suc (k + run)) segs') h' l'
                  (λ x.
                    consume_from-Consumed fuel msgs start (suc (k + run)) segs' h' l'
                      (omega (arith, f, x))) in
              (r, rw (consume_from, e, t, z, at) g, d)
        ]
      ]
    ]
