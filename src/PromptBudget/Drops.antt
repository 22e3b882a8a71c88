-- ===== src/PromptBudget/Drops.antt =====
-- internal/usecase/chat_usecase_instruction_budget.go: the counts of what is dropped.
use gen_runner.Prelude.{
  ℕ, ◌+◌, ◌-◌, ◌*◌, ◌≡◌, refl, inl, inr, ◌||◌, Option, none, some, List, [], ◌∷◌, arith, ltb, leb,
  if◌then◌else◌, Bool-cases, Option-cases, length, is_empty,
}
use gen_runner.Prelude.Int.{ℤ, pos_part}
use gen_runner.Text.{text_eq, Text}
use gen_runner.Dict.{Dict, lookup, insert}
use gen_runner.History.{sum_approx_tokens, Message, Messages}
use gen_runner.PromptBudget.{
  document_context_hierarchy_instruction, preserve_output_tokens, assemble_prompt_messages, codes,
  format_document_context_block, trim_space, DocumentContextBlock, Metrics, no_drops, add_count,
  add_drop, truncate_document_context_body, BudgetState, place_truncated, place_block, place_blocks,
  drop_all, apply_instruction_safe_budget_manager,
}

abbrev total : Dict ℕ → ℕ
total [] = 0
total ((k, n) ∷ m) = n + total m

total-insert_new :
    (k : Text) (n : ℕ) (m : Dict ℕ) → lookup k m ≡ none → total (insert k n m) ≡ n + total m
unfolding lookup insert
total-insert_new k n [] h = refl
total-insert_new k n ((j, v) ∷ m) h = elim (Bool-cases (text_eq j k)) [
  | inl e ↦ ground (arith, e, h)
  | inr e ↦
      let h' : lookup k m ≡ none = ground (arith, e, h) in
      rw e (omega (arith, total-insert_new k n m h'))
]

total-insert_old :
    (k : Text) (n old : ℕ) (m : Dict ℕ)
    → lookup k m ≡ some old
    → total (insert k (old + n) m) ≡ n + total m
unfolding lookup insert
total-insert_old k n old [] h = ground (arith, h)
total-insert_old k n old ((j, v) ∷ m) h = elim (Bool-cases (text_eq j k)) [
  | inl e ↦ let v_eq : v ≡ old = ground (arith, e, h) in rw e (omega (arith, v_eq))
  | inr e ↦
      let h' : lookup k m ≡ some old = ground (arith, e, h) in
      rw e (omega (arith, total-insert_old k n old m h'))
]

total-add_count : (k : Text) (n : ℕ) (m : Dict ℕ) → total (add_count k n m) ≡ n + total m
unfolding add_count
total-add_count k n m = elim (Option-cases (lookup k m)) [
  | inl e ↦ rw (add_count, e) (total-insert_new k n m e)
  | inr (old, e) ↦ rw (add_count, e) (total-insert_old k n old m e)
]

-- The counts by file and by source add up to the total.
abbrev IsBalanced : Metrics → Type 0
IsBalanced m =
    (total m.dropped_runes_by_file ≡ m.dropped_runes_total)
    × (total m.dropped_runes_by_source ≡ m.dropped_runes_total)

add_drop-IsBalanced :
    (m : Metrics) (b : DocumentContextBlock) (n : ℕ) → IsBalanced m → IsBalanced (add_drop m b n)
unfolding add_drop
add_drop-IsBalanced m b n (f, s) =
    let source_file = trim_space b.source_file in
    let file = if is_empty source_file then trim_space b.title else source_file in
    let source_type = trim_space b.source_type in
    let src = if is_empty source_type then codes "unknown" else source_type in
    elim (Bool-cases (leb n 0)) [
      | inl e ↦ rw (add_drop, e) (f, s)
      | inr e ↦
          rw (add_drop, e)
            (
              omega (arith, total-add_count file n m.dropped_runes_by_file, f),
              omega (arith, total-add_count src n m.dropped_runes_by_source, s),
            )
    ]

place_truncated-IsBalanced :
    (room : ℕ) (st : BudgetState) (b : DocumentContextBlock)
    → IsBalanced st.metrics
    → IsBalanced (place_truncated room st b).metrics
unfolding place_truncated
place_truncated-IsBalanced room st b h =
    let body = trim_space b.body in
    let n = room - length (format_document_context_block (trim_space b.title) []) in
    let (new_body, dropped) = truncate_document_context_body body n in
    elim (Bool-cases (is_empty (trim_space new_body))) [
      | inl e ↦ rw (place_truncated, e) (add_drop-IsBalanced st.metrics b (length body) h)
      | inr e ↦
          rw (place_truncated, e)
            (add_drop-IsBalanced st.metrics (record b { body = new_body }) dropped h)
    ]

place_block-IsBalanced :
    (available : ℕ) (st : BudgetState) (b : DocumentContextBlock)
    → IsBalanced st.metrics
    → IsBalanced (place_block available st b).metrics
unfolding place_block
place_block-IsBalanced available st b h =
    let title = trim_space b.title in
    let body = trim_space b.body in
    let room = available - st.used_runes in
    let small = ltb room 180 || ltb room (length (format_document_context_block title []) + 80) in
    elim (Bool-cases (is_empty body)) [
      | inl e ↦ rw (place_block, e) h
      | inr e ↦
          elim (Bool-cases
            (leb (st.used_runes + length (format_document_context_block title body)) available)) [
              | inl f ↦ rw (place_block, e, f) h
              | inr f ↦ elim (Bool-cases small) [
                | inl g ↦
                    rw (place_block, e, f, g) (add_drop-IsBalanced st.metrics b (length body) h)
                | inr g ↦ rw (place_block, e, f, g) (place_truncated-IsBalanced room st b h)
              ]
            ]
    ]

place_blocks-IsBalanced :
    (available : ℕ) (st : BudgetState) (bs : List DocumentContextBlock)
    → IsBalanced st.metrics
    → IsBalanced (place_blocks available st bs).metrics
unfolding place_blocks
place_blocks-IsBalanced available st [] h = h
place_blocks-IsBalanced available st (b ∷ bs) h =
    place_blocks-IsBalanced available (place_block available st b) bs
      (place_block-IsBalanced available st b h)

drop_all-IsBalanced :
    (m : Metrics) (bs : List DocumentContextBlock) → IsBalanced m → IsBalanced (drop_all m bs)
unfolding drop_all
drop_all-IsBalanced m [] h = h
drop_all-IsBalanced m (b ∷ bs) h =
    drop_all-IsBalanced (add_drop m b (length b.body)) bs
      (add_drop-IsBalanced m b (length b.body) h)

-- Whatever the manager drops, the counts by file and the counts by source both add up to the total of
-- the dropped runes.
apply_instruction_safe_budget_manager-IsBalanced :
    (lower : ℕ → ℕ) (max_tok : ℤ) (system_policy : Option Message) (history : Messages)
    (user_instruction : Option Message) (blocks : List DocumentContextBlock)
    → IsBalanced
        (apply_instruction_safe_budget_manager lower max_tok system_policy history user_instruction
          blocks).1
unfolding apply_instruction_safe_budget_manager
apply_instruction_safe_budget_manager-IsBalanced lower max_tok s hs u blocks =
    let base = sum_approx_tokens lower (assemble_prompt_messages s hs u []) in
    let room = pos_part max_tok - (base + preserve_output_tokens) in
    let available = room * 2 - length document_context_hierarchy_instruction in
    let start : BudgetState = record { out = []; used_runes = 0; metrics = no_drops } in
    elim (Bool-cases (is_empty blocks || leb (pos_part max_tok) 0)) [
      | inl e ↦ rw (apply_instruction_safe_budget_manager, e) (refl, refl)
      | inr e ↦ elim (Bool-cases (leb room 0 || leb available 0)) [
        | inl f ↦
            rw (apply_instruction_safe_budget_manager, e, f)
              (drop_all-IsBalanced no_drops blocks (refl, refl))
        | inr f ↦
            rw (apply_instruction_safe_budget_manager, e, f)
              (place_blocks-IsBalanced available start blocks (refl, refl))
      ]
    ]
