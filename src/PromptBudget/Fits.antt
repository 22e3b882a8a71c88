-- ===== src/PromptBudget/Fits.antt =====
-- internal/usecase/chat_usecase_instruction_budget.go: the prompt that is put together of what the
-- budget manager leaves.
use gen_runner.Prelude.{
  ℕ, suc, ◌+◌, ◌-◌, ◌*◌, ◌/◌, ◌≤◌, max, ◌≡◌, refl, inl, inr, false, ◌||◌, Option, some, List, [],
  ◌∷◌, ◌++◌, arith, ltb, leb, ◌==◌, leb→le, Bool-cases, length, is_empty, take, All, is_empty-nil,
  length-append, length-take, All-append,
}
use gen_runner.Prelude.Int.{ℤ, pos_part}
use gen_runner.Text.{Text, trim_space}
use gen_runner.Text.Laws.{length-trim_space}
use gen_runner.History.{
  Message, Messages, approximate_message_tokens, attachment_runes, extra_tokens, sum_approx_tokens,
}
use gen_runner.PromptBudget.{
  codes, DocumentContextBlock, document_context_hierarchy_instruction,
  format_document_context_block, block_title, document_blocks, system_message,
  build_document_context_system_message, if_present, assemble_prompt_messages, no_drops,
  budget_notice, truncate_document_context_body, BudgetState, place_truncated, place_block,
  place_blocks, preserve_output_tokens, apply_instruction_safe_budget_manager,
}

length-format_document_context_block :
    (title body : Text)
    → length (format_document_context_block title body) ≡ length title + length body + 7
unfolding format_document_context_block
length-format_document_context_block title body = omega (
  arith,
  length-append title (codes "\n" ++ (body ++ codes "\n\n")),
  length-append body (codes "\n\n"),
)

-- A cut body is within its budget, if the budget has room for the notice.
length-truncate_document_context_body :
    (body : Text) (n : ℕ) → 80 ≤ n → length ((truncate_document_context_body body n).0) ≤ n
unfolding truncate_document_context_body
length-truncate_document_context_body body n l =
    let keep = n - length budget_notice in
    let zero_no : (n == 0) ≡ false = ground (arith, l) in
    elim (Bool-cases (leb (length body) n)) [
      | inl e ↦ rw (truncate_document_context_body, zero_no, e) (leb→le (length body) n e)
      | inr e ↦
          rw (truncate_document_context_body, zero_no, e)
            (omega (arith, length-append (take keep body) budget_notice, length-take keep body, l))
    ]

-- The runes of the blocks, with their titles as they are.
abbrev block_runes : List DocumentContextBlock → ℕ
block_runes [] = 0
block_runes (b ∷ bs) =
    length (format_document_context_block (trim_space b.title) (trim_space b.body)) + block_runes bs

block_runes-append :
    (xs ys : List DocumentContextBlock) → block_runes (xs ++ ys) ≡ block_runes xs + block_runes ys
block_runes-append [] ys = omega arith
block_runes-append (b ∷ xs) ys = omega (arith, block_runes-append xs ys)

abbrev pub IsTitled : DocumentContextBlock → Type 0
IsTitled b = is_empty (trim_space b.title) ≡ false

-- What is kept has no more runes than are used, and no more are used than are available.
abbrev IsWithin : ℕ → BudgetState → Type 0
IsWithin available st =
    (block_runes st.out ≤ st.used_runes) × (st.used_runes ≤ available) × All IsTitled st.out

place_truncated-IsWithin :
    (available : ℕ) (st : BudgetState) (b : DocumentContextBlock)
    → length (format_document_context_block (trim_space b.title) []) + 80
      ≤ available - st.used_runes
    → IsTitled b
    → IsWithin available st
    → IsWithin available (place_truncated (available - st.used_runes) st b)
unfolding place_truncated
place_truncated-IsWithin available st b l t (u, a, h) =
    let title = trim_space b.title in
    let heading = length (format_document_context_block title []) in
    let n = (available - st.used_runes) - heading in
    let new_body = (truncate_document_context_body (trim_space b.body) n).0 in
    let new = record b { body = new_body } in
    elim (Bool-cases (is_empty (trim_space new_body))) [
      | inl e ↦ rw (place_truncated, e) (u, a, h)
      | inr e ↦
          rw (place_truncated, e)
            (
              omega (
                arith,
                block_runes-append st.out (new ∷ []),
                length-format_document_context_block title new_body,
                length-format_document_context_block title (trim_space new_body),
                length-trim_space new_body,
                u,
              ),
              omega (
                arith,
                length-truncate_document_context_body (trim_space b.body) n (omega (arith, l)),
                length-format_document_context_block title new_body,
                length-format_document_context_block title [],
                l,
                a,
              ),
              All-append IsTitled st.out (new ∷ []) h (t, tt),
            )
    ]

place_block-IsWithin :
    (available : ℕ) (st : BudgetState) (b : DocumentContextBlock)
    → IsTitled b
    → IsWithin available st
    → IsWithin available (place_block available st b)
unfolding place_block
place_block-IsWithin available st b t (u, a, h) =
    let title = trim_space b.title in
    let body = trim_space b.body in
    let room = available - st.used_runes in
    let heading = length (format_document_context_block title []) in
    let needed = length (format_document_context_block title body) in
    elim (Bool-cases (is_empty body)) [
      | inl e ↦ rw (place_block, e) (u, a, h)
      | inr e ↦ elim (Bool-cases (leb (st.used_runes + needed) available)) [
        | inl f ↦
            rw (place_block, e, f)
              (
                omega (arith, block_runes-append st.out (b ∷ []), u),
                leb→le (st.used_runes + needed) available f,
                All-append IsTitled st.out (b ∷ []) h (t, tt),
              )
        | inr f ↦ elim (Bool-cases (ltb room 180 || ltb room (heading + 80))) [
          | inl g ↦ rw (place_block, e, f, g) (u, a, h)
          | inr g ↦
              rw (place_block, e, f, g)
                (place_truncated-IsWithin available st b (ground (arith, g)) t (u, a, h))
        ]
      ]
    ]

place_blocks-IsWithin :
    (available : ℕ) (st : BudgetState) (bs : List DocumentContextBlock)
    → All IsTitled bs
    → IsWithin available st
    → IsWithin available (place_blocks available st bs)
unfolding place_blocks
place_blocks-IsWithin available st [] t h = h
place_blocks-IsWithin available st (b ∷ bs) t h =
    place_blocks-IsWithin available (place_block available st b) bs t.1
      (place_block-IsWithin available st b t.0 h)

block_title_lem : (i : ℕ) (title : Text) → is_empty title ≡ false → block_title i title ≡ title
unfolding block_title
block_title_lem i title h = rw (block_title, h) refl

length-document_blocks :
    (i : ℕ) (bs : List DocumentContextBlock)
    → All IsTitled bs
    → length (document_blocks i bs) ≤ block_runes bs
unfolding document_blocks
length-document_blocks i [] h = omega arith
length-document_blocks i (b ∷ bs) (t, h) =
    let title = trim_space b.title in
    let body = trim_space b.body in
    elim (Bool-cases (is_empty body)) [
      | inl e ↦ rw e (omega (arith, length-document_blocks (suc i) bs h))
      | inr e ↦
          rw (e, block_title_lem i title t)
            (omega (
              arith,
              length-append (format_document_context_block title body) (document_blocks (suc i) bs),
              length-document_blocks (suc i) bs h,
            ))
    ]

module _ (lower : ℕ → ℕ) where
  approximate_message_tokens-system_message :
      (content : Text)
      → approximate_message_tokens lower (some (system_message content)) ≡ length content / 4 + 6
  unfolding approximate_message_tokens attachment_runes extra_tokens
  approximate_message_tokens-system_message content = ground arith

  sum_approx_tokens-append :
      (xs ys : Messages)
      → sum_approx_tokens lower (xs ++ ys) ≡ sum_approx_tokens lower xs + sum_approx_tokens lower ys
  unfolding sum_approx_tokens
  sum_approx_tokens-append [] ys = omega arith
  sum_approx_tokens-append (m ∷ xs) ys = omega (arith, sum_approx_tokens-append xs ys)

  abbrev document_tokens : List DocumentContextBlock → ℕ
  document_tokens bs =
      sum_approx_tokens lower (if_present (build_document_context_system_message bs))

  document_tokens-none : document_tokens [] ≡ 0
  unfolding build_document_context_system_message if_present sum_approx_tokens
  document_tokens-none = refl

  document_tokens_bound :
      (bs : List DocumentContextBlock)
      → All IsTitled bs
      → document_tokens bs
        ≤ (length document_context_hierarchy_instruction + 2 + block_runes bs) / 4 + 6
  unfolding build_document_context_system_message if_present sum_approx_tokens
  document_tokens_bound bs h =
      let blocks = document_blocks 0 bs in
      let raw = document_context_hierarchy_instruction ++ (codes "\n\n" ++ blocks) in
      let text = trim_space raw in
      elim (Bool-cases (is_empty bs)) [
        | inl e ↦ rw (build_document_context_system_message, e) (omega arith)
        | inr e ↦ elim (Bool-cases (is_empty text)) [
          | inl f ↦ rw (build_document_context_system_message, e, f) (omega arith)
          | inr f ↦
              rw (build_document_context_system_message, e, f)
                (omega (
                  arith,
                  approximate_message_tokens-system_message text,
                  length-trim_space raw,
                  length-append document_context_hierarchy_instruction (codes "\n\n" ++ blocks),
                  length-document_blocks 0 bs h,
                ))
        ]
      ]

  assemble_lem :
      (system_policy : Option Message) (history : Messages) (user_instruction : Option Message)
      (bs : List DocumentContextBlock)
      → sum_approx_tokens lower (assemble_prompt_messages system_policy history user_instruction bs)
        ≡ sum_approx_tokens lower
            (assemble_prompt_messages system_policy history user_instruction [])
          + document_tokens bs
  unfolding assemble_prompt_messages
  assemble_lem s hs u bs =
      let doc = if_present (build_document_context_system_message bs) in
      let nodoc = if_present (build_document_context_system_message []) in
      omega (
        arith,
        sum_approx_tokens-append (if_present s) (hs ++ (doc ++ if_present u)),
        sum_approx_tokens-append hs (doc ++ if_present u),
        sum_approx_tokens-append doc (if_present u),
        sum_approx_tokens-append (if_present s) (hs ++ (nodoc ++ if_present u)),
        sum_approx_tokens-append hs (nodoc ++ if_present u),
        sum_approx_tokens-append nodoc (if_present u),
        document_tokens-none,
      )

  -- The estimate of a prompt with the blocks that the manager leaves is not over the limit, unless the
  -- prompt without any block is, which it then does not exceed; this for a limit that is positive and
  -- blocks whose titles are not blank.
  pub sum_approx_tokens-assemble_prompt_messages :
      (max_tok : ℤ) (system_policy : Option Message) (history : Messages)
      (user_instruction : Option Message) (blocks : List DocumentContextBlock)
      → 1 ≤ pos_part max_tok
      → All IsTitled blocks
      → let kept =
          (apply_instruction_safe_budget_manager lower max_tok system_policy history
            user_instruction blocks).0 in
        sum_approx_tokens lower
          (assemble_prompt_messages system_policy history user_instruction kept)
        ≤ max
            (sum_approx_tokens lower
              (assemble_prompt_messages system_policy history user_instruction []))
            (pos_part max_tok)
  unfolding apply_instruction_safe_budget_manager
  sum_approx_tokens-assemble_prompt_messages max_tok s hs u blocks l h =
      let base = sum_approx_tokens lower (assemble_prompt_messages s hs u []) in
      let room = pos_part max_tok - (base + preserve_output_tokens) in
      let available = room * 2 - length document_context_hierarchy_instruction in
      let start : BudgetState = record { out = []; used_runes = 0; metrics = no_drops } in
      let st = place_blocks available start blocks in
      let limited : leb (pos_part max_tok) 0 ≡ false = ground (arith, l) in
      elim (Bool-cases (is_empty blocks)) [
        | inl e ↦ rw (apply_instruction_safe_budget_manager, e, is_empty-nil blocks e) (omega arith)
        | inr e ↦ elim (Bool-cases (leb room 0 || leb available 0)) [
          | inl f ↦ rw (apply_instruction_safe_budget_manager, e, limited, f) (omega arith)
          | inr f ↦
              let (r, a, t) =
                place_blocks-IsWithin available start blocks h (omega arith, omega arith, tt) in
              let some_room : 1 ≤ available = ground (arith, f) in
              rw (apply_instruction_safe_budget_manager, e, limited, f)
                (omega (
                  arith,
                  assemble_lem s hs u st.out,
                  document_tokens_bound st.out t,
                  r,
                  a,
                  some_room,
                ))
        ]
      ]
