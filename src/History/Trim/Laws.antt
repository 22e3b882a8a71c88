-- ===== src/History/Trim/Laws.antt =====
-- internal/usecase/llm_history_tokens.go: what trimming keeps and drops.
use gen_runner.Prelude.{
  ℕ, ◌+◌, ◌-◌, ◌≤◌, ◌<◌, ◌≡◌, refl, ◌∙◌, ◌⊎◌, inl, inr, Bool, true, false, Option, none, some, [],
  ◌∷◌, ◌++◌, append_assoc, append-nil, arith, ltb, leb, ◌==◌, if◌then◌else◌, lt→ltb, leb→le, le→leb,
  lt→leb_false, le→ltb_false, Bool-cases, Option-cases, length, All, length-append,
  take-append_left, drop-append_left,
}
use gen_runner.Prelude.Int.{ℤ, pos_part}
use native.Mathlib.Decide.{dec_le}
use gen_runner.History.{Message, Messages, approximate_message_tokens, sum_approx_tokens}
use gen_runner.History.Trim.{
  Trimmed, Outcome, done, Rest, unchanged, finish_trim, is_pair, drop_loop, trim_middle,
  trim_with_dropped,
}

pub lt→ne_zero : {n : ℕ} → 0 < n → (n == 0) ≡ false
lt→ne_zero h = ground arith

-- No nil pointer.
abbrev pub IsPresent : Option Message → Type 0
IsPresent none = ⊥
IsPresent (some m) = Unit

module _ (lower : ℕ → ℕ) where
  -- What the loop returns: what it dropped, followed by what is left, is what it was given; the
  -- flag says whether it dropped anything; and it stops when the total fits or nothing is left.
  abbrev pub Split : ℕ → ℕ → Messages → Messages → Option Rest → Type 0
  Split budget others middle dropped none = ⊥
  Split budget others middle dropped (some r) =
      (r.dropped ++ r.middle ≡ dropped ++ middle)
      × ((sum_approx_tokens lower r.middle + others ≤ budget) ⊎ (r.middle ≡ []))

  is_pair_total :
      (m n : Option Message) → IsPresent m → IsPresent n → (b : Bool) × (is_pair lower m n ≡ some b)
  unfolding is_pair
  is_pair_total none n h k = absurd h
  is_pair_total (some m) none h k = absurd k
  is_pair_total (some m) (some n) h k = elim (Option-cases (is_pair lower (some m) (some n))) [
    | inl e ↦ absurd (ground (arith, e))
    | inr b ↦ b
  ]

  Split-if :
      (budget others : ℕ) (middle dropped : Messages) (b : Bool) (x y : Option Rest)
      → Split budget others middle dropped x
      → Split budget others middle dropped y
      → Split budget others middle dropped (if b then x else y)
  Split-if budget others middle dropped true x y p q = p
  Split-if budget others middle dropped false x y p q = q

  Split-shift :
      (budget others : ℕ) (middle middle' dropped dropped' : Messages) (r : Option Rest)
      → Split budget others middle' dropped' r
      → dropped' ++ middle' ≡ dropped ++ middle
      → Split budget others middle dropped r
  Split-shift budget others middle middle' dropped dropped' none s e = s
  Split-shift budget others middle middle' dropped dropped' (some r) s e = (s.0 ∙ e, s.1)

  drop_loop-Split :
      (budget others total : ℕ) (middle dropped : Messages) (trimmed : Bool)
      → All IsPresent middle
      → total ≡ sum_approx_tokens lower middle + others
      → Split budget others middle dropped (drop_loop lower budget middle total dropped trimmed)
  unfolding drop_loop sum_approx_tokens
  drop_loop-Split budget others total [] dropped trimmed h e = (refl, inr refl)
  drop_loop-Split budget others total (m ∷ []) dropped trimmed h e =
      elim (Bool-cases (leb total budget)) [
        | inl c ↦ rw c (refl, inl (omega (arith, leb→le _ _ c)))
        | inr c ↦ rw c (append-nil (dropped ++ m ∷ []), inr refl)
      ]
  drop_loop-Split budget others total (m ∷ n ∷ rest) dropped trimmed h e =
      elim (Bool-cases (leb total budget)) [
        | inl c ↦ rw c (refl, inl (omega (arith, leb→le _ _ c)))
        | inr c ↦
            let (both, p) = is_pair_total m n h.0 h.1.0 in
            let d = dropped ++ m ∷ [] in
            let total₁ = total - approximate_message_tokens lower m in
            let pair =
              drop_loop-Split budget others (total₁ - approximate_message_tokens lower n) rest
                (d ++ n ∷ []) true h.1.1 (omega arith) in
            let single = drop_loop-Split budget others total₁ (n ∷ rest) d true h.1 (omega arith) in
            rw (c, p)
              (Split-if budget others (m ∷ n ∷ rest) dropped both _ _
                (Split-shift budget others (m ∷ n ∷ rest) rest dropped (d ++ n ∷ []) _ pair
                  (simp append_assoc))
                (Split-shift budget others (m ∷ n ∷ rest) (n ∷ rest) dropped d _ single
                  (simp append_assoc)))
      ]

  abbrev Flag : Option Rest → Type 0
  Flag none = Unit
  Flag (some r) = r.trimmed ≡ true

  Flag-if :
      (o : Option Bool) (x y : Option Rest)
      → Flag x
      → Flag y
      → Flag (elim o [ none ↦ none | some both ↦ if both then x else y ])
  Flag-if none x y p q = tt
  Flag-if (some true) x y p q = p
  Flag-if (some false) x y p q = q

  drop_loop-Flag :
      (budget total : ℕ) (middle dropped : Messages)
      → Flag (drop_loop lower budget middle total dropped true)
  unfolding drop_loop
  drop_loop-Flag budget total [] dropped = refl
  drop_loop-Flag budget total (m ∷ []) dropped = elim (Bool-cases (leb total budget)) [
    | inl c ↦ rw c refl
    | inr c ↦ rw c refl
  ]
  drop_loop-Flag budget total (m ∷ n ∷ rest) dropped = elim (Bool-cases (leb total budget)) [
    | inl c ↦ rw c refl
    | inr c ↦
        let total₁ = total - approximate_message_tokens lower m in
        let total₂ = total₁ - approximate_message_tokens lower n in
        let dropped₁ = dropped ++ m ∷ [] in
        let dropped₂ = dropped₁ ++ n ∷ [] in
        rw c (
          Flag-if (is_pair lower m n) _ _ (drop_loop-Flag budget total₂ rest dropped₂)
            (drop_loop-Flag budget total₁ (n ∷ rest) dropped₁))
  ]

  drop_loop-Flag_over :
      (budget total : ℕ) (m : Option Message) (middle dropped : Messages)
      → budget < total
      → Flag (drop_loop lower budget (m ∷ middle) total dropped false)
  unfolding drop_loop
  drop_loop-Flag_over budget total m [] dropped h = rw (lt→leb_false _ _ h) refl
  drop_loop-Flag_over budget total m (n ∷ rest) dropped h =
      let total₁ = total - approximate_message_tokens lower m in
      let total₂ = total₁ - approximate_message_tokens lower n in
      let dropped₁ = dropped ++ m ∷ [] in
      let dropped₂ = dropped₁ ++ n ∷ [] in
      rw (lt→leb_false _ _ h) (
        Flag-if (is_pair lower m n) _ _ (drop_loop-Flag budget total₂ rest dropped₂)
          (drop_loop-Flag budget total₁ (n ∷ rest) dropped₁))

  pub sum-append :
      (xs ys : Messages)
      → sum_approx_tokens lower (xs ++ ys) ≡ sum_approx_tokens lower xs + sum_approx_tokens lower ys
  unfolding sum_approx_tokens
  sum-append [] ys = omega arith
  sum-append (x ∷ xs) ys = omega (arith, sum-append xs ys)

  -- The first message stays, then what is left of the middle, then the tail. What was dropped is
  -- the front of the middle, in order; and unless the whole middle is gone the budget holds.
  abbrev pub Keeps : ℕ → Option Message → Messages → Messages → Outcome → Type 0
  Keeps budget system middle tail o =
      (t : Trimmed) × (kept : Messages) × (o ≡ done t)
      × (t.messages ≡ system ∷ (kept ++ tail))
      × (t.dropped ++ kept ≡ middle)
      × (t.trimmed ≡ ltb budget (sum_approx_tokens lower (system ∷ (middle ++ tail))))
      × ((sum_approx_tokens lower t.messages ≤ budget) ⊎ (kept ≡ []))
      × ((t.trimmed ≡ true) ⊎ (kept ≡ middle))

  total_split :
      (system : Option Message) (middle tail : Messages)
      → approximate_message_tokens lower system
          + sum_approx_tokens lower middle
          + sum_approx_tokens lower tail
        ≡ sum_approx_tokens lower middle
          + (approximate_message_tokens lower system + sum_approx_tokens lower tail)
  total_split system middle tail = omega arith

  total_lem :
      (system : Option Message) (middle tail : Messages)
      → sum_approx_tokens lower (system ∷ (middle ++ tail))
        ≡ approximate_message_tokens lower system
          + sum_approx_tokens lower middle
          + sum_approx_tokens lower tail
  unfolding sum_approx_tokens
  total_lem system middle tail = omega (arith, sum-append middle tail)

  unchanged-Keeps :
      (budget : ℕ) (system : Option Message) (others middle tail : Messages)
      → middle ++ tail ≡ others
      → sum_approx_tokens lower (system ∷ (middle ++ tail)) ≤ budget
      → Keeps budget system middle tail (unchanged (system ∷ others))
  unchanged-Keeps budget system others middle tail e fits = (
    record { messages = system ∷ others; trimmed = false; dropped = [] },
    middle,
    refl,
    rw e,
    refl,
    rw (le→ltb_false _ _ fits),
    inl (rw e at fits),
    inr refl,
  )

  finish_trim-Keeps :
      (budget : ℕ) (system : Option Message) (others middle tail : Messages) (r : Option Rest)
      → budget < sum_approx_tokens lower (system ∷ (middle ++ tail))
      → Split budget
          (approximate_message_tokens lower system + sum_approx_tokens lower tail)
          middle
          []
          r
      → Flag r
      → Keeps budget system middle tail (finish_trim system others tail r)
  unfolding finish_trim sum_approx_tokens
  finish_trim-Keeps budget system others middle tail none over s f = absurd s
  finish_trim-Keeps budget system others middle tail (some r) over s f = (
    record { messages = system ∷ (r.middle ++ tail); trimmed = true; dropped = r.dropped },
    r.middle,
    rw f,
    refl,
    s.0,
    rw (lt→ltb _ _ over),
    elim (s.1) [ inl fits ↦ inl (omega (arith, sum-append r.middle tail)) | inr e ↦ inr e ],
    inl refl,
  )

  trim_middle-Keeps :
      (budget : ℕ) (system m : Option Message) (middle tail : Messages)
      → All IsPresent (m ∷ middle)
      → Keeps budget system
          (m ∷ middle)
          tail
          (trim_middle lower budget (length tail) (system ∷ ((m ∷ middle) ++ tail)))
  unfolding trim_middle
  trim_middle-Keeps budget system m middle tail h =
      let others = (m ∷ middle) ++ tail in
      let e : length others - length tail ≡ length (m ∷ middle) =
        omega (arith, length-append (m ∷ middle) tail) in
      let total =
        approximate_message_tokens lower system
        + sum_approx_tokens lower (m ∷ middle)
        + sum_approx_tokens lower tail in
      let same : sum_approx_tokens lower (system ∷ others) ≡ total =
        total_lem system (m ∷ middle) tail in
      rw (e, take-append_left (m ∷ middle) tail, drop-append_left (m ∷ middle) tail)
        (elim (dec_le total budget) [
          | yes fits ↦
              rw (le→leb _ _ fits)
                (unchanged-Keeps budget system others (m ∷ middle) tail refl (omega arith))
          | no over ↦ rw (lt→leb_false total budget (omega arith)) (
              finish_trim-Keeps budget system others (m ∷ middle) tail _ (omega arith)
                (drop_loop-Split budget _ total (m ∷ middle) [] false h
                  (total_split system (m ∷ middle) tail))
                (drop_loop-Flag_over budget total m middle [] (omega arith)))
        ])

  -- If the limit is positive and there are messages between the first one and the tail to be kept,
  -- none of them nil, then trimming returns, with any fuel: what it returns is the first message, a
  -- rest of the middle, and the tail; the dropped messages and that rest are together the middle,
  -- in order; the flag says whether the total was over the limit, and if it was not the whole middle
  -- is kept; and the result fits the limit or nothing of the middle is left.
  pub trim_with_dropped-Keeps :
      (fuel : ℕ) (max_tokens tail_preserve : ℤ) (system m : Option Message) (middle tail : Messages)
      → All IsPresent (m ∷ middle)
      → 0 < pos_part max_tokens
      → pos_part tail_preserve ≡ length tail
      → Keeps
          (pos_part max_tokens)
          system
          (m ∷ middle)
          tail
          (trim_with_dropped lower fuel (system ∷ ((m ∷ middle) ++ tail)) max_tokens tail_preserve)
  unfolding trim_with_dropped
  trim_with_dropped-Keeps fuel max_tokens tail_preserve system m middle tail h p q =
      let len = length-append middle tail in
      rw
        (
          lt→ne_zero p,
          q,
          lt→leb_false (length (system ∷ ((m ∷ middle) ++ tail))) 1 (omega arith),
          lt→leb_false (length (system ∷ ((m ∷ middle) ++ tail))) (1 + length tail)
              (omega (arith, len)),
        )
        (trim_middle-Keeps (pos_part max_tokens) system m middle tail h)
