-- ===== src/ToolText/Scans.antt =====
-- internal/usecase/chat_tool_loop.go: what the bracket scanners find, against a count of the
-- brackets outside of strings.
use gen_runner.Prelude.{
  ℕ, suc, ◌+◌, ◌-◌, ◌≤◌, ◌≡◌, refl, ◌≢◌, inl, inr, Bool, true, false, not, ◌||◌, none, some, [],
  ◌∷◌, arith, ◌==◌, if◌then◌else◌, Bool-cases,
}
use gen_runner.Text.{Text}
use gen_runner.ToolText.{quote, backslash, Scan, scan_step}

-- Where a position of a JSON text stands.
pub data Place : Type 0 where
  bare inside escaped : Place

abbrev pub next_place : Place → ℕ → Place
next_place bare b = if b == quote then inside else bare
next_place inside b = if b == backslash then escaped else if b == quote then bare else inside
next_place escaped b = inside

abbrev pub counts_at : Place → ℕ → ℕ → ℕ
counts_at bare x b = if b == x then 1 else 0
counts_at inside x b = 0
counts_at escaped x b = 0

-- How often `x` stands outside of strings.
abbrev pub count_bare : ℕ → Place → Text → ℕ
count_bare x p [] = 0
count_bare x p (b ∷ s) = counts_at p x b + count_bare x (next_place p b) s

abbrev pub place_of : Bool → Bool → Place
place_of in_string escape = if escape then escaped else if in_string then inside else bare

abbrev pub scan_at : ℕ → Bool → Bool → Scan
scan_at d in_string escape = record { depth = d; in_string = in_string; escape = escape }

-- The next scan: it stands at the next place, and its depth counts the bracket read.
abbrev pub Stepped : ℕ → ℕ → ℕ → Place → ℕ → Scan → Type 0
Stepped o c d p b st =
    (d' : ℕ) × (str : Bool) × (esc : Bool) × (st ≡ scan_at d' str esc)
    × ((str || not esc) ≡ true)
    × (place_of str esc ≡ next_place p b)
    × (1 ≤ d')
    × (d' + counts_at p c b ≡ d + counts_at p o b)

scan_step-bare :
    (o c d b : ℕ) (st : Scan)
    → o ≢ c
    → o ≢ quote
    → c ≢ quote
    → 1 ≤ d
    → scan_step o c (scan_at d false false) b ≡ some st
    → Stepped o c d bare b st
unfolding scan_step
scan_step-bare o c d b st n q r l e = elim (Bool-cases (b == quote)) [
  | inl t ↦ (d, true, false, ground (arith, e, t), refl, rw t refl, l, ground (arith, t, q, r))
  | inr t ↦ elim (Bool-cases (b == o)) [
    | inl u ↦ (
      suc d,
      false,
      false,
      ground (arith, e, t, u),
      refl,
      rw t refl,
      omega arith,
      ground (arith, u, n),
    )
    | inr u ↦ elim (Bool-cases (b == c)) [
      | inl v ↦ (
        d - 1,
        false,
        false,
        ground (arith, e, t, u, v),
        refl,
        rw t refl,
        ground (arith, e, t, u, v, l),
        ground (arith, e, t, u, v, l),
      )
      | inr v ↦
          (d, false, false, ground (arith, e, t, u, v), refl, rw t refl, l, ground (arith, u, v))
    ]
  ]
]

scan_step-inside :
    (o c d b : ℕ) (st : Scan)
    → 1 ≤ d
    → scan_step o c (scan_at d true false) b ≡ some st
    → Stepped o c d inside b st
unfolding scan_step
scan_step-inside o c d b st l e = elim (Bool-cases (b == backslash)) [
  | inl t ↦ (d, true, true, ground (arith, e, t), refl, rw t refl, l, omega arith)
  | inr t ↦ elim (Bool-cases (b == quote)) [
    | inl u ↦ (d, false, false, ground (arith, e, t, u), refl, rw (t, u) refl, l, omega arith)
    | inr u ↦ (d, true, false, ground (arith, e, t, u), refl, rw (t, u) refl, l, omega arith)
  ]
]

-- The loop returns where the first bracket is closed, and only there.
pub scan_step-none :
    (o c d b : ℕ) (str esc : Bool)
    → scan_step o c (scan_at d str esc) b ≡ none
    → (place_of str esc ≡ bare)
      × ((b == c) ≡ true)
      × ((b == o) ≡ false)
      × (d ≡ 1)
      × ((b == quote) ≡ false)
unfolding scan_step
scan_step-none o c d b str true e = ground (arith, e)
scan_step-none o c d b true false e = ground (arith, e)
scan_step-none o c d b false false e =
    (refl, ground (arith, e), ground (arith, e), ground (arith, e), ground (arith, e))

pub scan_step-some :
    (o c d b : ℕ) (str esc : Bool) (st : Scan)
    → o ≢ c
    → o ≢ quote
    → c ≢ quote
    → 1 ≤ d
    → (str || not esc) ≡ true
    → scan_step o c (scan_at d str esc) b ≡ some st
    → Stepped o c d (place_of str esc) b st
unfolding scan_step
scan_step-some o c d b true true st n q r l h e =
    (d, true, false, ground (arith, e), refl, refl, l, omega arith)
scan_step-some o c d b false true st n q r l h e = ground (arith, h)
scan_step-some o c d b true false st n q r l h e = scan_step-inside o c d b st l e
scan_step-some o c d b false false st n q r l h e = scan_step-bare o c d b st n q r l e
