-- ===== src/ToolText/Shortest.antt =====
-- internal/usecase/chat_tool_loop.go: the bracket scanners find the shortest balanced part at the
-- start of a text.
use gen_runner.Prelude.{
  ℕ, zero, suc, ◌+◌, ◌≤◌, ◌<◌, ◌≡◌, refl, ap, subst, ◌≢◌, ◌⊎◌, inl, inr, Bool, true, false, not,
  ◌||◌, some, [], ◌∷◌, arith, ◌==◌, if◌then◌else◌, Bool-cases, Option-cases, length, is_empty,
  get_elem?, take,
}
use gen_runner.Text.{Text, trim_space}
use gen_runner.ToolText.{
  quote, start_scan, scan_step, scan_from, leading_of, extract_leading_json_array,
  extract_leading_json_object,
}
use gen_runner.ToolText.Scans.{
  Place, bare, next_place, counts_at, count_bare, place_of, scan_at, scan_step-none, scan_step-some,
}

-- From depth `d` on, brackets stay open over the first `k` code points.
abbrev pub IsOpen : ℕ → ℕ → ℕ → Place → Text → ℕ → Type 0
IsOpen o c d p s k = count_bare c p (take k s) < d + count_bare o p (take k s)

-- `r` is a start of `s` that closes all brackets, and no shorter one does.
abbrev Closes : ℕ → ℕ → ℕ → Place → Text → Text → Type 0
Closes o c d p s r =
    (r ≡ take (length r) s)
    × (length r ≤ length s)
    × (count_bare c p r ≡ d + count_bare o p r)
    × ((k : ℕ) → k < length r → IsOpen o c d p s k)

IsOpen-zero : (o c d k : ℕ) (p : Place) → 1 ≤ d → IsOpen o c d p [] k
IsOpen-zero o c d zero p l = omega (arith, l)
IsOpen-zero o c d (suc k) p l = omega (arith, l)

IsOpen-later :
    (o c d d' b k : ℕ) (p : Place) (s : Text)
    → 1 ≤ d
    → d' + counts_at p c b ≡ d + counts_at p o b
    → ((j : ℕ) → suc j ≡ k → IsOpen o c d' (next_place p b) s j)
    → IsOpen o c d p (b ∷ s) k
IsOpen-later o c d d' b zero p s l e f = omega (arith, l)
IsOpen-later o c d d' b (suc k) p s l e f = omega (arith, e, f k refl)

Closes-now :
    (o c d b : ℕ) (p : Place) (s : Text)
    → p ≡ bare
    → (b == c) ≡ true
    → (b == o) ≡ false
    → d ≡ 1
    → Closes o c d p (b ∷ s) (b ∷ [])
Closes-now o c d b p s e t u l = (
  refl,
  omega arith,
  rw (e, l) (ground (arith, t, u)),
  λ k h. rw (l) (let z : k ≡ 0 = omega (arith, h) in rw z (omega arith)),
)

Closes-later :
    (o c d d' b : ℕ) (p : Place) (s t : Text)
    → 1 ≤ d
    → d' + counts_at p c b ≡ d + counts_at p o b
    → Closes o c d' (next_place p b) s t
    → Closes o c d p (b ∷ s) (b ∷ t)
Closes-later o c d d' b p s t l e (pre, len, bal, f) = (
  ap (λ (x : Text). b ∷ x) pre,
  omega (arith, len),
  omega (arith, e, bal),
  λ k h. IsOpen-later o c d d' b k p s l e (λ j z. f j (omega (arith, h, z))),
)

-- The loop from some place on: either it finds nothing and brackets stay open all along, or it
-- finds the shortest start that closes them.
abbrev pub Scanned : ℕ → ℕ → ℕ → Place → Text → Text → Type 0
Scanned o c d p s r = ((r ≡ []) × ((k : ℕ) → IsOpen o c d p s k)) ⊎ ((r ≢ []) × Closes o c d p s r)

Scanned-later :
    (o c d d' b : ℕ) (p : Place) (s t : Text)
    → 1 ≤ d
    → d' + counts_at p c b ≡ d + counts_at p o b
    → Scanned o c d' (next_place p b) s t
    → Scanned o c d p (b ∷ s) (if is_empty t then [] else b ∷ t)
Scanned-later o c d d' b p s t l e (inl (z, f)) =
    inl (rw z refl, λ k. IsOpen-later o c d d' b k p s l e (λ j x. f j))
Scanned-later o c d d' b p s [] l e (inr (z, f)) = inl (refl, ground (arith, z))
Scanned-later o c d d' b p s (a ∷ t) l e (inr (z, f)) =
    inr (ground arith, Closes-later o c d d' b p s (a ∷ t) l e f)

module _ (o c : ℕ) (n : o ≢ c) (q : o ≢ quote) (r : c ≢ quote) where
  pub scan_from_lem :
      (s : Text) (d : ℕ) (str esc : Bool)
      → 1 ≤ d
      → (str || not esc) ≡ true
      → Scanned o c d (place_of str esc) s (scan_from o c (scan_at d str esc) s)
  unfolding scan_from scan_step
  scan_from_lem [] d str esc l h = inl (refl, λ k. IsOpen-zero o c d k (place_of str esc) l)
  scan_from_lem (b ∷ s) d str esc l h = elim (Option-cases (scan_step o c (scan_at d str esc) b)) [
    | inl e ↦
        let (pe, t, u, de, w) = scan_step-none o c d b str esc e in
        rw e (inr (ground arith, Closes-now o c d b (place_of str esc) s pe t u de))
    | inr (st, e) ↦
        let (d', str', esc', se, h', pe, l', de) = scan_step-some o c d b str esc st n q r l h e in
        rw (e, se)
          (Scanned-later o c d d' b (place_of str esc) s (scan_from o c (scan_at d' str' esc') s) l
            de
            (subst (λ p. Scanned o c d' p s (scan_from o c (scan_at d' str' esc') s)) pe
              (scan_from_lem s d' str' esc' l' h')))
  ]

-- A start of `s` with as many closing as opening brackets outside of strings, the shortest that is
-- not empty.
abbrev pub IsShortestBalanced : ℕ → ℕ → Text → Text → Type 0
IsShortestBalanced o c s r =
    (1 ≤ length r)
    × (length r ≤ length s)
    × (r ≡ take (length r) s)
    × (count_bare c bare r ≡ count_bare o bare r)
    × ((k : ℕ) → 1 ≤ k → k < length r → IsOpen o c 0 bare s k)

-- No start of `s` but the empty one has as many closing as opening brackets.
abbrev pub IsNeverBalanced : ℕ → ℕ → Text → Type 0
IsNeverBalanced o c s = (k : ℕ) → 1 ≤ k → IsOpen o c 0 bare s k

abbrev pub Extracted : ℕ → ℕ → Text → Text → Type 0
Extracted o c s r =
    ((get_elem? s 0 ≢ some o) × (r ≡ []))
    ⊎ ((get_elem? s 0 ≡ some o) × (((r ≡ []) × IsNeverBalanced o c s) ⊎ IsShortestBalanced o c s r))

scan_step_first :
    (o c : ℕ) → (o == quote) ≡ false → scan_step o c start_scan o ≡ some (scan_at 1 false false)
unfolding scan_step
scan_step_first o c q = ground (arith, q)

scan_first :
    (o c : ℕ) (s : Text)
    → (o == quote) ≡ false
    → scan_from o c start_scan (o ∷ s) ≡ (
        if is_empty (scan_from o c (scan_at 1 false false) s)
        then []
        else o ∷ scan_from o c (scan_at 1 false false) s)
unfolding scan_from
scan_first o c s q = rw (scan_from, scan_step_first o c q) refl

count_first :
    (x o : ℕ) (s : Text)
    → (o == quote) ≡ false
    → count_bare x bare (o ∷ s) ≡ (if o == x then 1 else 0) + count_bare x bare s
count_first x o s q = rw q refl

first-IsOpen :
    (o c k : ℕ) (s : Text)
    → (o == quote) ≡ false
    → (o == c) ≡ false
    → ((j : ℕ) → suc j ≡ k → IsOpen o c 1 bare s j)
    → 1 ≤ k
    → IsOpen o c 0 bare (o ∷ s) k
first-IsOpen o c zero s q n f l = omega (arith, l)
first-IsOpen o c (suc j) s q n f l =
    ground (arith, n, f j refl, count_first c o (take j s) q, count_first o o (take j s) q)

first-Extracted :
    (o c : ℕ) (s t : Text)
    → (o == quote) ≡ false
    → (o == c) ≡ false
    → Scanned o c 1 bare s t
    → Extracted o c (o ∷ s) (if is_empty t then [] else o ∷ t)
first-Extracted o c s t q n (inl (z, f)) =
    inr (refl, inl (rw z refl, λ k l. first-IsOpen o c k s q n (λ j e. f j) l))
first-Extracted o c s [] q n (inr (z, f)) = ground (arith, z)
first-Extracted o c s (a ∷ t) q n (inr (z, (pre, len, bal, f))) = inr (
  refl,
  inr (
    omega arith,
    omega (arith, len),
    ap (λ (x : Text). o ∷ x) pre,
    ground (arith, n, bal, count_first c o (a ∷ t) q, count_first o o (a ∷ t) q),
    λ k l h. first-IsOpen o c k s q n (λ j e. f j (omega (arith, h, e))) l,
  ),
)

leading_of-Extracted :
    (o c : ℕ) (s : Text) → o ≢ c → o ≢ quote → c ≢ quote → Extracted o c s (leading_of o c s)
unfolding leading_of
leading_of-Extracted o c [] n q r = inl (ground arith, refl)
leading_of-Extracted o c (b ∷ s) n q r = elim (Bool-cases (b == o)) [
  | inl t ↦
      let same : b ≡ o = ground (arith, t) in
      let nq : (o == quote) ≡ false = ground (arith, q) in
      rw (t, same, scan_first o c s nq)
        (first-Extracted o c s (scan_from o c (scan_at 1 false false) s) nq (ground (arith, n))
          (scan_from_lem o c n q r s 1 false false (omega arith) refl))
  | inr t ↦ inl (ground (arith, t), rw t refl)
]

-- From the trimmed text on: a text that does not start with the opening bracket gives nothing;
-- otherwise the result is the shortest start that is not empty and has as many closing as opening
-- brackets outside of strings, and nothing exactly if there is no such start.
pub extract_leading_json_array-Extracted :
    (text : Text)
    → Extracted 0x5b 0x5d (trim_space text) (extract_leading_json_array text)
      × Extracted 0x7b 0x7d (trim_space text) (extract_leading_json_object text)
unfolding extract_leading_json_array extract_leading_json_object
extract_leading_json_array-Extracted text = (
  leading_of-Extracted 0x5b 0x5d (trim_space text) (ground arith) (ground arith) (ground arith),
  leading_of-Extracted 0x7b 0x7d (trim_space text) (ground arith) (ground arith) (ground arith),
)
