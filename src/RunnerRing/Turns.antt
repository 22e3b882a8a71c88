-- ===== src/RunnerRing/Turns.antt =====
-- llm-runner/pool.go, `pickRunner`: the turns of the runners.
use native.Mathlib.Nat.{mod-lt, mod-eq_of_lt, mod-add-mod, add-mod_right}
use gen_runner.Prelude.{
  ℕ, zero, suc, ◌+◌, ◌-◌, ◌%◌, ◌^◌, ◌<◌, ◌≡◌, refl, sym, ap, ◌∙◌, inl, inr, true, some, List, [],
  ◌∷◌, arith, leb, leb→le, Bool-cases, length, get_elem?,
}
use gen_runner.Text.{contains, Text, text_eq}
use gen_runner.Text.Laws.{text_eq_iff}
use gen_runner.RunnerRing.Send.Answers.{is_empty-false}
use gen_runner.RunnerRing.{text_eq, Ring, enabled_addresses, next_index, pick_runner}

-- The ring after a number of picks.
unfoldable pub after : ℕ → Ring → Ring
after zero p = p
after (suc k) p = (pick_runner (after k p)).0

-- Some number of steps below `n` leads from any place to a given one.
steps_to : (x n j : ℕ) → j < n → (k : ℕ) × (k < n) × ((x + k) % n ≡ j)
steps_to x n j h =
    let r = x % n in
    let below : r < n = mod-lt x (omega arith) in
    elim (Bool-cases (leb r j)) [
      | inl e ↦
          let le = leb→le r j e in
          (
            j - r,
            omega arith,
            sym (mod-add-mod x n (j - r)) ∙ ap (λ (y : ℕ). y % n) (omega arith) ∙ mod-eq_of_lt h,
          )
      | inr e ↦
          let gt : j < r = ground (arith, e) in
          (
            j + n - r,
            omega arith,
            sym (mod-add-mod x n (j + n - r))
                ∙ ap (λ (y : ℕ). y % n) (omega arith)
                ∙ add-mod_right j n
                ∙ mod-eq_of_lt h,
          )
    ]

picked_index :
    (p : Ring)
    → 0 < length (enabled_addresses p)
    → ((pick_runner p).0.index ≡ next_index p.index)
      × (enabled_addresses (pick_runner p).0 ≡ enabled_addresses p)
      × ((pick_runner p).1
          ≡ get_elem? (enabled_addresses p) (next_index p.index % length (enabled_addresses p)))
unfolding pick_runner
picked_index p full =
    let some_addr = is_empty-false (enabled_addresses p) full in
    (rw some_addr, rw some_addr (unfold enabled_addresses in refl), rw some_addr)

after_lem :
    (k : ℕ) (p : Ring)
    → 0 < length (enabled_addresses p)
    → p.index + k < 2 ^ 32
    → ((after k p).index ≡ p.index + k) × (enabled_addresses (after k p) ≡ enabled_addresses p)
unfolding after
after_lem zero p full h = (omega arith, refl)
after_lem (suc k) p full h =
    let (at, same) = after_lem k p full (omega arith) in
    let (at', same', _) = picked_index (after k p) (rw same full) in
    (at' ∙ omega (arith, at), same' ∙ same)

contains-get_elem? :
    (l : List Text) (a : Text)
    → contains l a ≡ true
    → (j : ℕ) × (j < length l) × (get_elem? l j ≡ some a)
contains-get_elem? [] a h = absurd (cc)
contains-get_elem? (b ∷ l) a h = elim (Bool-cases (text_eq b a)) [
  | inl t ↦ (0, omega arith, ap (λ (x : Text). some x) ((text_eq_iff b a).0 t))
  | inr t ↦ let (j, s, e) = contains-get_elem? l a (ground (arith, t, h)) in (suc j, omega arith, e)
]

-- Every enabled runner gets its turn within as many picks in a row as there are enabled runners, if
-- the index does not wrap around meanwhile.
pub pick_runner-turn :
    (p : Ring) (a : Text)
    → contains (enabled_addresses p) a ≡ true
    → p.index + length (enabled_addresses p) < 2 ^ 32
    → (k : ℕ) × (k < length (enabled_addresses p)) × ((pick_runner (after k p)).1 ≡ some a)
pick_runner-turn p a h small =
    let addrs = enabled_addresses p in
    let (j, in_range, here) = contains-get_elem? addrs a h in
    let (k, k_lt, e) = steps_to (p.index + 1) (length addrs) j in_range in
    let (at, same) = after_lem k p (omega arith) (omega arith) in
    let (_, _, pick) = picked_index (after k p) (rw same (omega arith)) in
    let place : next_index (after k p).index % length addrs ≡ j =
      ap (λ (i : ℕ). i % length addrs) (omega (arith, at)) ∙ e in
    (k, k_lt, rw (same, place) at pick ∙ here)
