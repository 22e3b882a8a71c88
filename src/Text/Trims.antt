-- ===== src/Text/Trims.antt =====
-- Go strings: what `strings.TrimSpace` leaves of a text stays as it is when it is trimmed again.
use gen_runner.Prelude.{ℕ, ◌≡◌, refl, ◌⊎◌, inl, inr, false, [], ◌∷◌, reverse, Bool-cases}
use mathlib.Core.List.{reverse-append, reverse-reverse, reverse-cons}
use gen_runner.Text.{Text, is_space, trim_space, trim_left_func, trim_right_func}
use gen_runner.Text.Laws.{trim_left_func-append_last}

-- A text that is empty or starts with no space.
abbrev IsLeftTrimmed : Text → Type 0
IsLeftTrimmed s = (s ≡ []) ⊎ ((c : ℕ) × (t : Text) × (s ≡ c ∷ t) × (is_space c ≡ false))

trim_left_func-IsLeftTrimmed : (s : Text) → IsLeftTrimmed (trim_left_func is_space s)
unfolding trim_left_func
trim_left_func-IsLeftTrimmed [] = inl refl
trim_left_func-IsLeftTrimmed (c ∷ s) = elim (Bool-cases (is_space c)) [
  | inl e ↦ rw e (trim_left_func-IsLeftTrimmed s)
  | inr e ↦ rw e (inr (c, s, refl, e))
]

trim_left_func_fixed : (s : Text) → IsLeftTrimmed s → trim_left_func is_space s ≡ s
unfolding trim_left_func
trim_left_func_fixed s (inl e) = rw e refl
trim_left_func_fixed s (inr (c, t, e, h)) = rw (e, h) refl

trim_right_func-IsLeftTrimmed :
    (s : Text) → IsLeftTrimmed s → IsLeftTrimmed (trim_right_func is_space s)
unfolding trim_right_func trim_left_func
trim_right_func-IsLeftTrimmed s (inl e) = inl (rw e refl)
trim_right_func-IsLeftTrimmed s (inr (c, t, e, h)) =
    let rest = trim_left_func is_space (reverse t) in
    inr (
      c,
      reverse rest,
      rw
          (
            e,
            reverse-cons c t,
            trim_left_func-append_last is_space (reverse t) c h,
            reverse-append rest (c ∷ []),
          )
          refl,
      h,
    )

trim_right_func_again :
    (s : Text) → trim_right_func is_space (trim_right_func is_space s) ≡ trim_right_func is_space s
unfolding trim_right_func
trim_right_func_again s =
    let r = trim_left_func is_space (reverse s) in
    rw (reverse-reverse r, trim_left_func_fixed r (trim_left_func-IsLeftTrimmed (reverse s))) refl

pub trim_space-trim_space : (s : Text) → trim_space (trim_space s) ≡ trim_space s
unfolding trim_space
trim_space-trim_space s =
    let t = trim_left_func is_space s in
    rw
      (trim_left_func_fixed (trim_right_func is_space t)
        (trim_right_func-IsLeftTrimmed t (trim_left_func-IsLeftTrimmed s)))
      (trim_right_func_again t)
