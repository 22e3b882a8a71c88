-- ===== src/Text/Laws.antt =====
-- Laws of the operations on texts.
use mathlib.Core.List.{reverse-append, reverse-reverse, reverse-cons}
use gen_runner.Prelude.{
  ℕ, ◌≤◌, ◌≡◌, refl, ◌↔◌, Bool, true, [], ◌∷◌, ◌++◌, false, reverse, length, length-reverse, arith,
}
use gen_runner.Text.{Text, text_eq, is_space, trim_left_func, trim_right_func, trim_space, byte_len}

pub eq_of_text_eq : (s t : Text) → text_eq s t ≡ true → s ≡ t
eq_of_text_eq [] [] h = refl
eq_of_text_eq [] (d ∷ t) h = cc
eq_of_text_eq (c ∷ s) [] h = cc
eq_of_text_eq (c ∷ s) (d ∷ t) h = ground (arith, eq_of_text_eq s t)

pub text_eq_refl : (s : Text) → text_eq s s ≡ true
text_eq_refl [] = refl
text_eq_refl (c ∷ s) = ground (arith, text_eq_refl s)

pub text_eq_iff : (s t : Text) → (text_eq s t ≡ true) ↔ (s ≡ t)
text_eq_iff s t = (eq_of_text_eq s t, λ e. rw e (text_eq_refl t))

pub length-trim_left_func : (p : ℕ → Bool) (s : Text) → length (trim_left_func p s) ≤ length s
unfolding trim_left_func
length-trim_left_func p [] = omega arith
length-trim_left_func p (c ∷ s) = ground (arith, length-trim_left_func p s)

pub length-trim_right_func : (p : ℕ → Bool) (s : Text) → length (trim_right_func p s) ≤ length s
unfolding trim_right_func
length-trim_right_func p s = omega (
  arith,
  length-reverse s,
  length-reverse (trim_left_func p (reverse s)),
  length-trim_left_func p (reverse s),
)

-- Trimming never makes a text longer.
pub length-trim_space : (s : Text) → length (trim_space s) ≤ length s
unfolding trim_space
length-trim_space s = omega (
  arith,
  length-trim_left_func is_space s,
  length-trim_right_func is_space (trim_left_func is_space s),
)

-- Every code point takes at least one byte.
pub length-le-byte_len : (s : Text) → length s ≤ byte_len s
unfolding byte_len
length-le-byte_len [] = omega arith
length-le-byte_len (c ∷ s) = ground (arith, length-le-byte_len s)

pub trim_left_func-append_last :
    (p : ℕ → Bool) (s : Text) (c : ℕ)
    → p c ≡ false
    → trim_left_func p (s ++ c ∷ []) ≡ trim_left_func p s ++ c ∷ []
unfolding trim_left_func
trim_left_func-append_last p [] c h = rw h
trim_left_func-append_last p (d ∷ s) c h = ground (arith, trim_left_func-append_last p s c h)

pub trim_right_func-append_last :
    (p : ℕ → Bool) (s : Text) (c : ℕ) → p c ≡ false → trim_right_func p (s ++ c ∷ []) ≡ s ++ c ∷ []
unfolding trim_right_func trim_left_func
trim_right_func-append_last p s c h =
    rw (reverse-append s (c ∷ []), h, reverse-cons c (reverse s), reverse-reverse s)

-- A text that ends in a character which is no space is trimmed on its left only.
pub trim_space-append_last :
    (s : Text) (c : ℕ)
    → is_space c ≡ false
    → trim_space (s ++ c ∷ []) ≡ trim_left_func is_space s ++ c ∷ []
unfolding trim_space
trim_space-append_last s c h =
    rw (trim_left_func-append_last is_space s c h)
      (trim_right_func-append_last is_space (trim_left_func is_space s) c h)
