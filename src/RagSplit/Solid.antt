-- ===== src/RagSplit/Solid.antt =====
-- pkg/rag/splitter.go: the code points of texts that are no spaces, in order.
use mathlib.Core.List.{reverse-cons, reverse-reverse}
use gen_runner.Prelude.{
  ℕ, ◌≡◌, refl, ap, ◌∙◌, inl, inr, Bool, true, List, [], ◌∷◌, ◌++◌, reverse, append_assoc,
  append-nil, if◌then◌else◌, Bool-cases, is_empty,
}
use gen_runner.Text.{Text, is_space, trim_left_func, trim_right_func, trim_space}
use gen_runner.RagSplit.{push_text}

unfoldable pub solid : Text → Text
solid [] = []
solid (c ∷ s) = let rest = solid s in if is_space c then rest else c ∷ rest

-- Those of several texts in a row.
unfoldable pub solids : List Text → Text
solids [] = []
solids (t ∷ ts) = solid t ++ solids ts

pub solid-append : (s t : Text) → solid (s ++ t) ≡ solid s ++ solid t
unfolding solid
solid-append [] t = refl
solid-append (c ∷ s) t = elim (Bool-cases (is_space c)) [
  | inl e ↦ rw e (solid-append s t)
  | inr e ↦ rw e (ap (λ (r : Text). c ∷ r) (solid-append s t))
]

pub solids-append : (ss ts : List Text) → solids (ss ++ ts) ≡ solids ss ++ solids ts
unfolding solids
solids-append [] ts = refl
solids-append (s ∷ ss) ts = rw (solids-append ss ts, append_assoc (solid s) (solids ss) (solids ts))

solid_one : (c : ℕ) → reverse (solid (c ∷ [])) ≡ solid (c ∷ [])
unfolding solid
solid_one c = elim (Bool-cases (is_space c)) [ inl e ↦ rw e | inr e ↦ rw e ]

solid-reverse : (s : Text) → solid (reverse s) ≡ reverse (solid s)
unfolding solid
solid-reverse [] = refl
solid-reverse (c ∷ s) = elim (Bool-cases (is_space c)) [
  | inl e ↦
      rw (reverse-cons c s, solid-append (reverse s) (c ∷ []), e, append-nil) (solid-reverse s)
  | inr e ↦ rw (
    reverse-cons c s,
    solid-append (reverse s) (c ∷ []),
    e,
    solid-reverse s,
    reverse-cons c (solid s),
  )
]

pub solid-trim_left_func :
    (p : ℕ → Bool) (s : Text)
    → ((c : ℕ) → p c ≡ true → is_space c ≡ true)
    → solid (trim_left_func p s) ≡ solid s
unfolding solid trim_left_func
solid-trim_left_func p [] h = refl
solid-trim_left_func p (c ∷ s) h = elim (Bool-cases (p c)) [
  | inl e ↦ rw (e, h c e) (solid-trim_left_func p s h)
  | inr e ↦ rw e
]

solid-trim_right_func :
    (p : ℕ → Bool) (s : Text)
    → ((c : ℕ) → p c ≡ true → is_space c ≡ true)
    → solid (trim_right_func p s) ≡ solid s
unfolding trim_right_func
solid-trim_right_func p s h =
    solid-reverse (trim_left_func p (reverse s))
    ∙ ap reverse (solid-trim_left_func p (reverse s) h ∙ solid-reverse s)
    ∙ reverse-reverse (solid s)

pub solid-trim_space : (s : Text) → solid (trim_space s) ≡ solid s
unfolding trim_space
solid-trim_space s =
    solid-trim_right_func is_space (trim_left_func is_space s) (λ c e. e)
    ∙ solid-trim_left_func is_space s (λ c e. e)

pub solid_empty : (s : Text) → is_empty s ≡ true → solid s ≡ []
unfolding solid
solid_empty [] e = refl
solid_empty (c ∷ s) e = cc

-- A text that is left out for being blank has nothing to lose.
pub solids-push_text :
    (out : List Text) (t : Text) → solids (push_text out t) ≡ solids out ++ solid t
unfolding solids
solids-push_text out t = elim (Bool-cases (is_empty t)) [
  | inl e ↦ rw (e, solid_empty t e, append-nil)
  | inr e ↦ rw (e, solids-append out (t ∷ []), append-nil)
]
