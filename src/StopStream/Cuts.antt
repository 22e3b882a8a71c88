-- ===== src/StopStream/Cuts.antt =====
-- llm-runner/service/stop_stream.go: starts of a text, and what is cut off its end.
use gen_runner.Prelude.{
  ℕ, ◌-◌, ◌≤◌, ◌≡◌, refl, sym, ap, ◌∙◌, inl, inr, Bool, true, false, not, ◌&&◌, List, [], ◌∷◌, ◌++◌,
  reverse, append_assoc, append-nil, arith, Bool-cases, length, is_empty, take, drop, All,
  length-append, length-reverse, take-append-drop, take-append_left, All-append, All-map_weaken,
}
use mathlib.Core.List.{reverse-reverse, reverse-append}
use gen_runner.Text.Laws.{text_eq_refl}
use gen_runner.Text.{Text, contains, trim_left_func, trim_right_func, has_prefix}
use gen_runner.StopStream.{has_suffix}

-- `p` is a start of `s`.
abbrev pub IsStart : Text → Text → Type 0
IsStart p s = (q : Text) × (s ≡ p ++ q)

pub IsStart-trans : (a b c : Text) → IsStart a b → IsStart b c → IsStart a c
IsStart-trans a b c (q, e) (r, f) = (q ++ r, f ∙ ap (λ (t : Text). t ++ r) e ∙ append_assoc a q r)

pub IsStart-refl : (a : Text) → IsStart a a
IsStart-refl a = ([], sym (append-nil a))

take-IsStart : (n : ℕ) (s : Text) → IsStart (take n s) s
take-IsStart n s = (drop n s, sym (take-append-drop n s))

trim_left_lem : (p : ℕ → Bool) (s : Text) → (q : Text) × (s ≡ q ++ trim_left_func p s)
unfolding trim_left_func
trim_left_lem p [] = ([], refl)
trim_left_lem p (c ∷ s) = elim (Bool-cases (p c)) [
  | inl e ↦
      let (q, f) = trim_left_lem p s in (c ∷ q, rw (trim_left_func, e) (ap (λ (t : Text). c ∷ t) f))
  | inr e ↦ ([], rw (trim_left_func, e) refl)
]

pub trim_right-IsStart : (p : ℕ → Bool) (s : Text) → IsStart (trim_right_func p s) s
unfolding trim_right_func
trim_right-IsStart p s =
    let (q, e) = trim_left_lem p (reverse s) in
    (
      reverse q,
      sym (reverse-reverse s) ∙ ap reverse e ∙ reverse-append q (trim_left_func p (reverse s)),
    )

has_prefix-length : (s t : Text) → has_prefix s t ≡ true → length t ≤ length s
has_prefix-length s [] h = omega arith
has_prefix-length [] (d ∷ t) h = ground (arith, h)
has_prefix-length (c ∷ s) (d ∷ t) h = ground (arith, has_prefix-length s t, h)

pub has_suffix-length : (s t : Text) → has_suffix s t ≡ true → length t ≤ length s
has_suffix-length s t h =
    omega (arith, has_prefix-length (reverse s) (reverse t) h, length-reverse s, length-reverse t)

-- No stop but the empty text is an end of the text.
abbrev pub HasNoStop : List Text → Text → Type 0
HasNoStop st out = All (λ t. (not (is_empty t) && has_suffix out t) ≡ false) st

-- Texts in a row.
abbrev pub joined : List Text → Text
joined [] = []
joined (t ∷ ts) = t ++ joined ts

-- `out` is `s` without stops at its end: what was cut is stops in a row, none of them empty.
abbrev pub IsCutBy : List Text → Text → Text → Type 0
IsCutBy st s out =
    (cuts : List Text) × (s ≡ out ++ joined cuts)
    × All (λ t. (contains st t ≡ true) × (is_empty t ≡ false)) cuts

joined-append : (ts us : List Text) → joined (ts ++ us) ≡ joined ts ++ joined us
joined-append [] us = refl
joined-append (t ∷ ts) us =
    ap (λ (r : Text). t ++ r) (joined-append ts us) ∙ sym (append_assoc t (joined ts) (joined us))

pub IsCutBy-refl : (st : List Text) (s : Text) → IsCutBy st s s
IsCutBy-refl st s = ([], sym (append-nil s), tt)

pub IsCutBy-trans :
    (st : List Text) (s m out : Text) → IsCutBy st s m → IsCutBy st m out → IsCutBy st s out
IsCutBy-trans st s m out (ts, e, a) (us, f, b) = (
  us ++ ts,
  e
      ∙ ap (λ (x : Text). x ++ joined ts) f
      ∙ append_assoc out (joined us) (joined ts)
      ∙ ap (λ (x : Text). out ++ x) (sym (joined-append us ts)),
  All-append (λ t. (contains st t ≡ true) × (is_empty t ≡ false)) us ts b a,
)

pub IsCutBy-later :
    (t : Text) (st : List Text) (s out : Text) → IsCutBy st s out → IsCutBy (t ∷ st) s out
IsCutBy-later t st s out (ts, e, a) = (
  ts,
  e,
  All-map_weaken (λ u. (contains st u ≡ true) × (is_empty u ≡ false))
      (λ u. (contains (t ∷ st) u ≡ true) × (is_empty u ≡ false)) (λ u h. (ground (arith, h), h.1))
      ts a,
)

pub IsCutBy-IsStart : (st : List Text) (s out : Text) → IsCutBy st s out → IsStart out s
IsCutBy-IsStart st s out (ts, e, a) = (joined ts, e)

has_prefix_split : (s p : Text) → has_prefix s p ≡ true → (q : Text) × (s ≡ p ++ q)
has_prefix_split s [] h = (s, refl)
has_prefix_split [] (d ∷ p) h = ground (arith, h)
has_prefix_split (c ∷ s) (d ∷ p) h =
    let (q, e) = has_prefix_split s p (ground (arith, h)) in (q, ground (arith, h, e))

has_suffix_split : (s t : Text) → has_suffix s t ≡ true → (q : Text) × (s ≡ q ++ t)
has_suffix_split s t h =
    let (q, e) = has_prefix_split (reverse s) (reverse t) h in
    (
      reverse q,
      sym (reverse-reverse s)
          ∙ ap reverse e
          ∙ reverse-append (reverse t) q
          ∙ ap (λ (x : Text). reverse q ++ x) (reverse-reverse t),
    )

-- Taking off the length of a suffix cuts just the suffix.
cut_lem : (out t : Text) → has_suffix out t ≡ true → out ≡ take (length out - length t) out ++ t
cut_lem out t h =
    let (q, e) = has_suffix_split out t h in
    let n : length out - length t ≡ length q = omega (arith, ap length e, length-append q t) in
    let front : take (length out - length t) out ≡ q =
      ap (λ k. take k out) n ∙ ap (λ x. take (length q) x) e ∙ take-append_left q t in
    e ∙ ap (λ (x : Text). x ++ t) (sym front)

pub cut-IsCutBy :
    (t : Text) (st : List Text) (out : Text)
    → (not (is_empty t) && has_suffix out t) ≡ true
    → IsCutBy (t ∷ st) out (take (length out - length t) out)
cut-IsCutBy t st out e =
    let h : has_suffix out t ≡ true = ground (arith, e) in
    (
      t ∷ [],
      cut_lem out t h
          ∙ ap (λ (x : Text). take (length out - length t) out ++ x) (sym (append-nil t)),
      ((ground (arith, text_eq_refl t), ground (arith, e)), tt),
    )
