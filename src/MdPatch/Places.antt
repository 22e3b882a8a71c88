-- ===== src/MdPatch/Places.antt =====
-- pkg/document/md_patch.go: the places of a text in another one, and the first of them replaced.
use gen_runner.Prelude.{
  ℕ, zero, suc, ◌-◌, ◌≤◌, ◌≡◌, refl, ap, ◌∙◌, ◌≢◌, inl, inr, true, false, [], ◌∷◌, ◌++◌, arith,
  Bool-cases, length, drop,
}
use gen_runner.Text.{Text, has_prefix}
use gen_runner.MdPatch.{count_from, replace_first}

has_prefix_split : (s p : Text) → has_prefix s p ≡ true → s ≡ p ++ drop (length p) s
has_prefix_split s [] h = refl
has_prefix_split [] (d ∷ p) h = cc
has_prefix_split (c ∷ s) (d ∷ p) h = ground (arith, has_prefix_split s p)

has_prefix-append : (p s : Text) → has_prefix (p ++ s) p ≡ true
has_prefix-append [] [] = refl
has_prefix-append [] (c ∷ s) = refl
has_prefix-append (d ∷ p) s = ground (arith, has_prefix-append p s)

-- The old text does not stand anywhere in a text.
abbrev HasNone : Text → Text → Type 0
HasNone old s = (b c : Text) → s ≢ b ++ (old ++ c)

-- The first place of the old text is replaced, what is around that place stays, and the old text does
-- not stand behind it.
pub record Replaces (text old new r : Text) : Type 0 where
  pub before : Text
  pub after : Text
  pub was : text ≡ before ++ (old ++ after)
  pub becomes : r ≡ before ++ (new ++ after)
  pub is_first : (b c : Text) → text ≡ b ++ (old ++ c) → length before ≤ length b
  pub is_last : HasNone old after

count_from-skip :
    (old : Text) (skip : ℕ) (s : Text) → count_from old skip s ≡ count_from old 0 (drop skip s)
unfolding count_from
count_from-skip old zero s = refl
count_from-skip old (suc skip) [] = refl
count_from-skip old (suc skip) (c ∷ s) = count_from-skip old skip s

tail_eq : (c d : ℕ) (s t : Text) → c ∷ s ≡ d ∷ t → s ≡ t
tail_eq c d s t e = ap (drop 1) e

count_miss :
    (old : Text) (c : ℕ) (s : Text)
    → has_prefix (c ∷ s) old ≡ false
    → count_from old 0 s ≡ count_from old 0 (c ∷ s)
unfolding count_from
count_miss old c s e = rw e refl

count_hit :
    (old : Text) (c : ℕ) (s : Text)
    → old ≢ []
    → has_prefix (c ∷ s) old ≡ true
    → count_from old 0 (c ∷ s) ≡ suc (count_from old 0 (drop (length old) (c ∷ s)))
unfolding count_from
count_hit [] c s n e = absurd (n refl)
count_hit (d ∷ old) c s n e =
    let less : (suc (length old)) - 1 ≡ length old = omega arith in
    rw (e, less, count_from-skip (d ∷ old) (length old) s) refl

not_here : (old s t : Text) → has_prefix s old ≡ false → s ≢ old ++ t
not_here old s t e h =
    let p = has_prefix-append old t in
    let q : has_prefix s old ≡ true = ap (λ x. has_prefix x old) h ∙ p in ground (arith, e, q)

old_empty : (old c : Text) → [] ≡ old ++ c → old ≡ []
old_empty [] c h = refl
old_empty (d ∷ old) c h = cc

HasNone-cons :
    (old : Text) (x : ℕ) (s : Text)
    → has_prefix (x ∷ s) old ≡ false
    → HasNone old s
    → HasNone old (x ∷ s)
HasNone-cons old x s e rest [] c h = not_here old (x ∷ s) c e h
HasNone-cons old x s e rest (d ∷ b) c h = rest b c (tail_eq x d s (b ++ (old ++ c)) h)

count-HasNone : (old s : Text) → old ≢ [] → count_from old 0 s ≡ 0 → HasNone old s
count-HasNone old [] n z [] c h = n (old_empty old c h)
count-HasNone old [] n z (d ∷ b) c h = cc
count-HasNone old (x ∷ s) n z b c h = elim (Bool-cases (has_prefix (x ∷ s) old)) [
  | inl e ↦ ground (arith, z, count_hit old x s n e)
  | inr e ↦ HasNone-cons old x s e (count-HasNone old s n (count_miss old x s e ∙ z)) b c h
]

-- The first place is not before `before`.
abbrev IsFirst : Text → Text → Text → Type 0
IsFirst text old before = (b c : Text) → text ≡ b ++ (old ++ c) → length before ≤ length b

IsFirst-cons :
    (old : Text) (x : ℕ) (s before : Text)
    → has_prefix (x ∷ s) old ≡ false
    → IsFirst s old before
    → IsFirst (x ∷ s) old (x ∷ before)
IsFirst-cons old x s before e rest [] c h = absurd (not_here old (x ∷ s) c e h)
IsFirst-cons old x s before e rest (d ∷ b) c h =
    omega (arith, rest b c (tail_eq x d s (b ++ (old ++ c)) h))

replace_hit :
    (old new : Text) (c : ℕ) (s : Text)
    → has_prefix (c ∷ s) old ≡ true
    → replace_first (c ∷ s) old new ≡ new ++ drop (length old) (c ∷ s)
unfolding replace_first
replace_hit old new c s e = rw e refl

replace_miss :
    (old new : Text) (c : ℕ) (s : Text)
    → has_prefix (c ∷ s) old ≡ false
    → replace_first (c ∷ s) old new ≡ c ∷ replace_first s old new
unfolding replace_first
replace_miss old new c s e = rw e refl

pub replace_first-Replaces :
    (s old new : Text)
    → old ≢ []
    → count_from old 0 s ≡ 1
    → Replaces s old new (replace_first s old new)
unfolding count_from
replace_first-Replaces [] old new n h = absurd (omega (arith, h))
replace_first-Replaces (c ∷ s) old new n h = elim (Bool-cases (has_prefix (c ∷ s) old)) [
  | inl e ↦ record {
    before = [];
    after = drop (length old) (c ∷ s);
    was = has_prefix_split (c ∷ s) old e;
    becomes = replace_hit old new c s e;
    is_first = λ b x t. omega arith;
    is_last =
        count-HasNone old (drop (length old) (c ∷ s)) n (omega (arith, count_hit old c s n e, h));
  }
  | inr e ↦
      let r = replace_first-Replaces s old new n (count_miss old c s e ∙ h) in
      record {
        before = c ∷ r.before;
        after = r.after;
        was = ap (λ (t : Text). c ∷ t) r.was;
        becomes = replace_miss old new c s e ∙ ap (λ (t : Text). c ∷ t) r.becomes;
        is_first = IsFirst-cons old c s r.before e r.is_first;
        is_last = r.is_last;
      }
]
