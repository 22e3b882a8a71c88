-- ===== src/MdPatch/Lines.antt =====
-- pkg/document/md_patch.go: splitting into lines and joining them again.
use gen_runner.Prelude.{
  ◌≡◌, refl, sym, ap, ◌∙◌, ◌≢◌, inl, inr, false, List, [], ◌∷◌, ◌++◌, append_assoc, append-nil,
  arith, ◌==◌, Bool-cases, All, All-append,
}
use gen_runner.Text.{Text}
use gen_runner.MdPatch.{newline, split_from, split_lines, join_lines}

-- A line holds no line feed.
abbrev pub IsLine : Text → Type 0
IsLine = All (λ c. c ≢ newline)

pub split_from-ne-nil : (cur s : Text) → split_from cur s ≢ []
unfolding split_from
split_from-ne-nil cur [] h = cc
split_from-ne-nil cur (c ∷ s) h = elim (Bool-cases (c == newline)) [
  | inl e ↦ ground (arith, e)
  | inr e ↦ split_from-ne-nil (cur ++ c ∷ []) s (ground (arith, e))
]

join_lines-cons :
    (l : Text) (ls : List Text) → ls ≢ [] → join_lines (l ∷ ls) ≡ l ++ newline ∷ join_lines ls
unfolding join_lines
join_lines-cons l [] h = absurd (h refl)
join_lines-cons l (k ∷ ls) h = refl

join_lines-split_from : (cur s : Text) → join_lines (split_from cur s) ≡ cur ++ s
unfolding split_from
join_lines-split_from cur [] = unfold join_lines in sym (append-nil cur)
join_lines-split_from cur (c ∷ s) = elim (Bool-cases (c == newline)) [
  | inl e ↦
      rw
        (
          e,
          join_lines-cons cur (split_from [] s) (split_from-ne-nil [] s),
          join_lines-split_from [] s,
        )
        (ground (arith, e))
  | inr e ↦ rw (e, join_lines-split_from (cur ++ c ∷ []) s) (append_assoc cur (c ∷ []) s)
]

-- Joining the lines of a text gives the text back.
pub join_lines-split_lines : (s : Text) → join_lines (split_lines s) ≡ s
unfolding split_lines
join_lines-split_lines [] = unfold join_lines in refl
join_lines-split_lines (c ∷ s) = join_lines-split_from [] (c ∷ s)

split_from-append : (cur l s : Text) → IsLine l → split_from cur (l ++ s) ≡ split_from (cur ++ l) s
unfolding split_from
split_from-append cur [] s h = rw append-nil
split_from-append cur (c ∷ l) s h =
    let e : (c == newline) ≡ false = ground (arith, h.0) in
    rw e (
      split_from-append (cur ++ c ∷ []) l s h.1
      ∙ ap (λ (r : Text). split_from r s) (append_assoc cur (c ∷ []) l))

split_from-line : (cur : Text) → split_from cur [] ≡ cur ∷ []
unfolding split_from
split_from-line cur = refl

split_from-newline : (cur s : Text) → split_from cur (newline ∷ s) ≡ cur ∷ split_from [] s
unfolding split_from
split_from-newline cur s = refl

split_from-join_lines :
    (l : Text) (ls : List Text)
    → IsLine l
    → All IsLine ls
    → split_from [] (join_lines (l ∷ ls)) ≡ l ∷ ls
unfolding join_lines
split_from-join_lines l [] h k =
    ap (split_from []) (sym (append-nil l)) ∙ split_from-append [] l [] h ∙ split_from-line l
split_from-join_lines l (k ∷ ls) h hs =
    split_from-append [] l _ h
    ∙ split_from-newline l (join_lines (k ∷ ls))
    ∙ ap (λ (r : List Text). l ∷ r) (split_from-join_lines k ls hs.0 hs.1)

split_lines-split_from : (s : Text) → split_lines s ≡ split_from [] s
unfolding split_lines split_from
split_lines-split_from [] = refl
split_lines-split_from (c ∷ s) = refl

-- Splitting a text made by joining lines gives them back, if there is a line and none holds a line
-- feed.
pub split_lines-join_lines :
    (ls : List Text) → ls ≢ [] → All IsLine ls → split_lines (join_lines ls) ≡ ls
split_lines-join_lines [] h k = absurd (h refl)
split_lines-join_lines (l ∷ ls) h k =
    split_lines-split_from (join_lines (l ∷ ls)) ∙ split_from-join_lines l ls k.0 k.1

split_from-All : (cur s : Text) → IsLine cur → All IsLine (split_from cur s)
unfolding split_from
split_from-All cur [] h = (h, tt)
split_from-All cur (c ∷ s) h = elim (Bool-cases (c == newline)) [
  | inl e ↦ rw e (h, split_from-All [] s tt)
  | inr e ↦ rw e (
      split_from-All (cur ++ c ∷ []) s
        (All-append (λ d. d ≢ newline) cur (c ∷ []) h ((λ p. ground (arith, e)), tt)))
]

-- The parts of a split hold no line feed, and there is at least one.
pub split_lines-All : (s : Text) → All IsLine (split_lines s)
split_lines-All s = rw (split_lines-split_from s) (split_from-All [] s tt)

pub split_lines-ne-nil : (s : Text) → split_lines s ≢ []
split_lines-ne-nil s = rw (split_lines-split_from s) (split_from-ne-nil [] s)
