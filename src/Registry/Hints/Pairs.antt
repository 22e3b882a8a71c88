-- ===== src/Registry/Hints/Pairs.antt =====
-- internal/service/runner_hints.go: the pairs are those of the enabled runners with hints.
use gen_runner.Prelude.{
  ◌≡◌, refl, subst, inl, inr, Bool, true, false, Option, none, some, List, [], ◌∷◌, Bool-cases, All,
}
use gen_runner.Text.{Text}
use gen_runner.Dict.{Entries}
use gen_runner.Registry.{RunnerCoreHints, Registry}
use gen_runner.Registry.Hints.{text_leb, Pair, insert_pair, add_hints, hint_pairs}

insert_pair-All {κ} :
    (P : Pair → Type κ) (p : Pair) (l : List Pair) → All P (insert_pair p l) → P p × All P l
unfolding insert_pair
insert_pair-All P p [] h = h
insert_pair-All P p (q ∷ l) h = elim (Bool-cases (text_leb p.0 q.0)) [
  | inl e ↦ rw e at h
  | inr e ↦
      let h' : All P (q ∷ insert_pair p l) = rw e at h in
      let (hp, hl) = insert_pair-All P p l h'.1 in (hp, (h'.0, hl))
]

add_hints-All {κ} :
    (P : RunnerCoreHints → Type κ) (k : Text) (o : Option RunnerCoreHints) (on : Bool)
    (l : List Pair)
    → All (λ p. P p.1) (add_hints k o on l)
    → ((h : RunnerCoreHints) → on ≡ true → o ≡ some h → P h) × All (λ p. P p.1) l
add_hints-All P k none on l a = (λ h t e. absurd (cc), a)
add_hints-All P k (some x) false l a = (λ h t e. absurd (cc), a)
add_hints-All P k (some x) true l a =
    let (px, rest) = insert_pair-All (λ p. P p.1) (k, x) l a in
    (λ h t e. let same : x ≡ h = cc in subst P same px, rest)

-- What holds of all the pairs holds of the hints of every enabled runner.
pub hint_pairs-All {κ} :
    (P : RunnerCoreHints → Type κ) (r : Registry)
    → All (λ p. P p.1) (hint_pairs r)
    → Entries (λ k st. (h : RunnerCoreHints) → st.enabled ≡ true → st.hints ≡ some h → P h) r
unfolding hint_pairs
hint_pairs-All P [] a = tt
hint_pairs-All P ((k, st) ∷ r) a =
    let (here, rest) = add_hints-All P k st.hints st.enabled (hint_pairs r) a in
    (here, hint_pairs-All P r rest)

insert_pair-All_back {κ} :
    (P : Pair → Type κ) (p : Pair) (l : List Pair) → P p → All P l → All P (insert_pair p l)
unfolding insert_pair
insert_pair-All_back P p [] h a = (h, tt)
insert_pair-All_back P p (q ∷ l) h a = elim (Bool-cases (text_leb p.0 q.0)) [
  | inl e ↦ rw e (h, a)
  | inr e ↦ rw e (a.0, insert_pair-All_back P p l h a.1)
]

add_back {κ} :
    (P : RunnerCoreHints → Type κ) (k : Text) (o : Option RunnerCoreHints) (on : Bool)
    (l : List Pair)
    → ((h : RunnerCoreHints) → on ≡ true → o ≡ some h → P h)
    → All (λ p. P p.1) l
    → All (λ p. P p.1) (add_hints k o on l)
add_back P k none on l h a = a
add_back P k (some x) false l h a = a
add_back P k (some x) true l h a = insert_pair-All_back (λ p. P p.1) (k, x) l (h x refl refl) a

-- What the hints of every enabled runner satisfy holds of all the pairs.
pub hint_pairs-All_back {κ} :
    (P : RunnerCoreHints → Type κ) (r : Registry)
    → Entries (λ k st. (h : RunnerCoreHints) → st.enabled ≡ true → st.hints ≡ some h → P h) r
    → All (λ p. P p.1) (hint_pairs r)
unfolding hint_pairs
hint_pairs-All_back P [] a = tt
hint_pairs-All_back P ((k, st) ∷ r) (here, rest) =
    add_back P k st.hints st.enabled (hint_pairs r) here (hint_pairs-All_back P r rest)
