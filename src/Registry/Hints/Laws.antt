-- ===== src/Registry/Hints/Laws.antt =====
-- internal/service/runner_hints.go: the context limit that the enabled runners agree on.
use gen_runner.Registry.Hints.Pairs.{hint_pairs-All, hint_pairs-All_back}
use gen_runner.Prelude.{
  ℕ, ◌≤◌, max, ◌≡◌, refl, subst, ◌⊎◌, inl, inr, Bool, true, false, some, List, [], ◌∷◌, arith, ltb,
  ◌==◌, if◌then◌else◌, Bool-cases, All,
}
use gen_runner.Prelude.Int.{ℤ, pos, pos_part}
use gen_runner.Dict.{Entries}
use gen_runner.Registry.{RunnerCoreHints, Registry}
use gen_runner.Registry.Hints.{
  max_int32, default_runner_core_hints, norm_approx_tok, finalize_chat_hints, Pair, hint_pairs,
  min_positive_from, min_positive, aggregate_pairs, aggregate_list, aggregate_chat_hints,
}

-- `n` is below the value of a pair, or that pair gives none.
abbrev Below : (RunnerCoreHints → ℤ) → ℕ → Pair → Type 0
Below get n p = (pos_part (get p.1) ≡ 0) ⊎ (n ≤ pos_part (get p.1))

module _ (get : RunnerCoreHints → ℤ) where
  min_positive_from-le :
      (v : ℕ) (found : Bool) (l : List Pair) → min_positive_from get v found l ≤ v
  unfolding min_positive_from
  min_positive_from-le v found [] = ground arith
  min_positive_from-le v found (p ∷ l) = ground (
    arith,
    min_positive_from-le v found l,
    min_positive_from-le (pos_part (get p.1)) true l,
    min_positive_from-le v true l,
  )

  min_positive_from-Below :
      (v : ℕ) (found : Bool) (l : List Pair) → All (Below get (min_positive_from get v found l)) l
  unfolding min_positive_from
  min_positive_from-Below v found [] = tt
  min_positive_from-Below v found (p ∷ l) =
      let n = pos_part (get p.1) in
      let v' = if n == 0 then v else if ltb n v then n else v in
      let found' = if n == 0 then found else true in
      let least = min_positive_from-le v' found' l in
      (
        first n v v' (min_positive_from get v' found' l) refl least,
        min_positive_from-Below v' found' l,
      )
    where
      first :
          (n v v' m : ℕ)
          → v' ≡ (if n == 0 then v else if ltb n v then n else v)
          → m ≤ v'
          → (n ≡ 0) ⊎ (m ≤ n)
      first n v v' m e h = ground arith

-- A value that is at most every value that is given is at most the least one.
module _ (get : RunnerCoreHints → ℤ) where
  min_positive_from-ge :
      (m v : ℕ) (found : Bool) (l : List Pair)
      → m ≤ v
      → All (λ p. (pos_part (get p.1) ≡ 0) ⊎ (m ≤ pos_part (get p.1))) l
      → (min_positive_from get v found l ≡ 0) ⊎ (m ≤ min_positive_from get v found l)
  unfolding min_positive_from
  min_positive_from-ge m v found [] l a = ground (arith, l)
  min_positive_from-ge m v found (p ∷ ps) l (h, a) =
      let n = pos_part (get p.1) in
      min_positive_from-ge m (if n == 0 then v else if ltb n v then n else v)
        (if n == 0 then found else true) ps (ground (arith, l, h)) a

  -- It is positive once a value was given.
  min_positive_from-found : (v : ℕ) (l : List Pair) → 1 ≤ v → 1 ≤ min_positive_from get v true l
  unfolding min_positive_from
  min_positive_from-found v [] h = h
  min_positive_from-found v (p ∷ ps) h =
      let n = pos_part (get p.1) in
      elim (Bool-cases (n == 0)) [
        | inl e ↦ rw e (min_positive_from-found v ps h)
        | inr e ↦
            rw e (min_positive_from-found (if ltb n v then n else v) ps (ground (arith, e, h)))
      ]

  min_positive_from-skip :
      (v : ℕ) (found : Bool) (p : Pair) (l : List Pair)
      → (pos_part (get p.1) == 0) ≡ true
      → min_positive_from get v found l ≡ min_positive_from get v found (p ∷ l)
  unfolding min_positive_from
  min_positive_from-skip v found p l e = rw e refl

  min_positive_from-take :
      (v : ℕ) (found : Bool) (p : Pair) (l : List Pair)
      → 1 ≤ v
      → (pos_part (get p.1) == 0) ≡ false
      → 1 ≤ min_positive_from get v found (p ∷ l)
  unfolding min_positive_from
  min_positive_from-take v found p l h e =
      let n = pos_part (get p.1) in
      rw e (min_positive_from-found (if ltb n v then n else v) l (ground (arith, e, h)))

  -- No value is given, or the least one is positive.
  abbrev Given : ℕ → List Pair → Type 0
  Given least l = All (λ p. (pos_part (get p.1) ≡ 0) ⊎ (1 ≤ least)) l

  Given-positive : (least : ℕ) (l : List Pair) → 1 ≤ least → Given least l
  Given-positive least [] h = tt
  Given-positive least (p ∷ l) h = (inr h, Given-positive least l h)

  -- A value that is given makes the least one positive.
  min_positive_from-Given :
      (v : ℕ) (found : Bool) (l : List Pair) → 1 ≤ v → Given (min_positive_from get v found l) l
  min_positive_from-Given v found [] h = tt
  min_positive_from-Given v found (p ∷ l) h = elim (Bool-cases (pos_part (get p.1) == 0)) [
    | inl e ↦ (
      inl (ground (arith, e)),
      subst (λ n. Given n l) (min_positive_from-skip v found p l e)
          (min_positive_from-Given v found l h),
    )
    | inr e ↦
        Given-positive (min_positive_from get v found (p ∷ l)) (p ∷ l)
          (min_positive_from-take v found p l h e)
  ]

-- A runner gives no limit, or there is one and it is within that of the runner. Limits below 512 are
-- raised to 512.
abbrev pub Within : ℕ → RunnerCoreHints → Type 0
Within n h =
    (pos_part h.max_context_tokens ≡ 0) ⊎ ((1 ≤ n) × (n ≤ max 512 (pos_part h.max_context_tokens)))

-- A runner gives no limit, or at least `m`.
abbrev pub Allows : ℕ → RunnerCoreHints → Type 0
Allows m h = (pos_part h.max_context_tokens ≡ 0) ⊎ (m ≤ pos_part h.max_context_tokens)

norm_bound :
    (m : ℕ) (p : Pair)
    → Below (λ h. h.max_context_tokens) m p
    → (pos_part p.1.max_context_tokens ≡ 0) ⊎ (1 ≤ m)
    → Within (pos_part (norm_approx_tok (pos m))) p.1
unfolding norm_approx_tok
norm_bound m p b g = ground arith

limit_range :
    (n : ℕ)
    → let limit = pos_part (norm_approx_tok (pos n)) in
      (limit ≡ 0) ⊎ ((512 ≤ limit) × (limit ≤ 500_000))
unfolding norm_approx_tok
limit_range n = ground arith

limit_lem :
    (m n : ℕ)
    → m ≤ 500_000
    → (n ≡ 0) ⊎ (m ≤ n)
    → (pos_part (norm_approx_tok (pos n)) ≡ 0) ⊎ (m ≤ pos_part (norm_approx_tok (pos n)))
unfolding norm_approx_tok
limit_lem m n l h = ground arith

pairs-Within :
    (n : ℕ) (l : List Pair)
    → All (Below (λ h. h.max_context_tokens) n) l
    → All (λ p. (pos_part p.1.max_context_tokens ≡ 0) ⊎ (1 ≤ n)) l
    → All (λ p. Within (pos_part (norm_approx_tok (pos n))) p.1) l
pairs-Within n [] b g = tt
pairs-Within n (p ∷ l) b g = (norm_bound n p b.0 g.0, pairs-Within n l b.1 g.1)

aggregate_list-Within :
    (m : ℕ) (l : List Pair)
    → m ≤ 500_000
    → All (λ p. Allows m p.1) l
    → let limit = pos_part (aggregate_list l).max_context_tokens in
      All (λ p. Within limit p.1) l
      × ((limit ≡ 0) ⊎ (m ≤ limit))
      × ((limit ≡ 0) ⊎ ((512 ≤ limit) × (limit ≤ 500_000)))
unfolding aggregate_list aggregate_pairs finalize_chat_hints default_runner_core_hints min_positive
aggregate_list-Within m [] h a = (tt, limit_lem m 0 h (inl refl), limit_range 0)
aggregate_list-Within m (p ∷ l) h a =
    let get = λ (h : RunnerCoreHints). h.max_context_tokens in
    let n = min_positive get (p ∷ l) in
    (
      pairs-Within n (p ∷ l) (min_positive_from-Below get max_int32 false (p ∷ l))
          (min_positive_from-Given get max_int32 false (p ∷ l) (omega arith)),
      limit_lem m n h (min_positive_from-ge get m max_int32 false (p ∷ l) (omega (arith, h)) a),
      limit_range n,
    )

-- The context limit that is used is 0 (none) or from 512 to 500000. If an enabled runner gives a limit,
-- then one is used, and it is at most the larger of that one and 512. And it is not smaller than it
-- has to be: what every enabled runner that gives a limit allows, up to 500000, it allows too.
pub aggregate_chat_hints-Within :
    (r : Registry) (m : ℕ)
    → m ≤ 500_000
    → Entries (λ k st. (h : RunnerCoreHints) → st.enabled ≡ true → st.hints ≡ some h → Allows m h) r
    → let limit = pos_part (aggregate_chat_hints r).max_context_tokens in
      Entries
        (λ k st. (h : RunnerCoreHints) → st.enabled ≡ true → st.hints ≡ some h → Within limit h)
        r
      × ((limit ≡ 0) ⊎ (m ≤ limit))
      × ((limit ≡ 0) ⊎ ((512 ≤ limit) × (limit ≤ 500_000)))
unfolding aggregate_chat_hints
aggregate_chat_hints-Within r m l a =
    let (fits, least, range) =
      aggregate_list-Within m (hint_pairs r) l (hint_pairs-All_back (Allows m) r a) in
    (
      hint_pairs-All (Within (pos_part (aggregate_list (hint_pairs r)).max_context_tokens)) r fits,
      least,
      range,
    )
