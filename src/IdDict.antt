-- ===== src/IdDict.antt =====
-- A Go map whose keys are integers, as an association list. The order of the list stands for the
-- order in which a `range` loop meets the entries, which Go leaves open.
use gen_runner.Prelude.{
  ◌≡◌, refl, ap, ◌∙◌, ◌↔◌, inl, inr, Bool, true, Option, none, some, List, [], ◌∷◌, arith,
  if◌then◌else◌, Bool-cases,
}
use gen_runner.Prelude.Int.{ℤ, pos, negsuc, eq_ℤ}

abbrev pub IdDict {ℓ} : Type ℓ → Type ℓ
IdDict V = List (ℤ × V)

eq_of_eq_ℤ : (a b : ℤ) → eq_ℤ a b ≡ true → a ≡ b
eq_of_eq_ℤ (pos a) (pos b) h = ap pos (ground arith)
eq_of_eq_ℤ (pos a) (negsuc b) h = ground arith
eq_of_eq_ℤ (negsuc a) (pos b) h = ground arith
eq_of_eq_ℤ (negsuc a) (negsuc b) h = ap negsuc (ground arith)

-- `==` on integers.
unfoldable pub id_eq : ℤ → ℤ → Bool
id_eq a b = eq_ℤ a b

pub id_eq_refl : (a : ℤ) → id_eq a a ≡ true
unfolding id_eq
id_eq_refl a = ground arith

pub id_eq_iff : (a b : ℤ) → (id_eq a b ≡ true) ↔ (a ≡ b)
unfolding id_eq
id_eq_iff a b = (eq_of_eq_ℤ a b, λ e. rw e (id_eq_refl b))

module _ {ℓ} {V : Type ℓ} where
  unfoldable pub find : ℤ → IdDict V → Option V
  find k [] = none
  find k ((j, v) ∷ m) = if id_eq j k then some v else find k m

  unfoldable pub assign : ℤ → V → IdDict V → IdDict V
  assign k v [] = (k, v) ∷ []
  assign k v ((j, w) ∷ m) = if id_eq j k then (j, v) ∷ m else (j, w) ∷ assign k v m

  -- Deleting in a `range` loop the entries that do not pass the test.
  unfoldable pub retain : (V → Bool) → IdDict V → IdDict V
  retain p [] = []
  retain p ((j, w) ∷ m) = let rest = retain p m in if p w then (j, w) ∷ rest else rest

  pub find-assign :
      (k j : ℤ) (v : V) (m : IdDict V)
      → find j (assign k v m) ≡ (if id_eq k j then some v else find j m)
  unfolding find assign
  find-assign k j v [] = refl
  find-assign k j v ((i, w) ∷ m) =
      ground (arith, id_eq_iff k j, id_eq_iff i k, id_eq_iff i j, find-assign k j v m)

  find-assign_self : (k : ℤ) (v : V) (m : IdDict V) → find k (assign k v m) ≡ some v
  find-assign_self k v m = rw (find-assign k k v m, id_eq_refl k)

  -- No key stands twice, as in a Go map.
  abbrev pub UniqueIds : IdDict V → Type ℓ
  UniqueIds [] = Unit
  UniqueIds ((k, v) ∷ m) = (find k m ≡ none) × UniqueIds m

  pub assign-UniqueIds : (k : ℤ) (v : V) (m : IdDict V) → UniqueIds m → UniqueIds (assign k v m)
  unfolding assign find
  assign-UniqueIds k v [] h = (refl, tt)
  assign-UniqueIds k v ((j, w) ∷ m) h = elim (Bool-cases (id_eq j k)) [
    | inl e ↦ rw e h
    | inr e ↦ rw e (
      ground (arith, find-assign k j v m, e, h.0, id_eq_iff j k, id_eq_iff k j),
      assign-UniqueIds k v m h.1,
    )
  ]

  find-retain-none :
      (k : ℤ) (p : V → Bool) (m : IdDict V) → find k m ≡ none → find k (retain p m) ≡ none
  unfolding retain find
  find-retain-none k p [] h = refl
  find-retain-none k p ((j, w) ∷ m) h = elim (Bool-cases (p w)) [
    | inl e ↦ rw e (ground (arith, h, find-retain-none k p m))
    | inr e ↦ rw e (ground (arith, h, find-retain-none k p m))
  ]

  pub retain-UniqueIds : (p : V → Bool) (m : IdDict V) → UniqueIds m → UniqueIds (retain p m)
  unfolding retain
  retain-UniqueIds p [] h = tt
  retain-UniqueIds p ((j, w) ∷ m) h = elim (Bool-cases (p w)) [
    | inl e ↦ rw e (find-retain-none j p m h.0, retain-UniqueIds p m h.1)
    | inr e ↦ rw e (retain-UniqueIds p m h.1)
  ]

  -- What is found after entries were deleted was there before.
  pub find-retain :
      (k : ℤ) (v : V) (p : V → Bool) (m : IdDict V)
      → UniqueIds m
      → find k (retain p m) ≡ some v
      → find k m ≡ some v
  unfolding retain find
  find-retain k v p [] u h = h
  find-retain k v p ((j, w) ∷ m) u h = elim (Bool-cases (p w)) [
    | inl e ↦ ground (arith, e, h, find-retain k v p m u.1)
    | inr e ↦
        ground
          (arith, e, h, find-retain k v p m u.1, find-retain-none j p m u.0, id_eq_iff j k, u.0)
  ]

  -- An entry that passes the test is still found.
  pub find-retain_kept :
      (k : ℤ) (v : V) (p : V → Bool) (m : IdDict V)
      → p v ≡ true
      → find k m ≡ some v
      → find k (retain p m) ≡ some v
  unfolding retain find
  find-retain_kept k v p [] t h = h
  find-retain_kept k v p ((j, w) ∷ m) t h = elim (Bool-cases (id_eq j k)) [
    | inl e ↦ let same : w ≡ v = ground (arith, e, h) in rw (ap p same ∙ t, e) (ap some same)
    | inr e ↦ elim (Bool-cases (p w)) [
      | inl q ↦ rw (q, e) (find-retain_kept k v p m t (ground (arith, e, h)))
      | inr q ↦ rw q (find-retain_kept k v p m t (ground (arith, e, h)))
    ]
  ]
