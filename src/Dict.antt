-- ===== src/Dict.antt =====
-- A Go map with text keys, as an association list. The order of the list stands for the order in
-- which a `range` loop meets the entries, which Go leaves open: what holds of every list holds of
-- every order.
use gen_runner.Prelude.{
  ◌≡◌, refl, sym, subst, inl, inr, false, Option, none, some, List, [], ◌∷◌, arith, if◌then◌else◌,
  Bool-cases,
}
use gen_runner.Text.{Text, text_eq}
use gen_runner.Text.Laws.{text_eq_iff, text_eq_refl}

abbrev pub Dict {ℓ} : Type ℓ → Type ℓ
Dict V = List (Text × V)

module _ {ℓ} {V : Type ℓ} where
  unfoldable pub lookup : Text → Dict V → Option V
  lookup k [] = none
  lookup k ((j, v) ∷ m) = if text_eq j k then some v else lookup k m

  unfoldable pub insert : Text → V → Dict V → Dict V
  insert k v [] = (k, v) ∷ []
  insert k v ((j, w) ∷ m) = if text_eq j k then (j, v) ∷ m else (j, w) ∷ insert k v m

  unfoldable pub delete : Text → Dict V → Dict V
  delete k [] = []
  delete k ((j, w) ∷ m) = let rest = delete k m in if text_eq j k then rest else (j, w) ∷ rest

  pub values : Dict V → List V
  values [] = []
  values ((k, v) ∷ m) = v ∷ values m

  pub lookup-insert :
      (k j : Text) (v : V) (m : Dict V)
      → lookup j (insert k v m) ≡ (if text_eq k j then some v else lookup j m)
  unfolding lookup insert
  lookup-insert k j v [] = refl
  lookup-insert k j v ((i, w) ∷ m) =
      ground (arith, text_eq_iff k j, text_eq_iff i k, text_eq_iff i j, lookup-insert k j v m)

  pub lookup-delete :
      (k j : Text) (m : Dict V) → lookup j (delete k m) ≡ (if text_eq k j then none else lookup j m)
  unfolding lookup delete
  lookup-delete k j [] = ground arith
  lookup-delete k j ((i, w) ∷ m) =
      ground (arith, text_eq_iff k j, text_eq_iff i k, text_eq_iff i j, lookup-delete k j m)

  pub lookup-insert_self : (k : Text) (v : V) (m : Dict V) → lookup k (insert k v m) ≡ some v
  lookup-insert_self k v m = rw (lookup-insert k k v m, text_eq_refl k)

  pub lookup-delete_self : (k : Text) (m : Dict V) → lookup k (delete k m) ≡ none
  lookup-delete_self k m = rw (lookup-delete k k m, text_eq_refl k)

  pub lookup-insert_ne :
      (k j : Text) (v : V) (m : Dict V) → text_eq k j ≡ false → lookup j (insert k v m) ≡ lookup j m
  lookup-insert_ne k j v m h = rw (lookup-insert k j v m, h)

  -- A predicate on every entry, kept by the operations.
  abbrev pub Entries {κ} : (Text → V → Type κ) → Dict V → Type κ
  Entries P [] = Unit
  Entries P ((k, v) ∷ m) = P k v × Entries P m

module _ {ℓ κ} {V : Type ℓ} (P : Text → V → Type κ) where
  pub insert-Entries :
      (k : Text) (v : V) (m : Dict V) → P k v → Entries P m → Entries P (insert k v m)
  unfolding insert
  insert-Entries k v [] p h = (p, tt)
  insert-Entries k v ((j, w) ∷ m) p h = elim (Bool-cases (text_eq j k)) [
    | inl e ↦ rw e (subst (λ x. P x v) (sym ((text_eq_iff j k).0 e)) p, h.1)
    | inr e ↦ rw e (h.0, insert-Entries k v m p h.1)
  ]

  pub delete-Entries : (k : Text) (m : Dict V) → Entries P m → Entries P (delete k m)
  unfolding delete
  delete-Entries k [] h = tt
  delete-Entries k ((j, w) ∷ m) h = elim (Bool-cases (text_eq j k)) [
    | inl e ↦ rw e (delete-Entries k m h.1)
    | inr e ↦ rw e (h.0, delete-Entries k m h.1)
  ]

  pub lookup-Entries : (k : Text) (v : V) (m : Dict V) → lookup k m ≡ some v → Entries P m → P k v
  unfolding lookup
  lookup-Entries k v [] e h = cc
  lookup-Entries k v ((j, w) ∷ m) e h = elim (Bool-cases (text_eq j k)) [
    | inl t ↦ subst (λ x. P x v) ((text_eq_iff j k).0 t) (subst (P j) (ground (arith, t)) h.0)
    | inr t ↦ lookup-Entries k v m (ground (arith, t)) h.1
  ]
