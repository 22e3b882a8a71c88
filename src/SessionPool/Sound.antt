-- ===== src/SessionPool/Sound.antt =====
-- internal/mcpclient/session_pool.go: what it means that sessions are open while they are held, and
-- that none is lost from the store of connections.
use gen_runner.Prelude.{
  ℕ, suc, ◌<◌, ◌≡◌, sym, ap, ◌∙◌, subst, ◌≢◌, ◌⊎◌, inl, inr, Bool, true, false, ◌||◌, Option, none,
  some, List, [], ◌∷◌, arith, ◌==◌, ==_iff, Bool-cases,
}
use gen_runner.SessionPool.{PooledConn, Sessions, conn_at}

-- The session that the connection at an address has.
abbrev pub held : List PooledConn → ℕ → Option ℕ
held conns a = (conn_at conns a).session

abbrev pub is_in : ℕ → List ℕ → Bool
is_in s [] = false
is_in s (t ∷ l) = s == t || is_in s l

-- A session that is held was opened and is not closed, no two connections have the same one, every
-- session that was opened is closed or held, and what is closed was opened.
abbrev pub IsSound : (ℕ → Option ℕ) → ℕ → List ℕ → Type 0
IsSound h opened closed =
    ((a s : ℕ) → h a ≡ some s → (s < opened) × (is_in s closed ≡ false))
    × ((a b s : ℕ) → h a ≡ some s → h b ≡ some s → a ≡ b)
    × ((s : ℕ) → s < opened → is_in s closed ≡ false → (a : ℕ) × (h a ≡ some s))
    × ((s : ℕ) → is_in s closed ≡ true → s < opened)

abbrev pub IsSoundPool : Sessions → Type 0
IsSoundPool p = IsSound (held p.conns) p.opened p.closed

pub ℕ-cases : (a b : ℕ) → (a ≡ b) ⊎ (a ≢ b)
ℕ-cases a b = elim (Bool-cases (a == b)) [
  | inl t ↦ inl ((==_iff a b).0 t)
  | inr t ↦ inr (ground (arith, t))
]

pub ext-IsSound :
    (h h' : ℕ → Option ℕ) (opened : ℕ) (closed : List ℕ)
    → ((a : ℕ) → h' a ≡ h a)
    → IsSound h opened closed
    → IsSound h' opened closed
ext-IsSound h h' opened closed e (i, j, k, u) = (
  λ a s x. i a s (sym (e a) ∙ x),
  λ a b s x y. j a b s (sym (e a) ∙ x) (sym (e b) ∙ y),
  λ s l n. let (a, x) = k s l n in (a, e a ∙ x),
  u,
)

-- `h'` is `h` but at `a`.
abbrev pub SameBut : (ℕ → Option ℕ) → (ℕ → Option ℕ) → ℕ → Type 0
SameBut h h' a = (b : ℕ) → a ≢ b → h' b ≡ h b

pub closed-IsSound :
    (h h' : ℕ → Option ℕ) (a s opened : ℕ) (closed : List ℕ)
    → h a ≡ some s
    → h' a ≡ none
    → SameBut h h' a
    → IsSound h opened closed
    → IsSound h' opened (s ∷ closed)
closed-IsSound h h' a s opened closed e n o (i, j, k, u) = (
  λ b t x. elim (ℕ-cases a b) [
    | inl q ↦ ground (arith, ap h' q, n, x)
    | inr q ↦
        let y = sym (o b q) ∙ x in
        let (l, c) = i b t y in
        (
          l,
          elim (ℕ-cases t s) [
            | inl z ↦ ground (arith, q, j a b s e (y ∙ ap some z))
            | inr z ↦ ground (arith, z, c)
          ],
        )
  ],
  λ b c t x y. elim (ℕ-cases a b) [
    | inl q ↦ ground (arith, ap h' q, n, x)
    | inr q ↦ elim (ℕ-cases a c) [
      | inl r ↦ ground (arith, ap h' r, n, y)
      | inr r ↦ j b c t (sym (o b q) ∙ x) (sym (o c r) ∙ y)
    ]
  ],
  λ t l m.
      let (b, x) = k t l (ground (arith, m)) in
      elim (ℕ-cases a b) [
        | inl q ↦ let z : some s ≡ some t = sym e ∙ ap h q ∙ x in ground (arith, z, m)
        | inr q ↦ (b, o b q ∙ x)
      ],
  λ t m. elim (ℕ-cases t s) [
    | inl z ↦ subst (λ x. x < opened) (sym z) (i a s e).0
    | inr z ↦ u t (ground (arith, z, m))
  ],
)

pub opened-IsSound :
    (h h' : ℕ → Option ℕ) (a opened : ℕ) (closed : List ℕ)
    → h a ≡ none
    → h' a ≡ some opened
    → SameBut h h' a
    → IsSound h opened closed
    → IsSound h' (suc opened) closed
opened-IsSound h h' a opened closed e n o (i, j, k, u) =
    let first : (b t : ℕ) → h' b ≡ some t → ((a ≡ b) × (t ≡ opened)) ⊎ ((a ≢ b) × (h b ≡ some t)) =
      λ b t x. elim (ℕ-cases a b) [
        | inl q ↦ inl (q, ground (arith, ap h' q, n, x))
        | inr q ↦ inr (q, sym (o b q) ∙ x)
      ] in
    let fresh : is_in opened closed ≡ false = elim (Bool-cases (is_in opened closed)) [
      | inl t ↦ ground (arith, u opened t)
      | inr t ↦ t
    ] in
    (
      λ b t x. elim (first b t x) [
        | inl (q, z) ↦ (omega (arith, z), subst (λ y. is_in y closed ≡ false) (sym z) fresh)
        | inr (q, y) ↦ let (l, c) = i b t y in (omega (arith, l), c)
      ],
      λ b c t x y. elim (first b t x) [
        | inl (q, z) ↦ elim (first c t y) [
          | inl (r, w) ↦ sym q ∙ r
          | inr (r, w) ↦ ground (arith, z, (i c t w).0)
        ]
        | inr (q, z) ↦ elim (first c t y) [
          | inl (r, w) ↦ ground (arith, w, (i b t z).0)
          | inr (r, w) ↦ j b c t z w
        ]
      ],
      λ t l m. elim (ℕ-cases t opened) [
        | inl z ↦ (a, n ∙ ap some (sym z))
        | inr z ↦
            let (b, x) = k t (ground (arith, z, l)) m in
            elim (ℕ-cases a b) [ inl q ↦ ground (arith, ap h q, e, x) | inr q ↦ (b, o b q ∙ x) ]
      ],
      λ t m. omega (arith, u t m),
    )
