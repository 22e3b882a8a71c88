-- ===== src/RunnerRing/Send/Answers.antt =====
-- llm-runner/pool.go, `SendMessage`: whether and by whom a message is taken.
use native.Mathlib.Nat.{mod-lt}
use gen_runner.Prelude.{
  ℕ, zero, suc, ◌+◌, ◌%◌, ◌≤◌, ◌<◌, ◌≡◌, refl, sym, ap, ◌∙◌, ◌⊎◌, inl, inr, Bool, true, false, not,
  ◌&&◌, Option, none, some, List, [], ◌∷◌, arith, ◌==◌, ==_iff, Bool-cases, Option-cases,
  List-cases, length, is_empty, get_elem?,
}
use gen_runner.Text.{contains, Text, text_eq}
use gen_runner.Text.Laws.{text_eq_iff, text_eq_refl}
use gen_runner.Dict.{lookup}
use gen_runner.RunnerRing.{
  Ring, max_retries_per_runner, get_conn, close_conn, enabled_addresses, pick_runner, next_index,
}
use gen_runner.RunnerRing.Send.{
  others, ordered_addresses, taken_by, try_send_message, attempts, send_in_order, send_picked,
  send_message,
}

contains-others :
    (s : Text) (l : List Text) (a : Text)
    → contains (others s l) a ≡ (not (text_eq s a) && contains l a)
unfolding others
contains-others s [] a = ground arith
contains-others s (b ∷ l) a = elim (Bool-cases (text_eq b a)) [
  | inl t ↦ ground (arith, t, (text_eq_iff b a).0 t, contains-others s l a)
  | inr t ↦ elim (Bool-cases (text_eq s b)) [
    | inl u ↦ ground (arith, t, u, contains-others s l a)
    | inr u ↦ ground (arith, t, u, contains-others s l a)
  ]
]

-- The order holds the first address and the enabled ones, and no other.
contains-ordered_addresses :
    (p : Ring) (s a : Text)
    → contains (enabled_addresses p) s ≡ true
    → contains (ordered_addresses p s) a ≡ contains (enabled_addresses p) a
unfolding ordered_addresses
contains-ordered_addresses p s a h = elim (List-cases (enabled_addresses p)) [
  | inl e ↦ rw e
  | inr (c, l, e) ↦ elim (Bool-cases (is_empty s)) [
    | inl z ↦ rw (e, z)
    | inr z ↦ rw (ordered_lem p s z (ap is_empty e)) (first_lem p s a h)
  ]
]
  where
    first_lem :
        (p : Ring) (s a : Text)
        → contains (enabled_addresses p) s ≡ true
        → contains (s ∷ others s (enabled_addresses p)) a ≡ contains (enabled_addresses p) a
    first_lem p s a h = elim (Bool-cases (text_eq s a)) [
      | inl t ↦ ground (arith, t, h, ap (contains (enabled_addresses p)) ((text_eq_iff s a).0 t))
      | inr t ↦ ground (arith, t, contains-others s (enabled_addresses p) a)
    ]

    ordered_lem :
        (p : Ring) (s : Text)
        → is_empty s ≡ false
        → is_empty (enabled_addresses p) ≡ false
        → ordered_addresses p s ≡ s ∷ others s (enabled_addresses p)
    ordered_lem p s z e = rw (e, z)

contains-length : (l : List Text) (a : Text) → contains l a ≡ true → 0 < length l
contains-length [] a h = cc
contains-length (b ∷ l) a h = omega arith

pub is_empty-false : (l : List Text) → 0 < length l → is_empty l ≡ false
is_empty-false [] h = absurd (omega arith)
is_empty-false (b ∷ l) h = refl

get_elem?-contains :
    (l : List Text) (i : ℕ)
    → i < length l
    → (s : Text) × (get_elem? l i ≡ some s) × (contains l s ≡ true)
get_elem?-contains [] i h = absurd (omega arith)
get_elem?-contains (b ∷ l) zero h = (b, refl, rw (text_eq_refl b))
get_elem?-contains (b ∷ l) (suc i) h =
    let (s, e, c) = get_elem?-contains l i (omega arith) in (s, e, ground (arith, c))

pub picked_lem :
    (p : Ring) (s : Text)
    → 0 < length (enabled_addresses p)
    → get_elem? (enabled_addresses p) (next_index p.index % length (enabled_addresses p)) ≡ some s
    → ((pick_runner p).1 ≡ some s) × (enabled_addresses (pick_runner p).0 ≡ enabled_addresses p)
unfolding pick_runner
picked_lem p s full e =
    let some_addr = is_empty-false (enabled_addresses p) full in
    (rw some_addr e, rw some_addr (unfold enabled_addresses in refl))

module _ (dial : Text → Bool) (answer : Text → ℕ → Bool) where
  -- A runner that can be dialled and opens a stream at one of its attempts.
  abbrev pub Answers : Text → Type 0
  Answers a = (dial a ≡ true) × ((k : ℕ) × (k ≤ max_retries_per_runner) × (answer a k ≡ true))

  get_conn-some :
      (p : Ring) (a : Text) → dial a ≡ true → (c : Text) × ((get_conn dial p a).1 ≡ some c)
  unfolding get_conn
  get_conn-some p a d = elim (Option-cases (lookup a p.conns)) [
    | inl e ↦ (a, ground (arith, e, d))
    | inr (c, e) ↦ (c, ground (arith, e))
  ]

  try_send_message_lem :
      (p : Ring) (a : Text) (k : ℕ)
      → dial a ≡ true
      → (try_send_message dial answer p a k).1 ≡ answer a k
  unfolding try_send_message
  try_send_message_lem p a k d = let (c, e) = get_conn-some p a d in rw (e, try_send_message)

  attempts_lem :
      (left n : ℕ) (a : Text) (r : Ring × Bool)
      → dial a ≡ true
      → (r.1 ≡ true) ⊎ ((k : ℕ) × (n ≤ k) × (k < n + left) × (answer a k ≡ true))
      → (attempts dial answer left n a r).1 ≡ true
  unfolding attempts
  attempts_lem zero n a r d (inl e) = e
  attempts_lem zero n a r d (inr (k, l, u, e)) = absurd (omega arith)
  attempts_lem (suc left) n a (p, true) d h = refl
  attempts_lem (suc left) n a (p, false) d (inl e) = cc
  attempts_lem (suc left) n a (p, false) d (inr (k, l, u, e)) =
      attempts_lem left (n + 1) a (try_send_message dial answer p a n) d
        (elim (Bool-cases (k == n)) [
          | inl t ↦ inl (try_send_message_lem p a n d ∙ ap (answer a) (sym ((==_iff k n).0 t)) ∙ e)
          | inr f ↦ inr (k, ground (arith, f), omega arith, e)
        ])

  send_in_order-taken :
      (order : List Text) (p : Ring) (a : Text)
      → contains order a ≡ true
      → Answers a
      → (b : Text) × ((send_in_order dial answer p order).1 ≡ taken_by b)
  unfolding send_in_order
  send_in_order-taken [] p a h ans = absurd (cc)
  send_in_order-taken (c ∷ order) p a h ans =
      let r = attempts dial answer (max_retries_per_runner + 1) 0 c (p, false) in
      elim (Bool-cases (r.1)) [
        | inl e ↦ (c, rw e)
        | inr e ↦
            let here : contains order a ≡ true = elim (Bool-cases (text_eq c a)) [
              | inl t ↦
                  let (d, (k, small, yes_k)) = ans in
                  let won =
                    attempts_lem 3 0 a (p, false) d (inr (k, omega arith, omega arith, yes_k)) in
                  absurd (cc (won, e, (text_eq_iff c a).0 t))
              | inr t ↦ ground (arith, t, h)
            ] in
            let (b, f) = send_in_order-taken order (close_conn (r.0) c) a here ans in (b, rw e f)
      ]

  send_in_order-contains :
      (order : List Text) (p : Ring) (b : Text)
      → (send_in_order dial answer p order).1 ≡ taken_by b
      → contains order b ≡ true
  unfolding send_in_order
  send_in_order-contains [] p b h = cc
  send_in_order-contains (c ∷ order) p b h =
      let r = attempts dial answer (max_retries_per_runner + 1) 0 c (p, false) in
      elim (Bool-cases (r.1)) [
        | inl e ↦ let same : c ≡ b = ground (arith, e, h) in rw (same, text_eq_refl b)
        | inr e ↦
            let rest = send_in_order-contains order (close_conn (r.0) c) b (ground (arith, e, h)) in
            ground (arith, rest)
      ]

  pick_runner-enabled :
      (p : Ring) (a : Text)
      → contains (enabled_addresses p) a ≡ true
      → (s : Text) × (contains (enabled_addresses p) s ≡ true)
        × ((pick_runner p).1 ≡ some s)
        × (enabled_addresses (pick_runner p).0 ≡ enabled_addresses p)
  pick_runner-enabled p a h =
      let addrs = enabled_addresses p in
      let full : 0 < length addrs = contains-length addrs a h in
      let (s, e, c) =
        get_elem?-contains addrs (next_index p.index % length addrs)
          (mod-lt (next_index p.index) full) in
      let (picked, same) = picked_lem p s full e in (s, c, picked, same)

  send_picked_lem :
      (r : Ring × Option Text) (s : Text)
      → r.1 ≡ some s
      → (send_picked dial answer r).1
        ≡ (send_in_order dial answer (r.0) (ordered_addresses (r.0) s)).1
  unfolding send_picked
  send_picked_lem (p, none) s e = absurd (cc)
  send_picked_lem (p, some t) s e = let same : t ≡ s = cc in rw same

  -- If an enabled runner can be dialled and opens a stream at one of its three attempts, then a
  -- message is taken, by an enabled runner.
  pub send_message-taken :
      (p : Ring) (a : Text)
      → contains (enabled_addresses p) a ≡ true
      → Answers a
      → (b : Text) × ((send_message dial answer p).1 ≡ taken_by b)
        × (contains (enabled_addresses p) b ≡ true)
  unfolding send_message
  send_message-taken p a h ans =
      let (s, c, e, same) = pick_runner-enabled p a h in
      let p' = (pick_runner p).0 in
      let order = ordered_addresses p' s in
      let c' : contains (enabled_addresses p') s ≡ true = rw same c in
      let (b, t) =
        send_in_order-taken order p' a (contains-ordered_addresses p' s a c' ∙ rw same h) ans in
      (
        b,
        send_picked_lem (pick_runner p) s e ∙ t,
        rw same at
            (sym (contains-ordered_addresses p' s b c') ∙ send_in_order-contains order p' b t),
      )
