-- ===== src/SessionPool/Runs.antt =====
-- internal/mcpclient/session_pool.go: a run of an operation on a connection of the pool.
use gen_runner.Prelude.{
  ℕ, ◌-◌, ◌≤◌, ◌<◌, ◌≡◌, refl, sym, ap, ◌∙◌, subst, ◌⊎◌, inl, inr, Bool, true, false, not, ◌&&◌,
  ◌||◌, none, some, List, [], ◌∷◌, arith, ltb, is_some, Bool-cases, Option-cases, length, All,
  length-set,
}
use gen_runner.Text.{Text, text_eq}
use gen_runner.SessionPool.{
  Sessions, conn_at, close_session, open_session, touch, Try, Outcome, done, failed, Round, Result,
  finished, connect_error, without_stale, with_session, after_operation, run_round, run_on,
}
use gen_runner.SessionPool.Sound.{held, is_in, IsSoundPool}
use gen_runner.SessionPool.Laws.{
  held-set_self, touch-IsSound, close_session-IsSound, open_session-IsSound, length-close_session,
  held-close_session, is_in-close_session, is_in-close_session_self,
}

-- A pool that comes from another: it is sound, has the same connections, and what was closed there is
-- closed.
abbrev Follows : Sessions → Sessions → Type 0
Follows p q =
    IsSoundPool q
    × (length q.conns ≡ length p.conns)
    × ((n : ℕ) → is_in n p.closed ≡ true → is_in n q.closed ≡ true)

Follows-trans : (p q r : Sessions) → Follows p q → Follows q r → Follows p r
Follows-trans p q r (i, l, c) (j, m, d) = (j, m ∙ l, λ n h. d n (c n h))

close_session-Follows : (p : Sessions) (a : ℕ) → IsSoundPool p → Follows p (close_session p a)
close_session-Follows p a i =
    (close_session-IsSound p a i, length-close_session p a, λ n. is_in-close_session p a n)

without_stale-Follows :
    (p : Sessions) (a : ℕ) (fp : Text) (max_idle now : ℕ)
    → IsSoundPool p
    → Follows p (without_stale p a fp max_idle now)
unfolding without_stale
without_stale-Follows p a fp max_idle now i =
    let c = conn_at p.conns a in
    elim (Bool-cases
      (is_some c.session && (not (text_eq c.fp fp) || ltb max_idle (now - c.last_used)))) [
        | inl e ↦ rw (without_stale, e) (close_session-Follows p a i)
        | inr e ↦ rw (without_stale, e) (i, refl, λ n h. h)
      ]

open_lem :
    (p : Sessions) (a : ℕ) (fp : Text)
    → a < length p.conns
    → held p.conns a ≡ none
    → IsSoundPool p
    → Follows p (open_session p a fp) × ((s : ℕ) × (held (open_session p a fp).conns a ≡ some s))
unfolding open_session
open_lem p a fp l e i =
    let c = record (conn_at p.conns a) { fp = fp; session = some p.opened } in
    (
      (open_session-IsSound p a fp l e i, length-set p.conns a c, λ n h. h),
      (p.opened, held-set_self p.conns a c l),
    )

held-touch :
    (p : Sessions) (a s now : ℕ)
    → a < length p.conns
    → held p.conns a ≡ some s
    → held (touch p a now).conns a ≡ some s
unfolding touch
held-touch p a s now l h =
    held-set_self p.conns a (record (conn_at p.conns a) { last_used = now }) l ∙ h

touch-Follows :
    (p : Sessions) (a now : ℕ) → a < length p.conns → IsSoundPool p → Follows p (touch p a now)
unfolding touch
touch-Follows p a now l i = (
  touch-IsSound p a now l i,
  length-set p.conns a (record (conn_at p.conns a) { last_used = now }),
  λ n h. h,
)

-- The session that the operation runs on is held and open.
with_session-Follows :
    (p ready : Sessions) (a : ℕ) (fp : Text) (connects : Bool)
    → a < length p.conns
    → IsSoundPool p
    → with_session p a fp connects ≡ some ready
    → Follows p ready × ((s : ℕ) × (held ready.conns a ≡ some s))
unfolding with_session
with_session-Follows p ready a fp connects l i h = elim (Option-cases (held p.conns a)) [
  | inr (s, e) ↦
      let same : p ≡ ready = ground (arith, e, h) in
      subst (λ q. Follows p q × ((t : ℕ) × (held q.conns a ≡ some t))) same
        ((i, refl, λ n x. x), (s, e))
  | inl e ↦ elim (Bool-cases connects) [
    | inr c ↦ ground (arith, e, c, h)
    | inl c ↦
        let same : open_session p a fp ≡ ready = ground (arith, e, c, h) in
        subst (λ q. Follows p q × ((t : ℕ) × (held q.conns a ≡ some t))) same
          (open_lem p a fp l e i)
  ]
]

-- A call of the operation between two pools: its session was open, what was closed at first was closed
-- by then, what was closed by then is closed at last, and so is the session, if the loop goes on.
abbrev IsTry : List ℕ → List ℕ → Bool → Try → Type 0
IsTry closed closed' again t =
    (s : ℕ) × (t.on ≡ some s)
    × (is_in s t.closed_before ≡ false)
    × ((n : ℕ) → is_in n closed ≡ true → is_in n t.closed_before ≡ true)
    × ((n : ℕ) → is_in n t.closed_before ≡ true → is_in n closed' ≡ true)
    × (again ≡ true → is_in s closed' ≡ true)

-- What a round does to the pool and the calls so far.
abbrev RoundKeeps : Sessions → ℕ → List Try → Sessions × Result × Bool × List Try → Type 0
RoundKeeps p a used (q, result, again, used') =
    Follows p q
    × (((used' ≡ used) × (again ≡ false))
        ⊎ ((t : Try) × (used' ≡ t ∷ used) × IsTry p.closed q.closed again t))
    × ((result ≡ finished) ⊎ (held q.conns a ≡ none))

abbrev try_on : Sessions → ℕ → Try
try_on ready a = record { on = held ready.conns a; closed_before = ready.closed }

after_operation-RoundKeeps :
    (p ready : Sessions) (a s : ℕ) (reused : Bool) (done_at : ℕ) (o : Outcome) (used : List Try)
    → a < length ready.conns
    → Follows p ready
    → held ready.conns a ≡ some s
    → RoundKeeps p a used (after_operation ready a reused done_at o (try_on ready a ∷ used))
unfolding after_operation touch
after_operation-RoundKeeps p ready a s reused done_at done used l f h = (
  Follows-trans p ready (touch ready a done_at) f (touch-Follows ready a done_at l f.0),
  inr (
    try_on ready a,
    refl,
    (s, h, ((f.0).0 a s h).1, f.2, (λ n x. x), λ again. ground (arith, again)),
  ),
  inl refl,
)
after_operation-RoundKeeps p ready a s reused done_at (failed retryable) used l f h =
    let t = touch ready a done_at in
    let g = touch-Follows ready a done_at l f.0 in
    let c = close_session-Follows t a g.0 in
    (
      Follows-trans p ready (close_session t a) f (Follows-trans ready t (close_session t a) g c),
      inr (
        try_on ready a,
        refl,
        (
          s,
          h,
          ((f.0).0 a s h).1,
          f.2,
          c.2,
          λ again. is_in-close_session_self t a s (held-touch ready a s done_at l h),
        ),
      ),
      inr (held-close_session t a),
    )

round_none :
    (p : Sessions) (a : ℕ) (fp : Text) (max_idle : ℕ) (r : Round) (used : List Try)
    → with_session (without_stale p a fp max_idle r.now) a fp r.connects ≡ none
    → run_round p a fp max_idle r used
      ≡ (without_stale p a fp max_idle r.now, connect_error, false, used)
unfolding run_round
round_none p a fp max_idle r used e = rw (run_round, e) refl

round_some :
    (p ready : Sessions) (a : ℕ) (fp : Text) (max_idle : ℕ) (r : Round) (used : List Try)
    → with_session (without_stale p a fp max_idle r.now) a fp r.connects ≡ some ready
    → run_round p a fp max_idle r used
      ≡ after_operation ready a
          (is_some (held (without_stale p a fp max_idle r.now).conns a))
          r.done_at
          r.outcome
          (try_on ready a ∷ used)
unfolding run_round
round_some p ready a fp max_idle r used e = rw (run_round, e) refl

with_session-none :
    (p : Sessions) (a : ℕ) (fp : Text) (connects : Bool)
    → with_session p a fp connects ≡ none
    → held p.conns a ≡ none
unfolding with_session
with_session-none p a fp connects h = elim (Option-cases (held p.conns a)) [
  | inl e ↦ e
  | inr (s, e) ↦ ground (arith, e, h)
]

run_round-RoundKeeps :
    (p : Sessions) (a : ℕ) (fp : Text) (max_idle : ℕ) (r : Round) (used : List Try)
    → a < length p.conns
    → IsSoundPool p
    → RoundKeeps p a used (run_round p a fp max_idle r used)
run_round-RoundKeeps p a fp max_idle r used l i =
    let q = without_stale p a fp max_idle r.now in
    let f = without_stale-Follows p a fp max_idle r.now i in
    let l' : a < length q.conns = omega (arith, l, f.1) in
    elim (Option-cases (with_session q a fp r.connects)) [
      | inl e ↦
          subst (RoundKeeps p a used) (sym (round_none p a fp max_idle r used e))
            (f, inl (refl, refl), inr (with_session-none q a fp r.connects e))
      | inr (ready, e) ↦
          let (g, (s, h)) = with_session-Follows q ready a fp r.connects l' f.0 e in
          subst (RoundKeeps p a used) (sym (round_some p ready a fp max_idle r used e)) (
            after_operation-RoundKeeps p ready a s (is_some (held q.conns a)) r.done_at r.outcome
              used (omega (arith, l', g.1)) (Follows-trans p q ready f g) h)
    ]

-- The calls of the operation, the last one first: each is on a session that was open, when all that
-- `closed` has was closed, and so were the sessions of the calls before it.
abbrev AreTries : List ℕ → List Try → Type 0
AreTries closed [] = Unit
AreTries closed (t ∷ ts) =
    ((s : ℕ) × (t.on ≡ some s) × (is_in s t.closed_before ≡ false))
    × ((n : ℕ) → is_in n closed ≡ true → is_in n t.closed_before ≡ true)
    × All (λ u. (n : ℕ) → u.on ≡ some n → is_in n t.closed_before ≡ true) ts
    × AreTries closed ts

abbrev pub RunKeeps : Sessions → ℕ → Sessions × Result × List Try → Type 0
RunKeeps p a (q, result, used) =
    IsSoundPool q
    × ((length used ≤ 2) × AreTries p.closed used)
    × ((result ≡ finished) ⊎ (held q.conns a ≡ none))

-- The calls of one round after those so far.
abbrev RoundTries : List ℕ → List ℕ → Bool → List Try → List Try → Type 0
RoundTries closed closed' again used used' =
    ((used' ≡ used) × (again ≡ false))
    ⊎ ((t : Try) × (used' ≡ t ∷ used) × IsTry closed closed' again t)

abbrev AtMostTries : ℕ → List ℕ → List Try → Type 0
AtMostTries n closed used = (length used ≤ n) × AreTries closed used

first-AreTries :
    (closed closed' : List ℕ) (again : Bool) (used : List Try)
    → RoundTries closed closed' again [] used
    → AtMostTries 1 closed used
first-AreTries closed closed' again used (inl (e, x)) =
    subst (AtMostTries 1 closed) (sym e) (omega arith, tt)
first-AreTries closed closed' again used (inr (t, e, (s, h, o, c, d, l))) =
    subst (AtMostTries 1 closed) (sym e) (omega arith, ((s, h, o), c, tt, tt))

-- A second round, which the first one asked for.
second-AreTries :
    (closed closed' closed2 : List ℕ) (again' : Bool) (used used' : List Try)
    → RoundTries closed closed' true [] used
    → RoundTries closed' closed2 again' used used'
    → AtMostTries 2 closed used'
second-AreTries closed closed' closed2 again' used used' (inl (e, x)) v = ground (arith, x)
second-AreTries closed closed' closed2 again' used used' (inr (t, e, (s, h, o, c, d, l)))
      (inl (f, x)) =
    subst (AtMostTries 2 closed) (sym (f ∙ e)) (omega arith, ((s, h, o), c, tt, tt))
second-AreTries closed closed' closed2 again' used used' (inr (t, e, (s, h, o, c, d, l)))
      (inr (t', f, (s', h', o', c', d', l'))) =
    let both : used' ≡ t' ∷ t ∷ [] = f ∙ ap (λ (x : List Try). t' ∷ x) e in
    subst (AtMostTries 2 closed) (sym both) (
      omega arith,
      (
        (s', h', o'),
        (λ n x. c' n (d n (c n x))),
        (
          (λ n x.
              let same : s ≡ n = ground (arith, h, x) in
              c' n (subst (λ m. is_in m closed' ≡ true) same (l refl))),
          tt,
        ),
        ((s, h, o), c, tt, tt),
      ),
    )

-- A run of an operation on a connection of a sound pool leaves the pool sound. The operation is tried
-- twice at most, and each time on a session that is open then, while the sessions of the tries before
-- it and all that were closed at the start are closed. If it does not finish, then the connection has
-- no session any more.
pub run_on-RunKeeps :
    (p : Sessions) (a : ℕ) (fp : Text) (max_idle : ℕ) (first second : Round)
    → a < length p.conns
    → IsSoundPool p
    → RunKeeps p a (run_on p a fp max_idle first second)
unfolding run_on
run_on-RunKeeps p a fp max_idle first second l i =
    let one = run_round p a fp max_idle first [] in
    let (f, u, d) = run_round-RoundKeeps p a fp max_idle first [] l i in
    let two = run_round (one.0) a fp max_idle second (one.3) in
    let (g, v, e) =
      run_round-RoundKeeps (one.0) a fp max_idle second (one.3) (omega (arith, l, f.1)) f.0 in
    elim (Bool-cases (one.2)) [
      | inr t ↦
          let (n, tries) = first-AreTries p.closed (one.0).closed (one.2) (one.3) u in
          rw (run_on, t) (f.0, (omega (arith, n), tries), d)
      | inl t ↦
          let u' = subst (λ b. RoundTries p.closed (one.0).closed b [] (one.3)) t u in
          rw (run_on, t)
            (
              g.0,
              second-AreTries p.closed (one.0).closed (two.0).closed (two.2) (one.3) (two.3) u' v,
              e,
            )
    ]
