-- ===== src/SessionPool/Laws.antt =====
-- internal/mcpclient/session_pool.go: the operations on sessions keep the pool sound, and an operation
-- of a client runs on open sessions only.
use gen_runner.Prelude.{
  ℕ, zero, suc, ◌<◌, ◌≡◌, refl, ap, ◌∙◌, subst, ◌≢◌, inl, inr, true, none, some, List, [], ◌∷◌,
  ◌++◌, arith, leb, ◌==◌, ==_iff, Bool-cases, Option-cases, length, set, length-set,
}
use gen_runner.Prelude.Int.{ℤ, pos_part}
use gen_runner.Text.{Text}
use gen_runner.IdDict.{find}
use gen_runner.SessionPool.{
  PooledConn, Sessions, empty_conn, conn_at, acquire, close_session, open_session, touch, forget,
  close_server,
}
use gen_runner.SessionPool.Sound.{
  held, is_in, IsSoundPool, SameBut, ext-IsSound, closed-IsSound, opened-IsSound,
}

conn_at-set_self :
    (conns : List PooledConn) (a : ℕ) (c : PooledConn)
    → a < length conns
    → conn_at (set conns a c) a ≡ c
unfolding conn_at
conn_at-set_self [] a c h = ground (arith, h)
conn_at-set_self (d ∷ conns) zero c h = refl
conn_at-set_self (d ∷ conns) (suc a) c h = conn_at-set_self conns a c (omega (arith, h))

conn_at-set_ne :
    (conns : List PooledConn) (a b : ℕ) (c : PooledConn)
    → a ≢ b
    → conn_at (set conns a c) b ≡ conn_at conns b
unfolding conn_at
conn_at-set_ne [] a b c h = refl
conn_at-set_ne (d ∷ conns) zero zero c h = ground (arith, h)
conn_at-set_ne (d ∷ conns) zero (suc b) c h = refl
conn_at-set_ne (d ∷ conns) (suc a) zero c h = refl
conn_at-set_ne (d ∷ conns) (suc a) (suc b) c h = conn_at-set_ne conns a b c (ground (arith, h))

held_known : (conns : List PooledConn) (a s : ℕ) → held conns a ≡ some s → a < length conns
unfolding conn_at
held_known [] a s h = ground (arith, h)
held_known (d ∷ conns) zero s h = omega arith
held_known (d ∷ conns) (suc a) s h = omega (arith, held_known conns a s h)

held-append : (conns : List PooledConn) (a : ℕ) → held (conns ++ empty_conn ∷ []) a ≡ held conns a
unfolding conn_at
held-append [] zero = refl
held-append [] (suc a) = refl
held-append (c ∷ conns) zero = refl
held-append (c ∷ conns) (suc a) = held-append conns a

-- A connection that is written with the session it has.
held-set_same :
    (conns : List PooledConn) (a : ℕ) (c : PooledConn)
    → c.session ≡ held conns a
    → a < length conns
    → (b : ℕ) → held (set conns a c) b ≡ held conns b
held-set_same conns a c e l b = elim (Bool-cases (a == b)) [
  | inl t ↦
      let same : a ≡ b = (==_iff a b).0 t in
      subst (λ x. held (set conns a c) x ≡ held conns x) same
        (ap (λ (d : PooledConn). d.session) (conn_at-set_self conns a c l) ∙ e)
  | inr t ↦ ap (λ (d : PooledConn). d.session) (conn_at-set_ne conns a b c (ground (arith, t)))
]

held-set_ne :
    (conns : List PooledConn) (a : ℕ) (c : PooledConn)
    → SameBut (held conns) (held (set conns a c)) a
held-set_ne conns a c b n = ap (λ (d : PooledConn). d.session) (conn_at-set_ne conns a b c n)

pub held-set_self :
    (conns : List PooledConn) (a : ℕ) (c : PooledConn)
    → a < length conns
    → held (set conns a c) a ≡ c.session
held-set_self conns a c l = ap (λ (d : PooledConn). d.session) (conn_at-set_self conns a c l)

pub touch-IsSound :
    (p : Sessions) (a now : ℕ) → a < length p.conns → IsSoundPool p → IsSoundPool (touch p a now)
unfolding touch
touch-IsSound p a now l i =
    let c = record (conn_at p.conns a) { last_used = now } in
    ext-IsSound (held p.conns) (held (set p.conns a c)) p.opened p.closed
      (held-set_same p.conns a c refl l) i

pub close_session-IsSound : (p : Sessions) (a : ℕ) → IsSoundPool p → IsSoundPool (close_session p a)
unfolding close_session
close_session-IsSound p a i = elim (Option-cases (held p.conns a)) [
  | inl e ↦ rw (close_session, e) i
  | inr (s, e) ↦
      let c = record (conn_at p.conns a) { session = none } in
      rw (close_session, e)
        (closed-IsSound (held p.conns) (held (set p.conns a c)) a s p.opened p.closed e
          (held-set_self p.conns a c (held_known p.conns a s e)) (held-set_ne p.conns a c) i)
]

pub open_session-IsSound :
    (p : Sessions) (a : ℕ) (fp : Text)
    → a < length p.conns
    → held p.conns a ≡ none
    → IsSoundPool p
    → IsSoundPool (open_session p a fp)
unfolding open_session
open_session-IsSound p a fp l e i =
    let c = record (conn_at p.conns a) { fp = fp; session = some p.opened } in
    opened-IsSound (held p.conns) (held (set p.conns a c)) a p.opened p.closed e
      (held-set_self p.conns a c l) (held-set_ne p.conns a c) i

acquire-IsSound : (p : Sessions) (id : ℤ) → IsSoundPool p → IsSoundPool ((acquire p id).0)
unfolding acquire
acquire-IsSound p id i = elim (Option-cases (find id p.by_id)) [
  | inr (a, e) ↦ rw (acquire, e) i
  | inl e ↦
      rw (acquire, e)
        (ext-IsSound (held p.conns) (held (p.conns ++ empty_conn ∷ [])) p.opened p.closed
          (held-append p.conns) i)
]

close_server-IsSound : (p : Sessions) (id : ℤ) → IsSoundPool p → IsSoundPool (close_server p id)
unfolding close_server
close_server-IsSound p id i = elim (Bool-cases (leb (pos_part id) 0)) [
  | inl z ↦ rw (close_server, z) i
  | inr z ↦ elim (Option-cases (find id p.by_id)) [
    | inl e ↦ rw (close_server, z, e) i
    | inr (a, e) ↦
        rw (close_server, z, e) (close_session-IsSound (record p { by_id = forget id p.by_id }) a i)
  ]
]

pub length-close_session :
    (p : Sessions) (a : ℕ) → length (close_session p a).conns ≡ length p.conns
unfolding close_session
length-close_session p a = elim (Option-cases (held p.conns a)) [
  | inl e ↦ rw (close_session, e) refl
  | inr (s, e) ↦
      rw (close_session, e) (length-set p.conns a (record (conn_at p.conns a) { session = none }))
]

pub held-close_session : (p : Sessions) (a : ℕ) → held (close_session p a).conns a ≡ none
unfolding close_session
held-close_session p a = elim (Option-cases (held p.conns a)) [
  | inl e ↦ rw (close_session, e) e
  | inr (s, e) ↦
      let c = record (conn_at p.conns a) { session = none } in
      rw (close_session, e) (held-set_self p.conns a c (held_known p.conns a s e))
]

-- What was closed before a close is closed after it.
pub is_in-close_session :
    (p : Sessions) (a n : ℕ) → is_in n p.closed ≡ true → is_in n (close_session p a).closed ≡ true
unfolding close_session
is_in-close_session p a n h = elim (Option-cases (held p.conns a)) [
  | inl e ↦ rw (close_session, e) h
  | inr (s, e) ↦ rw (close_session, e) (ground (arith, h))
]

-- The session of the connection is closed.
pub is_in-close_session_self :
    (p : Sessions) (a s : ℕ) → held p.conns a ≡ some s → is_in s (close_session p a).closed ≡ true
unfolding close_session
is_in-close_session_self p a s e = rw (close_session, e) (ground arith)
