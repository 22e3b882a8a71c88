-- ===== src/UploadLimit/Spaced.antt =====
-- internal/usecase/put_session_file_rate_limit.go: a user's windows are at least a minute apart.
use gen_runner.Prelude.{
  ℕ, suc, ◌+◌, ◌*◌, ◌^◌, ◌≤◌, ◌≡◌, refl, sym, ap, ◌∙◌, subst, ◌⊎◌, inl, inr, true, false, not, ◌&&◌,
  Option, some, List, [], ◌∷◌, arith, ltb, leb, if◌then◌else◌, Bool-cases, Option-cases, length,
  All,
}
use gen_runner.Prelude.Int.{ℤ, pos, pos_part, ltb_ℤ}
use gen_runner.IdDict.{IdDict, find, assign, id_eq, id_eq_iff, find-assign, find-retain_kept}
use gen_runner.UploadLimit.{
  rate_prune_entries, max_uploads_per_min, max_bytes_per_min, add_int64, RollingWindow, expired,
  maybe_prune_locked, open_window, in_window, check_put_session_file_rate,
}
use gen_runner.UploadLimit.Laws.{
  Request, Upload, Ledger, is_allowed, request_upload, request_uploads, since_opened,
  IsWithinLimits, IsSized, opens_window-none, opens_window-some, request_uploads-total,
}

-- Sixty seconds, in nanoseconds.
abbrev one_minute : ℕ
one_minute = 60 * 10 ^ 9

-- When the windows of the user were opened, the last one first.
unfoldable pub openings : ℤ → List Upload → List ℕ
openings u [] = []
openings u (x ∷ log) =
    let rest = openings u log in if id_eq x.owner u && x.opened then x.at_time ∷ rest else rest

-- Each time is at least a minute after the one before it, which stands behind it.
abbrev pub IsSpaced : List ℕ → Type 0
IsSpaced [] = Unit
IsSpaced (t ∷ []) = Unit
IsSpaced (t ∷ s ∷ ts) = (s + one_minute ≤ t) × IsSpaced (s ∷ ts)

-- The last window is the one that the map has, or a minute has passed since it was opened.
abbrev IsCurrent : Option RollingWindow → ℕ → List ℕ → Type 0
IsCurrent found now [] = Unit
IsCurrent found now (t ∷ ts) =
    (t + one_minute ≤ now) ⊎ ((w : RollingWindow) × (found ≡ some w) × (w.window_start ≡ t))

abbrev IsTimely : ℕ → Ledger → ℤ → Type 0
IsTimely now (l, log) u = IsSpaced (openings u log) × IsCurrent (find u l) now (openings u log)

later-IsCurrent :
    (found : Option RollingWindow) (now now' : ℕ) (ts : List ℕ)
    → now ≤ now'
    → IsCurrent found now ts
    → IsCurrent found now' ts
later-IsCurrent found now now' [] l c = tt
later-IsCurrent found now now' (t ∷ ts) l (inl h) = inl (omega (arith, h, l))
later-IsCurrent found now now' (t ∷ ts) l (inr h) = inr h

expired_lem :
    (now : ℕ) (w : RollingWindow) → expired now w ≡ true → w.window_start + one_minute ≤ now
unfolding expired
expired_lem now w h = ground (arith, h)

-- Pruning forgets a window only after its minute.
pruned-IsCurrent :
    (l : IdDict RollingWindow) (u : ℤ) (now : ℕ) (ts : List ℕ)
    → IsCurrent (find u l) now ts
    → IsCurrent (find u (maybe_prune_locked l now)) now ts
unfolding maybe_prune_locked
pruned-IsCurrent l u now [] c = tt
pruned-IsCurrent l u now (t ∷ ts) (inl h) = inl h
pruned-IsCurrent l u now (t ∷ ts) (inr (w, f, e)) =
    elim (Bool-cases (ltb (length l) rate_prune_entries)) [
      | inl z ↦ rw z (inr (w, f, e))
      | inr z ↦ elim (Bool-cases (expired now w)) [
        | inl x ↦ inl (omega (arith, expired_lem now w x, e))
        | inr x ↦ rw z (inr (w, find-retain_kept u w (λ v. not (expired now v)) l (ap not x) f, e))
      ]
    ]

opened-IsSpaced :
    (found : Option RollingWindow) (now : ℕ) (ts : List ℕ)
    → ((w : RollingWindow) → found ≡ some w → expired now w ≡ true)
    → IsSpaced ts
    → IsCurrent found now ts
    → IsSpaced (now ∷ ts)
opened-IsSpaced found now [] x s c = tt
opened-IsSpaced found now (t ∷ ts) x s (inl h) = (h, s)
opened-IsSpaced found now (t ∷ ts) x s (inr (w, f, e)) =
    (omega (arith, expired_lem now w (x w f), e), s)

openings_opened :
    (u : ℤ) (x : Upload) (log : List Upload)
    → id_eq x.owner u ≡ true
    → x.opened ≡ true
    → openings u (x ∷ log) ≡ x.at_time ∷ openings u log
unfolding openings
openings_opened u x log o p = rw (o, p) refl

openings_other :
    (u : ℤ) (x : Upload) (log : List Upload)
    → (id_eq x.owner u && x.opened) ≡ false
    → openings u (x ∷ log) ≡ openings u log
unfolding openings
openings_other u x log o = rw o refl

kept-IsCurrent :
    (found found' : Option RollingWindow) (v w : RollingWindow) (now : ℕ) (ts : List ℕ)
    → found ≡ some v
    → found' ≡ some w
    → w.window_start ≡ v.window_start
    → IsCurrent found now ts
    → IsCurrent found' now ts
kept-IsCurrent found found' v w now [] f g e c = tt
kept-IsCurrent found found' v w now (t ∷ ts) f g e (inl h) = inl h
kept-IsCurrent found found' v w now (t ∷ ts) f g e (inr (x, h, k)) =
    let same : x ≡ v = ground (arith, f, h) in
    inr (w, g, e ∙ ap (λ (y : RollingWindow). y.window_start) (sym same) ∙ k)

-- A window that is written, before the map is pruned.
admit-IsTimely :
    (l : IdDict RollingWindow) (log : List Upload) (x : Upload) (w : RollingWindow) (u : ℤ)
    → IsTimely x.at_time (l, log) u
    → (x.opened ≡ true → w.window_start ≡ x.at_time)
    → (x.opened ≡ true → (v : RollingWindow) → find x.owner l ≡ some v → expired x.at_time v ≡ true)
    → (x.opened ≡ false
        → (v : RollingWindow) × (find x.owner l ≡ some v) × (w.window_start ≡ v.window_start))
    → IsTimely x.at_time (assign x.owner w l, x ∷ log) u
admit-IsTimely l log x w u (s, c) start old same = elim (Bool-cases (id_eq x.owner u)) [
  | inr o ↦
      subst (λ ts. IsSpaced ts × IsCurrent (find u (assign x.owner w l)) x.at_time ts)
        (sym (openings_other u x log (ground (arith, o))))
        (
          s,
          subst (λ f. IsCurrent f x.at_time (openings u log))
              (ground (arith, o, find-assign x.owner u w l)) c,
        )
  | inl o ↦
      let found : find u (assign x.owner w l) ≡ some w =
        ground (arith, o, find-assign x.owner u w l) in
      let owner : x.owner ≡ u = (id_eq_iff x.owner u).0 o in
      elim (Bool-cases x.opened) [
        | inl p ↦
            subst (λ ts. IsSpaced ts × IsCurrent (find u (assign x.owner w l)) x.at_time ts)
              (sym (openings_opened u x log o p))
              (
                opened-IsSpaced (find u l) x.at_time (openings u log)
                    (λ v f. old p v (ap (λ i. find i l) owner ∙ f)) s c,
                inr (w, found, start p),
              )
        | inr p ↦
            let (v, f, e) = same p in
            subst (λ ts. IsSpaced ts × IsCurrent (find u (assign x.owner w l)) x.at_time ts)
              (sym (openings_other u x log (ground (arith, p))))
              (
                s,
                kept-IsCurrent (find u l) (find u (assign x.owner w l)) v w x.at_time
                    (openings u log) (ap (λ i. find i l) (sym owner) ∙ f) found e c,
              )
      ]
]

pruned-IsTimely :
    (l : IdDict RollingWindow) (log : List Upload) (now : ℕ) (u : ℤ)
    → IsTimely now (l, log) u
    → IsTimely now (maybe_prune_locked l now, log) u
pruned-IsTimely l log now u (s, c) = (s, pruned-IsCurrent l u now (openings u log) c)

open-IsTimely :
    (l : IdDict RollingWindow) (log : List Upload) (now : ℕ) (user : ℤ) (b : ℕ) (u : ℤ)
    → ((v : RollingWindow) → find user l ≡ some v → expired now v ≡ true)
    → IsTimely now (l, log) u
    → IsTimely now
        (
          open_window l now user b,
          (record { at_time = now; owner = user; size = b; opened = true }) ∷ log,
        )
        u
unfolding open_window
open-IsTimely l log now user b u old h =
    let x : Upload = record { at_time = now; owner = user; size = b; opened = true } in
    let w : RollingWindow = record { window_start = now; bytes = pos b; n = 1 } in
    pruned-IsTimely (assign user w l) (x ∷ log) now u
      (admit-IsTimely l log x w u h (λ e. refl) (λ e. old) (λ e. ground (arith, e)))

in_window-IsTimely :
    (l : IdDict RollingWindow) (log : List Upload) (now : ℕ) (user : ℤ) (b : ℕ) (w : RollingWindow)
    (u : ℤ)
    → find user l ≡ some w
    → IsTimely now (l, log) u
    → IsTimely now
        (
          (in_window l now user b w).0,
          if is_allowed ((in_window l now user b w).1)
              then (record { at_time = now; owner = user; size = b; opened = false }) ∷ log
              else log,
        )
        u
unfolding in_window
in_window-IsTimely l log now user b w u f h = elim (Bool-cases (leb max_uploads_per_min w.n)) [
  | inl e ↦ rw e h
  | inr e ↦ elim (Bool-cases (ltb_ℤ (pos max_bytes_per_min) (add_int64 w.bytes b))) [
    | inl g ↦ rw (e, g) h
    | inr g ↦
        let x : Upload = record { at_time = now; owner = user; size = b; opened = false } in
        let v : RollingWindow = record w { bytes = add_int64 w.bytes b; n = suc w.n } in
        rw (e, g)
          (pruned-IsTimely (assign user v l) (x ∷ log) now u (
            admit-IsTimely l log x v u h (λ z. ground (arith, z)) (λ z. ground (arith, z))
              (λ z. (w, f, refl))))
  ]
]

request_upload-IsTimely :
    (s : Ledger) (r : Request) (u : ℤ)
    → IsTimely r.time s u
    → IsTimely r.time (request_upload s r) u
unfolding request_upload check_put_session_file_rate
request_upload-IsTimely (l, log) r u h = elim (Option-cases (find r.user l)) [
  | inl f ↦
      rw (opens_window-none l r.time r.user f)
        (open-IsTimely l log r.time r.user (pos_part r.byte_len) u (λ v g. ground (arith, f, g)) h)
  | inr (w, f) ↦ elim (Bool-cases (expired r.time w)) [
    | inl x ↦
        rw (opens_window-some l r.time r.user w f, x)
          (open-IsTimely l log r.time r.user (pos_part r.byte_len) u
            (λ v g. let same : w ≡ v = ground (arith, f, g) in ap (expired r.time) (sym same) ∙ x)
            h)
    | inr x ↦
        rw (opens_window-some l r.time r.user w f, x, f)
          (in_window-IsTimely l log r.time r.user (pos_part r.byte_len) w u f h)
  ]
]

-- The calls are made in the order of their times, none of them before `now`.
abbrev InOrder : ℕ → List Request → Type 0
InOrder now [] = Unit
InOrder now (r ∷ rs) = (now ≤ r.time) × InOrder r.time rs

request_uploads-IsSpaced :
    (now : ℕ) (s : Ledger) (rs : List Request) (u : ℤ)
    → InOrder now rs
    → IsTimely now s u
    → IsSpaced (openings u ((request_uploads s rs).1))
unfolding request_uploads
request_uploads-IsSpaced now s [] u o h = h.0
request_uploads-IsSpaced now (l, log) (r ∷ rs) u (le, o) (sp, c) =
    request_uploads-IsSpaced r.time (request_upload (l, log) r) rs u o (
      request_upload-IsTimely (l, log) r u
        (sp, later-IsCurrent (find u l) now r.time (openings u log) le c))

start-IsTimely : (u : ℤ) → IsTimely 0 ([], []) u
unfolding openings
start-IsTimely u = (tt, tt)

-- For any sequence of uploads of any users, in the order of their times and of lengths below 2^62, on
-- a new limiter: the windows of a user are opened at least sixty seconds apart, and of the user at
-- most 80 uploads are let through from the one that opened the last window on, which are at most
-- 48 MiB together, unless there is only one.
pub request_uploads-IsWithinLimits :
    (rs : List Request) (u : ℤ)
    → InOrder 0 rs
    → All IsSized rs
    → IsSpaced (openings u ((request_uploads ([], []) rs).1))
      × IsWithinLimits (since_opened u ((request_uploads ([], []) rs).1))
request_uploads-IsWithinLimits rs u o h =
    (request_uploads-IsSpaced 0 ([], []) rs u o (start-IsTimely u), request_uploads-total rs u h)
