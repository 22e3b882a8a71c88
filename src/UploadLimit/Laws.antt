-- ===== src/UploadLimit/Laws.antt =====
-- internal/usecase/put_session_file_rate_limit.go: what a run of uploads is held to.
use gen_runner.Prelude.{
  ℕ, suc, ◌+◌, ◌^◌, ◌≤◌, ◌<◌, ◌≡◌, refl, ap, subst, ◌⊎◌, inl, inr, Bool, true, false, not, none,
  some, List, [], ◌∷◌, arith, ltb, leb, if◌then◌else◌, lt→ltb, Bool-cases, Option-cases, length,
  All,
}
use gen_runner.Prelude.Int.{ℤ, pos, pos_part, ltb_ℤ}
use gen_runner.IdDict.{
  IdDict, find, assign, id_eq, id_eq_iff, find-assign, UniqueIds, assign-UniqueIds,
  retain-UniqueIds, find-retain,
}
use gen_runner.UploadLimit.{
  max_bytes_per_min, max_uploads_per_min, rate_prune_entries, RollingWindow, Verdict, allowed,
  too_many_uploads, too_many_bytes, add_int64, expired, maybe_prune_locked, open_window, in_window,
  opens_window, check_put_session_file_rate,
}

-- A call: the time it is made at, the user and the length.
pub record Request : Type 0 where
  pub time : ℕ
  pub user : ℤ
  pub byte_len : ℤ

-- An upload that was let through, when, and whether its call opened a window.
pub record Upload : Type 0 where
  pub at_time : ℕ
  pub owner : ℤ
  pub size : ℕ
  pub opened : Bool

abbrev pub is_allowed : Verdict → Bool
is_allowed allowed = true
is_allowed too_many_uploads = false
is_allowed too_many_bytes = false

-- The limiter with the uploads that were let through, the last one first.
abbrev pub Ledger : Type 0
Ledger = IdDict RollingWindow × List Upload

unfoldable pub request_upload : Ledger → Request → Ledger
request_upload (l, log) r =
    let (l', verdict) = check_put_session_file_rate l r.time r.user r.byte_len in
    (
      l',
      if is_allowed verdict
          then record {
            at_time = r.time;
            owner = r.user;
            size = pos_part r.byte_len;
            opened = opens_window l r.time r.user;
          }
            ∷ log
          else log,
    )

unfoldable pub request_uploads : Ledger → List Request → Ledger
request_uploads s [] = s
request_uploads s (r ∷ rs) = request_uploads (request_upload s r) rs

-- The sizes of the user's uploads since the last one that opened a window, with that one.
unfoldable pub since_opened : ℤ → List Upload → List ℕ
since_opened u [] = []
since_opened u (x ∷ log) =
    let rest = since_opened u log in
    if id_eq x.owner u then x.size ∷ (if x.opened then [] else rest) else rest

abbrev pub total : List ℕ → ℕ
total [] = 0
total (n ∷ ns) = n + total ns

-- At most 80 uploads, and at most 48 MiB unless there is only one.
abbrev pub IsWithinLimits : List ℕ → Type 0
IsWithinLimits sizes =
    (length sizes ≤ max_uploads_per_min) × ((length sizes ≤ 1) ⊎ (total sizes ≤ max_bytes_per_min))

-- A window counts the uploads since it was opened.
abbrev Counts : List ℕ → RollingWindow → Type 0
Counts sizes w = (w.n ≡ length sizes) × (w.bytes ≡ pos (total sizes)) × (total sizes < 2 ^ 62)

abbrev Inv : Ledger → Type 0
Inv (l, log) =
    UniqueIds l
    × ((u : ℤ) (w : RollingWindow) → find u l ≡ some w → Counts (since_opened u log) w)
    × ((u : ℤ) → IsWithinLimits (since_opened u log))

abbrev sizes_with : Upload → List Upload → List ℕ
sizes_with x log = x.size ∷ (if x.opened then [] else since_opened x.owner log)

since_same :
    (u : ℤ) (x : Upload) (log : List Upload)
    → id_eq x.owner u ≡ true
    → sizes_with x log ≡ since_opened u (x ∷ log)
unfolding since_opened
since_same u x log t = rw (t, (id_eq_iff x.owner u).0 t) refl

since_other :
    (u : ℤ) (x : Upload) (log : List Upload)
    → id_eq x.owner u ≡ false
    → since_opened u log ≡ since_opened u (x ∷ log)
unfolding since_opened
since_other u x log t = rw t refl

-- The state after an upload was let through, before the map is pruned.
admit-Inv :
    (l : IdDict RollingWindow) (log : List Upload) (x : Upload) (w : RollingWindow)
    → Inv (l, log)
    → Counts (sizes_with x log) w
    → IsWithinLimits (sizes_with x log)
    → Inv (assign x.owner w l, x ∷ log)
admit-Inv l log x w (q, c, b) hc hb = (
  assign-UniqueIds x.owner w l q,
  λ u v e. elim (Bool-cases (id_eq x.owner u)) [
    | inl t ↦
        subst (λ s. Counts s v) (since_same u x log t)
          (let same : w ≡ v = ground (arith, e, t, find-assign x.owner u w l) in
            subst (Counts (sizes_with x log)) same hc)
    | inr t ↦
        subst (λ s. Counts s v) (since_other u x log t)
          (c u v (ground (arith, e, t, find-assign x.owner u w l)))
  ],
  λ u. elim (Bool-cases (id_eq x.owner u)) [
    | inl t ↦ subst IsWithinLimits (since_same u x log t) hb
    | inr t ↦ subst IsWithinLimits (since_other u x log t) (b u)
  ],
)

prune-Inv :
    (l : IdDict RollingWindow) (log : List Upload) (now : ℕ)
    → Inv (l, log)
    → Inv (maybe_prune_locked l now, log)
unfolding maybe_prune_locked
prune-Inv l log now (q, c, b) = elim (Bool-cases (ltb (length l) rate_prune_entries)) [
  | inl e ↦ rw e (q, c, b)
  | inr e ↦ rw e (
    retain-UniqueIds (λ w. not (expired now w)) l q,
    (λ u w f. c u w (find-retain u w (λ w. not (expired now w)) l q f)),
    b,
  )
]

open-Inv :
    (l : IdDict RollingWindow) (log : List Upload) (now : ℕ) (user : ℤ) (b : ℕ)
    → b < 2 ^ 62
    → Inv (l, log)
    → Inv (
      open_window l now user b,
      (record { at_time = now; owner = user; size = b; opened = true }) ∷ log,
    )
unfolding open_window
open-Inv l log now user b h i =
    prune-Inv (assign user (record { window_start = now; bytes = pos b; n = 1 }) l)
      ((record { at_time = now; owner = user; size = b; opened = true }) ∷ log) now
      (admit-Inv l log (record { at_time = now; owner = user; size = b; opened = true })
        (record { window_start = now; bytes = pos b; n = 1 }) i
        (refl, ap pos (omega arith), omega (arith, h)) (omega arith, inl (omega arith)))

add_int64-pos : (z : ℤ) (a b : ℕ) → z ≡ pos a → b + a < 2 ^ 63 → add_int64 z b ≡ pos (b + a)
unfolding add_int64
add_int64-pos z a b e h = rw (e, lt→ltb (a + b) (2 ^ 63) (omega (arith, h))) (ap pos (omega arith))

in_window_lem :
    (l : IdDict RollingWindow) (log : List Upload) (now : ℕ) (user : ℤ) (b : ℕ) (w : RollingWindow)
    → b < 2 ^ 62
    → find user l ≡ some w
    → Inv (l, log)
    → Inv (
      (in_window l now user b w).0,
      if is_allowed ((in_window l now user b w).1)
          then (record { at_time = now; owner = user; size = b; opened = false }) ∷ log
          else log,
    )
unfolding in_window
in_window_lem l log now user b w h f i = elim (Bool-cases (leb max_uploads_per_min w.n)) [
  | inl e ↦ rw e i
  | inr e ↦ elim (Bool-cases (ltb_ℤ (pos max_bytes_per_min) (add_int64 w.bytes b))) [
    | inl g ↦ rw (e, g) i
    | inr g ↦
        let (q, c, lim) = i in
        let (cn, cb, ct) = c user w f in
        let sum =
          add_int64-pos w.bytes (total (since_opened user log)) b cb (omega (arith, ct, h)) in
        let fits : b + total (since_opened user log) ≤ max_bytes_per_min =
          ground (arith, g, ap (ltb_ℤ (pos max_bytes_per_min)) sum) in
        rw (e, g)
          (prune-Inv (assign user (record w { bytes = add_int64 w.bytes b; n = suc w.n }) l)
            ((record { at_time = now; owner = user; size = b; opened = false }) ∷ log) now
            (admit-Inv l log (record { at_time = now; owner = user; size = b; opened = false })
              (record w { bytes = add_int64 w.bytes b; n = suc w.n }) i
              (ap suc cn, sum, omega (arith, fits)) (ground (arith, e, cn), inr fits)))
  ]
]

pub opens_window-none :
    (l : IdDict RollingWindow) (now : ℕ) (user : ℤ)
    → find user l ≡ none
    → opens_window l now user ≡ true
unfolding opens_window
opens_window-none l now user f = rw (opens_window, f) refl

pub opens_window-some :
    (l : IdDict RollingWindow) (now : ℕ) (user : ℤ) (w : RollingWindow)
    → find user l ≡ some w
    → opens_window l now user ≡ expired now w
unfolding opens_window
opens_window-some l now user w f = rw (opens_window, f) refl

abbrev pub IsSized : Request → Type 0
IsSized r = pos_part r.byte_len < 2 ^ 62

request_upload-Inv : (s : Ledger) (r : Request) → IsSized r → Inv s → Inv (request_upload s r)
unfolding request_upload check_put_session_file_rate
request_upload-Inv (l, log) r h i = elim (Option-cases (find r.user l)) [
  | inl f ↦
      rw (opens_window-none l r.time r.user f)
        (open-Inv l log r.time r.user (pos_part r.byte_len) h i)
  | inr (w, f) ↦ elim (Bool-cases (expired r.time w)) [
    | inl x ↦
        rw (opens_window-some l r.time r.user w f, x)
          (open-Inv l log r.time r.user (pos_part r.byte_len) h i)
    | inr x ↦
        rw (opens_window-some l r.time r.user w f, x, f)
          (in_window_lem l log r.time r.user (pos_part r.byte_len) w h f i)
  ]
]

request_uploads-Inv :
    (s : Ledger) (rs : List Request) → All IsSized rs → Inv s → Inv (request_uploads s rs)
unfolding request_uploads
request_uploads-Inv s [] h i = i
request_uploads-Inv s (r ∷ rs) h i =
    request_uploads-Inv (request_upload s r) rs h.1 (request_upload-Inv s r h.0 i)

start-Inv : Inv ([], [])
unfolding find since_opened
start-Inv = (tt, (λ u w e. cc), λ u. (omega arith, inl (omega arith)))

pub request_uploads-total :
    (rs : List Request) (u : ℤ)
    → All IsSized rs
    → IsWithinLimits (since_opened u ((request_uploads ([], []) rs).1))
request_uploads-total rs u h = (request_uploads-Inv ([], []) rs h start-Inv).2 u
