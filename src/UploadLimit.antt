-- ===== src/UploadLimit.antt =====
-- internal/usecase/put_session_file_rate_limit.go: the limit on uploads per user and minute. Times
-- are nanoseconds; the method is one step under its lock, at the time that the clock shows. The
-- windows stand by user in an association list, whose order is that of a `range` loop.
pub mod Laws
pub mod Spaced
use gen_runner.Prelude.{
  ℕ, zero, suc, ◌+◌, ◌-◌, ◌*◌, ◌/◌, ◌%◌, ◌^◌, ◌≤◌, ◌<◌, min, max, ◌≡◌, refl, sym, ap, ◌∙◌, subst,
  ◌≢◌, ◌↔◌, ◌⊎◌, inl, inr, Bool, true, false, not, ◌&&◌, ◌||◌, Option, none, some, List, [], ◌∷◌,
  ◌++◌, map, reverse, append_assoc, append-nil, arith, ltb, leb, ◌==◌, if◌then◌else◌, ltb→lt,
  lt→ltb, leb→le, le→leb, lt→leb_false, le→ltb_false, ==_iff, Bool-cases, Option-cases, List-cases,
  length, is_empty, get_elem?, set, take, drop, filter_by, all_by, All, length-append,
  length-reverse, length-map, length-set, take-append-drop, length-take, length-drop,
  take-append_left, drop-append_left, All-append, All-map_weaken,
}
use gen_runner.Prelude.Int.{ℤ, pos, negsuc, pos_part, ltb_ℤ}
use gen_runner.IdDict.{IdDict, find, assign, retain}

-- `time.Minute`
abbrev pub rate_window : ℕ
rate_window = 60000000000

abbrev pub max_bytes_per_min : ℕ
max_bytes_per_min = 48 * 1024 * 1024

abbrev pub max_uploads_per_min : ℕ
max_uploads_per_min = 80

abbrev pub rate_prune_entries : ℕ
rate_prune_entries = 4096

-- `n + b` of an `int64` and a number that is not negative: past 2^63 - 1 it wraps around.
unfoldable pub add_int64 : ℤ → ℕ → ℤ
add_int64 (pos a) b = if ltb (a + b) (2 ^ 63) then pos (a + b) else negsuc (2 ^ 64 - (a + b) - 1)
add_int64 (negsuc a) b = if ltb a b then pos (b - suc a) else negsuc (a - b)

-- Times are nanoseconds.
pub record RollingWindow : Type 0 where
  pub window_start : ℕ
  pub bytes : ℤ
  pub n : ℕ

pub data Verdict : Type 0 where
  allowed too_many_uploads too_many_bytes : Verdict

-- `now.Sub(w.windowStart) >= putSessionFileRateWindow`; a clock that went back gives 0.
unfoldable pub expired : ℕ → RollingWindow → Bool
expired now w = leb rate_window (now - w.window_start)

unfoldable pub maybe_prune_locked : IdDict RollingWindow → ℕ → IdDict RollingWindow
maybe_prune_locked l now =
    if ltb (length l) rate_prune_entries then l else retain (λ w. not (expired now w)) l

unfoldable pub open_window : IdDict RollingWindow → ℕ → ℤ → ℕ → IdDict RollingWindow
open_window l now user b =
    maybe_prune_locked (assign user (record { window_start = now; bytes = pos b; n = 1 }) l) now

unfoldable pub in_window :
    IdDict RollingWindow → ℕ → ℤ → ℕ → RollingWindow → IdDict RollingWindow × Verdict
in_window l now user b w =
    if leb max_uploads_per_min w.n
    then (l, too_many_uploads)
    else if ltb_ℤ (pos max_bytes_per_min) (add_int64 w.bytes b)
    then (l, too_many_bytes)
    else (
      maybe_prune_locked (assign user (record w { bytes = add_int64 w.bytes b; n = suc w.n }) l)
          now,
      allowed,
    )

-- Whether the call finds no window of the user that is still open.
unfoldable pub opens_window : IdDict RollingWindow → ℕ → ℤ → Bool
opens_window l now user = elim (find user l) [ none ↦ true | some w ↦ expired now w ]

-- A nil map is the empty one.
unfoldable pub check_put_session_file_rate :
    IdDict RollingWindow → ℕ → ℤ → ℤ → IdDict RollingWindow × Verdict
check_put_session_file_rate l now user byte_len =
    let b = pos_part byte_len in
    if opens_window l now user then (open_window l now user b, allowed) else elim (find user l) [
      | none ↦ (open_window l now user b, allowed)
      | some w ↦ in_window l now user b w
    ]
