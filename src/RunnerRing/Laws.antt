-- ===== src/RunnerRing/Laws.antt =====
-- llm-runner/pool.go: adding, removing, and disabling runners.
use gen_runner.Prelude.{
  ◌≡◌, ap, inl, inr, Bool, true, false, not, ◌&&◌, List, [], ◌∷◌, arith, if◌then◌else◌, Bool-cases,
  filter_by,
}
use gen_runner.Text.{contains, Text, text_eq}
use gen_runner.Text.Laws.{text_eq_iff, text_eq_refl}
use gen_runner.Dict.{lookup-insert, lookup-delete}
use gen_runner.RunnerRing.{
  Ring, add, remove, close_conn, is_disabled, enabled_addresses, set_runner_enabled,
}

contains-filter_by :
    (f : Text → Bool) (l : List Text) (a : Text)
    → contains (filter_by f l) a ≡ (f a && contains l a)
contains-filter_by f [] a = elim (Bool-cases (f a)) [ inl e ↦ rw e | inr e ↦ rw e ]
contains-filter_by f (b ∷ l) a = elim (Bool-cases (text_eq b a)) [
  | inl t ↦
      let same : b ≡ a = (text_eq_iff b a).0 t in
      elim (Bool-cases (f a)) [
        | inl e ↦ ground (arith, same, t, e, ap f same, contains-filter_by f l a)
        | inr e ↦ ground (arith, same, t, e, ap f same, contains-filter_by f l a)
      ]
  | inr t ↦ ground (arith, t, contains-filter_by f l a)
]

pub contains-enabled_addresses :
    (p : Ring) (a : Text)
    → contains (enabled_addresses p) a ≡ (not (is_disabled p.disabled a) && contains p.addresses a)
unfolding enabled_addresses
contains-enabled_addresses p a =
    contains-filter_by (λ b. not (is_disabled p.disabled b)) p.addresses a

set_enabled_lem :
    (p : Ring) (a b : Text) (on : Bool)
    → (not (is_disabled (set_runner_enabled p a on).disabled b)
        && contains (set_runner_enabled p a on).addresses b)
      ≡ (if text_eq a b
          then contains p.addresses a && on
          else not (is_disabled p.disabled b) && contains p.addresses b)
unfolding set_runner_enabled is_disabled close_conn
set_enabled_lem p a b on = elim (Bool-cases (text_eq a b)) [
  | inl t ↦ ground (
    arith,
    t,
    (text_eq_iff a b).0 t,
    lookup-insert a b true p.disabled,
    lookup-delete a b p.disabled,
  )
  | inr t ↦ ground (arith, t, lookup-insert a b true p.disabled, lookup-delete a b p.disabled)
]

disabled_kept :
    (p : Ring) (a : Text)
    → contains p.addresses a ≡ true
    → is_disabled (add (remove (set_runner_enabled p a false) a) a).disabled a ≡ true
unfolding add remove set_runner_enabled close_conn is_disabled
disabled_kept p a h = ground (arith, h, text_eq_refl a, lookup-insert a a true p.disabled)

-- After `SetRunnerEnabled` the runner that is named is enabled if and only if it is in the ring and
-- was turned on; any other runner is enabled if and only if it was before.
pub contains-set_runner_enabled :
    (p : Ring) (a b : Text) (on : Bool)
    → contains (enabled_addresses (set_runner_enabled p a on)) b
      ≡ (if text_eq a b then contains p.addresses a && on else contains (enabled_addresses p) b)
contains-set_runner_enabled p a b on =
    rw (contains-enabled_addresses (set_runner_enabled p a on) b, contains-enabled_addresses p b)
      (set_enabled_lem p a b on)

-- If a runner is in the ring, then it is still disabled after it was disabled, removed and added
-- again.
pub contains-add-remove :
    (p : Ring) (a : Text)
    → contains p.addresses a ≡ true
    → contains (enabled_addresses (add (remove (set_runner_enabled p a false) a) a)) a ≡ false
contains-add-remove p a h =
    rw (contains-enabled_addresses (add (remove (set_runner_enabled p a false) a) a) a)
      (rw (disabled_kept p a h))
