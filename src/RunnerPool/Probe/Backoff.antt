-- ===== src/RunnerPool/Probe/Backoff.antt =====
-- internal/service/pool.go, `recordProbeFailure`: the pause after failed probes.
use native.Mathlib.Nat.{pow-suc}
use gen_runner.Prelude.{
  ℕ, zero, suc, ◌+◌, ◌-◌, ◌*◌, ◌^◌, ◌≤◌, min, ◌≡◌, ap, ◌⊎◌, inl, inr, false, List, [], ◌∷◌, ◌++◌,
  arith, length,
}
use gen_runner.Text.{Text}
use gen_runner.Dict.{insert, lookup-insert_self}
use gen_runner.RunnerPool.{
  ProbeEntry, Pool, backoff_base, backoff_max, backoff, entry, record_probe_failure,
}

pow-suc_two : (k : ℕ) → 2 ^ suc k ≡ 2 ^ k * 2
pow-suc_two k = rw pow-suc (omega arith)

one-le-pow : (k : ℕ) → 1 ≤ 2 ^ k
one-le-pow zero = omega arith
one-le-pow (suc k) = omega (arith, pow-suc_two k, one-le-pow k)

-- The pause after failed probes is from one second to thirty.
pub backoff_bounds : (n : ℕ) → (backoff_base ≤ backoff n) × (backoff n ≤ backoff_max)
unfolding backoff
backoff_bounds n = (omega (arith, one-le-pow (min (n - 1) 5)), omega arith)

-- One more failure never shortens the pause after failed probes.
pub backoff_mono : (n : ℕ) → backoff n ≤ backoff (n + 1)
unfolding backoff
backoff_mono n =
    elim (dec_eq_step (min (n - 1) 5) (min (n + 1 - 1) 5) (omega arith) (omega arith)) [
      | inl e ↦ rw e (omega arith)
      | inr e ↦ rw e (omega (arith, pow-suc_two (min (n - 1) 5)))
    ]
  where
    dec_eq_step : (a b : ℕ) → a ≤ b → b ≤ suc a → (b ≡ a) ⊎ (b ≡ suc a)
    dec_eq_step a b h k = omega arith

pub entry-insert :
    (p : Pool) (addr : Text) (e : ProbeEntry)
    → entry (record p { probe_cache = insert addr e p.probe_cache }) addr ≡ e
unfolding entry
entry-insert p addr e = rw (lookup-insert_self addr e p.probe_cache, entry)

-- Probes of one address that fail, one at each of the given times.
unfoldable pub fail_at : Pool → Text → List ℕ → Pool
fail_at p addr [] = p
fail_at p addr (t ∷ ts) = fail_at (record_probe_failure p t addr) addr ts

failed_entry :
    (p : Pool) (t : ℕ) (addr : Text)
    → let e = entry (record_probe_failure p t addr) addr in
      let n = (entry p addr).fail_count + 1 in
      (e.ok ≡ false) × (e.fail_count ≡ n) × (e.backoff_until ≡ t + backoff n)
unfolding record_probe_failure
failed_entry p t addr =
    let same = entry-insert p addr _ in
    (
      ap (λ (e : ProbeEntry). e.ok) same,
      ap (λ (e : ProbeEntry). e.fail_count) same,
      ap (λ (e : ProbeEntry). e.backoff_until) same,
    )

-- After failures at `ts` and then at `t` the cache has counted them all on top of what it had, and
-- the address is down and rests from `t` for the pause of that count, which is from one second to
-- thirty.
fail_at-entry :
    (p : Pool) (addr : Text) (ts : List ℕ) (t : ℕ)
    → let e = entry (fail_at p addr (ts ++ t ∷ [])) addr in
      let n = (entry p addr).fail_count + length ts + 1 in
      (e.ok ≡ false)
      × (e.fail_count ≡ n)
      × (e.backoff_until ≡ t + backoff n)
      × (t + backoff_base ≤ e.backoff_until)
      × (e.backoff_until ≤ t + backoff_max)
unfolding fail_at
fail_at-entry p addr [] t =
    let (not_ok, count, until) = failed_entry p t addr in
    let n = (entry p addr).fail_count + 1 in
    let same : (entry p addr).fail_count + 0 + 1 ≡ n = omega arith in
    rw same (
      not_ok,
      count,
      until,
      omega (arith, until, backoff_bounds n),
      omega (arith, until, backoff_bounds n),
    )
fail_at-entry p addr (t' ∷ ts) t =
    let count = (failed_entry p t' addr).1 in
    let n = (entry p addr).fail_count in
    let same : n + 1 + length ts + 1 ≡ n + suc (length ts) + 1 = omega arith in
    rw (← same, ← count) (fail_at-entry (record_probe_failure p t' addr) addr ts t)
