-- ===== src/RunnerPool/Pick/Laws.antt =====
-- internal/service/pool.go, `pickRunner`: which runner is picked.
use gen_runner.Prelude.{
  ℕ, ◌≤◌, ◌≡◌, refl, sym, ap, ◌∙◌, subst, inl, inr, Bool, true, false, Option, none, some, List, [],
  ◌∷◌, arith, ltb, if◌then◌else◌, Bool-cases, All, All-append,
}
use gen_runner.Text.{Text}
use gen_runner.Dict.{Entries}
use gen_runner.Registry.{Registry, get_enabled_addresses}
use gen_runner.RunnerPool.{Client, Pool, get_client, entry}
use gen_runner.RunnerPool.Probe.{Env, Candidate, candidate_at, probe_runner_address}
use gen_runner.RunnerPool.Probe.Laws.{
  IsWired, Good, get_client-IsWired, get_client-Made, candidate_at-fields,
  probe_runner_address-IsWired, probe_runner_address-Good,
}
use gen_runner.RunnerPool.Pick.{
  picked, Sorted, add_cached, cached, sort_one, sort_all, add_found, probe_all, best_from, choose,
  fall_back, pick_among, pick_runner,
}

-- The chosen candidate is one of those given, and none has a lower score.
best_from-All {κ} :
    (P : Candidate → Type κ) (c : Candidate) (cs : List Candidate)
    → P c
    → All P cs
    → P (best_from c cs)
unfolding best_from
best_from-All P c [] p h = p
best_from-All P c (d ∷ cs) p h = elim (Bool-cases (ltb d.score c.score)) [
  | inl e ↦ rw e (best_from-All P d cs h.0 h.1)
  | inr e ↦ rw e (best_from-All P c cs p h.1)
]

lesser_lem :
    (c d : Candidate)
    → let m = if ltb d.score c.score then d else c in (m.score ≤ c.score) × (m.score ≤ d.score)
lesser_lem c d = ground arith

best_from-le :
    (c : Candidate) (cs : List Candidate)
    → ((best_from c cs).score ≤ c.score) × All (λ d. (best_from c cs).score ≤ d.score) cs
unfolding best_from
best_from-le c [] = (omega arith, tt)
best_from-le c (d ∷ cs) =
    let (l, a) = best_from-le (if ltb d.score c.score then d else c) cs in
    let (le_c, le_d) = lesser_lem c d in (omega arith, (omega arith, a))

-- The candidate that is chosen has a score at most that of every candidate found.
pub choose-least :
    (found : List Candidate) (k : Candidate)
    → choose found ≡ picked k
    → All (λ d. k.score ≤ d.score) found
unfolding choose
choose-least [] k h = cc
choose-least (c ∷ cs) k h =
    let same : best_from c cs ≡ k = cc in
    subst (λ (b : Candidate). All (λ d. b.score ≤ d.score) (c ∷ cs)) same (best_from-le c cs)

choose-All {κ} :
    (P : Candidate → Type κ) (found : List Candidate) (k : Candidate)
    → choose found ≡ picked k
    → All P found
    → P k
unfolding choose
choose-All P [] k h a = absurd (cc)
choose-All P (c ∷ cs) k h a =
    let same : best_from c cs ≡ k = cc in subst P same (best_from-All P c cs a.0 a.1)

module _ {κ} (P : Text → Type κ) where
  -- What the first loop keeps.
  record SortedGood (s : Sorted) : Type κ where
    wired : IsWired s.pool
    good : All (Good P) s.from_cache
    asked : All P s.to_probe

  SortedGood-if :
      (b : Bool) (x y : Sorted) → SortedGood x → SortedGood y → SortedGood (if b then x else y)
  SortedGood-if true x y g h = g
  SortedGood-if false x y g h = h

  add_cached-Good :
      (s : Sorted) (addr : Text) (gpu : ℕ) (r : Pool × Option Client)
      → P addr
      → SortedGood s
      → IsWired (r.0)
      → ((c : Client) → r.1 ≡ some c → c.dialled ≡ addr)
      → SortedGood (add_cached s addr gpu r)
  unfolding add_cached
  add_cached-Good s addr gpu (p, none) q g w made = record {
    wired = w;
    good = g.good;
    asked = g.asked;
  }
  add_cached-Good s addr gpu (p, some c) q g w made =
      let (a, e, same) = candidate_at-fields p addr c gpu in
      record {
        wired = subst (Entries (λ k x. x.dialled ≡ k)) (sym same) w;
        good =
            All-append (Good P) s.from_cache ((candidate_at p addr c gpu).1 ∷ []) g.good
              ((subst P (sym a) q, ap (λ (x : Client). x.dialled) e ∙ made c refl ∙ sym a), tt);
        asked = g.asked;
      }

  sort_one-Good :
      (dial : Text → Bool) (now : ℕ) (model addr : Text) (s : Sorted)
      → P addr
      → SortedGood s
      → SortedGood (sort_one dial now model addr s)
  unfolding sort_one cached
  sort_one-Good dial now model addr s q g =
      let e = entry s.pool addr in
      let hit =
        add_cached-Good s addr e.max_gpu_util (get_client dial s.pool addr) q g
          (get_client-IsWired dial s.pool addr g.wired)
          (λ c h. get_client-Made dial s.pool addr c g.wired h) in
      SortedGood-if _ _ _ (SortedGood-if _ _ _ g hit) (
        SortedGood-if _ _ _ g (record {
          wired = g.wired;
          good = g.good;
          asked = All-append P s.to_probe (addr ∷ []) g.asked (q, tt);
        }))

  sort_all-Good :
      (dial : Text → Bool) (now : ℕ) (model : Text) (addrs : List Text) (s : Sorted)
      → All P addrs
      → SortedGood s
      → SortedGood (sort_all dial now model addrs s)
  unfolding sort_all
  sort_all-Good dial now model [] s q g = g
  sort_all-Good dial now model (addr ∷ addrs) s q g =
      sort_all-Good dial now model addrs (sort_one dial now model addr s) q.1
        (sort_one-Good dial now model addr s q.0 g)

  add_found-Good :
      (found : List Candidate) (o : Option Candidate)
      → All (Good P) found
      → ((k : Candidate) → o ≡ some k → Good P k)
      → All (Good P) (add_found found o)
  add_found-Good found none g h = g
  add_found-Good found (some k) g h = All-append (Good P) found (k ∷ []) g (h k refl, tt)

  probe_all-Good :
      (env : Env) (model : Text) (b : Bool) (addrs : List Text) (p : Pool) (found : List Candidate)
      → All P addrs
      → IsWired p
      → All (Good P) found
      → IsWired (probe_all env model b addrs p found).0
        × All (Good P) (probe_all env model b addrs p found).1
  unfolding probe_all
  probe_all-Good env model b [] p found q w g = (w, g)
  probe_all-Good env model b (addr ∷ addrs) p found q w g =
      let r = probe_runner_address env p addr model b in
      probe_all-Good env model b addrs (r.0) (add_found found (r.1)) q.1
        (probe_runner_address-IsWired env p addr model b w)
        (add_found-Good found (r.1) g
          (λ k h. probe_runner_address-Good P env p addr model b k w q.0 h))

  fall_back-Good :
      (env : Env) (schedule : List Text → List Text) (addrs : List Text) (model : Text)
      (r : Pool × List Candidate)
      → All P (schedule addrs)
      → IsWired (r.0)
      → All (Good P) (r.1)
      → IsWired (fall_back env schedule addrs model r).0
        × All (Good P) (fall_back env schedule addrs model r).1
  unfolding fall_back
  fall_back-Good env schedule addrs model (p, []) q w g =
      probe_all-Good env model false (schedule addrs) p [] q w tt
  fall_back-Good env schedule addrs model (p, c ∷ found) q w g = (w, g)

  pick_among-Good :
      (first second_round : Env) (schedule : List Text → List Text)
      → ((addrs : List Text) → All P addrs → All P (schedule addrs))
      → (now : ℕ) (addrs : List Text) (model : Text) (p : Pool) → IsWired p
      → All P addrs
      → IsWired (pick_among first second_round schedule now addrs model p).0
        × ((k : Candidate)
            → (pick_among first second_round schedule now addrs model p).1 ≡ picked k
            → Good P k)
  unfolding pick_among
  pick_among-Good first second_round schedule keeps now [] model p w q = (w, λ k h. absurd (cc))
  pick_among-Good first second_round schedule keeps now (a ∷ addrs) model p w q =
      let s =
        sort_all first.dial now model (a ∷ addrs)
          (record { pool = p; from_cache = []; to_probe = [] }) in
      let g =
        sort_all-Good first.dial now model (a ∷ addrs)
          (record { pool = p; from_cache = []; to_probe = [] }) q
          (record { wired = w; good = tt; asked = tt }) in
      let probed = probe_all first model true (schedule s.to_probe) s.pool s.from_cache in
      let (w₁, g₁) =
        probe_all-Good first model true (schedule s.to_probe) s.pool s.from_cache
          (keeps s.to_probe g.asked) g.wired g.good in
      let (w₂, g₂) =
        fall_back-Good second_round schedule (a ∷ addrs) model probed (keeps (a ∷ addrs) q) w₁ g₁ in
      (
        w₂,
        λ k h.
            choose-All (Good P) (fall_back second_round schedule (a ∷ addrs) model probed).1 k h g₂,
      )

  -- If the clients stand under the addresses that they were made for, and the order of probes keeps
  -- what holds of all addresses, then picking leaves the clients so, and a candidate that is picked
  -- has whatever holds of all enabled addresses and the client made for its own address.
  pub pick_runner-Good :
      (first second_round : Env) (schedule : List Text → List Text)
      → ((addrs : List Text) → All P addrs → All P (schedule addrs))
      → (now : ℕ) (registry : Registry) (model : Text) (p : Pool) → IsWired p
      → All P (get_enabled_addresses registry)
      → let r = pick_runner first second_round schedule now registry model p in
        IsWired (r.0) × ((k : Candidate) → r.1 ≡ picked k → Good P k)
  unfolding pick_runner
  pick_runner-Good first second_round schedule keeps now registry model p w q =
      pick_among-Good first second_round schedule keeps now (get_enabled_addresses registry) model p
        w q
