-- ===== src/RunnerPool/Pick/Answers.antt =====
-- internal/service/pool.go, `pickRunner`: when a runner is picked.
use gen_runner.Prelude.{
  ℕ, ◌≡◌, refl, sym, subst, ◌≢◌, inl, inr, Bool, true, false, Option, none, some, List, [], ◌∷◌,
  arith, Bool-cases, Option-cases,
}
use gen_runner.Text.{Text, text_eq}
use gen_runner.Text.Laws.{text_eq_iff}
use gen_runner.Dict.{lookup}
use gen_runner.Registry.{Registry, get_enabled_addresses}
use gen_runner.RunnerPool.{Client, Pool, get_client}
use gen_runner.RunnerPool.Probe.{
  ProbeResponse, answered, Env, Candidate, contains, candidate_from_runner_probe, probe_with_client,
  probe_client, probe_runner_address,
}
use gen_runner.RunnerPool.Pick.{
  picked, add_found, probe_all, choose, fall_back, pick_among, pick_runner,
}

-- A runner at this address takes connections and has its backend.
abbrev pub Answers : Env → Text → Type 0
Answers env a =
    (env.dial a ≡ true)
    × ((r : ProbeResponse) × (env.probe a ≡ answered r) × (r.backend_connected ≡ true))

get_client-some :
    (dial : Text → Bool) (p : Pool) (a : Text)
    → dial a ≡ true
    → (c : Client) × ((get_client dial p a).1 ≡ some c)
unfolding get_client
get_client-some dial p a d = elim (Option-cases (lookup a p.clients)) [
  | inl e ↦ (record { dialled = a }, ground (arith, e, d))
  | inr (c, e) ↦ (c, ground (arith, e))
]

probe_client-some :
    (env : Env) (r : Pool × Option Client) (a model : Text) (c : Client)
    → r.1 ≡ some c
    → Answers env a
    → (k : Candidate) × ((probe_client env r a model false).1 ≡ some k)
unfolding probe_client probe_with_client candidate_from_runner_probe
probe_client-some env (p, none) a model c h (d, (r, e, on)) = absurd (cc)
probe_client-some env (p, some c') a model c h (d, (r, e, on)) =
    rw (e, probe_with_client) (rw on (_, refl))

probe_some :
    (env : Env) (p : Pool) (a model : Text)
    → Answers env a
    → (k : Candidate) × ((probe_runner_address env p a model false).1 ≡ some k)
unfolding probe_runner_address
probe_some env p a model ans =
    let (c, e) = get_client-some env.dial p a ans.0 in
    probe_client-some env (get_client env.dial p a) a model c e ans

probe_all-ne-nil :
    (env : Env) (model : Text) (b : Bool) (addrs : List Text) (p : Pool) (found : List Candidate)
    → found ≢ []
    → (probe_all env model b addrs p found).1 ≢ []
unfolding probe_all
probe_all-ne-nil env model b [] p found h = h
probe_all-ne-nil env model b (addr ∷ addrs) p found h =
    let r = probe_runner_address env p addr model b in
    probe_all-ne-nil env model b addrs (r.0) (add_found found (r.1)) (grown found (r.1) h)
  where
    grown : (fs : List Candidate) (o : Option Candidate) → fs ≢ [] → add_found fs o ≢ []
    grown fs none h e = h e
    grown [] (some k) h e = cc
    grown (x ∷ fs) (some k) h e = cc

add_found-ne-nil :
    (found : List Candidate) (o : Option Candidate) (k : Candidate)
    → o ≡ some k
    → add_found found o ≢ []
add_found-ne-nil found none k h e = cc
add_found-ne-nil [] (some x) k h e = cc
add_found-ne-nil (y ∷ found) (some x) k h e = cc

probe_all-some :
    (env : Env) (model a : Text) (addrs : List Text) (p : Pool) (found : List Candidate)
    → contains a addrs ≡ true
    → Answers env a
    → (probe_all env model false addrs p found).1 ≢ []
unfolding probe_all
probe_all-some env model a [] p found h ans = absurd (cc)
probe_all-some env model a (addr ∷ addrs) p found h ans =
    let r = probe_runner_address env p addr model false in
    elim (Bool-cases (text_eq addr a)) [
      | inr e ↦
          probe_all-some env model a addrs (r.0) (add_found found (r.1)) (ground (arith, e)) ans
      | inl e ↦
          let same : a ≡ addr = sym ((text_eq_iff addr a).0 e) in
          let (k, one) = probe_some env p addr model (subst (Answers env) same ans) in
          probe_all-ne-nil env model false addrs (r.0) (add_found found (r.1))
            (add_found-ne-nil found (r.1) k one)
    ]

fall_back-some :
    (env : Env) (schedule : List Text → List Text) (addrs : List Text) (model a : Text)
    (r : Pool × List Candidate)
    → contains a (schedule addrs) ≡ true
    → Answers env a
    → (fall_back env schedule addrs model r).1 ≢ []
unfolding fall_back
fall_back-some env schedule addrs model a (p, []) h ans =
    probe_all-some env model a (schedule addrs) p [] h ans
fall_back-some env schedule addrs model a (p, c ∷ found) h ans = λ e. cc

choose-some : (found : List Candidate) → found ≢ [] → (k : Candidate) × (choose found ≡ picked k)
unfolding choose
choose-some [] h = absurd (h refl)
choose-some (c ∷ cs) h = (_, refl)

pick_among-picked :
    (first second_round : Env) (schedule : List Text → List Text)
    → ((addrs : List Text) (a : Text)
        → contains a addrs ≡ true
        → contains a (schedule addrs) ≡ true)
    → (now : ℕ) (addrs : List Text) (model a : Text) (p : Pool) → contains a addrs ≡ true
    → Answers second_round a
    → (k : Candidate) × ((pick_among first second_round schedule now addrs model p).1 ≡ picked k)
unfolding pick_among
pick_among-picked first second_round schedule keeps now [] model a p h ans = absurd (cc)
pick_among-picked first second_round schedule keeps now (b ∷ addrs) model a p h ans =
    choose-some _
      (fall_back-some second_round schedule (b ∷ addrs) model a _ (keeps (b ∷ addrs) a h) ans)

-- If an enabled address answers the second round (it can be dialled, and its probe says that the
-- backend is connected), and the order in which probes come back keeps the addresses, then a runner
-- is picked, whatever the cache says, whatever the first round gave and whatever model is asked
-- for.
pub pick_runner-picked :
    (first second_round : Env) (schedule : List Text → List Text)
    → ((addrs : List Text) (a : Text)
        → contains a addrs ≡ true
        → contains a (schedule addrs) ≡ true)
    → (now : ℕ) (registry : Registry) (model a : Text) (p : Pool)
    → contains a (get_enabled_addresses registry) ≡ true
    → Answers second_round a
    → (k : Candidate) × ((pick_runner first second_round schedule now registry model p).1
        ≡ picked k)
unfolding pick_runner
pick_runner-picked first second_round schedule keeps now registry model a p h ans =
    pick_among-picked first second_round schedule keeps now (get_enabled_addresses registry) model a
      p h ans
