-- ===== src/Registry/Laws.antt =====
-- internal/service/registry.go: the invariant, and what the methods do to one another.
use gen_runner.Prelude.{
  ◌≡◌, refl, ap, ◌∙◌, ◌≢◌, inl, inr, Bool, true, false, not, ◌&&◌, Option, none, some, List, [],
  ◌∷◌, arith, if◌then◌else◌, Bool-cases, Option-cases, List-cases, is_empty,
}
use gen_runner.Text.{contains, Text, text_eq, trim_space}
use gen_runner.Text.Laws.{text_eq_iff}
use gen_runner.Dict.{
  lookup, insert, lookup-insert, Entries, insert-Entries, delete-Entries, lookup-Entries,
}
use gen_runner.Registry.{
  RunnerCoreHints, RunnerState, Registry, replace_from, replace_all, new_registry, registered,
  register_with_name_and_hints, unregister, set_enabled, has_active_runners, get_enabled_addresses,
  is_enabled_runner,
}

-- Every state stands under its own address, which is not empty.
abbrev IsFiled : Text → RunnerState → Type 0
IsFiled k st = (st.address ≡ k) × (k ≢ [])

abbrev pub IsWellFiled : Registry → Type 0
IsWellFiled = Entries IsFiled

replace_from-IsWellFiled :
    (next : Registry) (states : List RunnerState)
    → IsWellFiled next
    → IsWellFiled (replace_from next states)
unfolding replace_from
replace_from-IsWellFiled next [] h = h
replace_from-IsWellFiled next (st ∷ states) h =
    let addr = trim_space st.address in
    elim (Bool-cases (is_empty addr)) [
      | inl e ↦ rw e (replace_from-IsWellFiled next states h)
      | inr e ↦ rw e (
          replace_from-IsWellFiled (insert addr (record st { address = addr }) next) states (
            insert-Entries IsFiled addr (record st { address = addr }) next
              (refl, ground (arith, e)) h))
    ]

registered_address :
    (r : Registry) (addr name : Text) (hints : Option RunnerCoreHints)
    → IsWellFiled r
    → (registered (lookup addr r) addr name hints).address ≡ addr
unfolding registered
registered_address r addr name hints h = elim (Option-cases (lookup addr r)) [
  | inl e ↦ rw e
  | inr (st, e) ↦ rw e (lookup-Entries IsFiled addr st r e h).0
]

register-IsWellFiled :
    (r : Registry) (addr name : Text) (hints : Option RunnerCoreHints)
    → IsWellFiled r
    → IsWellFiled (register_with_name_and_hints r addr name hints)
unfolding register_with_name_and_hints
register-IsWellFiled r addr name hints h = elim (Bool-cases (is_empty addr)) [
  | inl e ↦ rw e h
  | inr e ↦ rw e (
      insert-Entries IsFiled addr (registered (lookup addr r) addr name hints) r
        (registered_address r addr name hints h, ground (arith, e)) h)
]

unregister-IsWellFiled :
    (r : Registry) (addr : Text) → IsWellFiled r → IsWellFiled (unregister r addr)
unfolding unregister
unregister-IsWellFiled r addr h = elim (Option-cases (lookup addr r)) [
  | inl e ↦ rw (e, unregister) h
  | inr (st, e) ↦ rw (e, unregister) (delete-Entries IsFiled addr r h)
]

set_enabled-IsWellFiled :
    (r : Registry) (addr : Text) (on : Bool) → IsWellFiled r → IsWellFiled (set_enabled r addr on)
unfolding set_enabled
set_enabled-IsWellFiled r addr on h = elim (Option-cases (lookup (trim_space addr) r)) [
  | inl e ↦ rw (e, set_enabled) h
  | inr (st, e) ↦
      rw (e, set_enabled)
        (insert-Entries IsFiled (trim_space addr) (record st { enabled = on }) r
          (lookup-Entries IsFiled (trim_space addr) st r e h) h)
]

-- The methods that change the registry.
pub data Call : Type 0 where
  replaces : List RunnerState → Call
  registers : Text → Text → Option RunnerCoreHints → Call
  unregisters : Text → Call
  enables : Text → Bool → Call

pub step : Registry → Call → Registry
step r (replaces states) = replace_all r states
step r (registers addr name hints) = register_with_name_and_hints r addr name hints
step r (unregisters addr) = unregister r addr
step r (enables addr on) = set_enabled r addr on

pub run : Registry → List Call → Registry
run r [] = r
run r (c ∷ cs) = run (step r c) cs

step-IsWellFiled : (r : Registry) (c : Call) → IsWellFiled r → IsWellFiled (step r c)
unfolding step replace_all
step-IsWellFiled r (replaces states) h = replace_from-IsWellFiled [] states tt
step-IsWellFiled r (registers addr name hints) h = register-IsWellFiled r addr name hints h
step-IsWellFiled r (unregisters addr) h = unregister-IsWellFiled r addr h
step-IsWellFiled r (enables addr on) h = set_enabled-IsWellFiled r addr on h

run-IsWellFiled : (r : Registry) (cs : List Call) → IsWellFiled r → IsWellFiled (run r cs)
unfolding run
run-IsWellFiled r [] h = h
run-IsWellFiled r (c ∷ cs) h = run-IsWellFiled (step r c) cs (step-IsWellFiled r c h)

-- After any history of calls from any initial states every state stands under its own address, and
-- that is not empty.
pub run-new_registry-IsWellFiled :
    (initial : List RunnerState) (cs : List Call) → IsWellFiled (run (new_registry initial) cs)
unfolding new_registry replace_all
run-new_registry-IsWellFiled initial cs =
    run-IsWellFiled (replace_from [] initial) cs (replace_from-IsWellFiled [] initial tt)

abbrev pub is_known : Option RunnerState → Bool
is_known none = false
is_known (some st) = true

-- If the address asked for is not blank: after a call of `SetEnabled` the runner that it names has
-- the new setting if it is known, and any other keeps its own, where both addresses are trimmed
-- first.
pub is_enabled_runner-set_enabled :
    (r : Registry) (addr other : Text) (on : Bool)
    → trim_space other ≢ []
    → is_enabled_runner (set_enabled r addr on) other ≡ (
        if text_eq (trim_space addr) (trim_space other)
        then is_known (lookup (trim_space addr) r) && on
        else is_enabled_runner r other)
unfolding is_enabled_runner set_enabled
is_enabled_runner-set_enabled r addr other on ne =
    let a = trim_space addr in
    let o = trim_space other in
    elim (Option-cases (lookup a r)) [
      | inl e ↦ ground (arith, e, text_eq_iff a o)
      | inr (st, e) ↦
          ground (arith, e, text_eq_iff a o, lookup-insert a o (record st { enabled = on }) r)
    ]

-- There is an active runner exactly when some address is enabled.
pub has_active_runners-enabled :
    (r : Registry) → has_active_runners r ≡ not (is_empty (get_enabled_addresses r))
unfolding has_active_runners get_enabled_addresses
has_active_runners-enabled [] = refl
has_active_runners-enabled ((k, st) ∷ r) = ground (arith, has_active_runners-enabled r)

lookup_enabled :
    (r : Registry) (a : Text) (st : RunnerState)
    → IsWellFiled r
    → lookup a r ≡ some st
    → st.enabled ≡ true
    → contains (get_enabled_addresses r) a ≡ true
unfolding lookup get_enabled_addresses
lookup_enabled [] a st h e on = cc
lookup_enabled ((k, s) ∷ r) a st h e on = elim (Bool-cases (text_eq k a)) [
  | inl t ↦
      let same : s ≡ st = ground (arith, t) in
      rw (ap (λ (x : RunnerState). x.enabled) same ∙ on, h.0.0, t)
  | inr t ↦ ground (arith, t, lookup_enabled r a st h.1)
]

-- If every state stands under its own address, then a runner that counts as enabled is among the
-- addresses that a pool picks from.
get_enabled_addresses-contains :
    (r : Registry) (addr : Text)
    → IsWellFiled r
    → is_enabled_runner r addr ≡ true
    → contains (get_enabled_addresses r) (trim_space addr) ≡ true
unfolding is_enabled_runner
get_enabled_addresses-contains r addr h on = elim (Option-cases (lookup (trim_space addr) r)) [
  | inl e ↦ absurd (ground (arith, e))
  | inr (st, e) ↦ lookup_enabled r (trim_space addr) st h e (ground (arith, e))
]

-- If an address is not empty, is not equal to itself trimmed, and is not known trimmed, then
-- `SetEnabled` by that address changes nothing after `Register` by it.
pub set_enabled-padded :
    (r : Registry) (addr name : Text) (hints : Option RunnerCoreHints) (on : Bool)
    → addr ≢ []
    → text_eq addr (trim_space addr) ≡ false
    → lookup (trim_space addr) r ≡ none
    → let r' = register_with_name_and_hints r addr name hints in set_enabled r' addr on ≡ r'
unfolding set_enabled register_with_name_and_hints
set_enabled-padded r addr name hints on ne padded missing = elim (List-cases addr) [
  | inl e ↦ absurd (ne e)
  | inr (c, s, e) ↦
      let some_addr : is_empty addr ≡ false = rw e in
      let st = registered (lookup addr r) addr name hints in
      let gone : lookup (trim_space addr) (insert addr st r) ≡ none =
        rw (lookup-insert addr (trim_space addr) st r, padded) missing in
      rw some_addr (rw (gone, set_enabled))
]
