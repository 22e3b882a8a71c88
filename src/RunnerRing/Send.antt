-- ===== src/RunnerRing/Send.antt =====
-- llm-runner/pool.go: asking one runner after another. `answer` says whether a runner opens a
-- stream at an attempt; the pauses between attempts and the reading of the stream are left out.
pub mod Answers
use gen_runner.Prelude.{
  ℕ, zero, suc, ◌+◌, ◌-◌, ◌*◌, ◌/◌, ◌%◌, ◌^◌, ◌≤◌, ◌<◌, min, max, ◌≡◌, refl, sym, ap, ◌∙◌, subst,
  ◌≢◌, ◌↔◌, ◌⊎◌, inl, inr, Bool, true, false, not, ◌&&◌, ◌||◌, Option, none, some, List, [], ◌∷◌,
  ◌++◌, map, reverse, append_assoc, append-nil, arith, ltb, leb, ◌==◌, if◌then◌else◌, ltb→lt,
  lt→ltb, leb→le, le→leb, lt→leb_false, le→ltb_false, ==_iff, Bool-cases, Option-cases, List-cases,
  length, is_empty, get_elem?, set, take, drop, filter_by, all_by, All, length-append,
  length-reverse, length-map, length-set, take-append-drop, length-take, length-drop,
  take-append_left, drop-append_left, All-append, All-map_weaken,
}
use gen_runner.Text.{Text, text_eq}
use gen_runner.RunnerRing.{
  Ring, max_retries_per_runner, get_conn, close_conn, enabled_addresses, pick_runner,
}

-- The addresses but the first one.
unfoldable pub others : Text → List Text → List Text
others start [] = []
others start (a ∷ l) = let rest = others start l in if text_eq start a then rest else a ∷ rest

unfoldable pub ordered_addresses : Ring → Text → List Text
ordered_addresses p start =
    let addrs = enabled_addresses p in
    if is_empty addrs then [] else if is_empty start then addrs else start ∷ others start addrs

-- What became of a send: the runner that took it, or the error.
pub data Sent : Type 0 where
  taken_by : Text → Sent
  no_runner all_failed : Sent

module _ (dial : Text → Bool) (answer : Text → ℕ → Bool) where
  -- `trySendMessage`, up to the open stream.
  unfoldable pub try_send_message : Ring → Text → ℕ → Ring × Bool
  try_send_message p addr attempt =
      let (p', conn) = get_conn dial p addr in
      (p', elim conn [ none ↦ false | some c ↦ answer addr attempt ])

  -- The attempts at one runner, `left` of them still to come.
  unfoldable pub attempts : ℕ → ℕ → Text → Ring × Bool → Ring × Bool
  attempts zero attempt addr r = r
  attempts (suc left) attempt addr (p, true) = (p, true)
  attempts (suc left) attempt addr (p, false) =
      attempts left (attempt + 1) addr (try_send_message p addr attempt)

  -- The connection of a runner that failed is closed, and the next one is asked.
  unfoldable pub send_in_order : Ring → List Text → Ring × Sent
  send_in_order p [] = (p, all_failed)
  send_in_order p (addr ∷ order) =
      let r = attempts (max_retries_per_runner + 1) 0 addr (p, false) in
      let rest = send_in_order (close_conn (r.0) addr) order in
      if r.1 then (r.0, taken_by addr) else rest

  unfoldable pub send_picked : Ring × Option Text → Ring × Sent
  send_picked (p, none) = (p, no_runner)
  send_picked (p, some first) = send_in_order p (ordered_addresses p first)

  unfoldable pub send_message : Ring → Ring × Sent
  send_message p = send_picked (pick_runner p)
