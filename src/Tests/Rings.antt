-- ===== src/Tests/Rings.antt =====
-- Runs of the ring of runners, and the theorems about it at concrete rings.
use gen_runner.Prelude.{
  ℕ, ◌<◌, ◌≡◌, refl, Bool, true, false, ◌&&◌, some, [], ◌∷◌, arith, ◌==◌, length,
}
use gen_runner.Text.{contains, Text, codes, text_eq}
use gen_runner.Dict.{lookup}
use gen_runner.RunnerRing.{
  Ring, add, remove, set_runner_enabled, is_disabled, enabled_addresses, pick_runner,
}
use gen_runner.RunnerRing.Laws.{contains-add-remove}
use gen_runner.RunnerRing.Turns.{after, pick_runner-turn}
use gen_runner.RunnerRing.Send.{taken_by, send_message}
use gen_runner.RunnerRing.Send.Answers.{send_message-taken}

abbrev two : Ring
two = record { addresses = codes "a:1" ∷ codes "b:1" ∷ []; disabled = []; index = 7; conns = [] }

enabled_both : enabled_addresses two ≡ codes "a:1" ∷ codes "b:1" ∷ []
unfolding enabled_addresses is_disabled lookup
enabled_both = refl

-- Only `b:1` opens a stream, at its last attempt.
abbrev b_answers : Text → ℕ → Bool
b_answers a k = text_eq a (codes "b:1") && k == 2

second_enabled : contains (enabled_addresses two) (codes "b:1") ≡ true
unfolding enabled_addresses is_disabled lookup
second_enabled = refl

two_enabled : length (enabled_addresses two) ≡ 2
unfolding enabled_addresses is_disabled lookup
two_enabled = refl

send_message-taken_example :
    (b : Text) × ((send_message (λ a. true) b_answers two).1 ≡ taken_by b)
    × (contains (enabled_addresses two) b ≡ true)
send_message-taken_example =
    send_message-taken (λ a. true) b_answers two (codes "b:1") second_enabled
      (refl, (2, omega arith, refl))

pick_runner-turn_example :
    (k : ℕ) × (k < length (enabled_addresses two))
    × ((pick_runner (after k two)).1 ≡ some (codes "b:1"))
pick_runner-turn_example =
    pick_runner-turn two (codes "b:1") second_enabled (omega (arith, two_enabled))

contains-add-remove_example :
    contains
      (enabled_addresses
        (add (remove (set_runner_enabled two (codes "b:1") false) (codes "b:1")) (codes "b:1")))
      (codes "b:1")
    ≡ false
contains-add-remove_example = contains-add-remove two (codes "b:1") refl
