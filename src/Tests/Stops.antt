-- ===== src/Tests/Stops.antt =====
-- Runs of the stop filter, and the theorems at concrete inputs.
use gen_runner.Prelude.{◌≡◌, refl, true, false, some, List, [], ◌∷◌}
use gen_runner.Text.{Text, codes, trim_left_func, trim_right_func}
use gen_runner.StopStream.{strip_round, strip_from, is_trailing, trim_trailing_stops}
use gen_runner.StopStream.Cuts.{IsStart, IsCutBy, HasNoStop}
use gen_runner.StopStream.Trims.{trim_trailing_stops-HasNoStop}

abbrev as_given : List Text → List Text
as_given l = l

-- The spaces are taken off last, so a stop before them is the end of what is left.
stop_left :
    trim_trailing_stops as_given (codes "x</s> </s>") (codes "</s>" ∷ []) ≡ some (codes "x</s>")
unfolding trim_trailing_stops strip_from strip_round trim_right_func trim_left_func
stop_left = refl

trim_trailing_stops-HasNoStop_example :
    (r : Text) × (trim_trailing_stops as_given (codes "x</s>") (codes "</s>" ∷ []) ≡ some r)
    × IsStart r (codes "x</s>")
    × (false ≡ true → r ≡ codes "x</s>")
    × (false ≡ false
        → (out : Text) × (r ≡ trim_right_func is_trailing out)
          × IsCutBy (codes "</s>" ∷ []) (codes "x</s>") out
          × HasNoStop (codes "</s>" ∷ []) out)
trim_trailing_stops-HasNoStop_example =
    trim_trailing_stops-HasNoStop as_given (codes "x</s>") (codes "</s>" ∷ [])

abbrev pieces : List Text
pieces = codes "a long answ" ∷ codes "er</s" ∷ codes ">" ∷ []
