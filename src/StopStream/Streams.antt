-- ===== src/StopStream/Streams.antt =====
-- llm-runner/service/stop_stream.go: what the pieces of a completion become.
use gen_runner.Prelude.{◌≤◌, ◌≡◌, refl, sym, ap, ◌∙◌, List, [], ◌∷◌, ◌++◌, append_assoc, length}
use gen_runner.Text.{Text}
use gen_runner.StopStream.{StopStreamFilter, push}

abbrev pub joined : List Text → Text
joined [] = []
joined (s ∷ l) = s ++ joined l

pub joined-append : (l m : List Text) → joined (l ++ m) ≡ joined l ++ joined m
joined-append [] m = refl
joined-append (s ∷ l) m =
    ap (λ (t : Text). s ++ t) (joined-append l m) ∙ sym (append_assoc s (joined l) (joined m))

unfoldable pub push_all : StopStreamFilter → List Text → StopStreamFilter
push_all f [] = f
push_all f (p ∷ pieces) = push_all (push f p) pieces

-- What was emitted and what is held back, in a row, are what came in; no more than `max_runes` code
-- points are held back.
abbrev pub Holds : Text → StopStreamFilter → Type 0
Holds input f = (joined f.emitted ++ f.buf ≡ input) × (length f.buf ≤ f.max_runes)
