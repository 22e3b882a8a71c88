-- ===== src/StopStream/Trims.antt =====
-- llm-runner/service/stop_stream.go: cutting stop sequences off the end of a text.
use gen_runner.StopStream.Cuts.{
  IsStart, IsStart-trans, IsStart-refl, trim_right-IsStart, has_suffix-length, HasNoStop, IsCutBy,
  IsCutBy-refl, IsCutBy-trans, IsCutBy-later, IsCutBy-IsStart, cut-IsCutBy,
}
use gen_runner.Prelude.{
  ℕ, zero, suc, ◌-◌, ◌≤◌, ◌<◌, ◌≡◌, refl, sym, ap, subst, ◌⊎◌, inl, inr, Bool, true, false, not,
  ◌&&◌, ◌||◌, some, List, [], ◌∷◌, arith, Bool-cases, length, is_empty, take, length-append,
  length-take,
}
use gen_runner.Text.{Text, trim_right_func}
use gen_runner.StopStream.{has_suffix, is_trailing, strip_round, strip_from, trim_trailing_stops}

-- A round cuts stops; if it cut something, the rest is shorter, and else no stop is an end.
abbrev Stripped : List Text → Text → Bool → Text × Bool → Type 0
Stripped st out changed (out', changed') =
    IsCutBy st out out'
    × (((changed' ≡ false) × (changed ≡ false) × (out' ≡ out) × HasNoStop st out)
        ⊎ ((changed' ≡ true) × ((changed ≡ true) ⊎ (length out' < length out))))

or-true : (b : Bool) → (b || true) ≡ true
or-true true = refl
or-true false = refl

or-false : (b : Bool) → (b || false) ≡ b
or-false true = refl
or-false false = refl

strip_cut :
    (t : Text) (st : List Text) (out : Text) (changed : Bool)
    → (not (is_empty t) && has_suffix out t) ≡ true
    → strip_round (t ∷ st) out changed ≡ strip_round st (take (length out - length t) out) true
unfolding strip_round
strip_cut t st out changed e = rw (strip_round, e, or-true changed) refl

strip_keep :
    (t : Text) (st : List Text) (out : Text) (changed : Bool)
    → (not (is_empty t) && has_suffix out t) ≡ false
    → strip_round (t ∷ st) out changed ≡ strip_round st out changed
unfolding strip_round
strip_keep t st out changed e = rw (strip_round, e, or-false changed) refl

IsStart-length : (a b : Text) → IsStart a b → length a ≤ length b
IsStart-length a b (q, e) = omega (arith, ap length e, length-append a q)

cut_shorter :
    (t out : Text)
    → (not (is_empty t) && has_suffix out t) ≡ true
    → length (take (length out - length t) out) < length out
cut_shorter [] out e = ground (arith, e)
cut_shorter (c ∷ t) out e =
    omega (arith, length-take (length out - length (c ∷ t)) out, has_suffix-length out (c ∷ t) e)

strip_round-Stripped :
    (st : List Text) (out : Text) (changed : Bool)
    → Stripped st out changed (strip_round st out changed)
unfolding strip_round
strip_round-Stripped [] out true = (IsCutBy-refl [] out, inr (refl, inl refl))
strip_round-Stripped [] out false = (IsCutBy-refl [] out, inl (refl, refl, refl, tt))
strip_round-Stripped (t ∷ st) out changed =
    elim (Bool-cases (not (is_empty t) && has_suffix out t)) [
      | inl e ↦
          let short = take (length out - length t) out in
          let (start, r) = strip_round-Stripped st short true in
          let less : length ((strip_round st short true).0) < length out = omega (
            arith,
            IsStart-length ((strip_round st short true).0) short
                (IsCutBy-IsStart st short ((strip_round st short true).0) start),
            cut_shorter t out e,
          ) in
          subst (Stripped (t ∷ st) out changed) (sym (strip_cut t st out changed e)) (
            IsCutBy-trans (t ∷ st) out short ((strip_round st short true).0)
                (cut-IsCutBy t st out e)
                (IsCutBy-later t st short ((strip_round st short true).0) start),
            elim r [ inl (p, q, s, n) ↦ ground (arith, q) | inr (p, q) ↦ inr (p, inr less) ],
          )
      | inr e ↦
          let (start, r) = strip_round-Stripped st out changed in
          subst (Stripped (t ∷ st) out changed) (sym (strip_keep t st out changed e)) (
            IsCutBy-later t st out ((strip_round st out changed).0) start,
            elim r [ inl (p, q, s, n) ↦ inl (p, q, s, (e, n)) | inr q ↦ inr q ],
          )
    ]

strip_from-HasNoStop :
    (fuel : ℕ) (st : List Text) (out : Text)
    → length out < fuel
    → (r : Text) × (strip_from fuel st out ≡ some r) × IsCutBy st out r × HasNoStop st r
unfolding strip_from
strip_from-HasNoStop zero st out l = ground (arith, l)
strip_from-HasNoStop (suc fuel) st out l =
    let (start, r) = strip_round-Stripped st out false in
    elim r [
      | inl (p, q, s, n) ↦ (
        (strip_round st out false).0,
        rw (strip_from, p) refl,
        start,
        subst (HasNoStop st) (sym s) n,
      )
      | inr (p, inl q) ↦ ground (arith, q)
      | inr (p, inr q) ↦
          let (x, e, a, n) =
            strip_from-HasNoStop fuel st ((strip_round st out false).0) (omega (arith, l, q)) in
          (
            x,
            rw (strip_from, p) e,
            IsCutBy-trans st out ((strip_round st out false).0) x start a,
            n,
          )
    ]

module _ (by_length : List Text → List Text) where
  -- `trimTrailingStops` returns a start of the text. If the text or the list of stops is empty, that
  -- is the text. Otherwise it is the text without some of the stops in a row at its end, after which
  -- no stop that is not empty is an end, and without the spaces at the end of that.
  pub trim_trailing_stops-HasNoStop :
      (s : Text) (stops : List Text)
      → (r : Text) × (trim_trailing_stops by_length s stops ≡ some r)
        × IsStart r s
        × ((is_empty s || is_empty stops) ≡ true → r ≡ s)
        × ((is_empty s || is_empty stops) ≡ false
            → (out : Text) × (r ≡ trim_right_func is_trailing out)
              × IsCutBy (by_length stops) s out
              × HasNoStop (by_length stops) out)
  unfolding trim_trailing_stops
  trim_trailing_stops-HasNoStop s stops = elim (Bool-cases (is_empty s || is_empty stops)) [
    | inl e ↦
        (s, rw (trim_trailing_stops, e) refl, IsStart-refl s, λ h. refl, λ h. ground (arith, e, h))
    | inr e ↦
        let (out, f, a, n) =
          strip_from-HasNoStop (suc (length s)) (by_length stops) s (omega arith) in
        (
          trim_right_func is_trailing out,
          rw (trim_trailing_stops, e, f) refl,
          IsStart-trans (trim_right_func is_trailing out) out s (trim_right-IsStart is_trailing out)
              (IsCutBy-IsStart (by_length stops) s out a),
          λ h. ground (arith, e, h),
          λ h. (out, refl, a, n),
        )
  ]
