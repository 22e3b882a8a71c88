-- ===== src/MdPatch/Run.antt =====
-- pkg/document/md_patch.go, `ApplyMarkdownPatchJSON`: a whole patch.
use gen_runner.Prelude.{ℕ, ◌≤◌, ◌<◌, ◌≡◌, refl, subst, List, [], ◌∷◌, arith, ltb, length, is_empty}
use gen_runner.Text.{Text, trim_space, byte_len}
use gen_runner.MdPatch.{
  Result, ok, err, panics, ◌>>=◌, reject_if, MdPatchOp, max_ops, max_output_runes,
  max_spec_json_bytes, apply_one, validate_output_size, apply_all, apply_patch_json,
}

-- A sequence that succeeds has a first step that does.
>>=-eq-ok {ℓ κ} :
    {X : Type ℓ} {Y : Type κ} {y : Y} (first : Result X) (next : X → Result Y)
    → (first >>= next) ≡ ok y
    → (x : X) × (first ≡ ok x) × (next x ≡ ok y)
>>=-eq-ok panics next h = cc
>>=-eq-ok (err why) next h = cc
>>=-eq-ok (ok x) next h = (x, refl, h)

-- What `apply_one` makes of a text by one operation after another, in order.
pub data Applies (lower : ℕ → ℕ) : Text → List MdPatchOp → Text → Type 0 where
  finish : {text : Text} → length text ≤ max_output_runes → Applies lower text [] text
  step :
      {text text' r : Text} {op : MdPatchOp} {ops : List MdPatchOp}
      → length text ≤ max_output_runes
      → apply_one lower text op ≡ ok text'
      → Applies lower text' ops r
      → Applies lower text (op ∷ ops) r

module _ (lower : ℕ → ℕ) where
  validated :
      (s : Text) (u : Unit {0}) → validate_output_size lower s ≡ ok u → length s ≤ max_output_runes
  unfolding validate_output_size
  validated s u h = ground arith

  apply_all-Applies :
      (text : Text) (ops : List MdPatchOp) (r : Text)
      → apply_all lower text ops ≡ ok r
      → Applies lower text ops r
  unfolding apply_all
  apply_all-Applies text [] r h =
      let (u, v, e) = >>=-eq-ok (validate_output_size lower text) _ h in
      let same : text ≡ r = cc in subst (Applies lower text []) same (finish (validated text u v))
  apply_all-Applies text (op ∷ ops) r h =
      let (u, v, rest) = >>=-eq-ok (validate_output_size lower text) _ h in
      let (text', one, more) = >>=-eq-ok (apply_one lower text op) _ rest in
      step (validated text u v) one (apply_all-Applies text' ops r more)

  Applies-bound :
      {text r : Text} {ops : List MdPatchOp}
      → Applies lower text ops r
      → length r ≤ max_output_runes
  Applies-bound (finish h) = h
  Applies-bound (step h e a) = Applies-bound a

  -- If a patch succeeds, then its text is within the limit of bytes and decodes to between 1 and
  -- 200 operations, and the result comes from the base text by these operations one after the other
  -- in order, every text on the way, the result too, within the limit of code points.
  pub apply_patch_json-Applies :
      (decode : Text → Result (List MdPatchOp)) (base patch r : Text)
      → apply_patch_json lower decode base patch ≡ ok r
      → (ops : List MdPatchOp) × (decode (trim_space patch) ≡ ok ops)
        × (0 < length ops)
        × (length ops ≤ max_ops)
        × (byte_len (trim_space patch) ≤ max_spec_json_bytes)
        × Applies lower base ops r
        × (length r ≤ max_output_runes)
  unfolding apply_patch_json
  apply_patch_json-Applies decode base patch r h =
      let (u, v, h₁) = >>=-eq-ok (reject_if (is_empty (trim_space patch)) _) _ h in
      let (u₂, v₂, h₂) =
        >>=-eq-ok (reject_if (ltb max_spec_json_bytes (byte_len (trim_space patch))) _) _ h₁ in
      let (ops, d, h₃) = >>=-eq-ok (decode (trim_space patch)) _ h₂ in
      let (u₄, v₄, h₄) = >>=-eq-ok (reject_if (is_empty ops) _) _ h₃ in
      let (u₅, v₅, h₅) = >>=-eq-ok (reject_if (ltb max_ops (length ops)) _) _ h₄ in
      let a = apply_all-Applies base ops r h₅ in
      (ops, d, ground (arith, v₄), ground (arith, v₅), ground (arith, v₂), a, Applies-bound a)
