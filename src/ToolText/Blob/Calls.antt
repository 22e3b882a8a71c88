-- ===== src/ToolText/Blob/Calls.antt =====
-- internal/usecase/chat_tool_loop.go: `extractToolActionBlob` returns, what it returns is a call,
-- but for two exceptions, and no call that stands alone is passed over.
use gen_runner.Prelude.{
  ℕ, zero, suc, ◌≤◌, ◌<◌, ◌≡◌, refl, subst, ◌⊎◌, inl, inr, Bool, true, false, not, ◌&&◌, Option,
  some, [], ◌∷◌, arith, ◌==◌, if◌then◌else◌, Bool-cases, Option-cases, length, is_empty, get_elem?,
  drop, is_empty-nil, length-drop,
}
use gen_runner.Text.{Text, codes, trim_space, has_prefix}
use gen_runner.ToolText.{extract_leading_json_array, extract_leading_json_object}
use gen_runner.ToolText.Blob.{
  fence, cut, fence_body, starts_json, extract_cohere_action_json, fenced_call, fenced_from,
  extract_first_fenced_tool_array, extract_first_json_array, embedded_from,
  extract_embedded_json_array, extract_embedded_json_object, unfenced_blob,
  extract_tool_action_blob,
}

-- What follows the separator is shorter.
length-cut :
    (s sep before after : Text)
    → 1 ≤ length sep
    → cut s sep ≡ some (before, after)
    → length after < length s
unfolding cut
length-cut [] sep before after l h = ground (arith, h)
length-cut (c ∷ s) sep before after l h = elim (Bool-cases (has_prefix (c ∷ s) sep)) [
  | inl e ↦
      let same : drop (length sep) (c ∷ s) ≡ after = ground (arith, e, h) in
      subst (λ (x : Text). length x < suc (length s)) same
        (omega (arith, l, length-drop (length sep) (c ∷ s)))
  | inr e ↦ elim (Option-cases (cut s sep)) [
    | inl o ↦ ground (arith, e, o, h)
    | inr ((b, a), o) ↦
        let same : a ≡ after = ground (arith, e, o, h) in
        subst (λ (x : Text). length x < suc (length s)) same
          (omega (arith, length-cut s sep b a l o))
  ]
]

module _ (find_action : Text → Option Text) (is_call : Text → Bool) where
  -- A text that is empty or a call.
  abbrev pub IsCallOrEmpty : Text → Type 0
  IsCallOrEmpty r = (r ≡ []) ⊎ (is_call r ≡ true)

  abbrev pub IsNoCall : Text → Type 0
  IsNoCall r = (r ≡ []) ⊎ (is_call r ≡ false)

  fenced_call-IsCallOrEmpty : (s : Text) → IsCallOrEmpty (fenced_call find_action is_call s)
  unfolding fenced_call
  fenced_call-IsCallOrEmpty s =
      elim (Bool-cases (starts_json (trim_space (trim_space s)) && is_call (trim_space s))) [
        | inl e ↦ rw e (inr (ground (arith, e)))
        | inr e ↦ rw e (inl refl)
      ]

  fenced_from-IsCallOrEmpty :
      (fuel : ℕ) (s : Text)
      → length s < fuel
      → (r : Text) × (fenced_from find_action is_call fuel s ≡ some r) × IsCallOrEmpty r
  unfolding fenced_from
  fenced_from-IsCallOrEmpty zero s l = ground (arith, l)
  fenced_from-IsCallOrEmpty (suc fuel) s l = elim (Option-cases (cut s fence)) [
    | inl e ↦ ([], rw (fenced_from, e) refl, inl refl)
    | inr ((b, a), e) ↦ elim (Option-cases (cut (fence_body a) fence)) [
      | inl f ↦ ([], rw (fenced_from, e, f) refl, inl refl)
      | inr ((before, after), f) ↦
          elim (Bool-cases (is_empty (fenced_call find_action is_call before))) [
            | inr z ↦ (
              fenced_call find_action is_call before,
              rw (fenced_from, e, f, z) refl,
              fenced_call-IsCallOrEmpty before,
            )
            | inl z ↦
                let (r, g, i) =
                  fenced_from-IsCallOrEmpty fuel a
                    (omega (arith, l, length-cut s fence b a (omega arith) e)) in
                (r, rw (fenced_from, e, f, z) g, i)
          ]
    ]
  ]

  first_array-IsCallOrEmpty :
      (text : Text) → IsCallOrEmpty (extract_first_json_array find_action is_call text)
  unfolding extract_first_json_array
  first_array-IsCallOrEmpty text = elim (Option-cases (cut text (codes "```json"))) [
    | inl e ↦ rw (extract_first_json_array, e) (inl refl)
    | inr ((b, rest), e) ↦ elim (Option-cases (cut rest fence)) [
      | inl f ↦ rw (extract_first_json_array, e, f) (inl refl)
      | inr ((before, after), f) ↦
          rw (extract_first_json_array, e, f) (fenced_call-IsCallOrEmpty before)
    ]
  ]

  embedded_from-IsCallOrEmpty :
      (o : ℕ) (leading : Text → Text) (s : Text)
      → IsCallOrEmpty (embedded_from find_action is_call o leading s)
  unfolding embedded_from
  embedded_from-IsCallOrEmpty o leading [] = inl refl
  embedded_from-IsCallOrEmpty o leading (b ∷ s) = elim (Bool-cases (b == o)) [
    | inr e ↦ rw e (embedded_from-IsCallOrEmpty o leading s)
    | inl e ↦ elim (Bool-cases (not (is_empty (leading (b ∷ s))) && is_call (leading (b ∷ s)))) [
      | inl f ↦ rw (e, f) (inr (ground (arith, f)))
      | inr f ↦ rw (e, f) (embedded_from-IsCallOrEmpty o leading s)
    ]
  ]

  -- If nothing embedded is found, then no candidate was a call.
  rest_empty :
      (b : Bool) (l rest : Text)
      → (if b then if not (is_empty l) && is_call l then l else rest else rest) ≡ []
      → rest ≡ []
  rest_empty false l rest h = h
  rest_empty true [] rest h = h
  rest_empty true (c ∷ l) rest h = ground (arith, h)

  embedded_from-none :
      (o : ℕ) (leading : Text → Text) (s : Text) (k : ℕ)
      → embedded_from find_action is_call o leading s ≡ []
      → get_elem? s k ≡ some o
      → IsNoCall (leading (drop k s))
  unfolding embedded_from
  embedded_from-none o leading [] k h e = ground (arith, e)
  embedded_from-none o leading (b ∷ s) zero h e = elim (Bool-cases (is_empty (leading (b ∷ s)))) [
    | inl z ↦ inl (is_empty-nil (leading (b ∷ s)) z)
    | inr z ↦ inr (ground (arith, h, e, z))
  ]
  embedded_from-none o leading (b ∷ s) (suc k) h e =
      embedded_from-none o leading s k
        (rest_empty (b == o) (leading (b ∷ s)) (embedded_from find_action is_call o leading s) h) e

  -- An empty text of the first is followed by the second.
  or_else-none : (a b : Text) → (if not (is_empty a) then a else b) ≡ [] → (a ≡ []) × (b ≡ [])
  or_else-none [] b h = (refl, h)
  or_else-none (c ∷ a) b h = ground (arith, h)

  unfenced_lem :
      (text : Text)
      → IsCallOrEmpty (unfenced_blob find_action is_call text)
        ⊎ (unfenced_blob find_action is_call text ≡ extract_leading_json_array text)
  unfolding unfenced_blob extract_embedded_json_array extract_embedded_json_object
  unfenced_lem text = elim (Bool-cases (is_empty (extract_leading_json_array text))) [
    | inr e ↦ inr (rw (unfenced_blob, e) refl)
    | inl e ↦
        inl
          (elim (Bool-cases (
            not (is_empty (extract_leading_json_object text))
            && is_call (extract_leading_json_object text))) [
              | inl f ↦ rw (unfenced_blob, e, f) (inr (ground (arith, f)))
              | inr f ↦
                  elim (Bool-cases
                    (is_empty (extract_embedded_json_array find_action is_call text))) [
                      | inl g ↦
                          rw (unfenced_blob, e, f, g)
                            (embedded_from-IsCallOrEmpty 0x7b extract_leading_json_object text)
                      | inr g ↦
                          rw (unfenced_blob, e, f, g)
                            (embedded_from-IsCallOrEmpty 0x5b extract_leading_json_array text)
                    ]
            ])
  ]

  abbrev embedded_blob : Text → Text
  embedded_blob text =
      if not (is_empty (extract_embedded_json_array find_action is_call text))
      then extract_embedded_json_array find_action is_call text
      else extract_embedded_json_object find_action is_call text

  abbrev leading_object_blob : Text → Text
  leading_object_blob text =
      if not (is_empty (extract_leading_json_object text))
        && is_call (extract_leading_json_object text)
      then extract_leading_json_object text
      else embedded_blob text

  object_blob_rest : (text : Text) → leading_object_blob text ≡ [] → embedded_blob text ≡ []
  object_blob_rest text h = elim (Bool-cases (is_empty (extract_leading_json_object text))) [
    | inl e ↦ ground (arith, e, h)
    | inr e ↦ elim (Bool-cases (is_call (extract_leading_json_object text))) [
      | inl f ↦
          let z : extract_leading_json_object text ≡ [] = ground (arith, e, f, h) in
          ground (arith, z, e)
      | inr f ↦ ground (arith, e, f, h)
    ]
  ]

  -- No bracket of the text starts a call.
  abbrev pub IsWithoutCall : ℕ → (Text → Text) → Text → Type 0
  IsWithoutCall o leading text =
      (k : ℕ) → get_elem? text k ≡ some o → IsNoCall (leading (drop k text))

  unfenced_none :
      (text : Text)
      → unfenced_blob find_action is_call text ≡ []
      → IsWithoutCall 0x5b extract_leading_json_array text
        × IsWithoutCall 0x7b extract_leading_json_object text
  unfolding unfenced_blob extract_embedded_json_array extract_embedded_json_object
  unfenced_none text h =
      let (e, h1) = or_else-none (extract_leading_json_array text) (leading_object_blob text) h in
      let (f, g) =
        or_else-none (extract_embedded_json_array find_action is_call text)
          (extract_embedded_json_object find_action is_call text) (object_blob_rest text h1) in
      (
        λ k. embedded_from-none 0x5b extract_leading_json_array text k f,
        λ k. embedded_from-none 0x7b extract_leading_json_object text k g,
      )

  -- The search returns. What it finds is a call, unless it is the text after an `Action:` or an
  -- array at the start of the answer, which are not put to the test. If it finds nothing, then no
  -- bracket of the answer starts an array or an object that is a call.
  pub extract_tool_action_blob-IsCall :
      (text : Text)
      → (r : Text) × (extract_tool_action_blob find_action is_call text ≡ some r)
        × (IsCallOrEmpty r
            ⊎ ((r ≡ extract_cohere_action_json find_action is_call text)
                ⊎ (r ≡ extract_leading_json_array text)))
        × (r ≡ []
            → IsWithoutCall 0x5b extract_leading_json_array text
              × IsWithoutCall 0x7b extract_leading_json_object text)
  unfolding extract_tool_action_blob extract_first_fenced_tool_array
  extract_tool_action_blob-IsCall text =
      elim (Bool-cases (is_empty (extract_cohere_action_json find_action is_call text))) [
        | inr a ↦ (
          extract_cohere_action_json find_action is_call text,
          rw (extract_tool_action_blob, a) refl,
          inr (inl refl),
          λ z. ground (arith, z, a),
        )
        | inl a ↦ elim (Bool-cases (is_empty (extract_first_json_array find_action is_call text))) [
          | inr b ↦ (
            extract_first_json_array find_action is_call text,
            rw (extract_tool_action_blob, a, b) refl,
            inl (first_array-IsCallOrEmpty text),
            λ z. ground (arith, z, b),
          )
          | inl b ↦
              let (s, e, i) = fenced_from-IsCallOrEmpty (suc (length text)) text (omega arith) in
              elim (Bool-cases (is_empty s)) [
                | inr c ↦ (
                  s,
                  rw (extract_tool_action_blob, a, b, e, c) refl,
                  inl i,
                  λ z. ground (arith, z, c),
                )
                | inl c ↦ (
                  unfenced_blob find_action is_call text,
                  rw (extract_tool_action_blob, a, b, e, c) refl,
                  elim (unfenced_lem text) [ inl u ↦ inl u | inr u ↦ inr (inr u) ],
                  unfenced_none text,
                )
              ]
        ]
      ]
