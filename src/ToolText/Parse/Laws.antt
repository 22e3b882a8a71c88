-- ===== src/ToolText/Parse/Laws.antt =====
-- internal/usecase/chat_tool_loop.go: what `parseCohereActionList` returns.
use gen_runner.Prelude.{
  ◌≡◌, refl, ap, ◌∙◌, subst, ◌≢◌, ◌⊎◌, inl, inr, true, false, Option, none, some, List, [], ◌∷◌,
  arith, if◌then◌else◌, Bool-cases, Option-cases, List-cases, is_empty, is_empty-nil,
}
use gen_runner.Text.{Text, codes, trim_space, has_prefix}
use gen_runner.Text.Laws.{text_eq_iff}
use gen_runner.ToolText.Parse.{
  CohereActionRow, empty_object, is_null, call_keys, encode_parameters, normalize_tool_parameters,
  normalize_row, normalize_tool_action_rows, parse_single, parse_blob, parse_cohere_action_list,
}

-- No JSON text, or the null of JSON.
abbrev IsNull : Text → Type 0
IsNull raw = (raw ≡ []) ⊎ (raw ≡ codes "null")

null_lem : (raw : Text) → is_null raw ≡ true → IsNull raw
null_lem raw h = elim (Bool-cases (is_empty raw)) [
  | inl e ↦ inl (is_empty-nil raw e)
  | inr e ↦ inr ((text_eq_iff raw (codes "null")).0 (ground (arith, e, h)))
]

not_null_lem : (raw : Text) → is_null raw ≡ false → ¬ IsNull raw
not_null_lem raw h (inl e) = ground (arith, ap is_null e, h)
not_null_lem raw h (inr e) = ground (arith, ap is_null e, h)

not_empty_lem : (s : Text) → is_empty s ≡ false → s ≢ []
not_empty_lem s h e = ground (arith, ap is_empty e, h)

module _ (decode_rows : Text → Option (List CohereActionRow))
    (decode_call : Text → Text → Text → Option (Text × Text)) (decode_string : Text → Option Text)
    (reencode : Text → Option Text) where
  -- What the trimmed text of parameters is turned into: nothing or null into the empty object, a string
  -- into what is written in it, if that is not blank, and any other value into itself, written again.
  abbrev IsEncoding : Text → Text → Type 0
  IsEncoding t params =
      (IsNull t × (params ≡ empty_object))
      ⊎ ((¬ IsNull t)
          × (((has_prefix t (codes "\"") ≡ true)
                × ((s : Text) × (decode_string t ≡ some s)
                    × (((trim_space s ≡ []) × (params ≡ empty_object))
                        ⊎ ((trim_space s ≢ []) × (reencode (trim_space s) ≡ some params)))))
              ⊎ ((has_prefix t (codes "\"") ≡ false) × (reencode t ≡ some params))))

  -- A row that is read of a decoded row.
  abbrev IsRowOf : CohereActionRow → CohereActionRow → Type 0
  IsRowOf row r =
      (r.tool_name ≡ trim_space row.tool_name) × IsEncoding (trim_space row.parameters) r.parameters

  -- Row by row, in order.
  abbrev AreRowsOf : List CohereActionRow → List CohereActionRow → Type 0
  AreRowsOf [] [] = Unit
  AreRowsOf (row ∷ rows) (r ∷ rs) = IsRowOf row r × AreRowsOf rows rs
  AreRowsOf _ _ = ⊥

  encode_lem :
      (t params : Text)
      → is_null t ≡ false
      → encode_parameters decode_rows decode_call decode_string reencode t ≡ some params
      → IsEncoding t params
  unfolding encode_parameters
  encode_lem t params n h = elim (Bool-cases (has_prefix t (codes "\""))) [
    | inr e ↦ inr (not_null_lem t n, inr (e, ground (arith, e, h)))
    | inl e ↦ elim (Option-cases (decode_string t)) [
      | inl d ↦ ground (arith, e, d, h)
      | inr (s, d) ↦ elim (Bool-cases (is_empty (trim_space s))) [
        | inl z ↦ inr (
          not_null_lem t n,
          inl (e, (s, d, inl (is_empty-nil (trim_space s) z, ground (arith, e, d, z, h)))),
        )
        | inr z ↦ inr (
          not_null_lem t n,
          inl (e, (s, d, inr (not_empty_lem (trim_space s) z, ground (arith, e, d, z, h)))),
        )
      ]
    ]
  ]

  parameters_lem :
      (raw params : Text)
      → normalize_tool_parameters decode_rows decode_call decode_string reencode raw ≡ some params
      → IsEncoding (trim_space raw) params
  unfolding normalize_tool_parameters
  parameters_lem raw params h = elim (Bool-cases (is_null (trim_space raw))) [
    | inl z ↦ inl (null_lem (trim_space raw) z, ground (arith, z, h))
    | inr z ↦ encode_lem (trim_space raw) params z (ground (arith, z, h))
  ]

  row-IsRowOf :
      (row r : CohereActionRow)
      → normalize_row decode_rows decode_call decode_string reencode row ≡ some r
      → IsRowOf row r
  unfolding normalize_row
  row-IsRowOf row r h =
      elim (Option-cases
        (normalize_tool_parameters decode_rows decode_call decode_string reencode row.parameters)) [
          | inl e ↦ ground (arith, e, h)
          | inr (params, e) ↦
              let same : record { tool_name = trim_space row.tool_name; parameters = params } ≡ r =
                ground (arith, e, h) in
              subst (IsRowOf row) same (refl, parameters_lem row.parameters params e)
        ]

  rows-AreRowsOf :
      (rows rs : List CohereActionRow)
      → normalize_tool_action_rows decode_rows decode_call decode_string reencode rows ≡ some rs
      → AreRowsOf rows rs
  unfolding normalize_tool_action_rows
  rows-AreRowsOf [] rs h = let e : [] ≡ rs = ground (arith, h) in subst (AreRowsOf []) e tt
  rows-AreRowsOf (row ∷ rows) rs h =
      elim (Option-cases (normalize_row decode_rows decode_call decode_string reencode row)) [
        | inl e ↦ ground (arith, e, h)
        | inr (r, e) ↦
            elim (Option-cases
              (normalize_tool_action_rows decode_rows decode_call decode_string reencode rows)) [
                | inl f ↦ ground (arith, e, f, h)
                | inr (qs, f) ↦
                    let same : r ∷ qs ≡ rs = ground (arith, e, f, h) in
                    subst (AreRowsOf (row ∷ rows)) same
                      (row-IsRowOf row r e, rows-AreRowsOf rows qs f)
              ]
      ]

  -- The row of a single call with a name.
  abbrev IsCallRow : Text × Text → CohereActionRow → Type 0
  IsCallRow call row =
      (trim_space call.0 ≢ [])
      × (row.tool_name ≡ trim_space call.0)
      × ((IsNull call.1 × (row.parameters ≡ empty_object))
          ⊎ ((¬ IsNull call.1) × (row.parameters ≡ call.1)))

  -- The text does not decode to a call with a name.
  abbrev HasNoCall : Text → Text → Text → Type 0
  HasNoCall name_key args_key blob =
      (decode_call name_key args_key blob ≡ none)
      ⊎ ((call : Text × Text) × (decode_call name_key args_key blob ≡ some call)
          × (trim_space call.0 ≡ []))

  -- The first of the shapes that decodes to a call with a name gives the row.
  abbrev IsFirstCall : List (Text × Text) → Text → CohereActionRow → Type 0
  IsFirstCall [] blob row = ⊥
  IsFirstCall ((k, a) ∷ keys) blob row =
      ((call : Text × Text) × (decode_call k a blob ≡ some call) × IsCallRow call row)
      ⊎ (HasNoCall k a blob × IsFirstCall keys blob row)

  -- What the JSON text decodes to: a list of rows that is not empty, or, if it is no list of rows, or an
  -- empty one that is not written as a list, a single call.
  abbrev pub IsDecoded : Text → List CohereActionRow → Type 0
  IsDecoded blob rows =
      ((decode_rows blob ≡ some rows) × (rows ≢ []))
      ⊎ (((decode_rows blob ≡ none)
            ⊎ ((decode_rows blob ≡ some []) × (has_prefix (trim_space blob) (codes "[") ≡ false)))
          × ((row : CohereActionRow) × (rows ≡ row ∷ []) × IsFirstCall call_keys blob row))

  -- The rows that are read of what the text decodes to.
  abbrev pub AreRead : (List CohereActionRow → Type 0) → List CohereActionRow → Type 0
  AreRead P rs = (rows : List CohereActionRow) × P rows × AreRowsOf rows rs

  abbrev OneCall : List (Text × Text) → Text → List CohereActionRow → Type 0
  OneCall keys blob rows = (row : CohereActionRow) × (rows ≡ row ∷ []) × IsFirstCall keys blob row

  OneCall-later :
      (k a : Text) (keys : List (Text × Text)) (blob : Text) (rs : List CohereActionRow)
      → HasNoCall k a blob
      → AreRead (OneCall keys blob) rs
      → AreRead (OneCall ((k, a) ∷ keys) blob) rs
  OneCall-later k a keys blob rs n (rows, (row, e, f), all) = (rows, (row, e, inr (n, f)), all)

  call_row :
      (call : Text × Text)
      → is_empty (trim_space call.0) ≡ false
      → IsCallRow call (record {
        tool_name = trim_space (call.0);
        parameters = if is_null (call.1) then empty_object else call.1;
      })
  call_row call z = elim (Bool-cases (is_null (call.1))) [
    | inl e ↦ rw e (not_empty_lem (trim_space call.0) z, refl, inl (null_lem call.1 e, refl))
    | inr e ↦ rw e (not_empty_lem (trim_space call.0) z, refl, inr (not_null_lem call.1 e, refl))
  ]

  single-AreRead :
      (keys : List (Text × Text)) (blob : Text) (rs : List CohereActionRow)
      → parse_single decode_rows decode_call decode_string reencode keys blob ≡ some rs
      → AreRead (OneCall keys blob) rs
  unfolding parse_single
  single-AreRead [] blob rs h = ground (arith, h)
  single-AreRead ((k, a) ∷ keys) blob rs h = elim (Option-cases (decode_call k a blob)) [
    | inl e ↦
        OneCall-later k a keys blob rs (inl e) (single-AreRead keys blob rs (ground (arith, e, h)))
    | inr (call, e) ↦ elim (Bool-cases (is_empty (trim_space (call.0)))) [
      | inl z ↦
          OneCall-later k a keys blob rs (inr (call, e, is_empty-nil (trim_space (call.0)) z))
            (single-AreRead keys blob rs (ground (arith, e, z, h)))
      | inr z ↦
          let row : CohereActionRow = record {
            tool_name = trim_space (call.0);
            parameters = if is_null (call.1) then empty_object else call.1;
          } in
          (
            row ∷ [],
            (row, refl, inl (call, e, call_row call z)),
            rows-AreRowsOf (row ∷ []) rs (ground (arith, e, z, h)),
          )
    ]
  ]

  blob-AreRead :
      (blob : Text) (rs : List CohereActionRow)
      → parse_blob decode_rows decode_call decode_string reencode blob ≡ some rs
      → AreRead (IsDecoded blob) rs
  unfolding parse_blob
  blob-AreRead blob rs h = elim (Option-cases (decode_rows blob)) [
    | inl e ↦
        let (rows, one, all) = single-AreRead call_keys blob rs (ground (arith, e, h)) in
        (rows, inr (inl e, one), all)
    | inr (qs, e) ↦ elim (List-cases qs) [
      | inl z ↦ elim (Bool-cases (has_prefix (trim_space blob) (codes "["))) [
        | inl p ↦ ground (arith, e, z, p, h)
        | inr p ↦
            let (rows, one, all) = single-AreRead call_keys blob rs (ground (arith, e, z, p, h)) in
            (rows, inr (inr (e ∙ ap some z, p), one), all)
      ]
      | inr (q, qs', z) ↦ (
        q ∷ qs',
        inl (e ∙ ap some z, λ n. cc),
        rows-AreRowsOf (q ∷ qs') rs (ground (arith, e, z, h)),
      )
    ]
  ]

  -- A list of calls that is read of a blank text is empty. Read of any other text it has one row for each
  -- row that the trimmed text decodes to, in order: with the trimmed name, and with the parameters as
  -- they are encoded. A text decodes to a list of rows that is not empty, or, failing that, to the call
  -- of the first of the three shapes in which it has a name.
  pub parse_cohere_action_list-AreRead :
      (blob : Text) (rs : List CohereActionRow)
      → parse_cohere_action_list decode_rows decode_call decode_string reencode blob ≡ some rs
      → ((trim_space blob ≡ []) × (rs ≡ []))
        ⊎ ((trim_space blob ≢ []) × AreRead (IsDecoded (trim_space blob)) rs)
  unfolding parse_cohere_action_list
  parse_cohere_action_list-AreRead blob rs h = elim (Bool-cases (is_empty (trim_space blob))) [
    | inl z ↦ inl (is_empty-nil (trim_space blob) z, ground (arith, z, h))
    | inr z ↦ inr (
      not_empty_lem (trim_space blob) z,
      blob-AreRead (trim_space blob) rs (ground (arith, z, h)),
    )
  ]
