-- ===== src/ToolNames/Declared.antt =====
-- internal/usecase/chat_tool_loop.go: what `resolveDeclaredToolName` and
-- `resolveExecutableToolCalls` promise.
use gen_runner.Prelude.{
  ℕ, ◌≤◌, ◌≡◌, refl, sym, subst, ◌⊎◌, inl, inr, Bool, false, some, List, [], ◌∷◌, arith, is_some,
  Bool-cases, Option-cases, is_empty, all_by, All,
}
use gen_runner.Text.{Text, contains}
use gen_runner.ToolText.Parse.{CohereActionRow}
use gen_runner.ToolAlias.{match_alias, parse_int}
use gen_runner.ToolNames.{
  Candidate, least, ExecutableToolCall, normalize_tool_name, allowed_tool_name_set, canon_list,
  only, try_recover_alias, hits, pick_hit, resolve_declared_tool_name,
  resolve_executable_tool_calls, executable_calls_to_action_rows,
}
use gen_runner.ToolNames.Complete.{hits-All, canon_list-All}
use gen_runner.ToolNames.Resolve.{
  IsDeclared, IsOnServer, IsHit, least-All, least-le, canon_list-AreOnServer, hits-AreHits,
}

only_lem : (l : List Text) (c : Text) → only l ≡ some c → l ≡ c ∷ []
unfolding only
only_lem [] c h = ground (arith, h)
only_lem (d ∷ []) c h = ground (arith, h)
only_lem (d ∷ e ∷ l) c h = ground (arith, h)

module _ (to_lower : Text → Text) (text_of : List ℕ → Text) where
  -- The name is an alias of the server `sid`, of which `c` is the only declared tool.
  abbrev IsRecovered : List Text → Text → Text → Type 0
  IsRecovered tools n c =
      (ds : Text) × (hs : Text) × (sid : ℕ) × (match_alias n ≡ some (ds, hs))
      × (parse_int ds ≡ some sid)
      × IsOnServer to_lower text_of sid tools c
      × ((b : Text) → IsOnServer to_lower text_of sid tools b → b ≡ c)

  recovered_lem :
      (tools : List Text) (n c : Text)
      → try_recover_alias to_lower text_of tools n ≡ some c
      → IsRecovered tools n c
  unfolding try_recover_alias
  recovered_lem tools n c h = elim (Option-cases (match_alias n)) [
    | inl e ↦ ground (arith, e, h)
    | inr ((ds, hs), e) ↦ elim (Option-cases (parse_int ds)) [
      | inl f ↦ ground (arith, e, f, h)
      | inr (sid, f) ↦
          let l = only_lem (canon_list to_lower text_of sid tools) c (ground (arith, e, f, h)) in
          (
            ds,
            hs,
            sid,
            e,
            f,
            (subst (All (IsOnServer to_lower text_of sid tools)) l
                (canon_list-AreOnServer to_lower text_of sid tools)).0,
            λ b i.
                canon_list-All to_lower text_of (λ x. x ≡ c) sid tools b i
                  (subst (All (λ x. x ≡ c)) (sym l) (refl, tt)),
          )
    ]
  ]

  -- The tool of that name on a server, where no such tool is on a server with a smaller number.
  abbrev IsLeastHit : List Text → Text → Text → Type 0
  IsLeastHit tools n c =
      (h : Candidate) × (h.canon ≡ c)
      × IsHit to_lower text_of tools n h
      × ((b : Candidate) → IsHit to_lower text_of tools n b → h.sid ≤ b.sid)

  -- No declared alias is of a tool of that name.
  abbrev HasNoHit : List Text → Text → Type 0
  HasNoHit tools n = (b : Candidate) → ¬ IsHit to_lower text_of tools n b

  -- What a name that is no declared tool stands for.
  abbrev pub IsStandIn : List Text → Text → Text → Type 0
  IsStandIn tools n c = IsLeastHit tools n c ⊎ (HasNoHit tools n × IsRecovered tools n c)

  picked_lem :
      (tools : List Text) (n c : Text) (hs : List Candidate)
      → hits to_lower text_of (allowed_tool_name_set to_lower text_of tools) n tools ≡ hs
      → pick_hit to_lower text_of tools n hs ≡ some c
      → IsStandIn tools n c
  unfolding pick_hit
  picked_lem tools n c [] e h = inr (
    λ b i. hits-All to_lower text_of (λ x. ⊥) tools n b i (subst (All (λ x. ⊥)) (sym e) tt),
    recovered_lem tools n c h,
  )
  picked_lem tools n c (b ∷ hs) e h =
      let all =
        subst (All (IsHit to_lower text_of tools n)) e (hits-AreHits to_lower text_of tools n) in
      let picked = least b hs in
      inl (
        picked,
        ground (arith, h),
        least-All (IsHit to_lower text_of tools n) b hs all.0 all.1,
        λ x i.
            hits-All to_lower text_of (λ y. picked.sid ≤ y.sid) tools n x i
              (subst (All (λ y. picked.sid ≤ y.sid)) (sym e) (least-le b hs)),
      )

  declared_lem :
      (tools : List Text) (n c : Text) → IsStandIn tools n c → IsDeclared to_lower text_of tools c
  declared_lem tools n c (inr (z, (ds, hs, sid, e, f, d, only))) = d.0
  declared_lem tools n c (inl (h, e, i, l)) = subst (IsDeclared to_lower text_of tools) e i.0

  -- A name that is resolved is resolved to a declared tool: to the name itself in its normal form, or,
  -- where no tool has that name, to the tool of that name on the server with the smallest number, or,
  -- where there is no such tool either, to the only declared tool of the server that the name is an
  -- alias of.
  pub resolve_declared_tool_name-IsDeclared :
      (tools : List Text) (raw c : Text)
      → resolve_declared_tool_name to_lower text_of (some tools) raw ≡ some c
      → IsDeclared to_lower text_of tools c
        × ((c ≡ normalize_tool_name to_lower text_of raw)
            ⊎ ((contains
                    (allowed_tool_name_set to_lower text_of tools)
                    (normalize_tool_name to_lower text_of raw)
                  ≡ false)
                × IsStandIn tools (normalize_tool_name to_lower text_of raw) c))
  unfolding resolve_declared_tool_name
  resolve_declared_tool_name-IsDeclared tools raw c h =
      let n = normalize_tool_name to_lower text_of raw in
      elim (Bool-cases (is_empty n)) [
        | inl e ↦ ground (arith, e, h)
        | inr e ↦ elim (Bool-cases (contains (allowed_tool_name_set to_lower text_of tools) n)) [
          | inl d ↦
              let same : n ≡ c = ground (arith, e, d, h) in
              (subst (IsDeclared to_lower text_of tools) same d, inl (sym same))
          | inr d ↦
              let found =
                hits to_lower text_of (allowed_tool_name_set to_lower text_of tools) n tools in
              let picked = picked_lem tools n c found refl (ground (arith, e, d, h)) in
              (declared_lem tools n c picked, inr (d, picked))
        ]
      ]

  -- Each call stands for its row: the tool that the row's name is resolved to, which is declared, with
  -- the name that was asked for and the parameters; and what is carried out is that tool.
  abbrev pub AreResolved :
      List Text → List CohereActionRow → List ExecutableToolCall → List CohereActionRow → Type 0
  AreResolved tools [] [] [] = Unit
  AreResolved tools (row ∷ rows) (call ∷ calls) (action ∷ actions) =
      (resolve_declared_tool_name to_lower text_of (some tools) row.tool_name
        ≡ some call.resolved_name)
      × IsDeclared to_lower text_of tools call.resolved_name
      × ((call.requested_name ≡ row.tool_name) × (call.call_parameters ≡ row.parameters))
      × ((action.tool_name ≡ call.resolved_name) × (action.parameters ≡ row.parameters))
      × AreResolved tools rows calls actions
  AreResolved tools _ _ _ = ⊥

  abbrev resolves : List Text → CohereActionRow → Bool
  resolves tools row =
      is_some (resolve_declared_tool_name to_lower text_of (some tools) row.tool_name)

  resolve_calls-is_some :
      (tools : List Text) (rows : List CohereActionRow)
      → is_some (resolve_executable_tool_calls to_lower text_of (some tools) rows)
        ≡ all_by (resolves tools) rows
  unfolding resolve_executable_tool_calls
  resolve_calls-is_some tools [] = refl
  resolve_calls-is_some tools (row ∷ rows) =
      elim (Option-cases (resolve_declared_tool_name to_lower text_of (some tools) row.tool_name)) [
        | inl e ↦ ground (arith, e)
        | inr (c, e) ↦
            elim (Option-cases (resolve_executable_tool_calls to_lower text_of (some tools) rows)) [
              | inl f ↦ ground (arith, e, f, resolve_calls-is_some tools rows)
              | inr (calls, f) ↦ ground (arith, e, f, resolve_calls-is_some tools rows)
            ]
      ]

  resolve_calls-AreResolved :
      (tools : List Text) (rows : List CohereActionRow) (calls : List ExecutableToolCall)
      → resolve_executable_tool_calls to_lower text_of (some tools) rows ≡ some calls
      → AreResolved tools rows calls (executable_calls_to_action_rows calls)
  unfolding resolve_executable_tool_calls executable_calls_to_action_rows
  resolve_calls-AreResolved tools [] calls h =
      let e : [] ≡ calls = ground (arith, h) in
      subst (λ cs. AreResolved tools [] cs (executable_calls_to_action_rows cs)) e tt
  resolve_calls-AreResolved tools (row ∷ rows) calls h =
      elim (Option-cases (resolve_declared_tool_name to_lower text_of (some tools) row.tool_name)) [
        | inl e ↦ ground (arith, e, h)
        | inr (c, e) ↦
            elim (Option-cases (resolve_executable_tool_calls to_lower text_of (some tools) rows)) [
              | inl f ↦ ground (arith, e, f, h)
              | inr (cs, f) ↦
                  let same : (record {
                    requested_name = row.tool_name;
                    resolved_name = c;
                    call_parameters = row.parameters;
                  })
                        ∷ cs
                      ≡ calls =
                    ground (arith, e, f, h) in
                  subst
                    (λ xs. AreResolved tools (row ∷ rows) xs (executable_calls_to_action_rows xs))
                    same
                    (
                      e,
                      (resolve_declared_tool_name-IsDeclared tools row.tool_name c e).0,
                      (refl, refl),
                      (refl, refl),
                      resolve_calls-AreResolved tools rows cs f,
                    )
            ]
      ]

  -- The calls are resolved exactly if every name is. Then there is one call for each row, in order: of
  -- the declared tool that the row's name is resolved to, with the name that was asked for and the
  -- parameters kept; and the rows that are carried out name that tool, with those parameters.
  pub resolve_executable_tool_calls-AreResolved :
      (tools : List Text) (rows : List CohereActionRow)
      → (is_some (resolve_executable_tool_calls to_lower text_of (some tools) rows)
          ≡ all_by
              (λ row.
                is_some (resolve_declared_tool_name to_lower text_of (some tools) row.tool_name))
              rows)
        × ((calls : List ExecutableToolCall)
            → resolve_executable_tool_calls to_lower text_of (some tools) rows ≡ some calls
            → AreResolved tools rows calls (executable_calls_to_action_rows calls))
  resolve_executable_tool_calls-AreResolved tools rows =
      (resolve_calls-is_some tools rows, resolve_calls-AreResolved tools rows)
