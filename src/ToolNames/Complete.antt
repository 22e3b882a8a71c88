-- ===== src/ToolNames/Complete.antt =====
-- internal/usecase/chat_tool_loop.go: the searches for a declared tool miss none.
use gen_runner.Prelude.{
  ℕ, ◌≤◌, ◌≡◌, refl, subst, ◌⊎◌, inl, inr, true, false, not, ◌&&◌, ◌||◌, some, List, [], ◌∷◌, arith,
  leb, ◌==◌, ==_iff, Bool-cases, Option-cases, is_empty, All,
}
use gen_runner.Text.{Text, text_eq, contains}
use gen_runner.Text.Laws.{text_eq_iff, text_eq_refl}
use gen_runner.ToolAlias.{parse_tool_alias}
use gen_runner.ToolNames.{Candidate, normalize_tool_name, allowed_tool_name_set, canon_list, hits}
use gen_runner.ToolNames.Resolve.{IsDeclared, IsOnServer, IsHit, IsHitIn}

module _ (to_lower : Text → Text) (text_of : List ℕ → Text) where
  -- A declared name is that of one of the tools.
  IsDeclared-cases :
      (t : Text) (tools : List Text) (c : Text)
      → IsDeclared to_lower text_of (t ∷ tools) c
      → ((is_empty (normalize_tool_name to_lower text_of t) ≡ false)
          × (normalize_tool_name to_lower text_of t ≡ c))
        ⊎ IsDeclared to_lower text_of tools c
  unfolding allowed_tool_name_set
  IsDeclared-cases t tools c h =
      let m = normalize_tool_name to_lower text_of t in
      elim (Bool-cases (is_empty m)) [
        | inl e ↦ inr (ground (arith, e, h))
        | inr e ↦ elim (Bool-cases (text_eq m c)) [
          | inl q ↦ inl (e, (text_eq_iff m c).0 q)
          | inr q ↦ inr (ground (arith, e, q, h))
        ]
      ]

  hits_first :
      (P : Candidate → Type 0) (allowed : List Text) (n t : Text) (tools : List Text) (sid : ℕ)
      (orig : List ℕ)
      → is_empty (normalize_tool_name to_lower text_of t) ≡ false
      → contains allowed (normalize_tool_name to_lower text_of t) ≡ true
      → parse_tool_alias (normalize_tool_name to_lower text_of t) ≡ some (sid, orig)
      → 1 ≤ sid
      → text_eq (normalize_tool_name to_lower text_of (text_of orig)) n ≡ true
      → All P (hits to_lower text_of allowed n (t ∷ tools))
      → P (record { sid = sid; canon = normalize_tool_name to_lower text_of t })
  unfolding hits
  hits_first P allowed n t tools sid orig e a o l q h =
      let positive : leb sid 0 ≡ false = ground (arith, l) in
      let all : All P (
          (record { sid = sid; canon = normalize_tool_name to_lower text_of t })
          ∷ hits to_lower text_of allowed n tools) =
        rw (e, a, o, positive, q) at h in
      all.0

  hits_later :
      (P : Candidate → Type 0) (allowed : List Text) (n t : Text) (tools : List Text)
      → All P (hits to_lower text_of allowed n (t ∷ tools))
      → All P (hits to_lower text_of allowed n tools)
  unfolding hits
  hits_later P allowed n t tools h =
      let m = normalize_tool_name to_lower text_of t in
      elim (Bool-cases (is_empty m || not (contains allowed m))) [
        | inl e ↦ rw e at h
        | inr e ↦ elim (Option-cases (parse_tool_alias m)) [
          | inl o ↦ rw (e, o) at h
          | inr ((sid, orig), o) ↦
              elim (Bool-cases (
                not (leb sid 0)
                && text_eq (normalize_tool_name to_lower text_of (text_of orig)) n)) [
                  | inl q ↦
                      let both : All P (
                          (record { sid = sid; canon = m })
                          ∷ hits to_lower text_of allowed n tools) =
                        rw (e, o, q) at h in
                      both.1
                  | inr q ↦ rw (e, o, q) at h
                ]
        ]
      ]

  -- What holds of all hits that the search finds holds of every hit.
  hits_complete :
      (P : Candidate → Type 0) (allowed : List Text) (n : Text) (tools : List Text) (h : Candidate)
      → IsDeclared to_lower text_of tools h.canon
      → IsHitIn to_lower text_of allowed n h
      → All P (hits to_lower text_of allowed n tools)
      → P h
  unfolding allowed_tool_name_set
  hits_complete P allowed n [] h d i a = ground (arith, d)
  hits_complete P allowed n (t ∷ tools) h d i a = elim (IsDeclared-cases t tools h.canon d) [
    | inr d' ↦ hits_complete P allowed n tools h d' i (hits_later P allowed n t tools a)
    | inl (e, q) ↦
        let (c, l, (orig, o, m)) = i in
        subst (λ x. P (record { sid = h.sid; canon = x })) q
          (hits_first P allowed n t tools h.sid orig e (rw q c) (rw q o) l (rw m (text_eq_refl n))
            a)
  ]

  pub hits-All :
      (P : Candidate → Type 0) (tools : List Text) (n : Text) (h : Candidate)
      → IsHit to_lower text_of tools n h
      → All P (hits to_lower text_of (allowed_tool_name_set to_lower text_of tools) n tools)
      → P h
  hits-All P tools n h i a =
      hits_complete P (allowed_tool_name_set to_lower text_of tools) n tools h i.0 i a

  canon_list_first :
      (P : Text → Type 0) (sid : ℕ) (t : Text) (tools : List Text) (orig : List ℕ)
      → is_empty (normalize_tool_name to_lower text_of t) ≡ false
      → parse_tool_alias (normalize_tool_name to_lower text_of t) ≡ some (sid, orig)
      → All P (canon_list to_lower text_of sid (t ∷ tools))
      → P (normalize_tool_name to_lower text_of t)
  unfolding canon_list
  canon_list_first P sid t tools orig e o h =
      let same : (sid == sid) ≡ true = (==_iff sid sid).1 refl in
      let all : All P
          (normalize_tool_name to_lower text_of t ∷ canon_list to_lower text_of sid tools) =
        rw (e, o, same) at h in
      all.0

  canon_list_later :
      (P : Text → Type 0) (sid : ℕ) (t : Text) (tools : List Text)
      → All P (canon_list to_lower text_of sid (t ∷ tools))
      → All P (canon_list to_lower text_of sid tools)
  unfolding canon_list
  canon_list_later P sid t tools h =
      let m = normalize_tool_name to_lower text_of t in
      elim (Bool-cases (is_empty m)) [
        | inl e ↦ rw e at h
        | inr e ↦ elim (Option-cases (parse_tool_alias m)) [
          | inl o ↦ rw (e, o) at h
          | inr ((tsid, orig), o) ↦ elim (Bool-cases (tsid == sid)) [
            | inl q ↦
                let both : All P (m ∷ canon_list to_lower text_of sid tools) = rw (e, o, q) at h in
                both.1
            | inr q ↦ rw (e, o, q) at h
          ]
        ]
      ]

  -- What holds of all that the search for a server finds holds of every declared alias on it.
  pub canon_list-All :
      (P : Text → Type 0) (sid : ℕ) (tools : List Text) (c : Text)
      → IsOnServer to_lower text_of sid tools c
      → All P (canon_list to_lower text_of sid tools)
      → P c
  unfolding allowed_tool_name_set
  canon_list-All P sid [] c (d, o) a = ground (arith, d)
  canon_list-All P sid (t ∷ tools) c (d, (orig, o)) a = elim (IsDeclared-cases t tools c d) [
    | inr d' ↦ canon_list-All P sid tools c (d', (orig, o)) (canon_list_later P sid t tools a)
    | inl (e, q) ↦ subst P q (canon_list_first P sid t tools orig e (rw q o) a)
  ]
