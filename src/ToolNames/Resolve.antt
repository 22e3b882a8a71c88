-- ===== src/ToolNames/Resolve.antt =====
-- internal/usecase/chat_tool_loop.go: a name is resolved to a declared tool, or to none.
use gen_runner.Prelude.{
  ℕ, ◌≤◌, ◌≡◌, refl, sym, ap, ◌∙◌, subst, inl, inr, true, false, not, ◌&&◌, ◌||◌, some, List, [],
  ◌∷◌, arith, leb, ◌==◌, ==_iff, Bool-cases, Option-cases, is_empty, All, All-map_weaken,
}
use gen_runner.Text.{Text, text_eq, contains}
use gen_runner.Text.Laws.{text_eq_iff, text_eq_refl}
use gen_runner.ToolAlias.{parse_tool_alias}
use gen_runner.ToolNames.{
  Candidate, candidate_ltb, least, normalize_tool_name, allowed_tool_name_set, canon_list, hits,
}

pub least-All :
    (P : Candidate → Type 0) (a : Candidate) (l : List Candidate) → P a → All P l → P (least a l)
unfolding least
least-All P a [] p h = p
least-All P a (b ∷ l) p h = elim (Bool-cases (candidate_ltb b a)) [
  | inl e ↦ rw e (least-All P b l h.0 h.1)
  | inr e ↦ rw e (least-All P a l p h.1)
]

candidate_le : (b a : Candidate) → candidate_ltb b a ≡ true → b.sid ≤ a.sid
unfolding candidate_ltb
candidate_le b a e = ground (arith, e)

candidate_ge : (b a : Candidate) → candidate_ltb b a ≡ false → a.sid ≤ b.sid
unfolding candidate_ltb
candidate_ge b a e = ground (arith, e)

abbrev AtMost : List Candidate → Candidate → Type 0
AtMost l c = All (λ b. c.sid ≤ b.sid) l

least_first :
    (a b : Candidate) (l : List Candidate) → candidate_ltb b a ≡ true → least a (b ∷ l) ≡ least b l
unfolding least
least_first a b l e = rw (least, e) refl

least_later :
    (a b : Candidate) (l : List Candidate) → candidate_ltb b a ≡ false → least a (b ∷ l) ≡ least a l
unfolding least
least_later a b l e = rw (least, e) refl

least_le_self : (a : Candidate) → (least a []).sid ≤ a.sid
unfolding least
least_le_self a = omega arith

-- No candidate has a smaller server number than the one that is picked.
pub least-le : (a : Candidate) (l : List Candidate) → AtMost (a ∷ l) (least a l)
least-le a [] = (least_le_self a, tt)
least-le a (b ∷ l) = elim (Bool-cases (candidate_ltb b a)) [
  | inl e ↦
      let (x, y) = least-le b l in
      subst (AtMost (a ∷ b ∷ l)) (sym (least_first a b l e))
        (omega (arith, x, candidate_le b a e), (x, y))
  | inr e ↦
      let (x, y) = least-le a l in
      subst (AtMost (a ∷ b ∷ l)) (sym (least_later a b l e))
        (x, (omega (arith, x, candidate_ge b a e), y))
]

module _ (to_lower : Text → Text) (text_of : List ℕ → Text) where
  abbrev pub IsDeclared : List Text → Text → Type 0
  IsDeclared tools c = contains (allowed_tool_name_set to_lower text_of tools) c ≡ true

  allowed_later :
      (t : Text) (tools : List Text) (c : Text) → IsDeclared tools c → IsDeclared (t ∷ tools) c
  unfolding allowed_tool_name_set
  allowed_later t tools c h =
      elim (Bool-cases (is_empty (normalize_tool_name to_lower text_of t))) [
        | inl e ↦ rw e h
        | inr e ↦ rw e (ground (arith, h))
      ]

  allowed_first :
      (t : Text) (tools : List Text)
      → is_empty (normalize_tool_name to_lower text_of t) ≡ false
      → IsDeclared (t ∷ tools) (normalize_tool_name to_lower text_of t)
  unfolding allowed_tool_name_set
  allowed_first t tools e =
      rw e (ground (arith, text_eq_refl (normalize_tool_name to_lower text_of t)))

  -- A declared alias of a tool on the server.
  abbrev pub IsOnServer : ℕ → List Text → Text → Type 0
  IsOnServer sid tools c =
      IsDeclared tools c × ((orig : List ℕ) × (parse_tool_alias c ≡ some (sid, orig)))

  pub canon_list-AreOnServer :
      (sid : ℕ) (tools : List Text)
      → All (IsOnServer sid tools) (canon_list to_lower text_of sid tools)
  unfolding canon_list
  canon_list-AreOnServer sid [] = tt
  canon_list-AreOnServer sid (t ∷ tools) =
      let m = normalize_tool_name to_lower text_of t in
      let rest =
        All-map_weaken (IsOnServer sid tools) (IsOnServer sid (t ∷ tools))
          (λ c h. (allowed_later t tools c h.0, h.1)) (canon_list to_lower text_of sid tools)
          (canon_list-AreOnServer sid tools) in
      elim (Bool-cases (is_empty m)) [
        | inl e ↦ rw e rest
        | inr e ↦ elim (Option-cases (parse_tool_alias m)) [
          | inl o ↦ rw (e, o) rest
          | inr ((tsid, orig), o) ↦ elim (Bool-cases (tsid == sid)) [
            | inl q ↦
                let same : tsid ≡ sid = (==_iff tsid sid).0 q in
                rw (e, o, q)
                  ((allowed_first t tools e, (orig, o ∙ ap (λ (i : ℕ). some (i, orig)) same)), rest)
            | inr q ↦ rw (e, o, q) rest
          ]
        ]
      ]

  -- A declared alias of a tool on a server with a positive number that has the name asked for.
  abbrev pub IsHit : List Text → Text → Candidate → Type 0
  IsHit tools n h =
      (contains (allowed_tool_name_set to_lower text_of tools) h.canon ≡ true)
      × (1 ≤ h.sid)
      × ((orig : List ℕ) × (parse_tool_alias h.canon ≡ some (h.sid, orig))
          × (normalize_tool_name to_lower text_of (text_of orig) ≡ n))

  -- The same, for the names that count as declared.
  abbrev pub IsHitIn : List Text → Text → Candidate → Type 0
  IsHitIn allowed n h =
      (contains allowed h.canon ≡ true)
      × (1 ≤ h.sid)
      × ((orig : List ℕ) × (parse_tool_alias h.canon ≡ some (h.sid, orig))
          × (normalize_tool_name to_lower text_of (text_of orig) ≡ n))

  hits_lem :
      (allowed : List Text) (n : Text) (tools : List Text)
      → All (IsHitIn allowed n) (hits to_lower text_of allowed n tools)
  unfolding hits
  hits_lem allowed n [] = tt
  hits_lem allowed n (t ∷ tools) =
      let rest = hits_lem allowed n tools in
      elim (Bool-cases (
        is_empty (normalize_tool_name to_lower text_of t)
        || not (contains allowed (normalize_tool_name to_lower text_of t)))) [
          | inl e ↦ rw e rest
          | inr e ↦
              elim (Option-cases (parse_tool_alias (normalize_tool_name to_lower text_of t))) [
                | inl o ↦ rw (e, o) rest
                | inr ((sid, orig), o) ↦
                    elim (Bool-cases (
                      not (leb sid 0)
                      && text_eq (normalize_tool_name to_lower text_of (text_of orig)) n)) [
                        | inl q ↦
                            rw (e, o, q)
                              (
                                (
                                  ground (arith, e),
                                  ground (arith, q),
                                  (
                                    orig,
                                    o,
                                    (text_eq_iff
                                          (normalize_tool_name to_lower text_of (text_of orig)) n).0
                                        (ground (arith, q)),
                                  ),
                                ),
                                rest,
                              )
                        | inr q ↦ rw (e, o, q) rest
                      ]
              ]
        ]

  pub hits-AreHits :
      (tools : List Text) (n : Text)
      → All
          (IsHit tools n)
          (hits to_lower text_of (allowed_tool_name_set to_lower text_of tools) n tools)
  hits-AreHits tools n = hits_lem (allowed_tool_name_set to_lower text_of tools) n tools
