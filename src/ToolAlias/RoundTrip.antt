-- ===== src/ToolAlias/RoundTrip.antt =====
-- internal/mcpclient/alias.go: an alias is read back.
use gen_runner.Prelude.{
  ℕ, zero, suc, ◌+◌, ◌-◌, ◌*◌, ◌/◌, ◌%◌, ◌^◌, ◌≤◌, ◌<◌, ◌≡◌, refl, sym, ap, ◌∙◌, inl, inr, Bool,
  true, false, ◌&&◌, some, List, [], ◌∷◌, ◌++◌, append_assoc, append-nil, arith, ltb, lt→ltb,
  lt→leb_false, Bool-cases, is_empty, all_by, All,
}
use gen_runner.Prelude.Int.{pos}
use gen_runner.Text.{Text, codes, is_space, trim_left_func, trim_space}
use gen_runner.Text.Laws.{trim_space-append_last}
use gen_runner.ToolAlias.{
  decimal_from, decimal, hex_digit, hex, tool_alias, is_digit, is_hex, span, match_alias,
  decimal_value, parse_int, hex_value, decode_hex, parse_tool_alias,
}

hex_value-hex_digit : (d : ℕ) → d < 16 → hex_value (hex_digit d) ≡ d
unfolding hex_value hex_digit
hex_value-hex_digit d h = ground (arith, h)

hex_digit-is_hex : (d : ℕ) → d < 16 → is_hex (hex_digit d) ≡ true
unfolding hex_digit
hex_digit-is_hex d h = ground (arith, h)

abbrev pub IsByte : ℕ → Type 0
IsByte b = b < 256

decode_hex-hex : (bs : List ℕ) → All IsByte bs → decode_hex (hex bs) ≡ some bs
unfolding decode_hex hex
decode_hex-hex [] h = refl
decode_hex-hex (b ∷ bs) h =
    rw
      (
        decode_hex-hex bs h.1,
        hex_value-hex_digit (b / 16) (omega (arith, h.0)),
        hex_value-hex_digit (b % 16) (omega arith),
      )
      (ap (λ x. some (x ∷ bs)) (omega arith))

hex-is_hex : (bs : List ℕ) → All IsByte bs → all_by is_hex (hex bs) ≡ true
unfolding hex
hex-is_hex [] h = refl
hex-is_hex (b ∷ bs) h =
    rw
      (
        hex_digit-is_hex (b / 16) (omega (arith, h.0)),
        hex_digit-is_hex (b % 16) (omega arith),
        hex-is_hex bs h.1,
      )
      refl

decimal_value-append :
    (n c : ℕ) (ds : Text) → decimal_value n (ds ++ c ∷ []) ≡ decimal_value n ds * 10 + (c - 48)
unfolding decimal_value
decimal_value-append n c [] = refl
decimal_value-append n c (d ∷ ds) = decimal_value-append (n * 10 + (d - 48)) c ds

all_by-append : (p : ℕ → Bool) (s t : Text) → all_by p (s ++ t) ≡ (all_by p s && all_by p t)
all_by-append p [] t = refl
all_by-append p (c ∷ s) t = ground (arith, all_by-append p s t)

is_empty-append : (s : Text) (c : ℕ) → is_empty (s ++ c ∷ []) ≡ false
is_empty-append [] c = refl
is_empty-append (d ∷ s) c = refl

last_digit : (n : ℕ) → n < 10 → decimal_value 0 ((48 + n % 10) ∷ []) ≡ n
unfolding decimal_value
last_digit n h = omega (arith, h)

-- The digits that are printed in front: their value is the number.
decimal_from_lem :
    (fuel n : ℕ) (acc : Text)
    → n < fuel
    → (ds : Text) × (decimal_from fuel n acc ≡ ds ++ acc)
      × (is_empty ds ≡ false)
      × (all_by is_digit ds ≡ true)
      × (decimal_value 0 ds ≡ n)
unfolding decimal_from
decimal_from_lem zero n acc h = ground (arith, h)
decimal_from_lem (suc fuel) n acc h = elim (Bool-cases (ltb n 10)) [
  | inl e ↦ ((48 + n % 10) ∷ [], rw e refl, refl, ground arith, last_digit n (ground (arith, e)))
  | inr e ↦
      let (ds, p, q, r, v) =
        decimal_from_lem fuel (n / 10) ((48 + n % 10) ∷ acc) (ground (arith, e, h)) in
      (
        ds ++ (48 + n % 10) ∷ [],
        rw e (p ∙ sym (append_assoc ds ((48 + n % 10) ∷ []) acc)),
        is_empty-append ds (48 + n % 10),
        rw (all_by-append is_digit ds ((48 + n % 10) ∷ []), r) (ground arith),
        decimal_value-append 0 (48 + n % 10) ds ∙ omega (arith, v),
      )
]

all_by-first : (p : ℕ → Bool) (c : ℕ) (s : Text) → all_by p (c ∷ s) ≡ true → p c ≡ true
all_by-first p c s h = ground (arith, h)

span-append :
    (p : ℕ → Bool) (s t : Text) (c : ℕ)
    → all_by p s ≡ true
    → p c ≡ false
    → span p (s ++ c ∷ t) ≡ (s, c ∷ t)
unfolding span
span-append p [] t c h e = rw e refl
span-append p (d ∷ s) t c h e =
    rw (span-append p s t c (ground (arith, h)) e) (rw (all_by-first p d s h) refl)

match_alias_lem :
    (ds hs : Text)
    → is_empty ds ≡ false
    → all_by is_digit ds ≡ true
    → is_empty hs ≡ false
    → all_by is_hex hs ≡ true
    → match_alias (codes "mcp_" ++ (ds ++ (codes "_h" ++ hs))) ≡ some (ds, hs)
unfolding match_alias
match_alias_lem ds hs a b c d =
    rw (span-append is_digit ds (0x68 ∷ hs) 0x5f b refl) (rw (a, c, d) refl)

hex_last :
    (b : ℕ) (bs : List ℕ)
    → All IsByte (b ∷ bs)
    → (s : Text) × (x : ℕ) × (hex (b ∷ bs) ≡ s ++ x ∷ []) × (is_hex x ≡ true)
unfolding hex
hex_last b [] h =
    (hex_digit (b / 16) ∷ [], hex_digit (b % 16), refl, hex_digit-is_hex (b % 16) (omega arith))
hex_last b (a ∷ bs) h =
    let (s, x, e, i) = hex_last a bs h.1 in
    (
      hex_digit (b / 16) ∷ hex_digit (b % 16) ∷ s,
      x,
      ap (λ (r : Text). hex_digit (b / 16) ∷ hex_digit (b % 16) ∷ r) e,
      i,
    )

not_space : (x : ℕ) → is_hex x ≡ true → is_space x ≡ false
unfolding is_space
not_space x h = ground (arith, h)

-- An alias has no spaces around it.
trim_space_lem :
    (t : Text) (s : Text) (x : ℕ)
    → t ≡ s ++ x ∷ []
    → is_hex x ≡ true
    → trim_space (codes "mcp_" ++ t) ≡ codes "mcp_" ++ t
unfolding trim_left_func is_space
trim_space_lem t s x e i = rw e (trim_space-append_last (codes "mcp_" ++ s) x (not_space x i))

alias_shape :
    (id : ℕ) (ds : Text) (name : List ℕ)
    → decimal_from (suc id) id [] ≡ ds ++ []
    → tool_alias (pos id) name ≡ codes "mcp_" ++ (ds ++ (codes "_h" ++ hex name))
unfolding tool_alias decimal
alias_shape id ds name p = rw (tool_alias, decimal, p, append-nil ds) refl

parse_int_lem :
    (ds : Text) (id : ℕ) → decimal_value 0 ds ≡ id → id < 2 ^ 63 → parse_int ds ≡ some id
unfolding parse_int
parse_int_lem ds id v u = rw (parse_int, v, lt→ltb id (2 ^ 63) u) refl

-- The alias of a tool on a server, whose number is positive and an `int64`, is read back, if the
-- name of the tool is not empty.
pub parse_tool_alias-tool_alias :
    (id : ℕ) (name : List ℕ)
    → 1 ≤ id
    → id < 2 ^ 63
    → is_empty name ≡ false
    → All IsByte name
    → parse_tool_alias (tool_alias (pos id) name) ≡ some (id, name)
unfolding parse_tool_alias hex
parse_tool_alias-tool_alias id [] l u n b = cc
parse_tool_alias-tool_alias id (c ∷ bs) l u n b =
    let (ds, p, e, d, v) = decimal_from_lem (suc id) id [] (omega arith) in
    let (s, x, f, i) = hex_last c bs b in
    let shape : tool_alias (pos id) (c ∷ bs)
        ≡ codes "mcp_" ++ (ds ++ (codes "_h" ++ hex (c ∷ bs))) =
      alias_shape id ds (c ∷ bs) p in
    let trimmed =
      trim_space_lem (ds ++ (codes "_h" ++ hex (c ∷ bs))) (ds ++ (codes "_h" ++ s)) x
        (ap (λ (r : Text). ds ++ (codes "_h" ++ r)) f
          ∙ sym (append_assoc ds (codes "_h" ++ s) (x ∷ [])))
        i in
    rw
      (
        parse_tool_alias,
        shape,
        trimmed,
        match_alias_lem ds (hex (c ∷ bs)) e d refl (hex-is_hex (c ∷ bs) b),
        parse_int_lem ds id v u,
        lt→leb_false id 0 l,
        decode_hex-hex (c ∷ bs) b,
      )
      refl
