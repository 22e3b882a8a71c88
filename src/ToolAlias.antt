-- ===== src/ToolAlias.antt =====
-- internal/mcpclient/alias.go: the name under which a tool of an MCP server is given to the model,
-- and reading it back. The tool's own name is its bytes; an alias is ASCII.
pub mod RoundTrip
use gen_runner.Prelude.{
  ℕ, zero, suc, ◌+◌, ◌-◌, ◌*◌, ◌/◌, ◌%◌, ◌^◌, ◌≤◌, ◌<◌, min, max, ◌≡◌, refl, sym, ap, ◌∙◌, subst,
  ◌≢◌, ◌↔◌, ◌⊎◌, inl, inr, Bool, true, false, not, ◌&&◌, ◌||◌, Option, none, some, List, [], ◌∷◌,
  ◌++◌, map, reverse, append_assoc, append-nil, arith, ltb, leb, ◌==◌, if◌then◌else◌, ltb→lt,
  lt→ltb, leb→le, le→leb, lt→leb_false, le→ltb_false, ==_iff, Bool-cases, Option-cases, List-cases,
  length, is_empty, get_elem?, set, take, drop, filter_by, all_by, All, is_empty-nil, length-append,
  length-reverse, length-map, length-set, take-append-drop, length-take, length-drop,
  take-append_left, drop-append_left, All-append, All-map_weaken,
}
use gen_runner.Prelude.Int.{ℤ, pos, negsuc}
use gen_runner.Text.{Text, codes, trim_space, has_prefix}

-- `%d` of a number, before what was printed already. The fuel is above the number.
unfoldable pub decimal_from : ℕ → ℕ → Text → Text
decimal_from zero n acc = acc
decimal_from (suc fuel) n acc =
    let rest = decimal_from fuel (n / 10) ((48 + n % 10) ∷ acc) in
    if ltb n 10 then (48 + n % 10) ∷ acc else rest

unfoldable pub decimal : ℤ → Text
decimal (pos n) = decimal_from (suc n) n []
decimal (negsuc n) = 0x2d ∷ decimal_from (suc (suc n)) (suc n) []

unfoldable pub hex_digit : ℕ → ℕ
hex_digit d = if ltb d 10 then 48 + d else 87 + d

-- `%x` of bytes.
unfoldable pub hex : List ℕ → Text
hex [] = []
hex (b ∷ bs) = hex_digit (b / 16) ∷ hex_digit (b % 16) ∷ hex bs

unfoldable pub tool_alias : ℤ → List ℕ → Text
tool_alias server_id name = codes "mcp_" ++ (decimal server_id ++ (codes "_h" ++ hex name))

abbrev pub is_digit : ℕ → Bool
is_digit c = leb 48 c && leb c 57

abbrev pub is_hex : ℕ → Bool
is_hex c = is_digit c || (leb 97 c && leb c 102)

-- The longest start of a text that passes the test, and what follows.
unfoldable pub span : (ℕ → Bool) → Text → Text × Text
span p [] = ([], [])
span p (c ∷ s) = let (front, back) = span p s in if p c then (c ∷ front, back) else ([], c ∷ s)

-- The two groups that `mcpAliasRe` finds.
unfoldable pub match_alias : Text → Option (Text × Text)
match_alias s =
    let (ds, rest) = span is_digit (drop 4 s) in
    let hs = drop 2 rest in
    if has_prefix s (codes "mcp_")
      && not (is_empty ds)
      && has_prefix rest (codes "_h")
      && not (is_empty hs)
      && all_by is_hex hs
    then some (ds, hs)
    else none

unfoldable pub decimal_value : ℕ → Text → ℕ
decimal_value n [] = n
decimal_value n (c ∷ s) = decimal_value (n * 10 + (c - 48)) s

-- `strconv.ParseInt(s, 10, 64)` of digits; `none` is an error.
unfoldable pub parse_int : Text → Option ℕ
parse_int ds = if ltb (decimal_value 0 ds) (2 ^ 63) then some (decimal_value 0 ds) else none

unfoldable pub hex_value : ℕ → ℕ
hex_value c = if ltb c 97 then c - 48 else c - 87

-- `hex.DecodeString` of digits in lower case; an odd number of them is an error.
unfoldable pub decode_hex : Text → Option (List ℕ)
decode_hex [] = some []
decode_hex (c ∷ []) = none
decode_hex (c ∷ d ∷ s) = elim (decode_hex s) [
  | none ↦ none
  | some bs ↦ some ((hex_value c * 16 + hex_value d) ∷ bs)
]

unfoldable pub parse_tool_alias : Text → Option (ℕ × List ℕ)
parse_tool_alias normalized = elim (match_alias (trim_space normalized)) [
  | none ↦ none
  | some (ds, hs) ↦ elim (parse_int ds) [
    | none ↦ none
    | some id ↦ if leb id 0 then none else elim (decode_hex hs) [
      | none ↦ none
      | some raw ↦ if is_empty raw then none else some (id, raw)
    ]
  ]
]
