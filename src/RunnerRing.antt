-- ===== src/RunnerRing.antt =====
-- llm-runner/pool.go: a ring of runners that are asked in turn. Each method is one step under its
-- lock; `disabled` and `conns` are Go maps. A connection is known by the address it was made for.
pub mod Send
pub mod Turns
pub mod Laws
use gen_runner.Prelude.{
  ℕ, zero, suc, ◌+◌, ◌-◌, ◌*◌, ◌/◌, ◌%◌, ◌^◌, ◌≤◌, ◌<◌, min, max, ◌≡◌, refl, sym, ap, ◌∙◌, subst,
  ◌≢◌, ◌↔◌, ◌⊎◌, inl, inr, Bool, true, false, not, ◌&&◌, ◌||◌, Option, none, some, List, [], ◌∷◌,
  ◌++◌, map, reverse, append_assoc, append-nil, arith, ltb, leb, ◌==◌, if◌then◌else◌, ltb→lt,
  lt→ltb, leb→le, le→leb, lt→leb_false, le→ltb_false, ==_iff, Bool-cases, Option-cases, List-cases,
  length, is_empty, get_elem?, set, take, drop, filter_by, all_by, All, is_empty-nil, length-append,
  length-reverse, length-map, length-set, take-append-drop, length-take, length-drop,
  take-append_left, drop-append_left, All-append, All-map_weaken,
}
use gen_runner.Text.{contains, Text, text_eq}
use gen_runner.Dict.{Dict, lookup, insert, delete}

abbrev pub max_retries_per_runner : ℕ
max_retries_per_runner = 2

pub record Ring : Type 0 where
  pub addresses : List Text
  pub disabled : Dict Bool
  pub index : ℕ
  pub conns : Dict Text

unfoldable pub new_ring : List Text → Ring
new_ring addresses = record {
  addresses = filter_by (λ a. not (is_empty a)) addresses;
  disabled = [];
  index = 0;
  conns = [];
}

unfoldable pub add : Ring → Text → Ring
add p addr =
    if is_empty addr
    then p
    else if contains p.addresses addr
    then p
    else record p { addresses = p.addresses ++ addr ∷ [] }

-- The list without the first entry that is the address.
unfoldable pub remove_first : List Text → Text → List Text
remove_first [] addr = []
remove_first (a ∷ l) addr = let rest = remove_first l addr in if text_eq a addr then l else a ∷ rest

unfoldable pub close_conn : Ring → Text → Ring
close_conn p addr = record p { conns = delete addr p.conns }

unfoldable pub remove : Ring → Text → Ring
remove p addr = close_conn (record p { addresses = remove_first p.addresses addr }) addr

-- `dial` is `grpc.NewClient`: whether a connection can be made.
unfoldable pub get_conn : (Text → Bool) → Ring → Text → Ring × Option Text
get_conn dial p addr = elim (lookup addr p.conns) [
  | some c ↦ (p, some c)
  | none ↦
      if dial addr then (record p { conns = insert addr addr p.conns }, some addr) else (p, none)
]

-- `p.disabled[a]`; a missing key is false.
unfoldable pub is_disabled : Dict Bool → Text → Bool
is_disabled m a = elim (lookup a m) [ none ↦ false | some b ↦ b ]

unfoldable pub enabled_addresses : Ring → List Text
enabled_addresses p = filter_by (λ a. not (is_disabled p.disabled a)) p.addresses

-- `p.index.Add(1)`, on an `atomic.Uint32`.
abbrev pub next_index : ℕ → ℕ
next_index i = (i + 1) % 2 ^ 32

unfoldable pub pick_runner : Ring → Ring × Option Text
pick_runner p =
    let addrs = enabled_addresses p in
    if is_empty addrs then (p, none) else (
      record p { index = next_index p.index },
      get_elem? addrs (next_index p.index % length addrs),
    )

unfoldable pub set_runner_enabled : Ring → Text → Bool → Ring
set_runner_enabled p addr on =
    if not (contains p.addresses addr)
    then p
    else if on
    then record p { disabled = delete addr p.disabled }
    else close_conn (record p { disabled = insert addr true p.disabled }) addr

unfoldable pub has_active_runners : Ring → Bool
has_active_runners p = ltb 0 (length (enabled_addresses p))
