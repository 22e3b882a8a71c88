-- ===== src/SummaryCache/Fifo.antt =====
-- internal/usecase/history_summary_cache.go against a queue of at most `max_entries` pairs: the
-- abstract view of a cache is the list of its keys with their summaries, oldest first.
use gen_runner.Prelude.{
  ℕ, suc, ◌-◌, ◌≤◌, ◌≡◌, refl, sym, ap, ◌∙◌, inl, inr, true, false, ◌||◌, none, some, List, [], ◌∷◌,
  ◌++◌, arith, leb, if◌then◌else◌, is_some, Bool-cases, length, is_empty, drop,
}
use gen_runner.Text.{contains, Text, text_eq}
use gen_runner.Text.Laws.{text_eq_iff, text_eq_refl}
use gen_runner.Dict.{Dict, lookup, insert, delete, lookup-insert, lookup-delete}
use gen_runner.SummaryCache.{SummaryCache, evict}

abbrev pub Distinct : List Text → Type 0
Distinct [] = Unit
Distinct (k ∷ ks) = (contains ks k ≡ false) × Distinct ks

-- The keys are those of the map, each once, and there are at most `max_entries` of them.
abbrev pub IsValid : SummaryCache → Type 0
IsValid h =
    (1 ≤ h.max_entries)
    × (length h.keys ≤ h.max_entries)
    × Distinct h.keys
    × ((k : Text) → is_some (lookup k h.entries) ≡ contains h.keys k)

unfoldable pub value : Dict Text → Text → Text
value m k = elim (lookup k m) [ none ↦ [] | some v ↦ v ]

abbrev pub entries_of : Dict Text → List Text → List (Text × Text)
entries_of m [] = []
entries_of m (k ∷ ks) = (k, value m k) ∷ entries_of m ks

abbrev pub view : SummaryCache → List (Text × Text)
view h = entries_of h.entries h.keys

abbrev pub update : Text → Text → List (Text × Text) → List (Text × Text)
update k v [] = []
update k v ((j, w) ∷ q) = (j, if text_eq k j then v else w) ∷ update k v q

-- What a put means: a known key gets the new summary where it stands, a new one goes to the end
-- and the oldest pairs make room.
abbrev pub fifo_put : ℕ → Text → Text → List (Text × Text) → List (Text × Text)
fifo_put limit k v q =
    if is_empty k || is_empty v
    then q
    else if is_some (lookup k q)
    then update k v q
    else drop (suc (length q) - limit) q ++ (k, v) ∷ []

pub contains-append :
    (ks : List Text) (k j : Text) → contains (ks ++ k ∷ []) j ≡ (contains ks j || text_eq k j)
contains-append [] k j = ground arith
contains-append (i ∷ ks) k j = ground (arith, contains-append ks k j)

pub append-Distinct :
    (ks : List Text) (k : Text) → Distinct ks → contains ks k ≡ false → Distinct (ks ++ k ∷ [])
append-Distinct [] k d h = (refl, tt)
append-Distinct (j ∷ ks) k d h = (
  ground (arith, h, d.0, contains-append ks k j, text_eq_iff k j, text_eq_iff j k),
  append-Distinct ks k d.1 (ground (arith, h)),
)

-- The view only reads the map at the keys.
pub entries_of-ext :
    (m n : Dict Text) (ks : List Text)
    → ((k : Text) → contains ks k ≡ true → value m k ≡ value n k)
    → entries_of m ks ≡ entries_of n ks
entries_of-ext m n [] h = refl
entries_of-ext m n (k ∷ ks) h = rw (h k (ground (arith, text_eq_refl k))) (
    ap (λ (q : List (Text × Text)). (k, value n k) ∷ q)
      (entries_of-ext m n ks (λ j e. h j (ground (arith, e)))))

pub length-entries_of : (m : Dict Text) (ks : List Text) → length (entries_of m ks) ≡ length ks
length-entries_of m [] = refl
length-entries_of m (k ∷ ks) = omega (arith, length-entries_of m ks)

pub lookup-entries_of :
    (m : Dict Text) (ks : List Text) (k : Text)
    → lookup k (entries_of m ks) ≡ (if contains ks k then some (value m k) else none)
unfolding lookup
lookup-entries_of m [] k = refl
lookup-entries_of m (j ∷ ks) k = elim (Bool-cases (text_eq j k)) [
  | inl e ↦ ground (arith, e, ap (value m) ((text_eq_iff j k).0 e))
  | inr e ↦ ground (arith, e, lookup-entries_of m ks k)
]

pub contains_ne :
    (ks : List Text) (k j : Text)
    → contains ks k ≡ false
    → contains ks j ≡ true
    → text_eq k j ≡ false
contains_ne ks k j h e = elim (Bool-cases (text_eq k j)) [
  | inl t ↦ ground (arith, h, e, ap (contains ks) ((text_eq_iff k j).0 t))
  | inr t ↦ t
]

pub value-insert :
    (m : Dict Text) (k j : Text) (v : Text)
    → value (insert k v m) j ≡ (if text_eq k j then v else value m j)
unfolding value
value-insert m k j v = ground (arith, lookup-insert k j v m)

value-delete_ne :
    (m : Dict Text) (k j : Text) → text_eq k j ≡ false → value (delete k m) j ≡ value m j
unfolding value
value-delete_ne m k j h = ground (arith, h, lookup-delete k j m)

abbrev pub Evicted : ℕ → List Text → Dict Text → Type 0
Evicted limit ks m =
    (ks' : List Text) × (m' : Dict Text) × (evict limit ks m ≡ some (ks', m'))
    × Distinct ks'
    × ((k : Text) → is_some (lookup k m') ≡ contains ks' k)
    × (suc (length ks') ≤ limit)
    × (entries_of m' ks' ≡ drop (suc (length ks) - limit) (entries_of m ks))
    × ((k : Text) → contains ks' k ≡ true → contains ks k ≡ true)

lookup-delete-keys :
    (k : Text) (ks : List Text) (m : Dict Text)
    → contains ks k ≡ false
    → ((j : Text) → is_some (lookup j m) ≡ contains (k ∷ ks) j)
    → (j : Text) → is_some (lookup j (delete k m)) ≡ contains ks j
lookup-delete-keys k ks m d h j = elim (Bool-cases (text_eq k j)) [
  | inl e ↦ ground (arith, lookup-delete k j m, e, d, ap (contains ks) ((text_eq_iff k j).0 e))
  | inr e ↦ ground (arith, lookup-delete k j m, e, h j)
]

entries_of-delete :
    (k : Text) (ks : List Text) (m : Dict Text)
    → contains ks k ≡ false
    → entries_of (delete k m) ks ≡ entries_of m ks
entries_of-delete k ks m d =
    entries_of-ext (delete k m) m ks (λ j e. value-delete_ne m k j (contains_ne ks k j d e))

drop-suc-sub :
    {A : Type 0} (n limit : ℕ) (x : A) (q : List A)
    → limit ≤ n
    → drop (suc n - limit) (x ∷ q) ≡ drop (n - limit) q
drop-suc-sub n limit x q h = let e : suc n - limit ≡ suc (n - limit) = omega arith in rw e

drop-none : {A : Type 0} (n limit : ℕ) (q : List A) → n ≤ limit → drop (n - limit) q ≡ q
drop-none n limit q h = let e : n - limit ≡ 0 = omega arith in rw e

-- Evicting keeps what the invariant says of the keys and the map, leaves room for one more key and
-- drops the oldest pairs.
pub evict-Evicted :
    (limit : ℕ) (ks : List Text) (m : Dict Text)
    → 1 ≤ limit
    → Distinct ks
    → ((k : Text) → is_some (lookup k m) ≡ contains ks k)
    → Evicted limit ks m
unfolding evict
evict-Evicted limit [] m l d h =
    ([], m, ground arith, tt, h, l, sym (drop-none 1 limit [] l), λ k e. e)
evict-Evicted limit (k ∷ ks) m l d h = elim (Bool-cases (leb limit (suc (length ks)))) [
  | inl e ↦
      let (ks', m', r, d', h', l', v, s) =
        evict-Evicted limit ks (delete k m) l d.1 (lookup-delete-keys k ks m d.0 h) in
      (
        ks',
        m',
        ground (arith, e, r),
        d',
        h',
        l',
        v
            ∙ ap (drop (suc (length ks) - limit)) (entries_of-delete k ks m d.0)
            ∙ sym (
                drop-suc-sub (suc (length ks)) limit (k, value m k) (entries_of m ks)
                  (ground (arith, e))),
        λ j t. ground (arith, s j t),
      )
  | inr e ↦ (
    k ∷ ks,
    m,
    ground (arith, e),
    d,
    h,
    ground (arith, e),
    sym (drop-none (suc (suc (length ks))) limit (entries_of m (k ∷ ks)) (ground (arith, e))),
    λ j t. t,
  )
]
