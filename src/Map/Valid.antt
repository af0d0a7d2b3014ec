-- ===== src/Map/Valid.antt =====
-- The invariant of a hash table of src/lib/map.h, and what its searches find.
use lemon.Base.{
  option_some, ℕ, zero, suc, ◌+◌, ◌<◌, ◌≡◌, refl, sym, ap, ◌∙◌, ◌≢◌, inl, inr, subst, none, some,
  Option-cases, List, [], ◌∷◌, get_or, get_elem?, get_elem?-eq-get_or, get_elem?-lt, length, set,
  dec_lt, replicate, length-replicate, arith,
}
use lemon.Map.{
  Key, Slot, slot_open, slot_closed, slot_removed, Map, Search, found, absent, unending, search,
  map_get, value_at, value_of, map_init,
}
use lemon.Map.Probe.{place, Stored, Passed, IsSized, place_onto, Sought, search-Sought}

-- what a slot adds to `len`, which counts the closed and the removed ones
abbrev pub weight {ℓ} : {V : Type ℓ} → Slot V → ℕ
weight slot_open = 0
weight (slot_closed k v) = 1
weight (slot_removed k v) = 1

abbrev pub used {ℓ} : {V : Type ℓ} → List (Slot V) → ℕ
used [] = 0
used (s ∷ slots) = weight s + used slots

-- An entry is where a probe for its key gets to.
abbrev pub Reached {ℓ} : {V : Type ℓ} → Map V → Key → ℕ → Type ℓ
Reached m k j =
    (n : ℕ) × (n < m.cap)
    × (place m k n ≡ j)
    × ((i : ℕ) → i < n → get_elem? m.buf (place m k i) ≢ some slot_open)

-- The invariant: `len` counts the slots in use, no key has two entries, and each entry is where a
-- probe for its key gets to.
pub record IsValid {ℓ} {V : Type ℓ} (m : Map V) : Type ℓ where
  pub sized : IsSized m
  pub counted : used m.buf ≡ m.len
  pub reached : (j : ℕ) (k : Key) (v : V) → Stored m j k v → Reached m k j
  pub unique : (i j : ℕ) (k : Key) (v w : V) → Stored m i k v → Stored m j k w → i ≡ j

-- The table maps a key to a value.
abbrev pub Maps {ℓ} : {V : Type ℓ} → Map V → Key → V → Type ℓ
Maps m k v = (j : ℕ) × Stored m j k v

module _ {ℓ} {V : Type ℓ} where
  pub used-set :
      (slots : List (Slot V)) (i : ℕ) (s t : Slot V)
      → get_elem? slots i ≡ some s
      → used (set slots i t) + weight s ≡ used slots + weight t
  used-set [] i s t e = absurd (cc)
  used-set (x ∷ slots) zero s t e =
      let same : x ≡ s = option_some e in omega (arith, ap weight same)
  used-set (x ∷ slots) (suc i) s t e = omega (arith, used-set slots i s t e)

  used-full :
      (slots : List (Slot V))
      → ((j : ℕ) → j < length slots → get_elem? slots j ≢ some slot_open)
      → used slots ≡ length slots
  used-full [] h = refl
  used-full (slot_open ∷ slots) h = absurd (h 0 (omega arith) refl)
  used-full (slot_closed k v ∷ slots) h =
      omega (arith, used-full slots (λ j lt. h (suc j) (omega arith)))
  used-full (slot_removed k v ∷ slots) h =
      omega (arith, used-full slots (λ j lt. h (suc j) (omega arith)))

  replicate-open :
      (n i : ℕ) (s : Slot V) → get_elem? (replicate n slot_open) i ≡ some s → s ≡ slot_open
  replicate-open zero i s e = absurd (cc)
  replicate-open (suc n) zero s e = cc
  replicate-open (suc n) (suc i) s e = replicate-open n i s e

used-replicate {ℓ} : (V : Type ℓ) (n : ℕ) → used (replicate {A = Slot V} n slot_open) ≡ 0
used-replicate V zero = refl
used-replicate V (suc n) = omega (arith, used-replicate V n)

-- A new table with one slot or more is well formed.
pub init-IsValid {ℓ} : (V : Type ℓ) (c : ℕ) → 0 < c → IsValid (map_init {V = V} c)
unfolding map_init
init-IsValid V c pos = record {
  sized = record { pos = pos; storage = length-replicate c slot_open };
  counted = used-replicate V c;
  reached = λ j k v at. absurd (empty j k v at);
  unique = λ i j k v w at. absurd (empty i k v at);
}
  where
    empty : (j : ℕ) (k : Key) (v : V) → Stored (map_init c) j k v → ⊥
    empty j k v at = let e = replicate-open c j (slot_closed k v) at in cc

pub init-empty {ℓ} : (V : Type ℓ) (c : ℕ) (k : Key) (v : V) → Maps (map_init c) k v → ⊥
unfolding map_init
init-empty V c k v (j, at) = let e = replicate-open c j (slot_closed k v) at in cc

module _ {ℓ} {V : Type ℓ} (m : Map V) (valid : IsValid m) (key : Key) where
  pub not_all_Passed : m.len < m.cap → ((i : ℕ) → i < m.cap → Passed m key (place m key i)) → ⊥
  not_all_Passed room all =
      omega (arith, used-full m.buf busy, valid.counted, valid.sized.storage, room)
    where
      busy : (j : ℕ) → j < length m.buf → get_elem? m.buf j ≢ some slot_open
      busy j lt =
          let (n, small, e) =
            place_onto m valid.sized key j (subst (λ c. j < c) valid.sized.storage lt) in
          subst (λ i. get_elem? m.buf i ≢ some slot_open) e (all n small).0

  -- An entry of the key is never where or behind where a probe for it stops.
  pub stops_short :
      (n j : ℕ) (v : V)
      → get_elem? m.buf (place m key n) ≡ some slot_open
      → ((i : ℕ) → i < n → Passed m key (place m key i))
      → Stored m j key v
      → ⊥
  stops_short n j v free before at =
      let (n', small, e, solid) = valid.reached j key v at in
      elim (dec_lt n n') [
        | yes p ↦ solid n p free
        | no p ↦ elim (dec_lt n' n) [
          | yes q ↦ (before n' q).1 v (subst (λ i. Stored m i key v) (sym e) at)
          | no q ↦
              let same : n' ≡ n = omega arith in
              let at' : Stored m (place m key n) key v =
                subst (λ i. Stored m i key v) (sym e ∙ ap (place m key) same) at in
              cc
        ]
      ]

  no_entry_left :
      (j : ℕ) (v : V) → ((i : ℕ) → i < m.cap → Passed m key (place m key i)) → Stored m j key v → ⊥
  no_entry_left j v all at =
      let (n, small, e, solid) = valid.reached j key v at in
      (all n small).1 v (subst (λ i. Stored m i key v) (sym e) at)

  value_of-get : (j : ℕ) (v : V) → Stored m j key v → value_of (get_or m.buf j slot_open) ≡ some v
  unfolding value_of
  value_of-get j v at =
      let lt = get_elem?-lt m.buf j (slot_closed key v) at in
      let e : get_or m.buf j slot_open ≡ slot_closed key v =
        option_some (sym (get_elem?-eq-get_or m.buf j slot_open lt) ∙ at) in
      rw e

  value_at-Maps :
      (r : Search) (v : V) → Sought m valid.sized key r → Maps m key v → value_at m r ≡ some v
  unfolding value_at
  value_at-Maps (found i) v (w, there) (j, at) =
      let e : j ≡ i = valid.unique j i key v w at there in
      value_of-get i v (subst (λ n. Stored m n key v) e at)
  value_at-Maps absent v (inl (n, lt, free, before)) (j, at) =
      absurd (stops_short n j v free before at)
  value_at-Maps absent v (inr all) (j, at) = absurd (no_entry_left j v all at)
  value_at-Maps unending v (w, bad) at = absurd bad

  -- In a well-formed table `MapGet` finds the value of an entry that stands in a slot.
  pub map_get-Maps : (v : V) → Maps m key v → map_get m key ≡ some v
  unfolding map_get
  map_get-Maps v at = value_at-Maps (search m key) v (search-Sought m valid.sized key) at

  Maps-value_at :
      (r : Search) (v : V) → Sought m valid.sized key r → value_at m r ≡ some v → Maps m key v
  unfolding value_at
  Maps-value_at (found i) v (w, there) e =
      let same : w ≡ v = option_some (sym (value_of-get i w there) ∙ e) in
      (i, subst (λ u. Stored m i key u) same there)
  Maps-value_at absent v r e = absurd (cc)
  Maps-value_at unending v (w, bad) e = absurd bad

  -- A value that a search finds is an entry's.
  pub Maps-map_get : (v : V) → map_get m key ≡ some v → Maps m key v
  unfolding map_get
  Maps-map_get v e = Maps-value_at (search m key) v (search-Sought m valid.sized key) e

  -- A search finds nothing for a key without an entry.
  pub map_get-none : ((v : V) → Maps m key v → ⊥) → map_get m key ≡ none
  map_get-none h = elim (Option-cases (map_get m key)) [
    | inl nothing ↦ nothing
    | inr (v, e) ↦ absurd (h v (Maps-map_get v e))
  ]
