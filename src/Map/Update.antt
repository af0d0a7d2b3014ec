-- ===== src/Map/Update.antt =====
-- A write to one slot of a hash table of src/lib/map.h, and the insertion at the end of a probe.
use lemon.Base.{
  option_some, ℕ, ◌+◌, ◌<◌, ◌≡◌, refl, sym, ◌∙◌, ◌≢◌, ◌⊎◌, inl, inr, subst, true, false, none, some,
  Option-cases, Bool-cases, List, get_elem?, get_elem?-lt, get_elem?-set_self, get_elem?-set_ne,
  length, set, length-set, ℕ_discrete, bytes_eq, bytes_eq_eq, bytes_eq_refl, if◌then◌else◌, ltb,
  arith,
}
use lemon.Map.{
  Key, Slot, slot_open, slot_closed, Map, Probed, vacant, exists, endless, probe_loop, map_get,
  map_probe, fill, Insertion, failed, duplicate, inserted,
}
use lemon.Map.Hash.{slot_index}
use lemon.Map.Probe.{place, Stored, Passed, Ends, probe-Ends}
use lemon.Map.Valid.{
  weight, used-set, Reached, IsValid, Maps, stops_short, not_all_Passed, map_get-Maps, Maps-map_get,
  map_get-none,
}

pub bytes_ne : (a b : Key) → bytes_eq a b ≡ false → a ≢ b
bytes_ne a b e same = cc (subst (λ u. bytes_eq a u ≡ true) same (bytes_eq_refl a))

module _ {ℓ} {V : Type ℓ} where
  -- what stands in a slot after a write to one
  pub at_set :
      (slots : List (Slot V)) (i j : ℕ) (t u : Slot V)
      → i < length slots
      → get_elem? (set slots i t) j ≡ some u
      → ((i ≡ j) × (t ≡ u)) ⊎ ((i ≢ j) × (get_elem? slots j ≡ some u))
  at_set slots i j t u lt e = elim (ℕ_discrete i j) [
    | yes same ↦ inl (
      same,
      option_some (
          sym (get_elem?-set_self slots i t lt)
          ∙ subst (λ k. get_elem? (set slots i t) k ≡ some u) (sym same) e),
    )
    | no other ↦ inr (other, sym (get_elem?-set_ne slots i j t other) ∙ e)
  ]

  -- what a search finds depends on the entries only
  pub map_get-ext :
      (m m' : Map V) (valid : IsValid m) (valid' : IsValid m') (key : Key)
      → ((v : V) → Maps m key v → Maps m' key v)
      → ((v : V) → Maps m' key v → Maps m key v)
      → map_get m' key ≡ map_get m key
  map_get-ext m m' valid valid' key there back = elim (Option-cases (map_get m key)) [
    | inl nothing ↦
        map_get-none m' valid' key
          (λ v at. none_some (sym nothing ∙ map_get-Maps m valid key v (back v at)))
        ∙ sym nothing
    | inr (v, e) ↦ map_get-Maps m' valid' key v (there v (Maps-map_get m valid key v e)) ∙ sym e
  ]
    where
      none_some : {v : V} → none ≡ some v → ⊥
      none_some e = cc

-- a table with one slot written
module _ {ℓ} {V : Type ℓ} (m : Map V) (valid : IsValid m) (i : ℕ) (s t : Slot V) (n : ℕ)
    (before : get_elem? m.buf i ≡ some s) where
  abbrev written : Map V
  written = record m { len = n; buf = set m.buf i t }

  in_range : i < length m.buf
  in_range = get_elem?-lt m.buf i s before

  -- an entry of another slot stays
  pub kept : (j : ℕ) (k : Key) (v : V) → i ≢ j → Stored m j k v → Stored written j k v
  kept j k v other at = get_elem?-set_ne m.buf i j t other ∙ at

  solid :
      (j : ℕ)
      → t ≢ slot_open
      → get_elem? m.buf j ≢ some slot_open
      → get_elem? (set m.buf i t) j ≢ some slot_open
  solid j full h e = elim (at_set m.buf i j t slot_open in_range e) [
    | inl (same, e') ↦ full e'
    | inr (other, e') ↦ h e'
  ]

  pub written-IsValid :
      n + weight s ≡ m.len + weight t
      → t ≢ slot_open
      → ((k : Key) (v : V) → t ≡ slot_closed k v → Reached m k i)
      → ((k : Key) (v w : V) (j : ℕ) → t ≡ slot_closed k v → i ≢ j → Stored m j k w → ⊥)
      → IsValid written
  written-IsValid size full reach alone = record {
    sized = record { pos = valid.sized.pos; storage = length-set m.buf i t ∙ valid.sized.storage };
    counted = omega (arith, used-set m.buf i s t before, valid.counted, size);
    reached = reached';
    unique = unique';
  }
    where
      still : (j : ℕ) (k : Key) → Reached m k j → Reached written k j
      still j k (d, small, e, all) = (d, small, e, λ i' lt. solid _ full (all i' lt))

      reached' : (j : ℕ) (k : Key) (v : V) → Stored written j k v → Reached written k j
      reached' j k v at = elim (at_set m.buf i j t (slot_closed k v) in_range at) [
        | inl (same, e) ↦ subst (λ u. Reached written k u) same (still i k (reach k v e))
        | inr (other, e) ↦ still j k (valid.reached j k v e)
      ]

      unique' : (a b : ℕ) (k : Key) (v w : V) → Stored written a k v → Stored written b k w → a ≡ b
      unique' a b k v w at at' = elim (at_set m.buf i a t (slot_closed k v) in_range at) [
        | inl (x, e) ↦ elim (at_set m.buf i b t (slot_closed k w) in_range at') [
          | inl (y, e') ↦ sym x ∙ y
          | inr (other, e') ↦ absurd (alone k v w b e other e')
        ]
        | inr (other, e') ↦ elim (at_set m.buf i b t (slot_closed k w) in_range at') [
          | inl (x, e) ↦ absurd (alone k w v a e other e')
          | inr (other', e) ↦ valid.unique a b k v w e' e
        ]
      ]

module _ {ℓ} {V : Type ℓ} where
  -- What an insertion comes to. A key that has a value is refused and every search finds what it found;
  -- for another key a well-formed table comes back, with the entry in the slot that is returned, where a
  -- search finds the new value for the key and what it found for every other.
  abbrev pub Inserts : Map V → Key → V → Insertion V → Type ℓ
  Inserts m key value failed = V × ⊥
  Inserts m key value (duplicate m') =
      IsValid m' × ((v : V) × (map_get m key ≡ some v)) × ((q : Key) → map_get m' q ≡ map_get m q)
  Inserts m key value (inserted i m') =
      IsValid m'
      × Stored m' i key value
      × (map_get m key ≡ none)
      × ((q : Key) → map_get m' q ≡ (if bytes_eq key q then some value else map_get m q))

module _ {ℓ} {V : Type ℓ} (m : Map V) (valid : IsValid m) (key : Key) (value : V) (i n : ℕ)
    (small : n < m.cap) (e : i ≡ place m key n) (free : get_elem? m.buf i ≡ some slot_open)
    (before : (d : ℕ) → d < n → Passed m key (place m key d)) where
  abbrev entry : Slot V
  entry = slot_closed key value

  abbrev grown : Map V
  grown = record m { len = m.len + 1; buf = set m.buf i entry }

  at : Stored grown i key value
  at = get_elem?-set_self m.buf i entry (get_elem?-lt m.buf i slot_open free)

  new_key : (v : V) → Maps m key v → ⊥
  new_key v (j, e') =
      stops_short m valid key n j v (subst (λ k. get_elem? m.buf k ≡ some slot_open) e free) before
        e'

  clash : (j : ℕ) (q : Key) (v : V) → i ≡ j → Stored m j q v → ⊥
  clash j q v x e' =
      let free' : get_elem? m.buf j ≡ some slot_open =
        subst (λ k. get_elem? m.buf k ≡ some slot_open) x free in
      cc

  old_entry : (q : Key) (v : V) (j : ℕ) → key ≢ q → Stored grown j q v → Maps m q v
  old_entry q v j other e' =
      elim (at_set m.buf i j entry (slot_closed q v) (get_elem?-lt m.buf i slot_open free) e') [
        | inl (x, y) ↦ let same : key ≡ q = cc in absurd (other same)
        | inr (x, y) ↦ (j, y)
      ]

  grown-IsValid : IsValid grown
  grown-IsValid =
      written-IsValid m valid i slot_open entry (m.len + 1) free (omega arith) (λ x. cc)
        (λ k v e'.
          let same : key ≡ k = cc in
          subst (λ u. Reached m u i) same (n, small, sym e, λ d lt. (before d lt).0))
        (λ k v w j e' other at'.
          let same : k ≡ key = cc in new_key w (j, subst (λ u. Stored m j u w) same at'))

  fill-Inserts : Inserts m key value (fill m key value (vacant i))
  unfolding fill
  fill-Inserts = (
    grown-IsValid,
    at,
    map_get-none m valid key new_key,
    λ q. elim (Bool-cases (bytes_eq key q)) [
      | inl same ↦ rw same (
          map_get-Maps grown grown-IsValid q value
            (i, subst (λ u. Stored grown i u value) (bytes_eq_eq key q same) at))
      | inr other ↦ rw other (
          map_get-ext m grown valid grown-IsValid q
            (λ v found_at.
              let (j, e') = found_at in
              (j, kept m valid i slot_open entry (m.len + 1) free j q v (λ x. clash j q v x e') e'))
            (λ v found_at. let (j, e') = found_at in old_entry q v j (bytes_ne key q other) e'))
    ],
  )

module _ {ℓ} {V : Type ℓ} (m : Map V) (valid : IsValid m) (key : Key) where
  exists-Inserts :
      (value : V) → Maps m key value → (new : V) → Inserts m key new (fill m key new exists)
  unfolding fill
  exists-Inserts value at new = (valid, (value, map_get-Maps m valid key value at), λ q. refl)

  fill_probed :
      (value : V) (r : Probed)
      → m.len < m.cap
      → Ends m valid.sized key r
      → Inserts m key value (fill m key value r)
  fill_probed value (vacant i) room (n, small, e, free, before) =
      fill-Inserts m valid key value i n small e free before
  fill_probed value exists room (j, v, at) = exists-Inserts v (j, at) value
  fill_probed value endless room all = absurd (not_all_Passed m valid key room all)

  pub map_probe-Inserts : (value : V) → m.len < m.cap → Inserts m key value (map_probe m key value)
  unfolding map_probe
  map_probe-Inserts value room =
      let below : ltb m.len m.cap ≡ true = ground arith in
      rw below (
        fill_probed value (probe_loop m.cap m key (slot_index key m.cap)) room
          (probe-Ends m valid.sized key))
