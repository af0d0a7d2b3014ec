-- ===== src/Map/Probe.antt =====
-- The two loops over the slots of a hash table of src/lib/map.h, round the buffer from the slot of a
-- key's hash.
use lemon.Base.{
  ℕ, zero, suc, ◌+◌, ◌-◌, ◌%◌, ◌<◌, ◌≡◌, refl, sym, ap, ◌∙◌, ◌≢◌, ◌⊎◌, inl, inr, subst, true, false,
  some, List, ◌==◌, ==_iff, Bool-cases, bytes_eq, bytes_eq_eq, bytes_eq_refl, get_or, get_elem?,
  get_elem?-eq-get_or, length, dec_lt, arith,
}
use lemon.Ring.{mod-wrap}
use lemon.Map.Hash.{slot_index, slot_index-lt}
use lemon.Map.{
  Key, Slot, slot_open, slot_closed, slot_removed, Map, Probed, vacant, exists, endless, Search,
  found, absent, unending, probe_slot, probe_loop, search_slot, search_loop, search,
}
use native.Mathlib.Nat.{mod-eq_of_lt, mod-lt, add-zero, add-mod_right, mod-add-mod}

ne_false : (a b : ℕ) → a ≢ b → (a == b) ≡ false
ne_false a b h = ground arith

bytes_eq_symm : (a b : List ℕ) → bytes_eq a b ≡ false → bytes_eq b a ≡ false
bytes_eq_symm a b h = elim (Bool-cases (bytes_eq b a)) [
  | inr other ↦ other
  | inl same ↦ cc (subst (λ u. bytes_eq a u ≡ true) (sym (bytes_eq_eq b a same)) (bytes_eq_refl a))
]

-- the slot that is `n` steps round the buffer from a key's own
abbrev pub place {ℓ} : {V : Type ℓ} → Map V → Key → ℕ → ℕ
place m key n = (slot_index key m.cap + n) % m.cap

-- An entry of the table stands in a slot.
abbrev pub Stored {ℓ} : {V : Type ℓ} → Map V → ℕ → Key → V → Type ℓ
Stored m i k v = get_elem? m.buf i ≡ some (slot_closed k v)

-- A probe for a key goes past a slot.
abbrev pub Passed {ℓ} : {V : Type ℓ} → Map V → Key → ℕ → Type ℓ
Passed {V} m key i =
    (get_elem? m.buf i ≢ some slot_open) × ((v : V) → get_elem? m.buf i ≢ some (slot_closed key v))

-- The buffer has one slot or more.
pub record IsSized {ℓ} {V : Type ℓ} (m : Map V) : Type 0 where
  pub pos : 0 < m.cap
  pub storage : length m.buf ≡ m.cap

module _ {ℓ} {V : Type ℓ} (m : Map V) (sized : IsSized m) (key : Key) where
  pub home-lt : slot_index key m.cap < m.cap
  home-lt = slot_index-lt key m.cap sized.pos

  pub place-lt : (n : ℕ) → place m key n < m.cap
  place-lt n = mod-lt (slot_index key m.cap + n) {m = m.cap} sized.pos

  pub place-suc : (n : ℕ) → (place m key n + 1) % m.cap ≡ place m key (suc n)
  place-suc n =
      let e : slot_index key m.cap + n + 1 ≡ slot_index key m.cap + suc n = omega arith in
      mod-add-mod (slot_index key m.cap + n) m.cap 1 ∙ ap (λ k. k % m.cap) e

  -- every slot is some number of steps, fewer than a round, from the key's own
  pub place_onto : (j : ℕ) → j < m.cap → (n : ℕ) × (n < m.cap) × (place m key n ≡ j)
  place_onto j lt = elim (dec_lt j (slot_index key m.cap)) [
    | yes before ↦
        let n = j + m.cap - slot_index key m.cap in
        (
          n,
          omega arith,
          omega (
            arith,
            mod-wrap m.cap (slot_index key m.cap) n home-lt (omega arith),
            home-lt,
            place-lt n,
          ),
        )
    | no behind ↦
        let n = j - slot_index key m.cap in
        (
          n,
          omega arith,
          omega (
            arith,
            mod-wrap m.cap (slot_index key m.cap) n home-lt (omega arith),
            home-lt,
            place-lt n,
          ),
        )
  ]

  slot_at :
      (n : ℕ) → get_elem? m.buf (place m key n) ≡ some (get_or m.buf (place m key n) slot_open)
  slot_at n = get_elem?-eq-get_or m.buf (place m key n) slot_open (rw sized.storage (place-lt n))

  -- what the end of a probe says
  abbrev pub Ends : Probed → Type ℓ
  Ends (vacant j) =
      (n' : ℕ) × (n' < m.cap)
      × (j ≡ place m key n')
      × (get_elem? m.buf j ≡ some slot_open)
      × ((i : ℕ) → i < n' → Passed m key (place m key i))
  Ends exists = (j : ℕ) × (v : V) × Stored m j key v
  Ends endless = (i : ℕ) → i < m.cap → Passed m key (place m key i)

  extend :
      (n : ℕ)
      → ((i : ℕ) → i < n → Passed m key (place m key i))
      → Passed m key (place m key n)
      → (i : ℕ) → i < suc n
      → Passed m key (place m key i)
  extend n before last i lt = elim (dec_lt i n) [
    | yes p ↦ before i p
    | no p ↦ let e : n ≡ i = omega arith in subst (λ k. Passed m key (place m key k)) e last
  ]

  closed-Passed :
      (i : ℕ) (k : Key) (v : V)
      → get_elem? m.buf i ≡ some (slot_closed k v)
      → bytes_eq key k ≡ false
      → Passed m key i
  closed-Passed i k v e other = (λ o. cc, λ w c. not_same w c)
    where
      not_same : (w : V) → get_elem? m.buf i ≡ some (slot_closed key w) → ⊥
      not_same w c =
          let same : key ≡ k = cc in
          cc (subst (λ u. bytes_eq key u ≡ true) same (bytes_eq_refl key))

  removed-Passed :
      (i : ℕ) (k : Key) (v : V) → get_elem? m.buf i ≡ some (slot_removed k v) → Passed m key i
  removed-Passed i k v e = (λ o. cc, λ w c. cc)

  probe_slot-Ends :
      (n : ℕ) (rest : Probed) (s : Slot V)
      → n < m.cap
      → get_elem? m.buf (place m key n) ≡ some s
      → ((i : ℕ) → i < n → Passed m key (place m key i))
      → (Passed m key (place m key n) → Ends rest)
      → Ends (probe_slot key (place m key n) rest s)
  unfolding probe_slot
  probe_slot-Ends n rest slot_open lt e before more = (n, lt, refl, e, before)
  probe_slot-Ends n rest (slot_removed k v) lt e before more = more (removed-Passed _ k v e)
  probe_slot-Ends n rest (slot_closed k v) lt e before more = elim (Bool-cases (bytes_eq key k)) [
    | inl same ↦ rw same (
      place m key n,
      v,
      subst (λ u. Stored m (place m key n) u v) (sym (bytes_eq_eq key k same)) e,
    )
    | inr other ↦ rw other (more (closed-Passed _ k v e other))
  ]

  pub probe_loop-Ends :
      (fuel n : ℕ)
      → n + fuel ≡ m.cap
      → ((i : ℕ) → i < n → Passed m key (place m key i))
      → Ends (probe_loop fuel m key (place m key n))
  unfolding probe_loop
  probe_loop-Ends zero n e before = λ i lt. before i (omega arith)
  probe_loop-Ends (suc fuel) n e before =
      probe_slot-Ends n _ _ (omega arith) (slot_at n) before (λ last.
        rw (place-suc n) (probe_loop-Ends fuel (suc n) (omega arith) (extend n before last)))

  -- what the end of a search says: the key's entry, or that no probe would find it
  abbrev pub Sought : Search → Type ℓ
  Sought (found j) = (v : V) × Stored m j key v
  Sought absent =
      ((n : ℕ) × (n < m.cap)
        × (get_elem? m.buf (place m key n) ≡ some slot_open)
        × ((i : ℕ) → i < n → Passed m key (place m key i)))
      ⊎ ((i : ℕ) → i < m.cap → Passed m key (place m key i))
  Sought unending = V × ⊥

  search_slot-Sought :
      (n : ℕ) (rest : Search) (s : Slot V)
      → n < m.cap
      → get_elem? m.buf (place m key n) ≡ some s
      → ((i : ℕ) → i < n → Passed m key (place m key i))
      → (Passed m key (place m key n) → Sought rest)
      → Sought (search_slot key (place m key n) rest s)
  unfolding search_slot
  search_slot-Sought n rest slot_open lt e before more = inl (n, lt, e, before)
  search_slot-Sought n rest (slot_removed k v) lt e before more = more (removed-Passed _ k v e)
  search_slot-Sought n rest (slot_closed k v) lt e before more =
      elim (Bool-cases (bytes_eq k key)) [
        | inl same ↦
            rw same (v, subst (λ u. Stored m (place m key n) u v) (bytes_eq_eq k key same) e)
        | inr other ↦ rw other (more (closed-Passed _ k v e (bytes_eq_symm k key other)))
      ]

  -- the loop is back at its start exactly after one round
  back_at_start :
      (n : ℕ) → n < m.cap → (place m key (suc n) == slot_index key m.cap) ≡ (suc n == m.cap)
  back_at_start n lt = elim (dec_lt (suc n) m.cap) [
    | yes p ↦ ground (arith, mod-wrap m.cap (slot_index key m.cap) (suc n) home-lt p)
    | no p ↦ let e : suc n ≡ m.cap = omega arith in rw e (ground (arith, round_trip))
  ]
    where
      round_trip : place m key m.cap ≡ slot_index key m.cap
      round_trip = add-mod_right (slot_index key m.cap) m.cap ∙ mod-eq_of_lt home-lt

  search_loop-Sought :
      (fuel n : ℕ)
      → n + suc fuel ≡ m.cap
      → ((i : ℕ) → i < n → Passed m key (place m key i))
      → Sought (search_loop (suc fuel) m key (slot_index key m.cap) (place m key n))
  unfolding search_loop
  search_loop-Sought zero n e before =
      search_slot-Sought n _ _ (omega arith) (slot_at n) before (λ last.
        let all : suc n ≡ m.cap = omega arith in
        rw (place-suc n, back_at_start n (omega arith), (==_iff (suc n) m.cap).1 all)
          (inr (λ i lt. extend n before last i (omega arith))))
  search_loop-Sought (suc fuel) n e before =
      search_slot-Sought n _ _ (omega arith) (slot_at n) before (λ last.
        rw (place-suc n, back_at_start n (omega arith), ne_false (suc n) m.cap (omega arith))
          (search_loop-Sought fuel (suc n) (omega arith) (extend n before last)))

  place_zero : place m key 0 ≡ slot_index key m.cap
  place_zero = ap (λ k. k % m.cap) (add-zero (slot_index key m.cap)) ∙ mod-eq_of_lt home-lt

  -- `MapGet` and its kin never run round for ever, and find what a probe for the key would find.
  pub search-Sought : Sought (search m key)
  unfolding search
  search-Sought =
      let e : m.cap ≡ suc (m.cap - 1) = omega (arith, sized.pos) in
      subst (λ c. Sought (search_loop c m key (slot_index key m.cap) (slot_index key m.cap)))
        (sym e)
        (subst (λ i. Sought (search_loop (suc (m.cap - 1)) m key (slot_index key m.cap) i))
          place_zero
          (search_loop-Sought (m.cap - 1) 0 (omega (arith, sized.pos))
            (λ i lt. absurd (omega arith))))

  pub probe-Ends : Ends (probe_loop m.cap m key (slot_index key m.cap))
  probe-Ends =
      subst (λ i. Ends (probe_loop m.cap m key i)) place_zero
        (probe_loop-Ends m.cap 0 (omega arith) (λ i lt. absurd (omega arith)))
