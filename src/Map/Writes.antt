-- ===== src/Map/Writes.antt =====
-- `MapRemove` and `MapSet` of src/lib/map.h: what they keep, and what is found after them.
use lemon.Base.{
  option_some, ℕ, ◌≡◌, refl, sym, ◌∙◌, ◌⊎◌, inl, inr, subst, Bool, true, false, none, some,
  Bool-cases, get_or, get_elem?-eq-get_or, get_elem?-lt, get_elem?-set_self, set, bytes_eq,
  bytes_eq_eq, if◌then◌else◌,
}
use lemon.Map.{
  Key, Slot, slot_open, slot_closed, slot_removed, Map, Search, found, absent, unending, search,
  map_get, value_at, map_remove, remove_at, removed_slot, map_set, set_at, set_slot,
}
use lemon.Map.Probe.{Stored, Sought, search-Sought}
use lemon.Map.Valid.{Reached, IsValid, Maps, map_get-Maps, map_get-none}
use lemon.Map.Update.{at_set, written-IsValid, kept, bytes_ne, map_get-ext}

module _ {ℓ} {V : Type ℓ} (m : Map V) (key : Key) where
  -- What a removal comes to.
  abbrev pub Removes : Bool × Map V → Type ℓ
  Removes r =
      IsValid r.1
      × ((q : Key) → map_get r.1 q ≡ (if bytes_eq key q then none else map_get m q))
      × (((r.0 ≡ true) × ((v : V) × (map_get m key ≡ some v)))
          ⊎ ((r.0 ≡ false) × (map_get m key ≡ none) × (r.1 ≡ m)))

  -- What a write to an entry comes to.
  abbrev pub Sets : V → Bool × Map V → Type ℓ
  Sets value r =
      IsValid r.1
      × (((r.0 ≡ true)
            × ((v : V) × (map_get m key ≡ some v))
            × ((q : Key) → map_get r.1 q ≡ (if bytes_eq key q then some value else map_get m q)))
          ⊎ ((r.0 ≡ false) × (map_get m key ≡ none) × (r.1 ≡ m)))

module _ {ℓ} {V : Type ℓ} (m : Map V) (valid : IsValid m) (key : Key) where
  -- Only the key's own slot is written, so a search finds what it found for every other key.
  other_keys :
      (i n : ℕ) (v : V) (t : Slot V) (valid' : IsValid (record m { len = n; buf = set m.buf i t }))
      → Stored m i key v
      → ((q : Key) (w : V) → t ≡ slot_closed q w → q ≡ key)
      → (q : Key) → bytes_eq key q ≡ false
      → map_get (record m { len = n; buf = set m.buf i t }) q ≡ map_get m q
  other_keys i n v t valid' at own q other =
      map_get-ext m _ valid valid' q
        (λ w there.
          let (j, e) = there in
          (j, kept m valid i (slot_closed key v) t n at j q w (λ x. clash j w x e) e))
        (λ w there. let (j, e) = there in back j w e)
    where
      clash : (j : ℕ) (w : V) → i ≡ j → Stored m j q w → ⊥
      clash j w x e =
          let at' : Stored m j key v = subst (λ k. Stored m k key v) x at in
          let same : key ≡ q = cc in bytes_ne key q other same

      back : (j : ℕ) (w : V) → Stored (record m { len = n; buf = set m.buf i t }) j q w → Maps m q w
      back j w e =
          elim (at_set m.buf i j t (slot_closed q w) (get_elem?-lt m.buf i (slot_closed key v) at)
            e) [
              | inl (x, y) ↦ absurd (bytes_ne key q other (sym (own q w y)))
              | inr (x, y) ↦ (j, y)
            ]

  missing : (r : Search) → r ≡ absent → search m key ≡ r → map_get m key ≡ none
  unfolding map_get value_at
  missing r e found_at = rw (found_at ∙ e) refl

  slot_read : (i : ℕ) (v : V) → Stored m i key v → get_or m.buf i slot_open ≡ slot_closed key v
  slot_read i v at = option_some (
      sym (get_elem?-eq-get_or m.buf i slot_open (get_elem?-lt m.buf i (slot_closed key v) at))
      ∙ at)

  removed-IsValid :
      (i : ℕ) (v : V)
      → Stored m i key v
      → IsValid (record m { len = m.len; buf = set m.buf i (slot_removed key v) })
  removed-IsValid i v at =
      written-IsValid m valid i (slot_closed key v) (slot_removed key v) m.len at refl (λ x. cc)
        (λ k w e. absurd (closed_removed e)) (λ k w u j e. absurd (closed_removed e))
    where
      closed_removed : {k : Key} {w : V} → slot_removed key v ≡ slot_closed k w → ⊥
      closed_removed e = cc

  set-IsValid :
      (i : ℕ) (v value : V)
      → Stored m i key v
      → IsValid (record m { len = m.len; buf = set m.buf i (slot_closed key value) })
  set-IsValid i v value at =
      written-IsValid m valid i (slot_closed key v) (slot_closed key value) m.len at refl (λ x. cc)
        (λ k w e.
          let same : key ≡ k = cc in subst (λ u. Reached m u i) same (valid.reached i key v at))
        (λ k w u j e other there.
          let same : k ≡ key = cc in
          other (valid.unique i j key v u at (subst (λ z. Stored m j z u) same there)))

  remove_at-Removes :
      (r : Search) → search m key ≡ r → Sought m valid.sized key r → Removes m key (remove_at m r)
  unfolding remove_at removed_slot
  remove_at-Removes (found i) e (v, at) = rw (slot_read i v at) (
    valid',
    λ q. elim (Bool-cases (bytes_eq key q)) [
      | inl same ↦
          rw same (map_get-none m' valid' q (λ w there. let (j, e') = there in gone q same w j e'))
      | inr other ↦ rw other (
          other_keys i m.len v (slot_removed key v) valid' at (λ q' w y. absurd (closed_removed y))
            q other)
    ],
    inl (refl, (v, map_get-Maps m valid key v (i, at))),
  )
    where
      m' : Map V
      m' = record m { len = m.len; buf = set m.buf i (slot_removed key v) }

      valid' : IsValid m'
      valid' = removed-IsValid i v at

      closed_removed : {k : Key} {w : V} → slot_removed key v ≡ slot_closed k w → ⊥
      closed_removed e = cc

      gone : (q : Key) → bytes_eq key q ≡ true → (w : V) (j : ℕ) → Stored m' j q w → ⊥
      gone q same w j e' =
          elim (at_set m.buf i j (slot_removed key v) (slot_closed q w)
            (get_elem?-lt m.buf i (slot_closed key v) at) e') [
              | inl (x, y) ↦ closed_removed y
              | inr (x, y) ↦ x (
                  valid.unique i j key v w at
                    (subst (λ u. Stored m j u w) (sym (bytes_eq_eq key q same)) y))
            ]
  remove_at-Removes absent e sought =
      (valid, λ q. unchanged q, inr (refl, missing absent refl e, refl))
    where
      unchanged : (q : Key) → map_get m q ≡ (if bytes_eq key q then none else map_get m q)
      unchanged q = elim (Bool-cases (bytes_eq key q)) [
        | inl same ↦
            rw same
              (subst (λ u. map_get m u ≡ none) (bytes_eq_eq key q same) (missing absent refl e))
        | inr other ↦ rw other refl
      ]
  remove_at-Removes unending e (v, bad) = absurd bad

  -- On a well-formed table `MapRemove` returns whether the key had a value; after it the table is well
  -- formed, and `MapGet` finds nothing for the key and what it found for every other. Without a value
  -- for the key nothing changes.
  pub map_remove-Removes : Removes m key (map_remove m key)
  unfolding map_remove
  map_remove-Removes = remove_at-Removes (search m key) refl (search-Sought m valid.sized key)

  set_at-Sets :
      (value : V) (r : Search)
      → search m key ≡ r
      → Sought m valid.sized key r
      → Sets m key value (set_at m value r)
  unfolding set_at set_slot
  set_at-Sets value (found i) e (v, at) =
      rw (slot_read i v at)
        (valid', inl (refl, (v, map_get-Maps m valid key v (i, at)), λ q. after q))
    where
      m' : Map V
      m' = record m { len = m.len; buf = set m.buf i (slot_closed key value) }

      valid' : IsValid m'
      valid' = set-IsValid i v value at

      now : Stored m' i key value
      now =
          get_elem?-set_self m.buf i (slot_closed key value)
            (get_elem?-lt m.buf i (slot_closed key v) at)

      after : (q : Key) → map_get m' q ≡ (if bytes_eq key q then some value else map_get m q)
      after q = elim (Bool-cases (bytes_eq key q)) [
        | inl same ↦ rw same (
            map_get-Maps m' valid' q value
              (i, subst (λ u. Stored m' i u value) (bytes_eq_eq key q same) now))
        | inr other ↦
            rw other (other_keys i m.len v (slot_closed key value) valid' at (λ q' w y. cc) q other)
      ]
  set_at-Sets value absent e sought = (valid, inr (refl, missing absent refl e, refl))
  set_at-Sets value unending e (v, bad) = absurd bad

  -- On a well-formed table `MapSet` returns whether the key had a value, and leaves a well-formed table;
  -- if it had one, `MapGet` finds the new value for the key and what it found for every other, and if
  -- not, nothing changes.
  pub map_set-Sets : (value : V) → Sets m key value (map_set m key value)
  unfolding map_set
  map_set-Sets value = set_at-Sets value (search m key) refl (search-Sought m valid.sized key)
