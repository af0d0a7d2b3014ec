-- ===== src/Map/Resize.antt =====
-- The loop of `MapResize_private` of src/lib/map.h, which copies the entries into a larger buffer.
use lemon.Base.{
  ℕ, zero, suc, ◌+◌, ◌≤◌, ◌<◌, ◌≡◌, refl, sym, ap, ◌∙◌, ◌≢◌, inl, inr, subst, false, Option, none,
  some, Bool-cases, List, [], ◌∷◌, get_elem?, length, bytes_eq, bytes_eq_eq, bytes_eq_refl,
  if◌then◌else◌, ltb, arith,
}
use lemon.Map.{
  Key, Slot, slot_open, slot_closed, slot_removed, Map, Probed, vacant, exists, endless, map_get,
  map_probe, fill, Insertion, failed, duplicate, inserted, copy_slots, probe_loop,
}
use lemon.Map.Hash.{slot_index}
use lemon.Map.Valid.{used, IsValid}
use lemon.Map.Update.{Inserts, map_probe-Inserts}

-- an entry of an old buffer
abbrev pub Held {ℓ} : {V : Type ℓ} → List (Slot V) → Key → V → Type ℓ
Held slots k v = (i : ℕ) × (get_elem? slots i ≡ some (slot_closed k v))

abbrev pub Alone {ℓ} : {V : Type ℓ} → List (Slot V) → Type ℓ
Alone {V} slots =
    (i j : ℕ) (k : Key) (v w : V)
    → get_elem? slots i ≡ some (slot_closed k v)
    → get_elem? slots j ≡ some (slot_closed k w)
    → i ≡ j

module _ {ℓ} {V : Type ℓ} where
  pub used-le-length : (slots : List (Slot V)) → used slots ≤ length slots
  used-le-length [] = omega arith
  used-le-length (slot_open ∷ slots) = omega (arith, used-le-length slots)
  used-le-length (slot_closed k v ∷ slots) = omega (arith, used-le-length slots)
  used-le-length (slot_removed k v ∷ slots) = omega (arith, used-le-length slots)

  -- an insertion takes one slot
  abbrev pub Grows : Map V → Insertion V → Type 0
  Grows m (inserted i m') = (m'.cap ≡ m.cap) × (m'.len ≡ m.len + 1)
  Grows m (duplicate m') = (m'.cap ≡ m.cap) × (m'.len ≡ m.len)
  Grows m failed = Unit

  fill-Grows : (m : Map V) (key : Key) (value : V) (r : Probed) → Grows m (fill m key value r)
  unfolding fill
  fill-Grows m key value (vacant i) = (refl, refl)
  fill-Grows m key value exists = (refl, refl)
  fill-Grows m key value endless = tt

  pub map_probe-Grows : (m : Map V) (key : Key) (value : V) → Grows m (map_probe m key value)
  unfolding map_probe
  map_probe-Grows m key value = elim (Bool-cases (ltb m.len m.cap)) [
    | inl e ↦ rw e (fill-Grows m key value (probe_loop m.cap m key (slot_index key m.cap)))
    | inr e ↦ rw e tt
  ]

  -- what a copy of slots into a table comes to
  abbrev pub Copied : List (Slot V) → Map V → Option (Map V) → Type ℓ
  Copied slots new none = V × ⊥
  Copied slots new (some m') =
      IsValid m'
      × (m'.len ≤ new.len + used slots)
      × (m'.cap ≡ new.cap)
      × ((q : Key) (v : V) → Held slots q v → map_get m' q ≡ some v)
      × ((q : Key) → ((v : V) → Held slots q v → ⊥) → map_get m' q ≡ map_get new q)

  -- a slot without an entry is left out
  skipped :
      (s : Slot V) (slots : List (Slot V)) (new : Map V) (r : Option (Map V))
      → ((k : Key) (v : V) → s ≢ slot_closed k v)
      → Copied slots new r
      → Copied (s ∷ slots) new r
  skipped s slots new none idle (v, bad) = absurd bad
  skipped s slots new (some m') idle (valid, short, same, held, other) = (
    valid,
    omega (arith, short),
    same,
    λ q v at. held q v (tail_of q v at),
    λ q nothing. other q (λ v at. let (i, e) = at in nothing v (suc i, e)),
  )
    where
      tail_of : (q : Key) (v : V) → Held (s ∷ slots) q v → Held slots q v
      tail_of q v (zero, e) = let e' : s ≡ slot_closed q v = cc in absurd (idle q v e')
      tail_of q v (suc i, e) = (i, e)

  Alone-tail : (s : Slot V) (slots : List (Slot V)) → Alone (s ∷ slots) → Alone slots
  Alone-tail s slots alone i j k v w e e' =
      let same = alone (suc i) (suc j) k v w e e' in omega arith

  -- an entry is copied, with those after it
  entered :
      (k : Key) (v : V) (slots : List (Slot V)) (new m1 : Map V) (r : Option (Map V))
      → Alone (slot_closed k v ∷ slots)
      → (m1.cap ≡ new.cap) × (m1.len ≡ new.len + 1)
      → ((q : Key) → map_get m1 q ≡ (if bytes_eq k q then some v else map_get new q))
      → Copied slots m1 r
      → Copied (slot_closed k v ∷ slots) new r
  entered k v slots new m1 none alone grows get (u, bad) = absurd bad
  entered k v slots new m1 (some m') alone (same_cap, more) get (valid, short, same, held, other) =
      (
        valid,
        omega (arith, short, more),
        same ∙ same_cap,
        λ q w at. all q w at,
        λ q nothing.
            let apart : bytes_eq k q ≡ false =
              distinct q (λ e. nothing v (0, ap (λ u. some (slot_closed u v)) e)) in
            other q (λ w at. let (i, e) = at in nothing w (suc i, e)) ∙ get q ∙ rw apart refl,
      )
    where
      distinct : (q : Key) → k ≢ q → bytes_eq k q ≡ false
      distinct q ne = elim (Bool-cases (bytes_eq k q)) [
        | inl e ↦ absurd (ne (bytes_eq_eq k q e))
        | inr e ↦ e
      ]

      own : map_get m' k ≡ some v
      own =
          other k (λ w at. let (i, e) = at in absurd (omega (arith, alone 0 (suc i) k v w refl e)))
          ∙ get k
          ∙ rw (bytes_eq_refl k) refl

      all : (q : Key) (w : V) → Held (slot_closed k v ∷ slots) q w → map_get m' q ≡ some w
      all q w (zero, e) =
          let same_key : k ≡ q = cc in
          let same_value : v ≡ w = cc in
          subst (λ u. map_get m' u ≡ some w) same_key (own ∙ ap some same_value)
      all q w (suc i, e) = held q w (i, e)

  copy_slots-inserted :
      (k : Key) (v : V) (slots : List (Slot V)) (new m1 : Map V) (i : ℕ)
      → map_probe new k v ≡ inserted i m1
      → copy_slots (slot_closed k v ∷ slots) new ≡ copy_slots slots m1
  unfolding copy_slots
  copy_slots-inserted k v slots new m1 i e = rw (e, copy_slots) refl

  copy_inserted :
      (k : Key) (v : V) (slots : List (Slot V)) (new : Map V) (r : Insertion V)
      → map_probe new k v ≡ r
      → Inserts new k v r
      → Grows new r
      → new.len + used (slot_closed k v ∷ slots) < new.cap
      → Alone (slot_closed k v ∷ slots)
      → ((q : Key) (w : V) → Held (slot_closed k v ∷ slots) q w → map_get new q ≡ none)
      → ((m1 : Map V)
          → IsValid m1
          → m1.len + used slots < m1.cap
          → ((q : Key) (w : V) → Held slots q w → map_get m1 q ≡ none)
          → Copied slots m1 (copy_slots slots m1))
      → Copied (slot_closed k v ∷ slots) new (copy_slots (slot_closed k v ∷ slots) new)
  copy_inserted k v slots new failed e (u, bad) grows room alone fresh copy = absurd bad
  copy_inserted k v slots new (duplicate m1) e (valid, (u, there), same) grows room alone fresh
        copy =
      let gone = fresh k v (0, refl) in absurd (cc)
  copy_inserted k v slots new (inserted i m1) e (valid, at, gone, get) (same_cap, more) room alone
        fresh copy =
      subst (Copied (slot_closed k v ∷ slots) new) (sym (copy_slots-inserted k v slots new m1 i e))
        (entered k v slots new m1 (copy_slots slots m1) alone (same_cap, more) get
          (copy m1 valid (omega (arith, same_cap, more, room)) fresh'))
    where
      fresh' : (q : Key) (w : V) → Held slots q w → map_get m1 q ≡ none
      fresh' q w (j, at') = elim (Bool-cases (bytes_eq k q)) [
        | inl same ↦
            let at_k : get_elem? slots j ≡ some (slot_closed k w) =
              subst (λ u. get_elem? slots j ≡ some (slot_closed u w)) (sym (bytes_eq_eq k q same))
                at' in
            absurd (omega (arith, alone 0 (suc j) k v w refl at_k))
        | inr other ↦ get q ∙ rw other (fresh q w (suc j, at'))
      ]

  -- The loop over the old buffer leaves a table with room, in which its entries are found, and nothing
  -- that the new table did not have.
  pub copy_slots-Copied :
      (slots : List (Slot V)) (new : Map V)
      → IsValid new
      → new.len + used slots < new.cap
      → Alone slots
      → ((q : Key) (w : V) → Held slots q w → map_get new q ≡ none)
      → Copied slots new (copy_slots slots new)
  unfolding copy_slots
  copy_slots-Copied [] new valid room alone fresh =
      (valid, omega arith, refl, λ q v at. absurd (nowhere q v at), λ q nothing. refl)
    where
      nowhere : (q : Key) (v : V) → Held {V = V} [] q v → ⊥
      nowhere q v (i, e) = cc
  copy_slots-Copied (slot_open ∷ slots) new valid room alone fresh =
      skipped slot_open slots new _ (λ k v e. cc)
        (copy_slots-Copied slots new valid (omega (arith, room)) (Alone-tail slot_open slots alone)
          (λ q w at. let (i, e) = at in fresh q w (suc i, e)))
  copy_slots-Copied (slot_removed k v ∷ slots) new valid room alone fresh =
      skipped (slot_removed k v) slots new _ (λ k' v' e. cc)
        (copy_slots-Copied slots new valid (omega (arith, room))
          (Alone-tail (slot_removed k v) slots alone)
          (λ q w at. let (i, e) = at in fresh q w (suc i, e)))
  copy_slots-Copied (slot_closed k v ∷ slots) new valid room alone fresh =
      copy_inserted k v slots new (map_probe new k v) refl
        (map_probe-Inserts new valid k v (omega (arith, room))) (map_probe-Grows new k v) room alone
        fresh
        (λ m1 valid1 room1 fresh1.
          copy_slots-Copied slots m1 valid1 room1 (Alone-tail (slot_closed k v) slots alone) fresh1)
