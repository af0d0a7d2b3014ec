-- ===== src/Map.antt =====
-- src/lib/map.h: a hash table from byte strings to values with linear probing.
--
-- A slot's address is its index in `buf`. Keys are strings without NUL, and `MapMatch` is equality.
-- The test of the load factor, `(double) len / (double) cap > 0.5`, is exact below 2 ^ 53 slots, where
-- the quotient of two such numbers is never rounded to 0.5: it is written `cap < 2 * len` here.
pub mod Hash
pub mod Probe
pub mod Valid
pub mod Update
pub mod Writes
pub mod Resize
pub mod Insert
use lemon.Base.{
  ℕ, zero, suc, ◌+◌, ◌*◌, ◌%◌, ◌<◌, Bool, true, false, Option, none, some, List, [], ◌∷◌, ltb, ◌==◌,
  if◌then◌else◌, bytes_eq, get_or, set, replicate, size_max,
}
use lemon.Map.Hash.{map_grow, slot_index}

abbrev pub Key : Type 0
Key = List ℕ

-- `struct pfix_slot` with its status
pub data Slot {ℓ} (V : Type ℓ) : Type ℓ where
  slot_open : Slot V
  slot_closed slot_removed : Key → V → Slot V

-- `struct pfix_map`
pub record Map {ℓ} (V : Type ℓ) : Type ℓ where
  pub len : ℕ
  pub cap : ℕ
  pub buf : List (Slot V)

-- how the loop of `MapProbe_private` ends; `endless` is its running out of fuel
pub data Probed : Type 0 where
  vacant : ℕ → Probed
  exists endless : Probed

-- how the loop that `MapGet`, `MapGetRef`, `MapSet` and `MapRemove` share ends
pub data Search : Type 0 where
  found : ℕ → Search
  absent unending : Search

-- what `MapInsert` returns: NULL for a key that exists, the slot of the new entry, or no return (an
-- abort, or a failed assertion)
pub data Insertion {ℓ} (V : Type ℓ) : Type ℓ where
  failed : Insertion V
  duplicate : Map V → Insertion V
  inserted : ℕ → Map V → Insertion V

module _ {ℓ} {V : Type ℓ} where
  -- `MapInit`
  unfoldable pub map_init : ℕ → Map V
  map_init capacity = record { len = 0; cap = capacity; buf = replicate capacity slot_open }

  -- one round of the loop of `MapProbe_private`, with the rounds that follow it
  unfoldable pub probe_slot : Key → ℕ → Probed → Slot V → Probed
  probe_slot key i rest slot_open = vacant i
  probe_slot key i rest (slot_closed k v) = if bytes_eq key k then exists else rest
  probe_slot key i rest (slot_removed k v) = rest

  -- the loop of `MapProbe_private`, on fuel
  unfoldable pub probe_loop : ℕ → Map V → Key → ℕ → Probed
  probe_loop zero m key i = endless
  probe_loop (suc fuel) m key i =
      let rest = probe_loop fuel m key ((i + 1) % m.cap) in
      probe_slot key i rest (get_or m.buf i slot_open)

  unfoldable pub fill : Map V → Key → V → Probed → Insertion V
  fill m key value endless = failed
  fill m key value exists = duplicate m
  fill m key value (vacant i) =
      inserted i (record m { len = m.len + 1; buf = set m.buf i (slot_closed key value) })

  -- `MapProbe_private`; `failed` is also its `assert(self->len < self->cap)`
  unfoldable pub map_probe : Map V → Key → V → Insertion V
  map_probe m key value =
      if ltb m.len m.cap
      then fill m key value (probe_loop m.cap m key (slot_index key m.cap))
      else failed

  -- the loop of `MapResize_private` over the old buffer
  unfoldable pub copy_slots : List (Slot V) → Map V → Option (Map V)
  copy_slots [] new = some new
  copy_slots (slot_open ∷ slots) new = copy_slots slots new
  copy_slots (slot_removed k v ∷ slots) new = copy_slots slots new
  copy_slots (slot_closed k v ∷ slots) new = elim (map_probe new k v) [
    | inserted i new' ↦ copy_slots slots new'
    | duplicate new' ↦ none
    | failed ↦ none
  ]

  -- `MapResize_private`; `none` is a failed assertion
  unfoldable pub map_resize : Map V → Option (Map V)
  map_resize m = if m.cap == size_max then some m else copy_slots m.buf (map_init (map_grow m.cap))

  unfoldable pub probe_resized : Key → V → Option (Map V) → Insertion V
  probe_resized key value none = failed
  probe_resized key value (some m) = map_probe m key value

  -- `MapInsert`
  unfoldable pub map_insert : Map V → Key → V → Insertion V
  map_insert m key value =
      if m.len == size_max
      then failed
      else if ltb m.cap (2 * m.len)
      then probe_resized key value (map_resize m)
      else map_probe m key value

  unfoldable pub search_slot : Key → ℕ → Search → Slot V → Search
  search_slot key i rest slot_open = absent
  search_slot key i rest (slot_closed k v) = if bytes_eq k key then found i else rest
  search_slot key i rest (slot_removed k v) = rest

  -- the shared `do ... while (i != start)`, on fuel
  unfoldable pub search_loop : ℕ → Map V → Key → ℕ → ℕ → Search
  search_loop zero m key start i = unending
  search_loop (suc fuel) m key start i =
      let next = (i + 1) % m.cap in
      let rest = search_loop fuel m key start next in
      search_slot key i (if next == start then absent else rest) (get_or m.buf i slot_open)

  unfoldable pub search : Map V → Key → Search
  search m key = let start = slot_index key m.cap in search_loop m.cap m key start start

  unfoldable pub value_of : Slot V → Option V
  value_of (slot_closed k v) = some v
  value_of _ = none

  unfoldable pub value_at : Map V → Search → Option V
  value_at m (found i) = value_of (get_or m.buf i slot_open)
  value_at m _ = none

  -- `MapGet`, and `MapGetRef` with the value that its pointer shows
  unfoldable pub map_get : Map V → Key → Option V
  map_get m key = value_at m (search m key)

  unfoldable pub removed_slot : Slot V → Slot V
  removed_slot (slot_closed k v) = slot_removed k v
  removed_slot s = s

  unfoldable pub remove_at : Map V → Search → Bool × Map V
  remove_at m (found i) =
      (true, record m { buf = set m.buf i (removed_slot (get_or m.buf i slot_open)) })
  remove_at m _ = (false, m)

  -- `MapRemove`
  unfoldable pub map_remove : Map V → Key → Bool × Map V
  map_remove m key = remove_at m (search m key)

  unfoldable pub set_slot : V → Slot V → Slot V
  set_slot value (slot_closed k v) = slot_closed k value
  set_slot value s = s

  unfoldable pub set_at : Map V → V → Search → Bool × Map V
  set_at m value (found i) =
      (true, record m { buf = set m.buf i (set_slot value (get_or m.buf i slot_open)) })
  set_at m value _ = (false, m)

  -- `MapSet`
  unfoldable pub map_set : Map V → Key → V → Bool × Map V
  map_set m key value = set_at m value (search m key)

-- for the runs of the code at concrete tables
unfoldable pub running : Unit {0}
unfolding map_init probe_slot probe_loop fill map_probe copy_slots map_resize probe_resized
    map_insert search_slot search_loop search value_of value_at map_get removed_slot remove_at
    map_remove set_slot set_at map_set Hash.map_grow Hash.fnv_loop Hash.map_fnv1a Hash.map_scale
    Hash.slot_index
running = tt
