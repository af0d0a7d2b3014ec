-- ===== src/Map/Insert.antt =====
-- `MapResize_private` and `MapInsert` of src/lib/map.h: a table that grows, and an insertion into it.
use lemon.Base.{
  ◌+◌, ◌*◌, ◌≤◌, ◌<◌, ◌≡◌, sym, ap, ◌∙◌, ◌⊎◌, Bool-cases, inl, inr, true, false, Option, none, some,
  Option-cases, ◌==◌, dec_lt, bytes_eq, if◌then◌else◌, ltb, size_max, arith,
}
use lemon.Map.{
  Key, Map, map_get, map_init, map_probe, Insertion, failed, duplicate, inserted, copy_slots,
  map_resize, probe_resized, map_insert,
}
use lemon.Map.Hash.{map_grow, map_grow-gt, map_grow-le}
use lemon.Map.Valid.{IsValid, map_get-Maps, Maps-map_get, map_get-none, init-IsValid, init-empty}
use lemon.Map.Update.{Inserts, map_probe-Inserts}
use lemon.Map.Resize.{Grows, map_probe-Grows, used-le-length, Copied, copy_slots-Copied}

-- What a resize comes to: a well-formed table with room in which every search finds what it found.
abbrev pub Resized {ℓ} : {V : Type ℓ} → Map V → Option (Map V) → Type ℓ
Resized {V} m none = V × ⊥
Resized m (some m') =
    IsValid m'
    × (m'.len ≤ m.len)
    × (m'.cap ≡ map_grow m.cap)
    × ((q : Key) → map_get m' q ≡ map_get m q)

module _ {ℓ} {V : Type ℓ} (m : Map V) (valid : IsValid m) (small : m.cap < size_max) where
  unused : m.len ≤ m.cap
  unused = omega (arith, used-le-length m.buf, valid.counted, valid.sized.storage)

  larger : m.cap < map_grow m.cap
  larger = map_grow-gt m.cap small

  Copied-Resized : (r : Option (Map V)) → Copied m.buf (map_init (map_grow m.cap)) r → Resized m r
  unfolding map_init
  Copied-Resized none (v, bad) = absurd bad
  Copied-Resized (some m') (valid', short, same, held, other) =
      (valid', omega (arith, short, valid.counted), same, same_get)
    where
      none_some : {v : V} → none ≡ some v → ⊥
      none_some e = cc

      same_get : (q : Key) → map_get m' q ≡ map_get m q
      same_get q = elim (Option-cases (map_get m q)) [
        | inr (v, e) ↦ held q v (Maps-map_get m valid q v e) ∙ sym e
        | inl e ↦
            other q (λ v at. none_some (sym e ∙ map_get-Maps m valid q v at))
            ∙ map_get-none (map_init (map_grow m.cap))
                (init-IsValid V (map_grow m.cap) (omega (arith, larger))) q
                (init-empty V (map_grow m.cap) q)
            ∙ sym e
      ]

  copied : Copied m.buf (map_init (map_grow m.cap)) (copy_slots m.buf (map_init (map_grow m.cap)))
  unfolding map_init
  copied =
      copy_slots-Copied m.buf (map_init (map_grow m.cap))
        (init-IsValid V (map_grow m.cap) (omega (arith, larger)))
        (omega (arith, valid.counted, unused, larger)) valid.unique
        (λ q w at.
          map_get-none (map_init (map_grow m.cap))
            (init-IsValid V (map_grow m.cap) (omega (arith, larger))) q
            (init-empty V (map_grow m.cap) q))

  -- `MapResize_private` of a well-formed table below the largest capacity fails no assertion and
  -- leaves a well-formed table of the next capacity, with no more slots in use, in which every
  -- search finds what it found.
  pub map_resize-Resized : Resized m (map_resize m)
  unfolding map_resize
  map_resize-Resized =
      let below : (m.cap == size_max) ≡ false = ground arith in
      rw below (Copied-Resized (copy_slots m.buf (map_init (map_grow m.cap))) copied)

  after_resize :
      (m' : Map V) (key : Key) (value : V) (r : Insertion V)
      → ((q : Key) → map_get m' q ≡ map_get m q)
      → Inserts m' key value r
      → Inserts m key value r
  after_resize m' key value failed same (v, bad) = (v, bad)
  after_resize m' key value (duplicate m2) same (valid2, (v, there), get) =
      (valid2, (v, sym (same key) ∙ there), λ q. get q ∙ same q)
  after_resize m' key value (inserted i m2) same (valid2, at, gone, get) = (
    valid2,
    at,
    sym (same key) ∙ gone,
    λ q. get q ∙ ap (λ u. if bytes_eq key q then some value else u) (same q),
  )

  probe_resized-Inserts :
      (key : Key) (value : V) (r : Option (Map V))
      → Resized m r
      → Inserts m key value (probe_resized key value r)
  unfolding probe_resized
  probe_resized-Inserts key value none (v, bad) = (v, bad)
  probe_resized-Inserts key value (some m') (valid', short, same, get) =
      after_resize m' key value (map_probe m' key value) get
        (map_probe-Inserts m' valid' key value (omega (arith, short, same, unused, larger)))

  -- `MapInsert` into a well-formed table below the largest capacity fails no assertion and does not
  -- abort, whether it resizes or not. A key that has a value is refused, and every search finds what it
  -- found; for another key the entry stands in the slot that is returned, a search finds the new value
  -- for the key and what it found for every other. The table is well formed after it.
  pub map_insert-Inserts : (key : Key) (value : V) → Inserts m key value (map_insert m key value)
  unfolding map_insert
  map_insert-Inserts key value =
      let countable : (m.len == size_max) ≡ false = ground (arith, unused) in
      rw countable (elim (dec_lt m.cap (2 * m.len)) [
        | yes heavy ↦
            let e : ltb m.cap (2 * m.len) ≡ true = ground arith in
            rw e (probe_resized-Inserts key value (map_resize m) map_resize-Resized)
        | no light ↦
            let e : ltb m.cap (2 * m.len) ≡ false = ground arith in
            rw e (map_probe-Inserts m valid key value (omega (arith, valid.sized.pos)))
      ])

-- The most that an insertion adds: one slot in use, none where the key exists, and a resize only where more than half of them are.
abbrev pub Extends {ℓ} : {V : Type ℓ} → Map V → Insertion V → Type 0
Extends m failed = Unit
Extends m (duplicate m') =
    (m'.len ≤ m.len) × ((m'.cap ≡ m.cap) ⊎ ((m.cap < 2 * m.len) × (m'.cap ≡ map_grow m.cap)))
Extends m (inserted i m') =
    (m'.len ≤ m.len + 1) × ((m'.cap ≡ m.cap) ⊎ ((m.cap < 2 * m.len) × (m'.cap ≡ map_grow m.cap)))

module _ {ℓ} {V : Type ℓ} (m : Map V) (valid : IsValid m) (small : m.cap < size_max) where
  probed-Extends : (key : Key) (value : V) (r : Insertion V) → Grows m r → Extends m r
  probed-Extends key value failed grows = tt
  probed-Extends key value (duplicate m') (same, more) = (omega (arith, more), inl same)
  probed-Extends key value (inserted i m') (same, more) = (omega (arith, more), inl same)

  resized-Extends :
      (m1 : Map V) (r : Insertion V)
      → m1.len ≤ m.len
      → m1.cap ≡ map_grow m.cap
      → m.cap < 2 * m.len
      → Grows m1 r
      → Extends m r
  resized-Extends m1 failed short cap heavy grows = tt
  resized-Extends m1 (duplicate m') short cap heavy (same, more) =
      (omega (arith, more, short), inr (heavy, same ∙ cap))
  resized-Extends m1 (inserted i m') short cap heavy (same, more) =
      (omega (arith, more, short), inr (heavy, same ∙ cap))

  probe_resized-Extends :
      (key : Key) (value : V) (r : Option (Map V))
      → Resized m r
      → m.cap < 2 * m.len
      → Extends m (probe_resized key value r)
  unfolding probe_resized
  probe_resized-Extends key value none (v, bad) heavy = tt
  probe_resized-Extends key value (some m1) (valid1, short, cap, get) heavy =
      resized-Extends m1 (map_probe m1 key value) short cap heavy (map_probe-Grows m1 key value)

  -- `MapInsert` takes one slot more at most, and grows the buffer only where more than half is in use.
  pub map_insert-Extends : (key : Key) (value : V) → Extends m (map_insert m key value)
  unfolding map_insert
  map_insert-Extends key value = elim (Bool-cases (m.len == size_max)) [
    | inl full ↦ rw full tt
    | inr countable ↦ rw countable (elim (dec_lt m.cap (2 * m.len)) [
      | yes heavy ↦
          let e : ltb m.cap (2 * m.len) ≡ true = ground arith in
          rw e (
            probe_resized-Extends key value (map_resize m) (map_resize-Resized m valid small) heavy)
      | no light ↦
          let e : ltb m.cap (2 * m.len) ≡ false = ground arith in
          rw e (probed-Extends key value (map_probe m key value) (map_probe-Grows m key value))
    ])
  ]

-- an insertion that comes back leaves a well-formed table within the capacities of the code
abbrev pub Sane {ℓ} : {V : Type ℓ} → Insertion V → Type ℓ
Sane failed = Unit
Sane (duplicate m') = IsValid m' × (m'.cap ≤ size_max)
Sane (inserted i m') = IsValid m' × (m'.cap ≤ size_max)

module _ {ℓ} {V : Type ℓ} (m : Map V) (valid : IsValid m) (bounded : m.cap ≤ size_max) where
  below_largest :
      (key : Key) (value : V) (r : Insertion V)
      → m.cap < size_max
      → Inserts m key value r
      → Extends m r
      → Sane r
  below_largest key value failed small at extends = tt
  below_largest key value (duplicate m') small (valid', has, get) (len, inl same) =
      (valid', omega (arith, same, bounded))
  below_largest key value (duplicate m') small (valid', has, get) (len, inr (heavy, grown)) =
      (valid', omega (arith, grown, map_grow-le m.cap))
  below_largest key value (inserted i m') small (valid', at, gone, get) (len, inl same) =
      (valid', omega (arith, same, bounded))
  below_largest key value (inserted i m') small (valid', at, gone, get) (len, inr (heavy, grown)) =
      (valid', omega (arith, grown, map_grow-le m.cap))

  at_largest :
      (key : Key) (value : V) (r : Insertion V) → Inserts m key value r → Grows m r → Sane r
  at_largest key value failed at grows = tt
  at_largest key value (duplicate m') (valid', has, get) (same, more) =
      (valid', omega (arith, same, bounded))
  at_largest key value (inserted i m') (valid', at, gone, get) (same, more) =
      (valid', omega (arith, same, bounded))

  probe_largest : (key : Key) (value : V) → Sane (map_probe m key value)
  unfolding map_probe
  probe_largest key value = elim (dec_lt m.len m.cap) [
    | yes room ↦
        at_largest key value (map_probe m key value) (map_probe-Inserts m valid key value room)
          (map_probe-Grows m key value)
    | no full ↦ no_room full
  ]
    where
      no_room : ¬ (m.len < m.cap) → Sane (map_probe m key value)
      no_room full = let e : ltb m.len m.cap ≡ false = ground arith in rw e (tt)

  -- `MapInsert` into a well-formed table, also one of the largest capacity.
  pub map_insert-Sane : (key : Key) (value : V) → Sane (map_insert m key value)
  unfolding map_insert map_resize probe_resized
  map_insert-Sane key value = elim (dec_lt m.cap size_max) [
    | yes small ↦
        below_largest key value (map_insert m key value) small
          (map_insert-Inserts m valid small key value) (map_insert-Extends m valid small key value)
    | no large ↦ largest (omega (arith, bounded, large))
  ]
    where
      largest : m.cap ≡ size_max → Sane (map_insert m key value)
      largest e =
          let last : (m.cap == size_max) ≡ true = ground arith in
          elim (Bool-cases (m.len == size_max)) [
            | inl h ↦ rw h tt
            | inr h ↦ rw h (elim (Bool-cases (ltb m.cap (2 * m.len))) [
              | inl h' ↦ rw (h', last) (probe_largest key value)
              | inr h' ↦ rw h' (probe_largest key value)
            ])
          ]
