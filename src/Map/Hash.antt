-- ===== src/Map/Hash.antt =====
-- The growth of the capacity and the hash of src/lib/map.h.
use lemon.Base.{
  ℕ, suc, ◌*◌, ◌/◌, ◌%◌, ◌≤◌, ◌<◌, ◌≡◌, List, [], ◌∷◌, leb, ◌==◌, if◌then◌else◌, bit_xor, size_max,
  word_mod, arith,
}
use native.Mathlib.Nat.{mod-lt, mul-le-mul_right}

-- `MapGrow`, and `VectorGrow` of src/lib/vector.h
unfoldable pub map_grow : ℕ → ℕ
map_grow curr_capacity =
    if curr_capacity == 0
    then 1
    else if leb (size_max / 2) curr_capacity
    then size_max
    else curr_capacity * 2

-- the loop of `MapFNV1a`
unfoldable pub fnv_loop : ℕ → List ℕ → ℕ
fnv_loop hash [] = hash
fnv_loop hash (c ∷ cs) = fnv_loop (bit_xor hash c * 1099511628211 % word_mod) cs

-- `MapFNV1a`
unfoldable pub map_fnv1a : List ℕ → ℕ
map_fnv1a cstr = fnv_loop 14695981039346656037 cstr

-- `MapScale`; the product of two 64-bit numbers fits its 128 bits
unfoldable pub map_scale : ℕ → ℕ → ℕ
map_scale value upper_bound = value * upper_bound / word_mod

-- `MapGetSlotIndex`
unfoldable pub slot_index : List ℕ → ℕ → ℕ
slot_index cstr upper_bound = map_scale (map_fnv1a cstr) upper_bound

-- A capacity at least doubles until it reaches the largest.
pub map_grow_lem : (c : ℕ) → 0 < c → c < size_max / 2 → map_grow c ≡ 2 * c
unfolding map_grow
map_grow_lem c pos small = ground arith

-- Below the largest capacity the next one is larger.
pub map_grow-gt : (c : ℕ) → c < size_max → c < map_grow c
unfolding map_grow
map_grow-gt c small = ground arith

pub map_grow-le : (c : ℕ) → map_grow c ≤ size_max
unfolding map_grow
map_grow-le c = ground arith

fnv_loop-lt : (hash : ℕ) (cs : List ℕ) → hash < word_mod → fnv_loop hash cs < word_mod
unfolding fnv_loop
fnv_loop-lt hash [] h = h
fnv_loop-lt hash (c ∷ cs) h =
    fnv_loop-lt (bit_xor hash c * 1099511628211 % word_mod) cs
      (mod-lt (bit_xor hash c * 1099511628211) {m = word_mod} (omega arith))

map_scale-lt : (v u : ℕ) → v < word_mod → 0 < u → map_scale v u < u
unfolding map_scale
map_scale-lt v u h pos =
    let product : suc v * u ≤ word_mod * u = mul-le-mul_right u h in omega (arith, product)

-- The index that the hash of a key gives is below the capacity, if that is not 0.
pub slot_index-lt : (key : List ℕ) (c : ℕ) → 0 < c → slot_index key c < c
unfolding slot_index map_fnv1a
slot_index-lt key c pos = map_scale-lt _ c (fnv_loop-lt _ key (omega arith)) pos
