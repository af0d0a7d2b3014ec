-- ===== src/Tests/MapExamples.antt =====
-- The properties of the hash table at tables that were filled by its own operations.
use lemon.Base.{ℕ, ◌<◌, ◌≡◌, ◌^◌, ◌-◌, refl, some, [], ◌∷◌, codes, arith}
use lemon.Map
use lemon.Map.{
  Key, Slot, slot_open, slot_closed, Map, map_init, map_insert, map_resize, map_remove, map_set,
  map_get,
}
use lemon.Map.Hash.{slot_index, slot_index-lt}
use lemon.Map.Valid.{IsValid, init-IsValid, map_get-Maps}
use lemon.Map.Update.{Inserts}
use lemon.Map.Writes.{Removes, Sets, map_remove-Removes, map_set-Sets}
use lemon.Map.Insert.{Resized, map_resize-Resized, map_insert-Inserts}

slot_index-lt_example : slot_index (codes "main") 16 < 16
slot_index-lt_example = slot_index-lt (codes "main") 16 (omega arith)

new-IsValid : IsValid (map_init {V = ℕ} 1)
new-IsValid = init-IsValid ℕ 1 (omega arith)

new-small : (map_init {V = ℕ} 1).cap < 2 ^ 64 - 1
unfolding Map.running
new-small = omega arith

-- one entry in one slot
abbrev one : Map ℕ
one = record { len = 1; cap = 1; buf = slot_closed (codes "a") 5 ∷ [] }

one-IsValid : IsValid one
unfolding Map.running
one-IsValid = (map_insert-Inserts (map_init 1) new-IsValid new-small (codes "a") 5).0

-- the insertion finds the table too full, and grows it
map_insert-Inserts_example : Inserts one (codes "b") 6 (map_insert one (codes "b") 6)
map_insert-Inserts_example = map_insert-Inserts one one-IsValid (omega arith) (codes "b") 6

map_resize-Resized_example : Resized one (map_resize one)
map_resize-Resized_example = map_resize-Resized one one-IsValid (omega arith)

map_remove-Removes_example : Removes one (codes "a") (map_remove one (codes "a"))
map_remove-Removes_example = map_remove-Removes one one-IsValid (codes "a")

map_set-Sets_example : Sets one (codes "a") 7 (map_set one (codes "a") 7)
map_set-Sets_example = map_set-Sets one one-IsValid (codes "a") 7

map_get-Maps_example : map_get one (codes "a") ≡ some 5
map_get-Maps_example = map_get-Maps one one-IsValid (codes "a") 5 (0, refl)
