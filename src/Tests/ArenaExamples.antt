-- ===== src/Tests/ArenaExamples.antt =====
-- The properties of the arena at one with a block.
use lemon.Base.{
  ℕ, ◌+◌, ◌≤◌, ◌<◌, ◌≡◌, refl, ◌⊎◌, none, some, [], ◌∷◌, get_elem?, replicate, length-replicate,
  get_elem?-replicate, arith,
}
use lemon.Arena
use lemon.Arena.{Arena, align, arena_init, arena_allocate, arena_reallocate}
use lemon.Arena.Blocks.{IsValid, arena_allocate_lem}
use lemon.Arena.Reallocate.{arena_reallocate_lem}

-- one block of 16 bytes
abbrev one : Arena
one = record {
  top = 24;
  capacity = 64;
  remaining = 40;
  headers = (8, 16) ∷ [];
  memory = replicate 64 0;
}

one-IsValid : IsValid one
one-IsValid = record {
  split = refl;
  storage = length-replicate {A = ℕ} 64 0;
  addressable = omega arith;
  packed = (refl, omega arith, refl);
  zeroed = λ i from to. get_elem?-replicate 64 i 0 to;
}

arena_allocate_lem_example :
    ((8 + align 5 ≤ one.remaining)
      × ((a' : Arena) × (arena_allocate one 5 ≡ some (one.top + 8, a'))
          × IsValid a'
          × (a'.headers ≡ (one.top + 8, align 5) ∷ one.headers)
          × (a'.memory ≡ one.memory)
          × (one.top + 8 + align 5 ≤ one.capacity)
          × ((i : ℕ) → i < align 5 → get_elem? a'.memory (one.top + 8 + i) ≡ some 0)))
    ⊎ ((one.remaining < 8 + align 5) × (arena_allocate one 5 ≡ none))
arena_allocate_lem_example = arena_allocate_lem one 5 one-IsValid

known : Arena.get_header one.headers 8 ≡ some 16
unfolding Arena.get_header
known = refl

arena_reallocate_lem_example :
    ((17 ≤ 16) × (arena_reallocate one 8 17 ≡ some (8, one)))
    ⊎ ((16 < 17)
        × (8 + align 17 ≤ one.remaining)
        × ((a' : Arena) × (arena_reallocate one 8 17 ≡ some (one.top + 8, a'))
            × IsValid a'
            × (a'.headers ≡ (one.top + 8, align 17) ∷ one.headers)
            × ((i : ℕ)
                → i < 16
                → get_elem? a'.memory (one.top + 8 + i) ≡ get_elem? one.memory (8 + i))
            × ((i : ℕ) → 16 ≤ i → i < align 17 → get_elem? a'.memory (one.top + 8 + i) ≡ some 0)
            × ((j : ℕ) → j < one.top + 8 → get_elem? a'.memory j ≡ get_elem? one.memory j)))
    ⊎ ((16 < 17) × (one.remaining < 8 + align 17) × (arena_reallocate one 8 17 ≡ none))
arena_reallocate_lem_example = arena_reallocate_lem one 8 16 17 one-IsValid known
