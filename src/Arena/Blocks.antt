-- ===== src/Arena/Blocks.antt =====
-- The blocks that src/utils/arena.c gives out: their sizes, that they keep apart, and what they hold.
use lemon.Base.{
  ℕ, ◌+◌, ◌-◌, ◌%◌, ◌≤◌, ◌<◌, ◌≡◌, refl, subst, ◌⊎◌, inl, inr, true, false, none, some, List, [],
  ◌∷◌, ltb, get_elem?, length, get_elem?-replicate, length-replicate, size_max, word_mod, dec_lt,
  arith,
}
use lemon.Arena.{align, Arena, arena_init, arena_allocate}
use native.Mathlib.Nat.{mod-eq_of_lt}

-- Blocks one behind the other up to an address, each with its header of 8 bytes in front.
abbrev pub Packed : ℕ → List (ℕ × ℕ) → Type 0
Packed top [] = top ≡ 0
Packed top ((p, n) ∷ headers) = (p + n ≡ top) × (8 ≤ p) × Packed (p - 8) headers

-- The invariant: the blocks lie one behind the other, with nothing between them but headers, and the
-- memory behind the last is zero.
pub record IsValid (a : Arena) : Type 0 where
  pub split : a.top + a.remaining ≡ a.capacity
  pub storage : length a.memory ≡ a.capacity
  pub addressable : a.capacity ≤ word_mod - 16
  pub packed : Packed a.top a.headers
  pub zeroed : (i : ℕ) → a.top ≤ i → i < a.capacity → get_elem? a.memory i ≡ some 0

-- `Align` rounds up to the next multiple of 16 where that is a 64-bit number.
pub align_lem :
    (bytes : ℕ)
    → bytes ≤ word_mod - 16
    → (align bytes % 16 ≡ 0) × (bytes ≤ align bytes) × (align bytes < bytes + 16)
unfolding align
align_lem bytes small =
    let e : ltb (size_max - 16 + 1) bytes ≡ false = ground arith in
    rw e (omega arith, omega arith, omega arith)

align-le : (bytes : ℕ) → align bytes ≤ word_mod - 16
unfolding align
align-le bytes = elim (dec_lt (size_max - 16 + 1) bytes) [
  | yes big ↦ let e : ltb (size_max - 16 + 1) bytes ≡ true = ground arith in rw e (omega arith)
  | no small ↦ let e : ltb (size_max - 16 + 1) bytes ≡ false = ground arith in rw e (omega arith)
]

pub align-ge : (bytes : ℕ) → align bytes < word_mod - 16 → bytes ≤ align bytes
unfolding align
align-ge bytes = elim (dec_lt (size_max - 16 + 1) bytes) [
  | yes big ↦ let e : ltb (size_max - 16 + 1) bytes ≡ true = ground arith in rw e (λ h. omega arith)
  | no small ↦
      let e : ltb (size_max - 16 + 1) bytes ≡ false = ground arith in rw e (λ h. omega arith)
]

-- If `calloc` finds memory, `ArenaInit` gives a well-formed arena of the aligned capacity.
arena_init-IsValid :
    (bytes : ℕ)
    → (a : Arena) × (arena_init true bytes ≡ some a) × IsValid a × (a.capacity ≡ align bytes)
unfolding arena_init
arena_init-IsValid bytes = (
  _,
  refl,
  record {
    split = omega arith;
    storage = length-replicate (align bytes) 0;
    addressable = omega (arith, align-le bytes);
    packed = refl;
    zeroed = λ i from to. get_elem?-replicate (align bytes) i 0 to;
  },
  refl,
)

-- From a well-formed arena `ArenaAllocate` gives a block if its aligned size and the header fit what
-- remains: the block begins behind all others and the header, lies within the capacity, is zero, and
-- leaves the other blocks and their bytes as they are. If they do not fit, it gives NULL.
pub arena_allocate_lem :
    (a : Arena) (bytes : ℕ)
    → IsValid a
    → ((8 + align bytes ≤ a.remaining)
        × ((a' : Arena) × (arena_allocate a bytes ≡ some (a.top + 8, a'))
            × IsValid a'
            × (a'.headers ≡ (a.top + 8, align bytes) ∷ a.headers)
            × (a'.memory ≡ a.memory)
            × (a.top + 8 + align bytes ≤ a.capacity)
            × ((i : ℕ) → i < align bytes → get_elem? a'.memory (a.top + 8 + i) ≡ some 0)))
      ⊎ ((a.remaining < 8 + align bytes) × (arena_allocate a bytes ≡ none))
unfolding arena_allocate
arena_allocate_lem a bytes valid =
    let bound = align-le bytes in
    let total : (8 + align bytes) % word_mod ≡ 8 + align bytes =
      mod-eq_of_lt (omega (arith, bound)) in
    let no_overflow : ltb (8 + align bytes) (align bytes) ≡ false = ground arith in
    elim (dec_lt a.remaining (8 + align bytes)) [
      | yes short ↦
          let e : ltb a.remaining (8 + align bytes) ≡ true = ground arith in
          inr (short, rw (total, no_overflow, e) refl)
      | no fits ↦
          let e : ltb a.remaining (8 + align bytes) ≡ false = ground arith in
          inl (
            omega arith,
            rw (total, no_overflow, e)
                (
                  _,
                  refl,
                  record {
                    split = omega (arith, valid.split);
                    storage = valid.storage;
                    addressable = valid.addressable;
                    packed = (
                      omega arith,
                      omega arith,
                      subst (λ t. Packed t a.headers) (omega arith) valid.packed,
                    );
                    zeroed = λ i from to. valid.zeroed i (omega arith) to;
                  },
                  refl,
                  refl,
                  omega (arith, valid.split),
                  λ i lt. valid.zeroed (a.top + 8 + i) (omega arith) (omega (arith, valid.split)),
                ),
          )
    ]
