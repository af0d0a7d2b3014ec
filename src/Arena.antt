-- ===== src/Arena.antt =====
-- src/utils/arena.c: a bump allocator whose blocks carry their size in a header of 8 bytes in front.
--
-- An arena that was initialised; addresses are offsets from its start. The headers are kept apart from
-- the bytes of the blocks, as pairs of a block's address and size, the newest first. `none` is NULL.
pub mod Blocks
pub mod Reallocate
use lemon.Base.{
  ℕ, zero, suc, ◌+◌, ◌-◌, ◌%◌, ◌≡◌, Bool, true, false, Option, none, some, List, [], ◌∷◌, ltb, leb,
  ◌==◌, if◌then◌else◌, get_or, set, replicate, size_max, word_mod,
}

-- `Align`; with the mask 15, `x & mask` is `x % 16`
unfoldable pub align : ℕ → ℕ
align bytes =
    let max_multiple = size_max - 16 + 1 in
    if ltb max_multiple bytes then max_multiple else bytes + (16 - bytes % 16) % 16

-- `struct arena`, with the memory that it manages
pub record Arena : Type 0 where
  pub top : ℕ
  pub capacity : ℕ
  pub remaining : ℕ
  pub headers : List (ℕ × ℕ)
  pub memory : List ℕ

-- `ArenaInit`, by whether `calloc` finds memory
unfoldable pub arena_init : Bool → ℕ → Option Arena
arena_init false bytes = none
arena_init true bytes = some (record {
  top = 0;
  capacity = align bytes;
  remaining = align bytes;
  headers = [];
  memory = replicate (align bytes) 0;
})

-- `ArenaAllocate`: the address of the block, and the arena
unfoldable pub arena_allocate : Arena → ℕ → Option (ℕ × Arena)
arena_allocate a bytes =
    let user_bytes = align bytes in
    let total_bytes = (8 + user_bytes) % word_mod in
    if ltb total_bytes user_bytes
    then none
    else if ltb a.remaining total_bytes
    then none
    else some (
      a.top + 8,
      record a {
        top = a.top + total_bytes;
        remaining = a.remaining - total_bytes;
        headers = (a.top + 8, user_bytes) ∷ a.headers;
      },
    )

-- `GetHeader(block)->bytes`; there is a header in front of each block only
unfoldable pub get_header : List (ℕ × ℕ) → ℕ → Option ℕ
get_header [] block = none
get_header ((p, n) ∷ headers) block = if p == block then some n else get_header headers block

-- `memcpy` between two blocks
unfoldable pub memcpy : List ℕ → ℕ → ℕ → ℕ → List ℕ
memcpy memory dest src zero = memory
memcpy memory dest src (suc n) =
    set (memcpy memory dest src n) (dest + n) (get_or memory (src + n) 0)

unfoldable pub move_block : ℕ → ℕ → Option (ℕ × Arena) → Option (ℕ × Arena)
move_block old n none = none
move_block old n (some (new, a)) = some (new, record a { memory = memcpy a.memory new old n })

unfoldable pub resize_block : Arena → ℕ → ℕ → Option ℕ → Option (ℕ × Arena)
resize_block a old bytes none = none
resize_block a old bytes (some n) =
    if leb bytes n then some (old, a) else move_block old n (arena_allocate a bytes)

-- `ArenaReallocate` of a block of the arena
unfoldable pub arena_reallocate : Arena → ℕ → ℕ → Option (ℕ × Arena)
arena_reallocate a old bytes = resize_block a old bytes (get_header a.headers old)
