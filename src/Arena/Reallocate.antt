-- ===== src/Arena/Reallocate.antt =====
-- `ArenaReallocate` of src/utils/arena.c: what the block that it gives holds.
use lemon.Base.{
  option_some, ℕ, zero, suc, ◌+◌, ◌-◌, ◌≤◌, ◌<◌, ◌≡◌, refl, sym, ap, subst, ◌∙◌, ◌≢◌, ◌⊎◌, inl, inr,
  true, false, none, some, List, [], ◌∷◌, leb, ◌==◌, ==_iff, Bool-cases, get_or, get_elem?, set,
  length, length-set, get_elem?-set_self, get_elem?-set_ne, get_elem?-eq-get_or, dec_lt, ℕ_discrete,
  arith,
}
use lemon.Arena.{align, Arena, get_header, memcpy, move_block, resize_block, arena_reallocate}
use lemon.Arena.Blocks.{Packed, IsValid, align-ge, arena_allocate_lem}

memcpy-length :
    (memory : List ℕ) (dest src n : ℕ) → length (memcpy memory dest src n) ≡ length memory
unfolding memcpy
memcpy-length memory dest src zero = refl
memcpy-length memory dest src (suc n) =
    length-set (memcpy memory dest src n) (dest + n) _ ∙ memcpy-length memory dest src n

-- `memcpy` writes the bytes of its destination only
memcpy-outside :
    (memory : List ℕ) (dest src n j : ℕ)
    → (j < dest) ⊎ (dest + n ≤ j)
    → get_elem? (memcpy memory dest src n) j ≡ get_elem? memory j
unfolding memcpy
memcpy-outside memory dest src zero j out = refl
memcpy-outside memory dest src (suc n) j out =
    get_elem?-set_ne (memcpy memory dest src n) (dest + n) j _ (apart out)
    ∙ memcpy-outside memory dest src n j (still out)
  where
    apart : (j < dest) ⊎ (dest + suc n ≤ j) → dest + n ≢ j
    apart (inl h) = omega arith
    apart (inr h) = omega arith

    still : (j < dest) ⊎ (dest + suc n ≤ j) → (j < dest) ⊎ (dest + n ≤ j)
    still (inl h) = inl h
    still (inr h) = inr (omega arith)

-- and the bytes of its source to there
memcpy-inside :
    (memory : List ℕ) (dest src n i : ℕ)
    → dest + n ≤ length memory
    → src + n ≤ length memory
    → i < n
    → get_elem? (memcpy memory dest src n) (dest + i) ≡ get_elem? memory (src + i)
unfolding memcpy
memcpy-inside memory dest src zero i room there lt = absurd (omega arith)
memcpy-inside memory dest src (suc n) i room there lt = elim (ℕ_discrete i n) [
  | yes last ↦
      let e : dest + i ≡ dest + n = omega arith in
      let e' : src + n ≡ src + i = omega arith in
      ap (get_elem? (set (memcpy memory dest src n) (dest + n) (get_or memory (src + n) 0))) e
      ∙ get_elem?-set_self (memcpy memory dest src n) (dest + n) _
          (omega (arith, memcpy-length memory dest src n))
      ∙ sym (get_elem?-eq-get_or memory (src + n) 0 (omega arith))
      ∙ ap (get_elem? memory) e'
  | no before ↦
      get_elem?-set_ne (memcpy memory dest src n) (dest + n) (dest + i) _ (omega arith)
      ∙ memcpy-inside memory dest src n i (omega arith) (omega arith) (omega arith)
]

get_header-Packed :
    (top : ℕ) (headers : List (ℕ × ℕ)) (block n : ℕ)
    → Packed top headers
    → get_header headers block ≡ some n
    → block + n ≤ top
unfolding get_header
get_header-Packed top [] block n packed e = absurd (cc)
get_header-Packed top ((p, k) ∷ headers) block n (size, room, packed) e =
    elim (Bool-cases (p == block)) [
      | inl same ↦
          let here : p ≡ block = (==_iff p block).0 same in
          let is : k ≡ n = option_some (sym (rw same refl) ∙ e) in omega arith
      | inr other ↦
          let further = get_header-Packed (p - 8) headers block n packed (rw other at e) in
          omega (arith, further)
    ]

-- the new block, with the bytes of the old one in it
module _ (a : Arena) (old n size : ℕ) (a1 : Arena) (valid1 : IsValid a1)
    (headers1 : a1.headers ≡ (a.top + 8, size) ∷ a.headers) (memory1 : a1.memory ≡ a.memory)
    (inside : a.top + 8 + size ≤ length a1.memory) (fits : n ≤ size)
    (old_end : old + n ≤ a.top) where
  abbrev moved : Arena
  moved = record a1 { memory = memcpy a1.memory (a.top + 8) old n }

  ends : a.top + 8 + size ≡ a1.top
  ends =
      let packed1 : Packed a1.top ((a.top + 8, size) ∷ a.headers) =
        subst (Packed a1.top) headers1 valid1.packed in
      packed1.0

  moved-IsValid : IsValid moved
  moved-IsValid = record {
    split = valid1.split;
    storage = memcpy-length a1.memory (a.top + 8) old n ∙ valid1.storage;
    addressable = valid1.addressable;
    packed = valid1.packed;
    zeroed = λ i from to.
        memcpy-outside a1.memory (a.top + 8) old n i (inr (omega (arith, ends)))
        ∙ valid1.zeroed i from to;
  }

  moved_bytes :
      (i : ℕ) → i < n → get_elem? moved.memory (a.top + 8 + i) ≡ get_elem? a.memory (old + i)
  moved_bytes i lt =
      memcpy-inside a1.memory (a.top + 8) old n i (omega arith) (omega arith) lt
      ∙ ap (λ us. get_elem? us (old + i)) memory1

  moved_rest :
      ((i : ℕ) → i < size → get_elem? a1.memory (a.top + 8 + i) ≡ some 0)
      → (i : ℕ) → n ≤ i
      → i < size
      → get_elem? moved.memory (a.top + 8 + i) ≡ some 0
  moved_rest zero1 i from to =
      memcpy-outside a1.memory (a.top + 8) old n (a.top + 8 + i) (inr (omega arith)) ∙ zero1 i to

  moved_others : (j : ℕ) → j < a.top + 8 → get_elem? moved.memory j ≡ get_elem? a.memory j
  moved_others j lt =
      memcpy-outside a1.memory (a.top + 8) old n j (inl lt) ∙ ap (λ us. get_elem? us j) memory1

-- `ArenaReallocate` of a block of a well-formed arena gives the block itself if it is large enough. If
-- not, and the new size fits what remains, it gives a new block, behind all others, that begins with the
-- bytes of the old one and is zero from there on, and leaves the other blocks and their bytes as they
-- are; else it gives NULL.
pub arena_reallocate_lem :
    (a : Arena) (old n bytes : ℕ)
    → IsValid a
    → get_header a.headers old ≡ some n
    → ((bytes ≤ n) × (arena_reallocate a old bytes ≡ some (old, a)))
      ⊎ ((n < bytes)
          × (8 + align bytes ≤ a.remaining)
          × ((a' : Arena) × (arena_reallocate a old bytes ≡ some (a.top + 8, a'))
              × IsValid a'
              × (a'.headers ≡ (a.top + 8, align bytes) ∷ a.headers)
              × ((i : ℕ)
                  → i < n
                  → get_elem? a'.memory (a.top + 8 + i) ≡ get_elem? a.memory (old + i))
              × ((i : ℕ) → n ≤ i → i < align bytes → get_elem? a'.memory (a.top + 8 + i) ≡ some 0)
              × ((j : ℕ) → j < a.top + 8 → get_elem? a'.memory j ≡ get_elem? a.memory j)))
      ⊎ ((n < bytes) × (a.remaining < 8 + align bytes) × (arena_reallocate a old bytes ≡ none))
unfolding arena_reallocate resize_block move_block
arena_reallocate_lem a old n bytes valid known = elim (dec_lt n bytes) [
  | no enough ↦ let e : leb bytes n ≡ true = ground arith in inl (omega arith, rw (known, e) refl)
  | yes more ↦
      let e : leb bytes n ≡ false = ground arith in
      elim (arena_allocate_lem a bytes valid) [
        | inr (short, null) ↦ inr (inr (more, short, rw (known, e, null) refl))
        | inl (fits, (a1, got, valid1, headers1, memory1, inside, zero1)) ↦
            let size : bytes ≤ align bytes =
              align-ge bytes (omega (arith, valid.split, valid.addressable)) in
            let old_end = get_header-Packed a.top a.headers old n valid.packed known in
            let room : a.top + 8 + align bytes ≤ length a1.memory =
              omega (arith, inside, valid.storage, ap length memory1) in
            let holds : n ≤ align bytes = omega arith in
            inr (
              inl (
                more,
                fits,
                (
                  moved a old n (align bytes) a1 valid1 headers1 memory1 room holds old_end,
                  rw (known, e, got) refl,
                  moved-IsValid a old n (align bytes) a1 valid1 headers1 memory1 room holds old_end,
                  headers1,
                  moved_bytes a old n (align bytes) a1 valid1 headers1 memory1 room holds old_end,
                  moved_rest a old n (align bytes) a1 valid1 headers1 memory1 room holds old_end
                      zero1,
                  moved_others a old n (align bytes) a1 valid1 headers1 memory1 room holds old_end,
                ),
              ))
      ]
]
