-- ===== src/Resolver/Begins.antt =====
-- `SymTableInit` leaves a tree in order: the start of phase 2 of src/resolver.c.
use lemon.Base.{
  ℕ, ◌+◌, ◌%◌, ◌^◌, ◌≤◌, ◌≡◌, refl, sym, subst, inl, inr, Option, none, some, List, [], ◌∷◌,
  get_elem?, get_elem?-snoc, length, size_max,
}
use lemon.Map.{Key}
use lemon.Map.Hash.{map_grow}
use lemon.Map.Valid.{init-IsValid}
use lemon.Resolver.Frames.{Frame, insert_symbol, after_insert}
use lemon.Resolver.Primitives.{insert_symbol-Steady, new_table_cap}
use lemon.Resolver.Steady.{Sound, InRange, Kept, Leaves, Kept-trans, Kept-refl, Kept-InRange}
use lemon.SymTable
use lemon.SymTable.{
  Symbol, native, Table, table_global, Store, Entered, entered, already, sym_table_insert,
  insert_natives, natives, populate, sym_table_init, sym_table_spawn,
}
use lemon.SymTable.Spawning.{longer-IsScoped, new_table, map_grow-pos}

-- an insertion that comes back keeps the tree in order
pub insertion :
    (key : Key) (value : Symbol) (s : Frame) (slot : ℕ) (store : Store)
    → Sound s.store
    → InRange s
    → sym_table_insert s.store s.top key value ≡ entered slot store
    → Kept s (record s { store = store })
unfolding insert_symbol after_insert
insertion key value s slot store sound range e =
    let l = (insert_symbol-Steady key value).run s sound range in
    subst (λ r. Leaves s (after_insert key value r s)) e l

-- what the loop of `SymTableInit` leaves, on a frame with the global table on top
abbrev Filled : Frame → Option Store → Type 0
Filled s none = Unit {0}
Filled s (some store) = Kept s (record s { store = store })

Filled-after : (s s1 : Frame) (o : Option Store) → Kept s s1 → Filled s1 o → Filled s o
Filled-after s s1 none k h = tt
Filled-after s s1 (some store) k h =
    let all = Kept-trans s s1 (record s1 { store = store }) k h in
    record { sound = all.sound; top = refl; history = refl; tables = all.tables }

one_native :
    (key : Key) (bytes : ℕ) (pairs : List (Key × ℕ)) (s : Frame) (r : Entered)
    → Sound s.store
    → InRange s
    → sym_table_insert s.store s.top key (native bytes) ≡ r
    → ((store : Store)
        → Kept s (record s { store = store })
        → Filled (record s { store = store }) (insert_natives pairs s.top store))
    → Filled s (insert_natives ((key, bytes) ∷ pairs) s.top s.store)
unfolding insert_natives
one_native key bytes pairs s SymTable.stopped sound range e go = rw (e, insert_natives) tt
one_native key bytes pairs s (already store) sound range e go = rw (e, insert_natives) tt
one_native key bytes pairs s (entered slot store) sound range e go =
    let k = insertion key (native bytes) s slot store sound range e in
    rw (e, insert_natives)
      (Filled-after s (record s { store = store }) (insert_natives pairs s.top store) k
        (go store k))

insert_natives-Filled :
    (pairs : List (Key × ℕ)) (s : Frame)
    → Sound s.store
    → InRange s
    → Filled s (insert_natives pairs s.top s.store)
unfolding insert_natives
insert_natives-Filled [] s sound range = Kept-refl s sound
insert_natives-Filled ((key, bytes) ∷ pairs) s sound range =
    one_native key bytes pairs s (sym_table_insert s.store s.top key (native bytes)) sound range
      refl
      (λ store k.
        insert_natives-Filled pairs (record s { store = store }) k.sound
          (Kept-InRange s (record s { store = store }) k range))

-- a tree in order with its global table
abbrev pub Begins : Option (Store × ℕ) → Type 0
Begins none = Unit {0}
Begins (some made) = Sound made.0 × ((table : Table) × (get_elem? made.0 made.1 ≡ some table))

pub only_global : (capacity : ℕ) → Sound (new_table none table_global capacity ∷ [])
only_global capacity = record {
  scoped =
      longer-IsScoped [] (new_table none table_global capacity)
        (record { valid = λ t table e. absurd (cc); above = λ t p table e. absurd (cc) })
        (init-IsValid Symbol (map_grow capacity) (map_grow-pos capacity)) (λ p e. absurd (cc));
  bounded = λ t table e. elim (get_elem?-snoc [] (new_table none table_global capacity) t table e) [
    | inl at ↦ absurd (cc)
    | inr (last, is) ↦
        subst (λ x. x.entries.cap ≤ size_max) (sym is) (new_table_cap none table_global capacity)
  ];
}

populated :
    (s : Frame) (o : Option Store)
    → insert_natives natives s.top s.store ≡ o
    → InRange s
    → Filled s o
    → Begins (populate (some (s.store, s.top)))
unfolding populate
populated s none e range filled = rw (e, populate) tt
populated s (some store) e range filled =
    rw (e, populate) (filled.sound, Kept-InRange s (record s { store = store }) filled range)

-- `SymTableInit` leaves the global table in a tree that is in order.
pub sym_table_init-Begins : (total_modules : ℕ) → Begins (sym_table_init [] total_modules)
unfolding sym_table_init sym_table_spawn
sym_table_init-Begins total_modules =
    let capacity = (total_modules + length natives) % 2 ^ 64 in
    let s : Frame = record {
      top = 0;
      history = [];
      store = new_table none table_global capacity ∷ [];
    } in
    let range : InRange s = (new_table none table_global capacity, refl) in
    populated s (insert_natives natives s.top s.store) refl range
      (insert_natives-Filled natives s (only_global capacity) range)
