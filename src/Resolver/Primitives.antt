-- ===== src/Resolver/Primitives.antt =====
-- The operations on the frame of src/resolver.c one by one: each keeps the stack, and a push opens a scope
-- that a pop closes.
use lemon.Base.{
  ℕ, suc, ◌≤◌, ◌<◌, ◌≡◌, refl, sym, ap, ◌∙◌, inl, inr, subst, Bool, true, false, Bool-cases, Option,
  none, some, Option-cases, option_some, [], ◌∷◌, ◌++◌, get_elem?, get_elem?-lt, get_elem?-last,
  get_elem?-snoc, get_elem?-set_self, get_elem?-set_ne, length, set, ◌==◌, ℕ_discrete, size_max,
  arith,
}
use lemon.Map.{
  Key, Map, Insertion, failed, duplicate, inserted, Search, found, absent, unending, map_insert,
  map_set, set_at, search, map_init,
}
use lemon.Map.Hash.{map_grow, map_grow-le}
use lemon.Map.Insert.{Sane, map_insert-Sane}
use lemon.Map.Valid.{IsValid, init-IsValid}
use lemon.Map.Writes.{map_set-Sets}
use lemon.Resolver.Frames.{
  Frame, Done, pure, throw, stop, assert, raise_if, lift, top_of, looked_up, look, lookup_symbol,
  refuse, after_insert, insert_symbol, report_redeclaration, tag_at, check_tag, written, write_at,
  write_symbol, pushed, push_sym_table, popped, pop_sym_table, nonzero, get_symbol_line, not_global,
}
use lemon.Resolver.Steady.{
  Sound, Tables, InRange, Kept, Opened, Kept-refl, Kept-InRange, Leaves, Leaves-after, Steady,
  Opening, Closing, bind-Steady,
}
use lemon.SymTable
use lemon.SymTable.{
  Symbol, Table, TableTag, Store, Entered, entered, already, Lookup, missing, dangling, exhausted,
  sym_table_spawn, sym_table_insert, insert_at, write_entries, sym_table_lookup, fits,
}
use lemon.SymTable.Entries.{written-IsScoped, was}
use lemon.SymTable.Spawning.{longer-IsScoped, at_old, new_table, map_grow-pos}

pub pure-Steady {ℓ} : {A : Type ℓ} (a : A) → Steady (pure a)
pure-Steady a = record { run = λ s sound range. Kept-refl s sound }

pub stop-Steady {ℓ} : {A : Type ℓ} → Steady (stop {A = A})
stop-Steady = record { run = λ s sound range. tt }

pub throw-Steady {ℓ} : {A : Type ℓ} → Steady (throw {A = A})
throw-Steady = record { run = λ s sound range. tt }

pub top_of-Steady : Steady top_of
unfolding top_of
top_of-Steady = record { run = λ s sound range. Kept-refl s sound }

pub assert-Steady : (b : Bool) → Steady (assert b)
assert-Steady true = pure-Steady tt
assert-Steady false = stop-Steady

pub raise_if-Steady : (b : Bool) → Steady (raise_if b)
raise_if-Steady true = throw-Steady
raise_if-Steady false = pure-Steady tt

pub lift-Steady {ℓ} : {A : Type ℓ} (o : Option A) → Steady (lift o)
lift-Steady none = stop-Steady
lift-Steady (some a) = pure-Steady a

looked_up-Steady : (key : Key) (l : Lookup) → Steady (looked_up key l)
unfolding looked_up
looked_up-Steady key (SymTable.found t value) = pure-Steady _
looked_up-Steady key missing = throw-Steady
looked_up-Steady key dangling = stop-Steady
looked_up-Steady key exhausted = stop-Steady

pub look-Steady : (key : Key) → Steady (look key)
unfolding look
look-Steady key = record {
  run = λ s sound range.
      (looked_up-Steady key (sym_table_lookup (suc s.top) s.store key s.top)).run s sound range;
}

pub lookup_symbol-Steady : (key : Key) (line : ℕ) → Steady (lookup_symbol key line)
unfolding lookup_symbol
lookup_symbol-Steady key line = bind-Steady (assert-Steady (nonzero line)) (λ _. look-Steady key)

pub check_tag-Steady : (t : ℕ) (test : TableTag → Bool) → Steady (check_tag t test)
unfolding check_tag
check_tag-Steady t test = record {
  run = λ s sound range. (tested (get_elem? s.store t)).run s sound range;
}
  where
    tested : (o : Option Table) → Steady (tag_at o test)
    tested none = stop-Steady
    tested (some table) = assert-Steady (test table.tag)

-- a store with the entries of one table replaced
module _ (s : Frame) (sound : Sound s.store) (t : ℕ) (table : Table)
    (there : get_elem? s.store t ≡ some table) (m : Map Symbol) (valid : IsValid m)
    (bounded : m.cap ≤ size_max) where
  abbrev replaced : Frame
  replaced = record s { store = set s.store t (record table { entries = m }) }

  replaced-Tables : Tables s.store replaced.store
  replaced-Tables u old e = elim (ℕ_discrete t u) [
    | yes same ↦
        let e' : get_elem? s.store t ≡ some old =
          subst (λ x. get_elem? s.store x ≡ some old) (sym same) e in
        let known : table ≡ old = option_some (sym there ∙ e') in
        (
          record table { entries = m },
          subst (λ x. get_elem? replaced.store x ≡ some (record table { entries = m })) same
              (get_elem?-set_self s.store t _ (get_elem?-lt s.store t table there)),
          ap Table.tag known,
          ap Table.parent known,
        )
    | no other ↦ (old, get_elem?-set_ne s.store t u _ other ∙ e, refl, refl)
  ]

  pub replaced-Kept : Kept s replaced
  replaced-Kept = record {
    sound = record {
      scoped = written-IsScoped s.store sound.scoped t table there m valid;
      bounded = λ u new e. elim (was s.store sound.scoped t table there m u new e) [
        | inl (same, is) ↦ subst (λ x. x.entries.cap ≤ size_max) (sym is) bounded
        | inr old ↦ sound.bounded u new old
      ];
    };
    top = refl;
    history = refl;
    tables = replaced-Tables;
  }

report_redeclaration-Steady : (key : Key) (value : Symbol) → Steady (report_redeclaration key value)
unfolding report_redeclaration
report_redeclaration-Steady key value = bind-Steady (look-Steady key) (λ symref.
    bind-Steady top_of-Steady (λ top. bind-Steady (assert-Steady (symref.table == top)) (λ _.
      bind-Steady (check_tag-Steady symref.table not_global) (λ _.
        bind-Steady (lift-Steady (get_symbol_line value)) (λ curr_line.
          bind-Steady (lift-Steady (get_symbol_line symref.value))
            (λ prev_line. assert-Steady (nonzero prev_line)))))))

refuse-Steady : (key : Key) (value : Symbol) → Steady (refuse key value)
unfolding refuse
refuse-Steady key value =
    bind-Steady (report_redeclaration-Steady key value) (λ _. throw-Steady {A = Done})

pub insert_symbol-Steady : (key : Key) (value : Symbol) → Steady (insert_symbol key value)
unfolding insert_symbol after_insert sym_table_insert insert_at write_entries
insert_symbol-Steady key value = record {
  run = λ s sound range.
      let (table, e) = range in
      rw e (
        insertion s sound table e (map_insert table.entries key value) range (
          map_insert-Sane table.entries (sound.scoped.valid s.top table e)
            (sound.bounded s.top table e) key value));
}
  where
    insertion :
        (s : Frame) (sound : Sound s.store) (table : Table)
        (e : get_elem? s.store s.top ≡ some table) (r : Insertion Symbol)
        → InRange s
        → Sane r
        → Leaves s (after_insert key value (write_entries s.store s.top table r) s)
    insertion s sound table e failed range sane = tt
    insertion s sound table e (duplicate m) range (valid, bounded) =
        let s1 = replaced s sound s.top table e m valid bounded in
        let k = replaced-Kept s sound s.top table e m valid bounded in
        Leaves-after s s1 (refuse key value s1) k
          ((refuse-Steady key value).run s1 k.sound (Kept-InRange s s1 k range))
    insertion s sound table e (inserted slot m) range (valid, bounded) =
        replaced-Kept s sound s.top table e m valid bounded

map_set-cap : (m : Map Symbol) (key : Key) (value : Symbol) → (map_set m key value).1.cap ≡ m.cap
unfolding map_set set_at
map_set-cap m key value = by_search (search m key)
  where
    by_search : (r : Search) → (set_at m value r).1.cap ≡ m.cap
    by_search (found i) = refl
    by_search absent = refl
    by_search unending = refl

pub write_symbol-Steady : (t : ℕ) (key : Key) (value : Symbol) → Steady (write_symbol t key value)
unfolding write_symbol write_at written
write_symbol-Steady t key value = record {
  run = λ s sound range. elim (Option-cases (get_elem? s.store t)) [
    | inl e ↦ rw e tt
    | inr (table, e) ↦ rw e (
        replaced-Kept s sound t table e (map_set table.entries key value).1
          (map_set-Sets table.entries (sound.scoped.valid t table e) key value).0
          (omega (arith, map_set-cap table.entries key value, sound.bounded t table e)))
  ];
}

pub new_table_cap :
    (parent : Option ℕ) (tag : TableTag) (capacity : ℕ)
    → (new_table parent tag capacity).entries.cap ≤ size_max
unfolding map_init
new_table_cap parent tag capacity = map_grow-le capacity

pub push-Opening : (tag : TableTag) (room : ℕ) → Opening (push_sym_table tag room)
unfolding push_sym_table pushed sym_table_spawn
push-Opening tag room = record {
  run = λ s sound range. elim (Bool-cases (fits (some s.top) tag)) [
    | inr e ↦ rw e tt
    | inl e ↦ rw e (spawned s sound range)
  ];
}
  where
    spawned :
        (s : Frame) (sound : Sound s.store) (range : InRange s)
        → Opened s (record s {
          store = s.store ++ new_table (some s.top) tag room ∷ [];
          top = length s.store;
        })
    spawned s sound (table, e) = record {
      sound = record {
        scoped =
            longer-IsScoped s.store (new_table (some s.top) tag room) sound.scoped
              (init-IsValid Symbol (map_grow room) (map_grow-pos room))
              (λ p up.
                subst (λ x. x < length s.store) (option_some up)
                  (get_elem?-lt s.store s.top table e));
        bounded = λ t old at.
            elim (get_elem?-snoc s.store (new_table (some s.top) tag room) t old at) [
              | inl at' ↦ sound.bounded t old at'
              | inr (last, is) ↦ capacity s old is
            ];
      };
      history = refl;
      tables =
          λ t old at. (old, at_old s.store (new_table (some s.top) tag room) t old at, refl, refl);
      inner = (
        new_table (some s.top) tag room,
        get_elem?-last s.store (new_table (some s.top) tag room),
        refl,
      );
    }
      where
        capacity :
            (s : Frame) (old : Table)
            → old ≡ new_table (some s.top) tag room
            → old.entries.cap ≤ size_max
        capacity s old is =
            subst (λ x. x.entries.cap ≤ size_max) (sym is) (new_table_cap (some s.top) tag room)

pub pop-Closing : Closing pop_sym_table
unfolding pop_sym_table popped
pop-Closing = record {
  run = λ s s1 o.
      let (new, e, up) = o.inner in
      rw (e, up) (record { sound = o.sound; top = refl; history = o.history; tables = o.tables });
}
