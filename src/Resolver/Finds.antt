-- ===== src/Resolver/Finds.antt =====
-- What `LookupBaseType` of src/resolver.c finds, told by what the name means in the scope on top.
use lemon.Base.{
  ℕ, suc, ◌<◌, ◌≡◌, ◌≢◌, refl, sym, ap, ◌∙◌, inl, inr, subst, Bool, true, false, Option, none, some,
  option_some, get_elem?, get_elem?-set_ne, length, set, bytes_eq, bytes_eq_refl, if◌then◌else◌,
  arith,
}
use lemon.Map.{Key, Map, map_get, map_set}
use lemon.Map.Writes.{map_set-Sets}
use lemon.Parser.Tree.{base}
use lemon.Resolver.Frames.{
  Frame, Result, ok, thrown, look, looked_up, lookup_symbol, write_symbol, write_at, written,
  nonzero, bind,
}
use lemon.Resolver.Lookups.{Usable, judge_base, lookup_base_name, lookup_base_type}
use lemon.SymTable
use lemon.SymTable.{
  Symbol, native, module_symbol, import_symbol, function, method, variable, field, parameter, label,
  Table, Store, Lookup, found, missing, dangling, exhausted, sym_table_lookup,
}
use lemon.SymTable.Entries.{at_self, written-Keeps}
use lemon.SymTable.Scopes.{IsScoped, Sees, here, outside, nowhere, Keeps, sym_table_lookup-Sees}

-- a symbol that a name means stands in its table
Sees-entry :
    (store : Store) (key : Key) (u t : ℕ) (v : Symbol) (r : Lookup)
    → Sees store key u r
    → r ≡ found t v
    → (table : Table) × (get_elem? store t ≡ some table) × (map_get table.entries key ≡ some v)
Sees-entry store key _ t v _ (here u table w e get) same =
    let at : u ≡ t = cc in
    let is : w ≡ v = cc in
    (table, subst (λ i. get_elem? store i ≡ some table) at e, get ∙ ap some is)
Sees-entry store key _ t v _ (outside u p table r e get up sees) same =
    Sees-entry store key p t v r sees same
Sees-entry store key _ t v _ (nowhere u table e get up) same = absurd (cc)

-- a name means a symbol or nothing
Sees-ends :
    (store : Store) (key : Key) (u : ℕ) (r : Lookup)
    → Sees store key u r
    → (r ≢ dangling) × (r ≢ exhausted)
Sees-ends store key _ _ (here u table w e get) = (λ x. cc, λ x. cc)
Sees-ends store key _ _ (outside u p table r e get up sees) = Sees-ends store key p r sees
Sees-ends store key _ _ (nowhere u table e get up) = (λ x. cc, λ x. cc)

module _ (store : Store) (scoped : IsScoped store) (key : Key) (t : ℕ) (table : Table)
    (there : get_elem? store t ≡ some table) (v new : Symbol)
    (held : map_get table.entries key ≡ some v) (m : Map Symbol)
    (now : map_get m key ≡ some new) where
  abbrev marked : Store
  marked = set store t (record table { entries = m })

  -- a write to the symbol of a name is seen from wherever the name meant it
  Sees-marked :
      (u : ℕ) (r : Lookup) → Sees store key u r → r ≡ found t v → Sees marked key u (found t new)
  Sees-marked _ _ (here u table' w e get) same =
      let at : t ≡ u = cc in
      subst (λ i. Sees marked key i (found t new)) at
        (here t (record table { entries = m }) new (at_self store scoped t table there m) now)
  Sees-marked _ _ (outside u p table' r e get up sees) same =
      outside u p table' (found t new) (get_elem?-set_ne store t u _ apart ∙ e) get up
        (Sees-marked p r sees same)
    where
      apart : t ≢ u
      apart at =
          let e' : get_elem? store t ≡ some table' =
            subst (λ i. get_elem? store i ≡ some table') (sym at) e in
          let is : table ≡ table' = option_some (sym there ∙ e') in
          let gone : map_get table.entries key ≡ none = ap (λ x. map_get x.entries key) is ∙ get in
          cc
  Sees-marked _ _ (nowhere u table' e get up) same = absurd (cc)

-- what `LookupBaseType` comes to, by what the name means
abbrev pub Meets : Key → Frame → Lookup → Result Usable → Type 0
Meets name s (found t (SymTable.udt table bytes line referenced public)) r =
    (s' : Frame) × (r ≡ ok (some (SymTable.udt table bytes line true public)) s')
    × (s'.top ≡ s.top)
    × (s'.history ≡ s.history)
    × Sees s'.store name s.top (found t (SymTable.udt table bytes line true public))
    × ((q : Key) → bytes_eq name q ≡ false → Keeps s.store s'.store q)
Meets name s (found t (native bytes)) r = r ≡ ok (some (native bytes)) s
Meets name s (found t (module_symbol table referenced)) r = r ≡ ok none s
Meets name s (found t (import_symbol table line referenced)) r = r ≡ ok none s
Meets name s (found t (function table signature line referenced)) r = r ≡ ok none s
Meets name s (found t (method table signature line referenced)) r = r ≡ ok none s
Meets name s (found t (variable typ line referenced public)) r = r ≡ ok none s
Meets name s (found t (field typ line referenced public)) r = r ≡ ok none s
Meets name s (found t (parameter typ line referenced)) r = r ≡ ok none s
Meets name s (found t (label line referenced)) r = r ≡ ok none s
Meets name s missing r = r ≡ thrown
Meets name s dangling r = ⊥
Meets name s exhausted r = ⊥

module _ (name : Key) (s : Frame) (scoped : IsScoped s.store) where
  marked-Meets :
      (t bytes line : ℕ) (inner : Option ℕ) (referenced public : Bool)
      → Sees s.store name s.top (found t (SymTable.udt inner bytes line referenced public))
      → Meets name s
          (found t (SymTable.udt inner bytes line referenced public))
          (judge_base t name (SymTable.udt inner bytes line referenced public) s)
  unfolding judge_base write_symbol write_at written
  marked-Meets t bytes line inner referenced public sees =
      let old = SymTable.udt inner bytes line referenced public in
      let new = SymTable.udt inner bytes line true public in
      let (table, there, held) = Sees-entry s.store name s.top t old (found t old) sees refl in
      let m = (map_set table.entries name new).1 in
      let get = looks table t old there held new in
      rw there (
        record s { store = set s.store t (record table { entries = m }) },
        refl,
        refl,
        refl,
        Sees-marked s.store scoped name t table there old new held m
            (get name ∙ rw (bytes_eq_refl name) refl) s.top (found t old) sees refl,
        λ q other. written-Keeps s.store scoped t table there m q (get q ∙ rw other refl),
      )
    where
      looks :
          (table : Table) (t : ℕ) (old : Symbol)
          → get_elem? s.store t ≡ some table
          → map_get table.entries name ≡ some old
          → (new : Symbol) (q : Key)
          → map_get (map_set table.entries name new).1 q
            ≡ (if bytes_eq name q then some new else map_get table.entries q)
      looks table t old there held new q =
          let (valid, cases) = map_set-Sets table.entries (scoped.valid t table there) name new in
          elim cases [ inl (set_, has, get) ↦ get q | inr (unset, gone, same) ↦ absurd (cc) ]

  judge_base-Meets :
      (t : ℕ) (v : Symbol)
      → Sees s.store name s.top (found t v)
      → Meets name s (found t v) (judge_base t name v s)
  unfolding judge_base
  judge_base-Meets t (SymTable.udt inner bytes line referenced public) sees =
      marked-Meets t bytes line inner referenced public sees
  judge_base-Meets t (native bytes) sees = refl
  judge_base-Meets t (module_symbol table referenced) sees = refl
  judge_base-Meets t (import_symbol table line referenced) sees = refl
  judge_base-Meets t (function table signature line referenced) sees = refl
  judge_base-Meets t (method table signature line referenced) sees = refl
  judge_base-Meets t (variable typ line referenced public) sees = refl
  judge_base-Meets t (field typ line referenced public) sees = refl
  judge_base-Meets t (parameter typ line referenced) sees = refl
  judge_base-Meets t (label line referenced) sees = refl

  looked_up-Meets :
      (l : Lookup)
      → Sees s.store name s.top l
      → Meets name s l
          (bind (looked_up name l s) (λ symref. judge_base symref.table symref.key symref.value))
  unfolding looked_up
  looked_up-Meets (found t v) sees = judge_base-Meets t v sees
  looked_up-Meets missing sees = refl
  looked_up-Meets dangling sees = (Sees-ends s.store name s.top dangling sees).0 refl
  looked_up-Meets exhausted sees = (Sees-ends s.store name s.top exhausted sees).1 refl

  -- On a well-formed tree of tables, with the table on top in it, for a line that is not 0: `LookupBaseType`
  -- throws just if the name means nothing in the scope on top; it returns the symbol that the name means
  -- there if this is a native type or a structure, and NULL for any other. A structure is marked as
  -- referenced, in the table that has it: its name then means the marked symbol, every other name means in
  -- every table what it did, and the stack is as it was. In the other cases nothing changes.
  pub lookup_base_type-Meets :
      (line : ℕ)
      → 0 < line
      → s.top < length s.store
      → (l : Lookup) × Sees s.store name s.top l
        × Meets name s l (lookup_base_type (base name line) s)
  unfolding lookup_base_type lookup_base_name lookup_symbol look
  lookup_base_type-Meets line pos range =
      let sees = sym_table_lookup-Sees s.store scoped name (suc s.top) s.top (omega arith) range in
      let set_line : nonzero line ≡ true = ground arith in
      (
        sym_table_lookup (suc s.top) s.store name s.top,
        sees,
        rw set_line (looked_up-Meets (sym_table_lookup (suc s.top) s.store name s.top) sees),
      )
