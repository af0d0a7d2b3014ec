-- ===== src/Resolver/Steady.antt =====
-- What the operations on the frame of src/resolver.c keep: the tables well formed, and the stack balanced.
use lemon.Base.{ℕ, ◌≤◌, ◌≡◌, refl, ap, ◌∙◌, some, get_elem?, size_max}
use lemon.Resolver.Frames.{Frame, Result, Action, ok, thrown, stopped, out_of_fuel, bind, ◌>>=◌}
use lemon.SymTable.{Table, Store}
use lemon.SymTable.Scopes.{IsScoped}

-- The tree of tables is well formed, within the capacities of the code.
pub record Sound (store : Store) : Type 0 where
  pub scoped : IsScoped store
  pub bounded :
      (t : ℕ) (table : Table) → get_elem? store t ≡ some table → table.entries.cap ≤ size_max

-- Each table of a store is there in the later one, with its tag and its parent.
abbrev pub Tables : Store → Store → Type 0
Tables store store' =
    (t : ℕ) (table : Table)
    → get_elem? store t ≡ some table
    → (table' : Table) × (get_elem? store' t ≡ some table')
      × (table'.tag ≡ table.tag)
      × (table'.parent ≡ table.parent)

pub Tables-trans : (a b c : Store) → Tables a b → Tables b c → Tables a c
Tables-trans a b c first second t table e =
    let (table1, e1, tag1, parent1) = first t table e in
    let (table2, e2, tag2, parent2) = second t table1 e1 in
    (table2, e2, tag2 ∙ tag1, parent2 ∙ parent1)

-- the table on top is one of the store
abbrev pub InRange : Frame → Type 0
InRange s = (table : Table) × (get_elem? s.store s.top ≡ some table)

-- A later frame has the same stack, and the tables of the earlier one.
pub record Kept (s s' : Frame) : Type 0 where
  pub sound : Sound s'.store
  pub top : s'.top ≡ s.top
  pub history : s'.history ≡ s.history
  pub tables : Tables s.store s'.store

-- A later frame has one table more on its stack, inside the one that was on top.
pub record Opened (s s' : Frame) : Type 0 where
  pub sound : Sound s'.store
  pub history : s'.history ≡ s.history
  pub tables : Tables s.store s'.store
  pub inner : (new : Table) × (get_elem? s'.store s'.top ≡ some new) × (new.parent ≡ some s.top)

pub Kept-refl : (s : Frame) → Sound s.store → Kept s s
Kept-refl s sound = record {
  sound = sound;
  top = refl;
  history = refl;
  tables = λ t table e. (table, e, refl, refl);
}

pub Kept-trans : (a b c : Frame) → Kept a b → Kept b c → Kept a c
Kept-trans a b c k l = record {
  sound = l.sound;
  top = l.top ∙ k.top;
  history = l.history ∙ k.history;
  tables = Tables-trans a.store b.store c.store k.tables l.tables;
}

pub Kept-InRange : (s s' : Frame) → Kept s s' → InRange s → InRange s'
Kept-InRange s s' k (table, e) =
    let (table', e', tag, parent) = k.tables s.top table e in
    (table', ap (λ t. get_elem? s'.store t) k.top ∙ e')

-- what a function leaves where it returns; it has no fuel to run out of
abbrev pub Leaves {ℓ} : {A : Type ℓ} → Frame → Result A → Type 0
Leaves s (ok a s') = Kept s s'
Leaves s thrown = Unit {0}
Leaves s stopped = Unit {0}
Leaves s out_of_fuel = ⊥

abbrev pub Opens {ℓ} : {A : Type ℓ} → Frame → Result A → Type 0
Opens s (ok a s') = Opened s s'
Opens s thrown = Unit {0}
Opens s stopped = Unit {0}
Opens s out_of_fuel = ⊥

-- A function keeps the stack; it opens a scope; it closes the one that stands on a frame.
pub record Steady {ℓ} {A : Type ℓ} (m : Action A) : Type ℓ where
  pub run : (s : Frame) → Sound s.store → InRange s → Leaves s (m s)

pub record Opening {ℓ} {A : Type ℓ} (m : Action A) : Type ℓ where
  pub run : (s : Frame) → Sound s.store → InRange s → Opens s (m s)

pub record Closing {ℓ} {A : Type ℓ} (m : Action A) : Type ℓ where
  pub run : (s s1 : Frame) → Opened s s1 → Leaves s (m s1)

module _ {κ} {B : Type κ} where
  pub Leaves-after : (s s1 : Frame) (r : Result B) → Kept s s1 → Leaves s1 r → Leaves s r
  Leaves-after s s1 (ok b s2) k l = Kept-trans s s1 s2 k l
  Leaves-after s s1 thrown k l = tt
  Leaves-after s s1 stopped k l = tt
  Leaves-after s s1 out_of_fuel k l = l

  Opens-after : (s s1 : Frame) (r : Result B) → Kept s s1 → Opens s1 r → Opens s r
  Opens-after s s1 (ok b s2) k o = record {
    sound = o.sound;
    history = o.history ∙ k.history;
    tables = Tables-trans s.store s1.store s2.store k.tables o.tables;
    inner = let (new, e, up) = o.inner in (new, e, up ∙ ap some k.top);
  }
  Opens-after s s1 thrown k o = tt
  Opens-after s s1 stopped k o = tt
  Opens-after s s1 out_of_fuel k o = o

Opened-after : (s s1 s2 : Frame) → Opened s s1 → Kept s1 s2 → Opened s s2
Opened-after s s1 s2 o k = record {
  sound = k.sound;
  history = k.history ∙ o.history;
  tables = Tables-trans s.store s1.store s2.store o.tables k.tables;
  inner =
      let (new, e, up) = o.inner in
      let (new', e', tag, up') = k.tables s1.top new e in
      (new', ap (λ t. get_elem? s2.store t) k.top ∙ e', up' ∙ up);
}

Opened-InRange : (s s1 : Frame) → Opened s s1 → InRange s1
Opened-InRange s s1 o = let (new, e, up) = o.inner in (new, e)

module _ {ℓ κ} {A : Type ℓ} {B : Type κ} where
  bind-Leaves :
      (s : Frame) (r : Result A) (k : A → Action B)
      → InRange s
      → Leaves s r
      → ((a : A) → Steady (k a))
      → Leaves s (bind r k)
  bind-Leaves s (ok a s1) k range l steady =
      Leaves-after s s1 (k a s1) l ((steady a).run s1 l.sound (Kept-InRange s s1 l range))
  bind-Leaves s thrown k range l steady = tt
  bind-Leaves s stopped k range l steady = tt
  bind-Leaves s out_of_fuel k range l steady = l

  bind-Opens :
      (s : Frame) (r : Result A) (k : A → Action B)
      → InRange s
      → Leaves s r
      → ((a : A) → Opening (k a))
      → Opens s (bind r k)
  bind-Opens s (ok a s1) k range l opening =
      Opens-after s s1 (k a s1) l ((opening a).run s1 l.sound (Kept-InRange s s1 l range))
  bind-Opens s thrown k range l opening = tt
  bind-Opens s stopped k range l opening = tt
  bind-Opens s out_of_fuel k range l opening = l

  inside-Opens :
      (s : Frame) (r : Result A) (k : A → Action B)
      → Opens s r
      → ((a : A) → Steady (k a))
      → Opens s (bind r k)
  inside-Opens s (ok a s1) k o steady =
      within s1 (k a s1) o ((steady a).run s1 o.sound (Opened-InRange s s1 o))
    where
      within : (s1 : Frame) (r : Result B) → Opened s s1 → Leaves s1 r → Opens s r
      within s1 (ok b s2) o l = Opened-after s s1 s2 o l
      within s1 thrown o l = tt
      within s1 stopped o l = tt
      within s1 out_of_fuel o l = l
  inside-Opens s thrown k o steady = tt
  inside-Opens s stopped k o steady = tt
  inside-Opens s out_of_fuel k o steady = o

  enclosed :
      (s : Frame) (r : Result A) (k : A → Action B)
      → Opens s r
      → ((a : A) → Closing (k a))
      → Leaves s (bind r k)
  enclosed s (ok a s1) k o closing = (closing a).run s s1 o
  enclosed s thrown k o closing = tt
  enclosed s stopped k o closing = tt
  enclosed s out_of_fuel k o closing = o

  bind_inside :
      (s s1 : Frame) (r : Result A) (k : A → Action B)
      → Opened s s1
      → Leaves s1 r
      → ((a : A) → Closing (k a))
      → Leaves s (bind r k)
  bind_inside s s1 (ok a s2) k o l closing = (closing a).run s s2 (Opened-after s s1 s2 o l)
  bind_inside s s1 thrown k o l closing = tt
  bind_inside s s1 stopped k o l closing = tt
  bind_inside s s1 out_of_fuel k o l closing = l

  -- the rules for one function behind another
  module _ {m : Action A} {k : A → Action B} where
    pub bind-Steady : Steady m → ((a : A) → Steady (k a)) → Steady (m >>= k)
    bind-Steady first then_ = record {
      run = λ s sound range. bind-Leaves s (m s) k range (first.run s sound range) then_;
    }

    pub bind-Opening : Steady m → ((a : A) → Opening (k a)) → Opening (m >>= k)
    bind-Opening first then_ = record {
      run = λ s sound range. bind-Opens s (m s) k range (first.run s sound range) then_;
    }

    pub inside-Opening : Opening m → ((a : A) → Steady (k a)) → Opening (m >>= k)
    inside-Opening first then_ = record {
      run = λ s sound range. inside-Opens s (m s) k (first.run s sound range) then_;
    }

    pub enclosed-Steady : Opening m → ((a : A) → Closing (k a)) → Steady (m >>= k)
    enclosed-Steady first then_ = record {
      run = λ s sound range. enclosed s (m s) k (first.run s sound range) then_;
    }

    pub bind-Closing : Steady m → ((a : A) → Closing (k a)) → Closing (m >>= k)
    bind-Closing first then_ = record {
      run = λ s s1 o.
          bind_inside s s1 (m s1) k o (first.run s1 o.sound (Opened-InRange s s1 o)) then_;
    }
