-- ===== src/Vector/Laws.antt =====
-- What the operations of src/lib/vector.h do to the list of the elements in use.
use lemon.Base.{
  ℕ, zero, suc, ◌-◌, ◌≤◌, ◌<◌, ◌≡◌, refl, sym, ap, ap₂, subst, ◌∙◌, true, false, Option, some, List,
  [], ◌∷◌, ◌++◌, ltb, leb, ◌==◌, get_or, get_elem?, set, take, replicate, length, length-set,
  length-append, length-replicate, length-take, dec_lt, ℕ_discrete, size_max, get_elem?-eq-get_or,
  arith,
}
use lemon.Vector.{
  Vector, vector_grow, enlarge, write_back, vector_push, vector_get, vector_set, shorten,
  vector_pop,
}
use lemon.Vector.Takes.{take-append, take-suc-set, take-set, get_elem?-take_in, get_elem?-take_out}

-- The restrictions that the header of the source asks for.
pub record IsValid {ℓ} {T : Type ℓ} (v : Vector T) : Type 0 where
  pub in_use : v.len ≤ v.cap
  pub storage : length v.buffer ≡ v.cap
  pub countable : v.cap ≤ size_max

-- the elements in use
abbrev pub elements {ℓ} : {T : Type ℓ} → Vector T → List T
elements v = take v.len v.buffer

vector_grow-gt : (c : ℕ) → c < size_max → c < vector_grow c
unfolding vector_grow
vector_grow-gt c small = ground arith

vector_grow-le : (c : ℕ) → vector_grow c ≤ size_max
unfolding vector_grow
vector_grow-le c = ground arith

module _ {ℓ} {T : Type ℓ} (blank : T) (v : Vector T) (valid : IsValid v) where
  guard : leb v.len v.cap ≡ true
  guard = ground (arith, valid.in_use)

  enlarge-elements : elements (enlarge blank v) ≡ elements v
  unfolding enlarge
  enlarge-elements = take-append v.len v.buffer _ (omega (arith, valid.in_use, valid.storage))

  enlarge-length : v.cap < size_max → length (enlarge blank v).buffer ≡ vector_grow v.cap
  unfolding enlarge
  enlarge-length small = omega (
    arith,
    length-append v.buffer (replicate (vector_grow v.cap - v.cap) blank),
    length-replicate (vector_grow v.cap - v.cap) blank,
    vector_grow-gt v.cap small,
    valid.storage,
  )

  -- On a vector that meets the restrictions `VectorGet` reads the list of the elements in use; an index
  -- outside of it fails an assertion.
  pub vector_get_lem : (i : ℕ) → vector_get blank v i ≡ get_elem? (elements v) i
  unfolding vector_get
  vector_get_lem i = elim (dec_lt i v.len) [
    | yes lt ↦
        let inside : ltb i v.len ≡ true = ground arith in
        rw (guard, inside)
          (sym (
            get_elem?-take_in v.len i v.buffer lt
            ∙ get_elem?-eq-get_or v.buffer i blank (omega (arith, valid.in_use, valid.storage))))
    | no ge ↦
        let outside : ltb i v.len ≡ false = ground arith in
        rw (guard, outside) (sym (get_elem?-take_out v.len i v.buffer (omega arith)))
  ]

-- An operation comes back with a vector that meets the restrictions and has these elements.
abbrev pub Leaves {ℓ} : {T : Type ℓ} → Option (Vector T) → List T → Type ℓ
Leaves {T} r xs = (v' : Vector T) × (r ≡ some v') × IsValid v' × (elements v' ≡ xs)

module _ {ℓ} {T : Type ℓ} (blank : T) (v : Vector T) (valid : IsValid v) (datum : T) where
  write_back-IsValid :
      (u : Vector T)
      → u.len < u.cap
      → length u.buffer ≡ u.cap
      → u.cap ≤ size_max
      → IsValid (write_back datum u)
  unfolding write_back
  write_back-IsValid u room stored countable = record {
    in_use = omega arith;
    storage = length-set u.buffer u.len datum ∙ stored;
    countable = countable;
  }

  write_back-elements :
      (u : Vector T)
      → u.len < length u.buffer
      → elements (write_back datum u) ≡ elements u ++ (datum ∷ [])
  unfolding write_back
  write_back-elements u room = take-suc-set u.len u.buffer datum room

  push_enlarged :
      v.len < size_max
      → v.len ≡ v.cap
      → IsValid (write_back datum (enlarge blank v))
        × (elements (write_back datum (enlarge blank v)) ≡ elements v ++ (datum ∷ []))
  unfolding enlarge
  push_enlarged room full =
      let small : v.cap < size_max = omega arith in
      let stored = enlarge-length blank v valid small in
      let more = vector_grow-gt v.cap small in
      (
        write_back-IsValid (enlarge blank v) (omega (arith, more)) stored (vector_grow-le v.cap),
        write_back-elements (enlarge blank v) (omega (arith, stored, more))
            ∙ ap (λ xs. xs ++ (datum ∷ [])) (enlarge-elements blank v valid),
      )

  -- On a vector that meets the restrictions and is below the largest length `VectorPush` comes back, with
  -- the element behind those in use, whether the buffer was full or not, and keeps the restrictions.
  pub vector_push_lem :
      v.len < size_max → Leaves (vector_push blank v datum) (elements v ++ (datum ∷ []))
  unfolding vector_push
  vector_push_lem room =
      let countable : (v.len == size_max) ≡ false = ground arith in
      rw (guard blank v valid, countable)
        (elim (ℕ_discrete v.len v.cap) [
          | yes full ↦
              let e : (v.len == v.cap) ≡ true = ground arith in
              rw e (let (sound, same) = push_enlarged room full in (_, refl, sound, same))
          | no spare ↦
              let e : (v.len == v.cap) ≡ false = ground arith in
              rw e (
                _,
                refl,
                write_back-IsValid v (omega (arith, valid.in_use)) valid.storage valid.countable,
                write_back-elements v (omega (arith, valid.in_use, valid.storage)),
              )
        ])

  -- On a vector that meets the restrictions, at an index inside of the elements in use, `VectorSet`
  -- returns the old element and replaces it, and keeps the restrictions.
  pub vector_set_lem :
      (i : ℕ) (old : T)
      → get_elem? (elements v) i ≡ some old
      → (v' : Vector T) × (vector_set blank v i datum ≡ some (old, v'))
        × IsValid v'
        × (elements v' ≡ set (elements v) i datum)
  unfolding vector_set
  vector_set_lem i old e =
      let lt : i < v.len = in_bounds in
      let inside : ltb i v.len ≡ true = ground arith in
      let was : get_or v.buffer i blank ≡ old = read_old lt in
      rw (guard blank v valid, inside, was)
        (
          _,
          refl,
          record {
            in_use = valid.in_use;
            storage = length-set v.buffer i datum ∙ valid.storage;
            countable = valid.countable;
          },
          take-set v.len i v.buffer datum,
        )
    where
      in_bounds : i < v.len
      in_bounds = elim (dec_lt i v.len) [
        | yes lt ↦ lt
        | no ge ↦ let out = get_elem?-take_out v.len i v.buffer (omega arith) in absurd (cc)
      ]

      read_old : i < v.len → get_or v.buffer i blank ≡ old
      read_old lt =
          let here =
            get_elem?-eq-get_or v.buffer i blank (omega (arith, valid.in_use, valid.storage)) in
          let inner = get_elem?-take_in v.len i v.buffer lt in cc

module _ {ℓ} {T : Type ℓ} (blank : T) (v : Vector T) (valid : IsValid v) where
  append-last :
      (m : ℕ) (buffer : List T) (xs : List T) (x : T)
      → m < length buffer
      → take (suc m) buffer ≡ xs ++ (x ∷ [])
      → (take m buffer ≡ xs) × (get_elem? buffer m ≡ some x)
  append-last m [] xs x h e = absurd (omega arith)
  append-last zero (b ∷ buffer) [] x h e = (refl, ap (λ ys. get_elem? ys 0) e)
  append-last (suc m) (b ∷ []) [] x h e = absurd (omega arith)
  append-last (suc m) (b ∷ c ∷ buffer) [] x h e = absurd (cc)
  append-last zero (b ∷ buffer) (y ∷ []) x h e = absurd (cc)
  append-last zero (b ∷ buffer) (y ∷ z ∷ xs) x h e = absurd (cc)
  append-last (suc m) (b ∷ buffer) (y ∷ xs) x h e =
      let tails : take (suc m) buffer ≡ xs ++ (x ∷ []) = cc in
      let heads : b ≡ y = cc in
      let (front, top) = append-last m buffer xs x (omega arith) tails in
      (ap₂ (λ u us. u ∷ us) heads front, top)

  -- On a vector that meets the restrictions and has an element in use `VectorPop` returns the last one,
  -- leaves those before it, and keeps the restrictions.
  pub vector_pop_lem :
      (xs : List T) (x : T)
      → elements v ≡ xs ++ (x ∷ [])
      → (v' : Vector T) × (vector_pop blank v ≡ some (x, v')) × IsValid v' × (elements v' ≡ xs)
  unfolding vector_pop shorten
  vector_pop_lem xs x e =
      let size : v.len ≡ suc (v.len - 1) = omega (
        arith,
        ap length e,
        length-take v.len v.buffer,
        length-append xs (x ∷ []),
        valid.in_use,
        valid.storage,
      ) in
      let (front, top) =
        append-last (v.len - 1) v.buffer xs x (omega (arith, size, valid.in_use, valid.storage))
          (subst (λ n. take n v.buffer ≡ xs ++ (x ∷ [])) size e) in
      let nonempty : (v.len == 0) ≡ false = ground (arith, size) in
      let last : vector_get blank v (v.len - 1) ≡ some x =
        vector_get_lem blank v valid (v.len - 1)
        ∙ get_elem?-take_in v.len (v.len - 1) v.buffer (omega (arith, size))
        ∙ top in
      rw (nonempty, last)
        (
          _,
          refl,
          record {
            in_use = omega (arith, valid.in_use);
            storage = valid.storage;
            countable = valid.countable;
          },
          front,
        )
