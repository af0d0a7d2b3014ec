-- ===== src/Vector/Takes.antt =====
-- The first elements of a list, as the elements in use of a vector of src/lib/vector.h are.
use lemon.Base.{
  ℕ, zero, suc, ◌+◌, ◌≤◌, ◌<◌, ◌≡◌, refl, ap, none, List, [], ◌∷◌, ◌++◌, get_elem?, set, take,
  length, arith,
}

module _ {ℓ} {T : Type ℓ} where
  pub take-append : (n : ℕ) (xs ys : List T) → n ≤ length xs → take n (xs ++ ys) ≡ take n xs
  take-append zero xs ys h = refl
  take-append (suc n) [] ys h = absurd (omega arith)
  take-append (suc n) (x ∷ xs) ys h = ap (λ zs. x ∷ zs) (take-append n xs ys (omega arith))

  pub take-suc-set :
      (n : ℕ) (xs : List T) (x : T)
      → n < length xs
      → take (n + 1) (set xs n x) ≡ take n xs ++ (x ∷ [])
  take-suc-set n [] x h = absurd (omega arith)
  take-suc-set zero (y ∷ xs) x h = refl
  take-suc-set (suc n) (y ∷ xs) x h =
      let e : suc n + 1 ≡ suc (n + 1) = omega arith in
      rw e (ap (λ zs. y ∷ zs) (take-suc-set n xs x (omega arith)))

  pub take-set : (n i : ℕ) (xs : List T) (x : T) → take n (set xs i x) ≡ set (take n xs) i x
  take-set zero i xs x = refl
  take-set (suc n) i [] x = refl
  take-set (suc n) zero (y ∷ xs) x = refl
  take-set (suc n) (suc i) (y ∷ xs) x = ap (λ zs. y ∷ zs) (take-set n i xs x)

  pub get_elem?-take_in : (n i : ℕ) (xs : List T) → i < n → get_elem? (take n xs) i ≡ get_elem? xs i
  get_elem?-take_in zero i xs h = absurd (omega arith)
  get_elem?-take_in (suc n) i [] h = refl
  get_elem?-take_in (suc n) zero (y ∷ xs) h = refl
  get_elem?-take_in (suc n) (suc i) (y ∷ xs) h = get_elem?-take_in n i xs (omega arith)

  pub get_elem?-take_out : (n i : ℕ) (xs : List T) → n ≤ i → get_elem? (take n xs) i ≡ none
  get_elem?-take_out zero i xs h = refl
  get_elem?-take_out (suc n) i [] h = refl
  get_elem?-take_out (suc n) zero (y ∷ xs) h = absurd (omega arith)
  get_elem?-take_out (suc n) (suc i) (y ∷ xs) h = get_elem?-take_out n i xs (omega arith)
