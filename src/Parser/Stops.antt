-- ===== src/Parser/Stops.antt =====
-- The current token behind the functions of src/parser.c that check it.
use lemon.Base.{ℕ, inl, inr, Bool, true, false, Bool-cases, List, [], ◌∷◌, ◌==◌, if◌then◌else◌}
use lemon.Parser.Actions.{
  Result, ok, thrown, aborted, past_eof, out_of_fuel, Action, pure, throw_error, bind, ◌>>=◌,
  on_any, same_type, get_next, check, move_check, extract_array_index, array_index_of, strtoll,
  long_max,
}
use lemon.Parser.Runs.{any, At, Stops, Stays, Stops-any, lexeme-Stays}
use lemon.Token.{TokenType}

pub pure-Stops {ℓ} : {A : Type ℓ} {q : TokenType → Bool} {a : A} → Stops q q (pure a)
pure-Stops = record { stop = λ s at. at }

module _ {ℓ} {A : Type ℓ} {q p : TokenType → Bool} where
  pub throw-Stops : Stops q p (throw_error {A = A})
  throw-Stops = record { stop = λ s at. tt }

  pub branch-Stops :
      {r : TokenType → Bool} {m n : Action A} → Stops r p m → Stops q p n → Stops q p (on_any r m n)
  branch-Stops {r} yes-Stops no-Stops = record {
    stop = λ s at. elim (Bool-cases (r s.tok.type)) [
      | inl e ↦ rw e (yes-Stops.stop s e)
      | inr e ↦ rw e (no-Stops.stop s at)
    ];
  }

module _ {ℓ κ} {A : Type ℓ} {B : Type κ} {q r : TokenType → Bool} {m : Action A}
    {f : A → Action B} where
  pub seq-Stops :
      {p : TokenType → Bool} → Stops q p m → ((a : A) → Stops p r (f a)) → Stops q r (m >>= f)
  seq-Stops {p} h h' = record { stop = λ s at. after (m s) (h.stop s at) }
    where
      after : (x : Result A) → At p x → At r (bind x f)
      after (ok a s) at = (h' a).stop s at
      after (thrown s) at = tt
      after aborted at = tt
      after past_eof at = tt
      after out_of_fuel at = tt

  pub stay-Stops : Stays m → ((a : A) → Stops q r (f a)) → Stops q r (m >>= f)
  stay-Stops st h = record {
    stop = λ s at. elim (st.stay s) [ inl (a, e) ↦ rw e ((h a).stop s at) | inr e ↦ rw e tt ];
  }

pub check-Stops : {q : TokenType → Bool} (t : TokenType) → Stops q (same_type t) (check t)
unfolding check
check-Stops t = branch-Stops pure-Stops throw-Stops

pub move_check-Stops : {q : TokenType → Bool} (t : TokenType) → Stops q (same_type t) (move_check t)
unfolding move_check
move_check-Stops t = seq-Stops (Stops-any get_next) (λ _. check-Stops t)

array_index_of-Stops : {q : TokenType → Bool} (p : ℕ × List ℕ) → Stops q q (array_index_of p)
unfolding array_index_of
array_index_of-Stops {q} (n, []) = pick_if (n == long_max)
  where
    pick_if : (b : Bool) → Stops q q (if b then throw_error else pure n)
    pick_if true = throw-Stops
    pick_if false = pure-Stops
array_index_of-Stops (n, c ∷ cs) = throw-Stops

pub index-Stops : {q : TokenType → Bool} → Stops q q extract_array_index
unfolding extract_array_index
index-Stops = stay-Stops lexeme-Stays (λ digits. array_index_of-Stops (strtoll digits 0))

-- a loop that only its end returns from
pub later-Stops {ℓ κ} :
    {A : Type ℓ} {B : Type κ} {q r : TokenType → Bool} (m : Action A) {f : A → Action B}
    → ((a : A) → Stops any r (f a))
    → Stops q r (m >>= f)
later-Stops m h = seq-Stops (Stops-any m) h
