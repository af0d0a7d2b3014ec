-- ===== src/Parser/Runs/Branches.antt =====
-- The ends of an action of src/parser.c, and its branches on the current token.
use lemon.Base.{ℕ, ◌≡◌, refl, inl, inr, Bool, not, true, false, ◌&&◌, Bool-cases, arith}
use lemon.Parser.Actions.{Action, pure, abort, throw_error, pick, on_any, on, same_type}
use lemon.Token.{TokenType}
use lemon.Parser.Runs.Steps.{Runs, Onward-refl}

module _ {ℓ} {A : Type ℓ} {q : TokenType → Bool} {k : ℕ} where
  pub pure-Runs : {a : A} → Runs q false false k (pure a)
  pure-Runs = record { run = λ s r lt at. Onward-refl s r }

  pub throw-Runs : {o : Bool} → Runs q o false k (throw_error {A = A})
  throw-Runs = record {
    run = λ s r lt at.
        (record { ready = r; errors = omega arith; taken = inr (refl, refl, refl) }, omega arith);
  }

  pub abort-Runs : {o t : Bool} → Runs q o t k (abort {A = A})
  abort-Runs = record { run = λ s r lt at. tt }

  -- the two branches on the type of the current token
  pub branch-Runs :
      {p : TokenType → Bool} {o t : Bool} {m n : Action A}
      → Runs p o t k m
      → Runs q o t k n
      → Runs q o t k (on_any p m n)
  branch-Runs {p} {o} {t} {m} {n} yes-Runs no-Runs = record {
    run = λ s r lt at. elim (Bool-cases (p s.tok.type)) [
      | inl e ↦ rw e (yes-Runs.run s r lt e)
      | inr e ↦ rw e (no-Runs.run s r lt at)
    ];
  }

  -- the same for a named token, and with what the second branch knows of it
  pub on-Runs :
      {o t : Bool} {m n : Action A} (u : TokenType)
      → Runs (same_type u) o t k m
      → Runs q o t k n
      → Runs q o t k (on u m n)
  on-Runs u = branch-Runs {p = same_type u}

  pub else-Runs :
      {o t : Bool} {m n : Action A} (p : TokenType → Bool)
      → Runs p o t k m
      → Runs (λ u. q u && not (p u)) o t k n
      → Runs q o t k (on_any p m n)
  else-Runs {o} {t} {m} {n} p yes-Runs no-Runs = record {
    run = λ s r lt at. elim (Bool-cases (p s.tok.type)) [
      | inl e ↦ rw e (yes-Runs.run s r lt e)
      | inr e ↦ rw e (no-Runs.run s r lt (rw (at, e) refl))
    ];
  }

  -- a step that is shown apart at the tokens of `p` and at the others
  pub apart-Runs :
      {o t : Bool} {m : Action A} (p : TokenType → Bool)
      → Runs (λ u. q u && p u) o t k m
      → Runs (λ u. q u && not (p u)) o t k m
      → Runs q o t k m
  apart-Runs {o} {t} {m} p yes-Runs no-Runs = record {
    run = λ s r lt at. elim (Bool-cases (p s.tok.type)) [
      | inl e ↦ yes-Runs.run s r lt (rw (at, e) refl)
      | inr e ↦ no-Runs.run s r lt (rw (at, e) refl)
    ];
  }

  pub narrower :
      {p : TokenType → Bool} {o t : Bool} {m : Action A}
      → ((u : TokenType) → q u ≡ true → p u ≡ true)
      → Runs p o t k m
      → Runs q o t k m
  narrower inside h = record { run = λ s r lt at. h.run s r lt (inside s.tok.type at) }

  pub nowhere : {o t : Bool} {m : Action A} → ((u : TokenType) → q u ≡ true → ⊥) → Runs q o t k m
  nowhere h = record { run = λ s r lt at. absurd (h s.tok.type at) }

  pub pick-Runs :
      {o t : Bool} {m n : Action A} (b : Bool)
      → Runs q o t k m
      → Runs q o t k n
      → Runs q o t k (pick b m n)
  pick-Runs true h h' = h
  pick-Runs false h h' = h'
