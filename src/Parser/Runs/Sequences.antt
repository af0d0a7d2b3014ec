-- ===== src/Parser/Runs/Sequences.antt =====
-- One action of src/parser.c behind another.
use lemon.Base.{ℕ, zero, suc, ◌<◌, inl, inr, Bool, true, false, length, arith}
use lemon.Parser.Actions.{
  Parser, Result, ok, thrown, aborted, past_eof, out_of_fuel, Action, bind, ◌>>=◌,
}
use lemon.Token.{TokenType}
use lemon.Parser.Runs.Steps.{
  Onward, After, Runs, any, Onward-le, Onward-lt, Onward-left, Onward-right, Onward-weaken, fewer,
  At, At-any, Stops, Stays,
}

module _ {ℓ κ} {A : Type ℓ} {B : Type κ} {p : TokenType → Bool} {f : A → Action B} where
  pub bind_left :
      (o t : Bool) (k : ℕ) (s : Parser) (r : Result A)
      → length s.rest < suc k
      → After true t s r
      → At p r
      → ((a : A) → Runs p false false k (f a))
      → After true t s (bind r f)
  bind_left o t k s (ok a s') lt h at more =
      after (f a s') ((more a).run s' h.ready (omega (arith, Onward-lt s s' h)) at)
    where
      after : (r : Result B) → After false false s' r → After true t s r
      after (ok b s'') h' = Onward-left false s s' s'' h h'
      after (thrown s'') (h', worse) =
          (flag t (Onward-left false s s' s'' h h'), omega (arith, worse, h.errors))
        where
          flag : (t : Bool) → Onward true s s'' → Onward t s s''
          flag true g = g
          flag false g = Onward-weaken true s s'' g
      after aborted h' = tt
      after past_eof h' = h'
      after out_of_fuel h' = h'
  bind_left o t k s (thrown s') lt h at more = h
  bind_left o t k s aborted lt h at more = tt
  bind_left o t k s past_eof lt h at more = h
  bind_left o t k s out_of_fuel lt h at more = h

  bind_right :
      (o : Bool) (k : ℕ) (s : Parser) (r : Result A)
      → length s.rest < k
      → After false false s r
      → At p r
      → ((a : A) → Runs p o false k (f a))
      → After o false s (bind r f)
  bind_right o k s (ok a s') lt h at more =
      after (f a s') ((more a).run s' h.ready (omega (arith, Onward-le false s s' h)) at)
    where
      after : (r : Result B) → After o false s' r → After o false s r
      after (ok b s'') h' = Onward-right o s s' s'' h h'
      after (thrown s'') (h', worse) =
          (Onward-right false s s' s'' h h', omega (arith, worse, h.errors))
      after aborted h' = tt
      after past_eof h' = h'
      after out_of_fuel h' = h'
  bind_right o k s (thrown s') lt h at more = h
  bind_right o k s aborted lt h at more = tt
  bind_right o k s past_eof lt h at more = h
  bind_right o k s out_of_fuel lt h at more = h

module _ {ℓ κ} {A : Type ℓ} {B : Type κ} {q : TokenType → Bool} {m : Action A}
    {f : A → Action B} where
  -- what begins with a look at the state
  pub stay_then :
      {o t : Bool} {k : ℕ} → Stays m → ((a : A) → Runs q o t k (f a)) → Runs q o t k (m >>= f)
  stay_then {o} {t} st h = record {
    run =
        λ s r lt at. elim (st.stay s) [ inl (a, e) ↦ rw e ((h a).run s r lt at) | inr e ↦ rw e tt ];
  }

  -- what takes a token first, and ends at a token of `p`; the rest has one token fewer
  pub take_at :
      {p : TokenType → Bool} {t : Bool} {k : ℕ}
      → Runs q true t (suc k) m
      → Stops q p m
      → ((a : A) → Runs p false false k (f a))
      → Runs q true t (suc k) (m >>= f)
  take_at {t} {k} h ends more = record {
    run = λ s r lt at. bind_left true t k s (m s) lt (h.run s r lt at) (ends.stop s at) more;
  }

  pub keep_at :
      {p : TokenType → Bool} {o : Bool} {k : ℕ}
      → Runs q false false k m
      → Stops q p m
      → ((a : A) → Runs p o false k (f a))
      → Runs q o false k (m >>= f)
  keep_at {o} {k} h ends more = record {
    run = λ s r lt at. bind_right o k s (m s) lt (h.run s r lt at) (ends.stop s at) more;
  }

pub Stops-any {ℓ} : {A : Type ℓ} {q : TokenType → Bool} (m : Action A) → Stops q any m
Stops-any m = record { stop = λ s at. At-any (m s) }

module _ {ℓ κ} {A : Type ℓ} {B : Type κ} {q : TokenType → Bool} {m : Action A}
    {f : A → Action B} where
  pub take_then :
      {t : Bool} {k : ℕ}
      → Runs q true t (suc k) m
      → ((a : A) → Runs any false false k (f a))
      → Runs q true t (suc k) (m >>= f)
  take_then h more = take_at h (Stops-any m) more

  pub keep_then :
      {o : Bool} {k : ℕ}
      → Runs q false false k m
      → ((a : A) → Runs any o false k (f a))
      → Runs q o false k (m >>= f)
  keep_then h more = keep_at h (Stops-any m) more

pub vacuous {ℓ} :
    {A : Type ℓ} {q : TokenType → Bool} {o t : Bool} (m : Action A) → Runs q o t zero m
vacuous m = record { run = λ s r lt at. absurd (omega arith) }

-- what takes a token, and the rest with no fewer counted
pub take_on {ℓ κ} :
    {A : Type ℓ} {B : Type κ} {q : TokenType → Bool} {t : Bool} (k : ℕ) {m : Action A}
    {f : A → Action B}
    → Runs q true t k m
    → ((a : A) → Runs any false false k (f a))
    → Runs q true t k (m >>= f)
take_on zero {m} {f} h more = vacuous (m >>= f)
take_on (suc k) h more = take_then h (λ a. fewer (more a))
