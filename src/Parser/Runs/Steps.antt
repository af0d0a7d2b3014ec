-- ===== src/Parser/Runs/Steps.antt =====
-- From one state of the parser to a later one, and how an action of src/parser.c ends.
use lemon.Base.{
  ℕ, suc, ◌≤◌, ◌<◌, ◌≡◌, refl, ap, ◌∙◌, ◌⊎◌, inl, inr, Bool, true, false, List, [], ◌∷◌, length,
  arith,
}
use lemon.Parser.Actions.{Parser, Result, ok, thrown, aborted, past_eof, out_of_fuel, Action}
use lemon.Token.{TokenType, Token, eof}

-- One of the tokens ends the text.
abbrev pub HasEof : List Token → Type 0
HasEof [] = ⊥
HasEof (t ∷ ts) = (t.type ≡ eof) ⊎ HasEof ts

-- The end of the text is the current token or still to come.
abbrev pub Ready : Parser → Type 0
Ready s = HasEof (s.tok ∷ s.rest)

-- From one state to another that is ready: tokens were taken, or (unless `strict`) nothing was read.
pub record Onward (strict : Bool) (s s' : Parser) : Type 0 where
  pub ready : Ready s'
  pub errors : s.errors ≤ s'.errors
  pub taken :
      (length s'.rest < length s.rest) ⊎ ((strict ≡ false) × (s'.tok ≡ s.tok) × (s'.rest ≡ s.rest))

-- how a function ends that starts in `s`; `o` and `t` say whether it takes tokens when it returns and when
-- it throws
abbrev pub After {ℓ} : {A : Type ℓ} → Bool → Bool → Parser → Result A → Type 0
After o t s (ok a s') = Onward o s s'
After o t s (thrown s') = Onward t s s' × (s.errors < s'.errors)
After o t s aborted = Unit
After o t s past_eof = ⊥
After o t s out_of_fuel = ⊥

-- how it ends from each state that is ready, has fewer than `k` tokens left, and is at a token of `q`
pub record Runs {ℓ} {A : Type ℓ} (q : TokenType → Bool) (o t : Bool) (k : ℕ) (m : Action A)
    : Type 0 where
  pub run : (s : Parser) → Ready s → length s.rest < k → q s.tok.type ≡ true → After o t s (m s)

abbrev pub any : TokenType → Bool
any _ = true

pub Onward-refl : (s : Parser) → Ready s → Onward false s s
Onward-refl s r = record { ready = r; errors = omega arith; taken = inr (refl, refl, refl) }

pub Onward-le : (b : Bool) (s s' : Parser) → Onward b s s' → length s'.rest ≤ length s.rest
Onward-le b s s' h = elim h.taken [
  | inl less ↦ omega (arith, less)
  | inr (_, _, same) ↦ let e : length s'.rest ≡ length s.rest = ap length same in omega (arith, e)
]

pub Onward-lt : (s s' : Parser) → Onward true s s' → length s'.rest < length s.rest
Onward-lt s s' h = elim h.taken [ inl less ↦ less | inr (e, _, _) ↦ absurd (cc) ]

-- two steps, of which one takes tokens
pub Onward-left :
    (b : Bool) (s s' s'' : Parser) → Onward true s s' → Onward b s' s'' → Onward true s s''
Onward-left b s s' s'' h h' = record {
  ready = h'.ready;
  errors = omega (arith, h.errors, h'.errors);
  taken = inl (omega (arith, Onward-lt s s' h, Onward-le b s' s'' h'));
}

pub Onward-right :
    (b : Bool) (s s' s'' : Parser) → Onward false s s' → Onward b s' s'' → Onward b s s''
Onward-right b s s' s'' h h' = record {
  ready = h'.ready;
  errors = omega (arith, h.errors, h'.errors);
  taken = elim h'.taken [
    | inl less ↦ inl (omega (arith, Onward-le false s s' h, less))
    | inr (weak, tok, rest) ↦ elim h.taken [
      | inl less ↦
          inl (let e : length s''.rest ≡ length s'.rest = ap length rest in omega (arith, e, less))
      | inr (_, tok', rest') ↦ inr (weak, tok ∙ tok', rest ∙ rest')
    ]
  ];
}

pub Onward-weaken : (b : Bool) (s s' : Parser) → Onward b s s' → Onward false s s'
Onward-weaken b s s' h = record {
  ready = h.ready;
  errors = h.errors;
  taken = elim h.taken [ inl less ↦ inl less | inr (_, tok, rest) ↦ inr (refl, tok, rest) ];
}

module _ {ℓ} {A : Type ℓ} where
  After-weaken : (o t : Bool) (s : Parser) (r : Result A) → After o t s r → After o false s r
  After-weaken o t s (ok a s') h = h
  After-weaken o t s (thrown s') h = (Onward-weaken t s s' h.0, h.1)
  After-weaken o t s aborted h = h
  After-weaken o t s past_eof h = h
  After-weaken o t s out_of_fuel h = h

  pub After-keeps : (o t : Bool) (s : Parser) (r : Result A) → After o t s r → After false false s r
  After-keeps o t s (ok a s') h = Onward-weaken o s s' h
  After-keeps o t s (thrown s') h = (Onward-weaken t s s' h.0, h.1)
  After-keeps o t s aborted h = h
  After-keeps o t s past_eof h = h
  After-keeps o t s out_of_fuel h = h

  module _ {q : TokenType → Bool} {k : ℕ} {m : Action A} where
    -- what takes tokens in every case, and when it returns
    pub takes : {o : Bool} → Runs q o true k m → Runs q o false k m
    takes {o} h = record { run = λ s r lt at. After-weaken o true s (m s) (h.run s r lt at) }

    pub keeps : {o t : Bool} → Runs q o t k m → Runs q false false k m
    keeps {o} {t} h = record { run = λ s r lt at. After-keeps o t s (m s) (h.run s r lt at) }

    pub fewer : {o t : Bool} → Runs q o t (suc k) m → Runs q o t k m
    fewer h = record { run = λ s r lt at. h.run s r (omega arith) at }

    pub anywhere : {o t : Bool} → Runs any o t k m → Runs q o t k m
    anywhere h = record { run = λ s r lt at. h.run s r lt refl }

-- the current token when it returns
abbrev pub At {ℓ} : {A : Type ℓ} → (TokenType → Bool) → Result A → Type 0
At p (ok a s) = p s.tok.type ≡ true
At p (thrown s) = Unit
At p aborted = Unit
At p past_eof = Unit
At p out_of_fuel = Unit

pub At-any {ℓ} : {A : Type ℓ} (r : Result A) → At any r
At-any (ok a s) = refl
At-any (thrown s) = tt
At-any aborted = tt
At-any past_eof = tt
At-any out_of_fuel = tt

-- What ends at a token of `p`, from a token of `q` on.
pub record Stops {ℓ} {A : Type ℓ} (q p : TokenType → Bool) (m : Action A) : Type 0 where
  pub stop : (s : Parser) → q s.tok.type ≡ true → At p (m s)

-- What leaves the state as it is.
pub record Stays {ℓ} {A : Type ℓ} (m : Action A) : Type ℓ where
  pub stay : (s : Parser) → ((a : A) × (m s ≡ ok a s)) ⊎ (m s ≡ aborted)

pub at_most {ℓ} :
    {A : Type ℓ} {q : TokenType → Bool} {o t : Bool} {n : ℕ} {m : Action A} (k : ℕ)
    → k ≤ n
    → Runs q o t n m
    → Runs q o t k m
at_most k le h = record { run = λ s r lt at. h.run s r (omega (arith, le, lt)) at }
