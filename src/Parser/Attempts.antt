-- ===== src/Parser/Attempts.antt =====
-- The `Try` blocks of src/parser.c, with `Synchronize` in their `Catch`.
use lemon.Base.{
  ℕ, ◌≤◌, ◌<◌, ◌≡◌, refl, ap, ◌∙◌, ◌⊎◌, inl, inr, subst, Bool, true, false, ◌&&◌, Bool-cases,
  Option, none, length, arith,
}
use lemon.Parser.Actions.{
  Parser, Result, ok, thrown, aborted, past_eof, out_of_fuel, Action, pure, bind, is_sequence_point,
  synchronize, recovered, attempt,
}
use lemon.Parser.Runs.{Ready, Onward, Onward-lt, Onward-refl, After, Runs}
use lemon.Token.{TokenType}
use lemon.Parser.Tokens.{Synced, synchronize_from-Synced}

-- how `Try` ends: at a sequence point where nothing was taken, or further on
abbrev pub Recovered {ℓ} : {A : Type ℓ} → Bool → Parser → Result (Option A) → Type 0
Recovered level s (ok _ s') =
    Ready s'
    × (s.errors ≤ s'.errors)
    × ((length s'.rest < length s.rest)
        ⊎ ((is_sequence_point level s.tok.type ≡ true) × (s'.tok ≡ s.tok) × (s'.rest ≡ s.rest)))
Recovered level s (thrown s') = ⊥
Recovered level s aborted = Unit
Recovered level s past_eof = ⊥
Recovered level s out_of_fuel = ⊥

module _ {ℓ} (A : Type ℓ) (level : Bool) where
  synced :
      (t : Bool) (s s1 : Parser)
      → Onward t s s1
      → s.errors ≤ s1.errors
      → (r : Result (Unit {0})) → Synced level s1.tok s1.rest s1.errors r
      → Recovered level s (bind r (λ _. pure {A = Option A} none))
  synced t s s1 on_way worse (ok _ s') (ready, more, stop, far) =
      (ready, omega (arith, worse), far_from far on_way.taken)
    where
      far_from :
          (length s'.rest < length s1.rest)
            ⊎ ((is_sequence_point level s1.tok.type ≡ true)
                × (s'.tok ≡ s1.tok)
                × (s'.rest ≡ s1.rest))
          → (length s1.rest < length s.rest) ⊎ ((t ≡ false) × (s1.tok ≡ s.tok) × (s1.rest ≡ s.rest))
          → (length s'.rest < length s.rest)
            ⊎ ((is_sequence_point level s.tok.type ≡ true) × (s'.tok ≡ s.tok) × (s'.rest ≡ s.rest))
      far_from (inl a) (inl b) = inl (omega arith)
      far_from (inl a) (inr (_, _, e)) =
          inl (let e' : length s1.rest ≡ length s.rest = ap length e in omega arith)
      far_from (inr (_, _, e)) (inl b) =
          inl (let e' : length s'.rest ≡ length s1.rest = ap length e in omega arith)
      far_from (inr (point, tok, rest)) (inr (_, tok', rest')) =
          inr (
            subst (λ u. is_sequence_point level u.type ≡ true) tok' point,
            tok ∙ tok',
            rest ∙ rest',
          )
  synced t s s1 on_way worse (thrown s') h = h
  synced t s s1 on_way worse aborted h = tt
  synced t s s1 on_way worse past_eof h = h
  synced t s s1 on_way worse out_of_fuel h = h

  pub recovered-Recovered :
      (t : Bool) (s : Parser) (r : Result A)
      → After true t s r
      → Recovered level s (recovered level r)
  unfolding recovered synchronize
  recovered-Recovered t s (ok a s') h = (h.ready, h.errors, strict h.taken)
    where
      strict :
          (length s'.rest < length s.rest)
            ⊎ ((true ≡ false) × (s'.tok ≡ s.tok) × (s'.rest ≡ s.rest))
          → (length s'.rest < length s.rest)
            ⊎ ((is_sequence_point level s.tok.type ≡ true) × (s'.tok ≡ s.tok) × (s'.rest ≡ s.rest))
      strict (inl less) = inl less
      strict (inr (e, _, _)) = absurd (cc)
  recovered-Recovered t s (thrown s1) (on_way, worse) =
      synced t s s1 on_way (omega (arith, worse)) _
        (synchronize_from-Synced level s1.tok s1.rest s1.errors on_way.ready)
  recovered-Recovered t s aborted h = tt
  recovered-Recovered t s past_eof h = h
  recovered-Recovered t s out_of_fuel h = h

module _ {ℓ} (A : Type ℓ) (level : Bool) where
  nearer :
      (s s1 : Parser)
      → Onward true s s1
      → (r : Result (Option A)) → Recovered level s1 r
      → After true true s r
  nearer s s1 h (ok a s') (ready, more, far') = record {
    ready = ready;
    errors = omega (arith, h.errors);
    taken = inl (less far');
  }
    where
      less :
          (length s'.rest < length s1.rest)
            ⊎ ((is_sequence_point level s1.tok.type ≡ true)
                × (s'.tok ≡ s1.tok)
                × (s'.rest ≡ s1.rest))
          → length s'.rest < length s.rest
      less (inl e) = omega (arith, Onward-lt s s1 h)
      less (inr (_, _, e)) =
          let e' : length s'.rest ≡ length s1.rest = ap length e in omega (arith, Onward-lt s s1 h)
  nearer s s1 h (thrown s') g = absurd g
  nearer s s1 h aborted g = tt
  nearer s s1 h past_eof g = g
  nearer s s1 h out_of_fuel g = g

  moved : (s : Parser) (r : Result A) → After true true s r → After true true s (recovered level r)
  unfolding recovered synchronize
  moved s (ok a s') h = h
  moved s (thrown s1) (on_way, worse) = nearer s s1 on_way _ (
      synced A level false s1 s1 (Onward-refl s1 on_way.ready) (omega arith) _
        (synchronize_from-Synced level s1.tok s1.rest s1.errors on_way.ready))
  moved s aborted h = tt
  moved s past_eof h = h
  moved s out_of_fuel h = h

-- `Try` takes a token if what it runs does, in every case at a sequence point and when it returns elsewhere
pub attempt-Runs {ℓ} :
    {A : Type ℓ} {q : TokenType → Bool} {k : ℕ} {m : Action A} (level : Bool)
    → Runs q true false k m
    → Runs (λ u. q u && is_sequence_point level u) true true k m
    → Runs q true true k (attempt level m)
attempt-Runs {A} {q} {k} {m} level weak strong = record {
  run = λ s r lt at. elim (Bool-cases (is_sequence_point level s.tok.type)) [
    | inl point ↦ moved A level s (m s) (strong.run s r lt (rw (at, point) refl))
    | inr apart ↦
        far s apart (recovered level (m s))
          (recovered-Recovered A level false s (m s) (weak.run s r lt at))
  ];
}
  where
    far :
        (s : Parser)
        → is_sequence_point level s.tok.type ≡ false
        → (r : Result (Option A)) → Recovered level s r
        → After true true s r
    far s apart (ok a s') (ready, more, inl less) = record {
      ready = ready;
      errors = more;
      taken = inl less;
    }
    far s apart (ok a s') (ready, more, inr (point, _, _)) = absurd (cc)
    far s apart (thrown s') h = absurd h
    far s apart aborted h = tt
    far s apart past_eof h = h
    far s apart out_of_fuel h = h
