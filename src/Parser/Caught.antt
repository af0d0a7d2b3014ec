-- ===== src/Parser/Caught.antt =====
-- No exception leaves `RecursiveDescent` of src/parser.c: whatever throws is inside a `Try`.
use lemon.Base.{
  ℕ, zero, suc, inl, inr, Bool, true, false, Bool-cases, Option, none, some, List, [], ◌∷◌,
}
use lemon.Parser.{import_loop, decl_loop, recursive_descent, knot, rec_import}
use lemon.Parser.Actions.{
  Parser, Result, ok, thrown, aborted, past_eof, out_of_fuel, Action, pure, bind, on_any, on,
  same_type, receive, get_next_token, get_next, is_sequence_point, skip_token, sync_round,
  synchronize_from, synchronize, recovered, attempt,
}
use lemon.Parser.Expressions.{Calls}
use lemon.Parser.Tree.{CString}
use lemon.Token.{TokenType, Token, invalid, eof, import_kw}

abbrev pub IsCaught {ℓ} : {A : Type ℓ} → Result A → Type 0
IsCaught (thrown s) = ⊥
IsCaught (ok a s) = Unit
IsCaught aborted = Unit
IsCaught past_eof = Unit
IsCaught out_of_fuel = Unit

bind-IsCaught {ℓ κ} :
    {A : Type ℓ} {B : Type κ} (r : Result A) (f : A → Action B)
    → IsCaught r
    → ((a : A) (s : Parser) → IsCaught (f a s))
    → IsCaught (bind r f)
bind-IsCaught (ok a s) f h more = more a s
bind-IsCaught (thrown s) f h more = h
bind-IsCaught aborted f h more = tt
bind-IsCaught past_eof f h more = tt
bind-IsCaught out_of_fuel f h more = tt

on_any-IsCaught {ℓ} :
    {A : Type ℓ} (q : TokenType → Bool) (m n : Action A) (s : Parser)
    → IsCaught (m s)
    → IsCaught (n s)
    → IsCaught (on_any q m n s)
on_any-IsCaught q m n s h h' = elim (Bool-cases (q s.tok.type)) [ inl e ↦ rw e h | inr e ↦ rw e h' ]

sync_round-IsCaught :
    (level : Bool) (t : Token) (rest : List Token) (errors : ℕ) (next : ℕ → Result (Unit {0}))
    → ((errors' : ℕ) → IsCaught (next errors'))
    → IsCaught (sync_round level t rest errors next)
unfolding sync_round
sync_round-IsCaught level t rest errors next h =
    elim (Bool-cases (is_sequence_point level t.type)) [
      | inl stop ↦ rw stop tt
      | inr on_way ↦ rw on_way (skipped (skip_token t errors))
    ]
  where
    skipped :
        (o : Option ℕ)
        → IsCaught
            (elim o as (λ _. Result (Unit {0})) [ none ↦ aborted | some errors' ↦ next errors' ])
    skipped none = tt
    skipped (some errors') = h errors'

synchronize_from-IsCaught :
    (level : Bool) (t : Token) (rest : List Token) (errors : ℕ)
    → IsCaught (synchronize_from level t rest errors)
unfolding synchronize_from
synchronize_from-IsCaught level t [] errors =
    sync_round-IsCaught level t [] errors _ (λ errors'. tt)
synchronize_from-IsCaught level t (u ∷ rest) errors =
    sync_round-IsCaught level t (u ∷ rest) errors _
      (λ errors'. synchronize_from-IsCaught level u rest errors')

attempt-IsCaught {ℓ} :
    {A : Type ℓ} (level : Bool) (m : Action A) (s : Parser) → IsCaught (attempt level m s)
unfolding recovered synchronize
attempt-IsCaught {A} level m s = caught (m s)
  where
    caught : (r : Result A) → IsCaught (recovered level r)
    caught (ok a s') = tt
    caught (thrown s') =
        bind-IsCaught (synchronize level s') _
          (synchronize_from-IsCaught level s'.tok s'.rest s'.errors) (λ _ s''. tt)
    caught aborted = tt
    caught past_eof = tt
    caught out_of_fuel = tt

get_next-IsCaught : (s : Parser) → IsCaught (get_next s)
unfolding get_next get_next_token receive synchronize
get_next-IsCaught s = received s.rest
  where
    received :
        (rest : List Token)
        → IsCaught (bind (receive rest s.errors) (λ _. on invalid (synchronize false) (pure tt)))
    received [] = tt
    received (t ∷ rest) =
        on_any-IsCaught (same_type invalid) (synchronize false) (pure tt) _
          (synchronize_from-IsCaught false t rest s.errors) tt

import_loop-IsCaught : (fuel : ℕ) (s : Parser) → IsCaught (import_loop fuel s)
unfolding import_loop
import_loop-IsCaught zero s = tt
import_loop-IsCaught (suc fuel) s =
    on_any-IsCaught (same_type import_kw) _ _ s
      (bind-IsCaught (attempt true rec_import s) _ (attempt-IsCaught true rec_import s) (λ node s'.
        bind-IsCaught (import_loop fuel s') _ (import_loop-IsCaught fuel s') (λ _ s''. tt)))
      tt

decl_loop-IsCaught : (fuel : ℕ) (calls : Calls) (s : Parser) → IsCaught (decl_loop fuel calls s)
unfolding decl_loop
decl_loop-IsCaught zero calls s = tt
decl_loop-IsCaught (suc fuel) calls s = on_any-IsCaught (same_type eof) _ _ s tt (
    bind-IsCaught (attempt true calls.rec_decl s) _ (attempt-IsCaught true calls.rec_decl s)
      (λ node s'.
        bind-IsCaught (decl_loop fuel calls s') _ (decl_loop-IsCaught fuel calls s') (λ _ s''. tt)))

-- From any state and on any fuel `RecursiveDescent` does not end with an exception: each that a production
-- throws is caught by the `Try` of a loop, and neither `Synchronize` in the `Catch` nor the reading
-- of the first token throws again. Nothing is said of the other ways to end.
pub recursive_descent-IsCaught :
    (fuel : ℕ) (alias : CString) (s : Parser) → IsCaught (recursive_descent fuel alias s)
unfolding recursive_descent
recursive_descent-IsCaught fuel alias s =
    bind-IsCaught (get_next s) _ (get_next-IsCaught s) (λ _ s1.
      bind-IsCaught (import_loop fuel s1) _ (import_loop-IsCaught fuel s1) (λ imports s2.
        bind-IsCaught (decl_loop fuel (knot fuel) s2) _ (decl_loop-IsCaught fuel (knot fuel) s2)
          (λ declarations s3. tt)))
