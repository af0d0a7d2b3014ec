-- ===== src/Parser/Runs/Looks.antt =====
-- What only looks at the current token in src/parser.c.
use lemon.Base.{ℕ, refl, inl, inr, Bool-cases, Option, none, some}
use lemon.Parser.Actions.{
  Parser, gets, same_type, assert_token, lexeme, lexeme_of, line, current_type,
}
use lemon.Token.{TokenType, Ptr}
use lemon.Parser.Runs.Steps.{Stays}

pub gets-Stays {ℓ} : {A : Type ℓ} {g : Parser → A} → Stays (gets g)
gets-Stays = record { stay = λ s. inl (_, refl) }

pub line-Stays : Stays line
line-Stays = gets-Stays

pub type-Stays : Stays current_type
type-Stays = gets-Stays

pub lexeme_of-Stays : (p : Option Ptr) (len : ℕ) → Stays (lexeme_of p len)
unfolding lexeme_of
lexeme_of-Stays none len = record { stay = λ s. inr refl }
lexeme_of-Stays (some p) len = record { stay = λ s. inl (_, refl) }

pub lexeme-Stays : Stays lexeme
unfolding lexeme
lexeme-Stays = record { stay = λ s. (lexeme_of-Stays s.tok.view s.tok.len).stay s }

pub assert-Stays : (t : TokenType) → Stays (assert_token t)
assert-Stays t = record {
  stay = λ s. elim (Bool-cases (same_type t s.tok.type)) [
    | inl e ↦ inl (tt, rw e refl)
    | inr e ↦ inr (rw e refl)
  ];
}
