-- ===== src/Parser/Sums.antt =====
-- The precedence of the operators of src/parser.c: a sum of products of numbers.
use lemon.Base.{
  ℕ, suc, ◌≡◌, ◌<◌, refl, ap, Bool, true, false, not, ◌&&◌, some, List, [], ◌∷◌, length, take,
}
use lemon.Parser.Actions.{ok, same_type, lexeme, lexeme_of}
use lemon.Parser.Chains.{
  standing, Chunk, Link, chain, Reads, AllLinked, get_next_valid, binary_level-Reads,
}
use lemon.Parser.Expressions.{
  Calls, rec_access, rec_literal, rec_atom, rec_primary, rec_unary, rec_factor, rec_term, is_factor,
  is_term,
}
use lemon.Parser.Tree.{Expr, lit}
use lemon.Token.{
  TokenType, Ptr, Token, invalid, literal_int, dot, left_paren, left_bracket, star, slash, modulo,
  lshift, rshift, ampersand, plus, minus, bitwise_or, bitwise_xor,
}

-- a token that is valid and does not go on with the expression before it
abbrev pub ends_operand : TokenType → Bool
ends_operand u =
    not (same_type invalid u)
    && (not (same_type dot u) && (not (same_type left_paren u) && not (same_type left_bracket u)))

-- a token of the scanner
abbrev pub token_of : TokenType → Ptr → ℕ → ℕ → Token
token_of type view len l = record {
  view = some view;
  len = len;
  type = type;
  line = l;
  valid = true;
  bad_string = false;
}

pub record Number : Type 0 where
  pub view : Ptr
  pub len : ℕ
  pub line : ℕ

abbrev pub number_chunk : Number → Chunk
number_chunk n = record {
  first = token_of literal_int n.view n.len n.line;
  others = [];
  value = lit (take n.len n.view.text) literal_int n.line;
}

pub data FactorOperator : Type 0 where
  by_star by_slash by_modulo by_lshift by_rshift by_ampersand : FactorOperator

abbrev pub factor_type : FactorOperator → TokenType
factor_type by_star = star
factor_type by_slash = slash
factor_type by_modulo = modulo
factor_type by_lshift = lshift
factor_type by_rshift = rshift
factor_type by_ampersand = ampersand

pub data TermOperator : Type 0 where
  by_plus by_minus by_or by_xor : TermOperator

abbrev pub term_type : TermOperator → TokenType
term_type by_plus = plus
term_type by_minus = minus
term_type by_or = bitwise_or
term_type by_xor = bitwise_xor

pub record Times : Type 0 where
  pub operator : FactorOperator
  pub view : Ptr
  pub line : ℕ
  pub number : Number

pub record Product : Type 0 where
  pub head : Number
  pub tail : List Times

pub record Plus : Type 0 where
  pub operator : TermOperator
  pub view : Ptr
  pub line : ℕ
  pub product : Product

abbrev pub times_links : List Times → List Link
times_links [] = []
times_links (t ∷ ts) =
    record {
      operator = token_of (factor_type t.operator) t.view 1 t.line;
      chunk = number_chunk t.number;
    }
    ∷ times_links ts

abbrev pub product_chunk : Product → Chunk
product_chunk p = chain (number_chunk p.head) (times_links p.tail)

abbrev pub plus_links : List Plus → List Link
plus_links [] = []
plus_links (p ∷ ps) =
    record {
      operator = token_of (term_type p.operator) p.view 1 p.line;
      chunk = product_chunk p.product;
    }
    ∷ plus_links ps

-- each product has fewer operators than fuel
abbrev pub AllShort : ℕ → List Plus → Type 0
AllShort fuel [] = Unit
AllShort fuel (p ∷ ps) = (length p.product.tail < fuel) × AllShort fuel ps

length-times_links : (ts : List Times) → length (times_links ts) ≡ length ts
length-times_links [] = refl
length-times_links (t ∷ ts) = ap suc (length-times_links ts)

length-plus_links : (ps : List Plus) → length (plus_links ps) ≡ length ps
length-plus_links [] = refl
length-plus_links (p ∷ ps) = ap suc (length-plus_links ps)

four :
    (a b c d : Bool)
    → (not a && (not b && (not c && not d))) ≡ true
    → (a ≡ false) × (b ≡ false) × (c ≡ false) × (d ≡ false)
four true b c d e = absurd (cc)
four false true c d e = absurd (cc)
four false false true d e = absurd (cc)
four false false false true e = absurd (cc)
four false false false false e = (refl, refl, refl, refl)

ends_none :
    (u : TokenType)
    → ends_operand u ≡ true
    → (same_type invalid u ≡ false)
      × (same_type dot u ≡ false)
      × (same_type left_paren u ≡ false)
      × (same_type left_bracket u ≡ false)
ends_none u at = four _ _ _ _ at

abbrev ends_factor : TokenType → Bool
ends_factor u = ends_operand u && not (is_factor u)

factor_operates : (o : FactorOperator) → is_factor (factor_type o) ≡ true
factor_operates by_star = refl
factor_operates by_slash = refl
factor_operates by_modulo = refl
factor_operates by_lshift = refl
factor_operates by_rshift = refl
factor_operates by_ampersand = refl

factor_ends : (o : FactorOperator) → ends_operand (factor_type o) ≡ true
factor_ends by_star = refl
factor_ends by_slash = refl
factor_ends by_modulo = refl
factor_ends by_lshift = refl
factor_ends by_rshift = refl
factor_ends by_ampersand = refl

term_operates : (o : TermOperator) → is_term (term_type o) ≡ true
term_operates by_plus = refl
term_operates by_minus = refl
term_operates by_or = refl
term_operates by_xor = refl

term_ends : (o : TermOperator) → ends_factor (term_type o) ≡ true
term_ends by_plus = refl
term_ends by_minus = refl
term_ends by_or = refl
term_ends by_xor = refl

module _ (calls : Calls) (fuel : ℕ) where
  rec_access-ends :
      (node : Expr) (u : Token) (more : List Token) (errors : ℕ)
      → ends_operand u.type ≡ true
      → rec_access calls fuel node (standing u more errors) ≡ ok node (standing u more errors)
  unfolding rec_access
  rec_access-ends node u more errors at =
      let (_, no_dot, no_paren, no_bracket) = ends_none u.type at in
      rw (no_dot, no_paren, no_bracket) refl

  pub number-Reads : (n : Number) → Reads ends_operand (rec_unary calls fuel) (number_chunk n)
  unfolding rec_unary rec_primary rec_atom rec_literal lexeme lexeme_of
  number-Reads n = record {
    read = λ u more errors at.
        let (valid, _, _, _) = ends_none u.type at in
        let next =
          get_next_valid (standing (token_of literal_int n.view n.len n.line) (u ∷ more) errors) u
            more refl valid in
        rw next (rec_access-ends _ u more errors at);
  }

  pub times-AllLinked :
      (ts : List Times) → AllLinked is_factor ends_operand (rec_unary calls fuel) (times_links ts)
  times-AllLinked [] = tt
  times-AllLinked (t ∷ ts) = (
    record {
      operates = factor_operates t.operator;
      follows = factor_ends t.operator;
      valid = refl;
      reads = number-Reads t.number;
    },
    times-AllLinked ts,
  )

  product-Reads :
      (p : Product)
      → length p.tail < fuel
      → Reads ends_factor (rec_factor calls fuel) (product_chunk p)
  unfolding rec_factor
  product-Reads p lt =
      binary_level-Reads is_factor ends_operand (rec_unary calls fuel) fuel (number_chunk p.head)
        (times_links p.tail) (number-Reads p.head) (times-AllLinked p.tail)
        (rw (length-times_links p.tail) lt)

  plus-AllLinked :
      (ps : List Plus)
      → AllShort fuel ps
      → AllLinked is_term ends_factor (rec_factor calls fuel) (plus_links ps)
  plus-AllLinked [] short = tt
  plus-AllLinked (p ∷ ps) (lt, short) = (
    record {
      operates = term_operates p.operator;
      follows = term_ends p.operator;
      valid = refl;
      reads = product-Reads p.product lt;
    },
    plus-AllLinked ps short,
  )

-- `RecTerm`, at the tokens of products of numbers with term operators between them, and with more fuel than
-- there are operators of one level in a row, reads them all up to a token that continues neither an
-- operand, nor a product, nor the sum: each product is grouped to the left first, and the sum of them
-- then to the left, so that `* / % << >> &` bind tighter than `+ - | ^`.
pub rec_term-Reads :
    (calls : Calls) (fuel : ℕ) (p : Product) (ps : List Plus)
    → length p.tail < fuel
    → AllShort fuel ps
    → length ps < fuel
    → Reads
        (λ u. (ends_operand u && not (is_factor u)) && not (is_term u))
        (rec_term calls fuel)
        (chain (product_chunk p) (plus_links ps))
unfolding rec_term
rec_term-Reads calls fuel p ps lt short lt' =
    binary_level-Reads is_term ends_factor (rec_factor calls fuel) fuel (product_chunk p)
      (plus_links ps) (product-Reads calls fuel p lt) (plus-AllLinked calls fuel ps short)
      (rw (length-plus_links ps) lt')
