-- ===== src/Parser/Chains.antt =====
-- A level of binary operators in src/parser.c groups a chain of operands to the left, up to the first token that
-- is no operator of the level.
use lemon.Base.{
  ℕ, zero, suc, ◌≡◌, ◌<◌, refl, ap, ◌∙◌, Bool, true, false, not, ◌&&◌, List, [], ◌∷◌, ◌++◌, length,
  arith, append_assoc,
}
use lemon.Parser.Actions.{Parser, ok, Action, same_type, get_next, get_next_token, receive}
use lemon.Parser.Expressions.{binary_loop, binary_level}
use lemon.Parser.Tree.{Expr, binary}
use lemon.Token.{TokenType, Token, invalid}

abbrev pub standing : Token → List Token → ℕ → Parser
standing t rest errors = record { tok = t; rest = rest; errors = errors }

-- the tokens of an operand, and what is to be read from them
pub record Chunk : Type 0 where
  pub first : Token
  pub others : List Token
  pub value : Expr

-- an operator with the operand behind it
pub record Link : Type 0 where
  pub operator : Token
  pub chunk : Chunk

-- the tokens of the links, with those of `tail` behind
abbrev pub tokens_before : List Link → List Token → List Token
tokens_before [] tail = tail
tokens_before (k ∷ ks) tail = k.operator ∷ k.chunk.first ∷ (k.chunk.others ++ tokens_before ks tail)

-- the operands, grouped to the left
abbrev pub grouped : Expr → List Link → Expr
grouped node [] = node
grouped node (k ∷ ks) = grouped (binary node k.chunk.value k.operator.type k.operator.line) ks

abbrev pub chain : Chunk → List Link → Chunk
chain c ks = record {
  first = c.first;
  others = c.others ++ tokens_before ks [];
  value = grouped c.value ks;
}

-- Wherever a token of `follow` comes behind the chunk, the action reads the chunk and stops at that token.
pub record Reads (follow : TokenType → Bool) (m : Action Expr) (c : Chunk) : Type 0 where
  pub read :
      (u : Token) (more : List Token) (errors : ℕ)
      → follow u.type ≡ true
      → m (standing c.first (c.others ++ u ∷ more) errors) ≡ ok c.value (standing u more errors)

pub record Linked (is_operator follow : TokenType → Bool) (m : Action Expr) (k : Link)
    : Type 0 where
  pub operates : is_operator k.operator.type ≡ true
  pub follows : follow k.operator.type ≡ true
  pub valid : same_type invalid k.chunk.first.type ≡ false
  pub reads : Reads follow m k.chunk

abbrev pub AllLinked : (TokenType → Bool) → (TokenType → Bool) → Action Expr → List Link → Type 0
AllLinked is_operator follow m [] = Unit
AllLinked is_operator follow m (k ∷ ks) =
    Linked is_operator follow m k × AllLinked is_operator follow m ks

tokens_before-append :
    (ks : List Link) (tail : List Token) → tokens_before ks [] ++ tail ≡ tokens_before ks tail
tokens_before-append [] tail = refl
tokens_before-append (k ∷ ks) tail =
    ap (λ ts. k.operator ∷ k.chunk.first ∷ ts)
      (append_assoc k.chunk.others (tokens_before ks []) tail
        ∙ ap (λ ts. k.chunk.others ++ ts) (tokens_before-append ks tail))

-- `GetNextValidToken` at a valid token
pub get_next_valid :
    (s : Parser) (t : Token) (rest : List Token)
    → s.rest ≡ t ∷ rest
    → same_type invalid t.type ≡ false
    → get_next s ≡ ok tt (standing t rest s.errors)
unfolding get_next get_next_token receive
get_next_valid s t rest e valid = rw (e, valid) refl

module _ (is_operator follow : TokenType → Bool) (m : Action Expr) where
  -- the state at the first of the links, or behind them
  abbrev at_links : List Link → Token → List Token → ℕ → Parser
  at_links [] u more errors = standing u more errors
  at_links (k ∷ ks) u more errors =
      standing k.operator (k.chunk.first ∷ (k.chunk.others ++ tokens_before ks (u ∷ more))) errors

  -- an operand with links behind it
  operand_steps :
      (c : Chunk) (ks : List Link)
      → Reads follow m c
      → AllLinked is_operator follow m ks
      → (u : Token) (more : List Token) (errors : ℕ) → follow u.type ≡ true
      → m (standing c.first (c.others ++ tokens_before ks (u ∷ more)) errors)
        ≡ ok c.value (at_links ks u more errors)
  operand_steps c [] h links u more errors at = h.read u more errors at
  operand_steps c (k ∷ ks) h (link, links) u more errors at =
      h.read k.operator (k.chunk.first ∷ (k.chunk.others ++ tokens_before ks (u ∷ more))) errors
        link.follows

  loop_steps :
      (ks : List Link)
      → AllLinked is_operator follow m ks
      → (fuel : ℕ) → length ks < fuel
      → (node : Expr) (u : Token) (more : List Token) (errors : ℕ) → follow u.type ≡ true
      → is_operator u.type ≡ false
      → binary_loop fuel is_operator m node (at_links ks u more errors)
        ≡ ok (grouped node ks) (standing u more errors)
  unfolding binary_loop
  loop_steps [] links zero lt node u more errors at apart = absurd (omega (arith, lt))
  loop_steps (k ∷ ks) links zero lt node u more errors at apart = absurd (omega (arith, lt))
  loop_steps [] links (suc fuel) lt node u more errors at apart = rw apart refl
  loop_steps (k ∷ ks) (link, links) (suc fuel) lt node u more errors at apart =
      let next =
        get_next_valid (at_links (k ∷ ks) u more errors) k.chunk.first
          (k.chunk.others ++ tokens_before ks (u ∷ more)) refl link.valid in
      rw (link.operates, next, operand_steps k.chunk ks link.reads links u more errors at)
        (loop_steps ks links fuel (omega (arith, lt)) _ u more errors at apart)

  -- If the action reads each of the operands where one of the operators or another token of `follow` comes
  -- behind it, then the level reads a chain of them, with fewer operators than fuel: the value
  -- groups the operands to the left, each with the operator before it and its line, and the parser
  -- stops at the token behind the chain, if that is of `follow` and no operator of the level.
  pub binary_level-Reads :
      (fuel : ℕ) (c : Chunk) (ks : List Link)
      → Reads follow m c
      → AllLinked is_operator follow m ks
      → length ks < fuel
      → Reads (λ u. follow u && not (is_operator u)) (binary_level fuel is_operator m) (chain c ks)
  unfolding binary_level
  binary_level-Reads fuel c ks h links lt = record {
    read = λ u more errors at.
        let laid : (c.others ++ tokens_before ks []) ++ u ∷ more
            ≡ c.others ++ tokens_before ks (u ∷ more) =
          append_assoc c.others (tokens_before ks []) (u ∷ more)
          ∙ ap (λ ts. c.others ++ ts) (tokens_before-append ks (u ∷ more)) in
        let (follows, apart) = both (follow u.type) (is_operator u.type) at in
        rw (laid, operand_steps c ks h links u more errors follows)
          (loop_steps ks links fuel lt c.value u more errors follows apart);
  }
    where
      both : (a b : Bool) → (a && not b) ≡ true → (a ≡ true) × (b ≡ false)
      both true false e = (refl, refl)
      both true true e = absurd (cc)
      both false b e = absurd (cc)
