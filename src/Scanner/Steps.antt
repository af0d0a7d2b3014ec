-- ===== src/Scanner/Steps.antt =====
-- What one round of the loop of `Scan` does, in every case of its switch: it moves forward inside the
-- text and sends at most one token, which is spelled as its type asks and lies in what was passed.
use lemon.Base.{
  ◌∙◌, ap, length-take, ℕ, suc, ◌+◌, ◌≤◌, ◌<◌, ◌≡◌, refl, sym, ◌≢◌, subst, Bool, true, false, not,
  ◌&&◌, Option, none, some, List, [], ◌∷◌, ◌++◌, ◌==◌, length, take, drop, arith, append-nil,
  length-drop, drop-drop,
}
use lemon.Scanner.Chars.{
  newlines-take-suc, newlines, newlines_of_Passes, newlines-take_one, not_space_eof-ne_newline,
  is_space_eof, span, span-le-length, Passes-take-span,
}
use lemon.Scanner.Grammar.{Spelled}
use lemon.Scanner.{
  Scanner, send_token, token_at, consume, consume_space, consume_comment, consume_invalid,
}
use lemon.Token.{deref, eof, TokenType, invalid, Ptr, deref, plus_ptr, Token}

-- the characters that a token's lexeme shows
abbrev pub lexeme : Token → List ℕ
lexeme t = elim t.view [ none ↦ [] | some p ↦ take t.len p.text ]

-- The lexeme lies in the `n` characters from `p` on, at their start unless a quotation mark stands
-- there; or it is empty without a view.
abbrev pub Located : Ptr → ℕ → Option Ptr → ℕ → Type 0
Located p n none len = len ≡ 0
Located p n (some q) len =
    (k : ℕ) × (q ≡ plus_ptr p k) × (k + len ≤ n) × (deref p.text ≢ b'"' → k ≡ 0)

pub record IsToken (p : Ptr) (n line : ℕ) (t : Token) : Type 0 where
  pub spelled : Spelled t.type (lexeme t)
  pub located : Located p n t.view t.len
  pub at_line : t.line ≡ line
  pub not_eof : t.type ≢ eof

-- at most one token was sent
abbrev pub Output : Ptr → ℕ → ℕ → List Token → Type 0
Output p n line [] = Unit {0}
Output p n line (t ∷ []) = IsToken p n line t
Output p n line (t ∷ u ∷ ts) = ⊥

pub record Steps (s s' : Scanner) : Type 0 where
  pub width : ℕ
  pub progress : 0 < width
  pub fits : width ≤ length s.pos.text
  pub moved : s'.pos ≡ plus_ptr s.pos width
  pub tokens : List Token
  pub sent : s'.sent ≡ s.sent ++ tokens
  pub output : Output s.pos width s.line tokens
  pub lines : deref s.pos.text ≢ b'"' → s'.line ≡ s.line + newlines (take width s.pos.text)

pub plus_ptr_zero : (p : Ptr) → p ≡ plus_ptr p 0
plus_ptr_zero p = ground arith

pub plus_ptr-plus_ptr : (p : Ptr) (m n k : ℕ) → m + n ≡ k → plus_ptr (plus_ptr p m) n ≡ plus_ptr p k
plus_ptr-plus_ptr p m n k e = rw (← e) (ground (arith, drop-drop m n p.text))

-- No stretch of the text is spelled like the end of it.
not-eof :
    (type : TokenType) (n : ℕ) (text : List ℕ)
    → 0 < n
    → n ≤ length text
    → Spelled type (take n text)
    → type ≢ eof
not-eof type n text pos fit sp e =
    let empty : take n text ≡ [] = subst (λ u. Spelled u (take n text)) e sp in
    omega (arith, length-take n text, ap length empty)

pub consume-Steps :
    (s : Scanner) (type : TokenType) (n : ℕ)
    → 0 < n
    → n ≤ length s.pos.text
    → Spelled type (take n s.pos.text)
    → newlines (take n s.pos.text) ≡ 0
    → Steps s (consume s type n)
unfolding consume send_token
consume-Steps s type n pos fit sp nl = record {
  width = n;
  progress = pos;
  fits = fit;
  moved = refl;
  tokens = token_at s type n ∷ [];
  sent = refl;
  output = record {
    spelled = sp;
    located = (0, plus_ptr_zero s.pos, omega arith, λ _. refl);
    at_line = refl;
    not_eof = not-eof type n _ pos fit sp;
  };
  lines = λ _. omega arith;
}

pub consume_space-Steps : (s : Scanner) → 0 < length s.pos.text → Steps s (consume_space s)
unfolding consume_space
consume_space-Steps s h = record {
  width = 1;
  progress = omega arith;
  fits = h;
  moved = refl;
  tokens = [];
  sent = sym (append-nil s.sent);
  output = tt;
  lines = λ _. ground (arith, newlines-take_one s.pos.text h);
}

comment_char-ne_newline : (c : ℕ) → not (c == 0) && not (c == b'\n') ≡ true → c ≢ b'\n'
comment_char-ne_newline c h = ground arith

comment_flat :
    (s : Scanner)
    → deref s.pos.text ≡ b'#'
    → newlines
        (take (suc (span (λ c. not (c == 0) && not (c == b'\n')) (drop 1 s.pos.text))) s.pos.text)
      ≡ 0
comment_flat s e =
    newlines-take-suc _ s.pos.text (omega arith)
    ∙ newlines_of_Passes _ _ comment_char-ne_newline (Passes-take-span _ (drop 1 s.pos.text))

pub consume_comment-Steps :
    (s : Scanner) → 0 < length s.pos.text → deref s.pos.text ≡ b'#' → Steps s (consume_comment s)
unfolding consume_comment
consume_comment-Steps s h e = record {
  width = suc (span _ (drop 1 s.pos.text));
  progress = omega arith;
  fits = omega (arith, span-le-length _ (drop 1 s.pos.text), length-drop 1 s.pos.text);
  moved = refl;
  tokens = [];
  sent = sym (append-nil s.sent);
  output = tt;
  lines = λ _. omega (arith, comment_flat s e);
}

-- the token of `ConsumeInvalid`, in any stretch that holds it
pub invalid-IsToken :
    (s : Scanner) (bad : Bool) (m : ℕ)
    → span (λ c. not (is_space_eof c)) s.pos.text ≤ m
    → IsToken s.pos m s.line (record {
      view = some s.pos;
      len = span (λ c. not (is_space_eof c)) s.pos.text;
      type = invalid;
      line = s.line;
      valid = false;
      bad_string = bad;
    })
invalid-IsToken s bad m h = record {
  spelled = Passes-take-span _ s.pos.text;
  located = (0, plus_ptr_zero s.pos, omega arith, λ _. refl);
  at_line = refl;
  not_eof = λ e. cc;
}

pub consume_invalid-Steps :
    (s : Scanner)
    → 0 < span (λ c. not (is_space_eof c)) s.pos.text
    → Steps s (consume_invalid s false)
unfolding consume_invalid send_token
consume_invalid-Steps s h = record {
  width = span (λ c. not (is_space_eof c)) s.pos.text;
  progress = h;
  fits = span-le-length _ s.pos.text;
  moved = refl;
  tokens = _ ∷ [];
  sent = refl;
  output = invalid-IsToken s false _ (omega arith);
  lines = λ _. omega (
    arith,
    newlines_of_Passes _ _ not_space_eof-ne_newline
        (Passes-take-span (λ c. not (is_space_eof c)) s.pos.text),
  );
}
