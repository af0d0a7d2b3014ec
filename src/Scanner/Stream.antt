-- ===== src/Scanner/Stream.antt =====
-- The stream of tokens that `Scan` in src/scanner.c sends: where the tokens lie in the text, and how
-- they are spelled.
use lemon.Base.{
  ℕ, suc, ◌+◌, ◌-◌, ◌≤◌, ◌≡◌, refl, ap, ◌∙◌, ◌≢◌, subst, true, false, Option, none, some, List, [],
  ◌∷◌, ◌++◌, length, arith, append_assoc, length-drop,
}
use lemon.Scanner.Grammar.{Spelled}
use lemon.Scanner.Steps.{lexeme, Located, Output, Steps, plus_ptr_zero, plus_ptr-plus_ptr}
use lemon.Scanner.Tokens.{scan_loop_rule}
use lemon.Scanner.{Scanner, scanner_init, send_token, send_eof, Outcome, finished, scan}
use lemon.Token.{eof, Ptr, plus_ptr, Token}

-- the token that `SendEOF` sends
abbrev pub end_token : ℕ → Token
end_token line = record {
  view = none;
  len = 0;
  type = eof;
  line = line;
  valid = true;
  bad_string = false;
}

-- A lexeme begins `k` characters behind `p`, or the token has no view and no characters.
abbrev pub BeginsAt : Ptr → ℕ → Option Ptr → ℕ → Type 0
BeginsAt p k none len = len ≡ 0
BeginsAt p k (some q) len = q ≡ plus_ptr p k

-- The tokens lie between the offsets `lo` and `hi` of the text at `p`, in order and without overlap;
-- each is spelled as its type asks, and none is the token of the end.
abbrev pub Laid : Ptr → ℕ → ℕ → List Token → Type 0
Laid p lo hi [] = lo ≤ hi
Laid p lo hi (t ∷ ts) =
    (k : ℕ) × (lo ≤ k)
    × BeginsAt p k t.view t.len
    × Spelled t.type (lexeme t)
    × (t.type ≢ eof)
    × Laid p (k + t.len) hi ts

Laid-mono :
    (p : Ptr) (lo lo' hi : ℕ) (ts : List Token) → lo' ≤ lo → Laid p lo hi ts → Laid p lo' hi ts
Laid-mono p lo lo' hi [] h l = omega arith
Laid-mono p lo lo' hi (t ∷ ts) h (k, le, begins, sp, ne, rest) =
    (k, omega arith, begins, sp, ne, rest)

Located-BeginsAt :
    (p : Ptr) (lo w : ℕ) (o : Option Ptr) (len : ℕ)
    → Located (plus_ptr p lo) w o len
    → (k : ℕ) × (lo ≤ k) × BeginsAt p k o len × (k + len ≤ lo + w)
Located-BeginsAt p lo w none len h = (lo, omega arith, h, omega arith)
Located-BeginsAt p lo w (some q) len (k, e, h, _) =
    (lo + k, omega arith, e ∙ plus_ptr-plus_ptr p lo k (lo + k) refl, omega arith)

-- What a round sends goes in front of what the later ones send.
Laid-append :
    (p : Ptr) (lo w line hi : ℕ) (tokens ts : List Token)
    → Output (plus_ptr p lo) w line tokens
    → Laid p (lo + w) hi ts
    → Laid p lo hi (tokens ++ ts)
Laid-append p lo w line hi [] ts out l = Laid-mono p (lo + w) lo hi ts (omega arith) l
Laid-append p lo w line hi (t ∷ []) ts out l =
    let (k, le, begins, fits) = Located-BeginsAt p lo w t.view t.len out.located in
    (k, le, begins, out.spelled, out.not_eof, Laid-mono p (lo + w) (k + t.len) hi ts fits l)
Laid-append p lo w line hi (t ∷ u ∷ tokens) ts out l = absurd out

-- the tokens sent between two states of one run
abbrev Sends : Ptr → ℕ → Scanner → Scanner → Type 0
Sends p lo s s' =
    (ts : List Token) × (line : ℕ) × (s'.sent ≡ s.sent ++ (ts ++ end_token line ∷ []))
    × Laid p lo (length p.text) ts

abbrev Streams : Scanner → Outcome → Type 0
Streams s o =
    (p : Ptr) (lo : ℕ) (s' : Scanner)
    → s.pos ≡ plus_ptr p lo
    → lo ≤ length p.text
    → o ≡ finished s'
    → Sends p lo s s'

Sends-step :
    (p : Ptr) (lo : ℕ) (s s₁ s' : Scanner) (st : Steps s s₁)
    → s.pos ≡ plus_ptr p lo
    → Sends p (lo + st.width) s₁ s'
    → Sends p lo s s'
Sends-step p lo s s₁ s' st e (ts, line, sent, laid) = (
  st.tokens ++ ts,
  line,
  sent ∙ ap (λ l. l ++ (ts ++ end_token line ∷ [])) st.sent ∙ simp append_assoc,
  Laid-append p lo st.width s.line _ st.tokens ts
      (subst (λ q. Output q st.width s.line st.tokens) e st.output) laid,
)

Streams-step : (s s₁ : Scanner) (o : Outcome) → Steps s s₁ → Streams s₁ o → Streams s o
Streams-step s s₁ o st ih p lo s' e le done =
    let room : length s.pos.text ≡ length p.text - lo = rw e (length-drop lo p.text) in
    Sends-step p lo s s₁ s' st e (
      ih p (lo + st.width) s'
        (st.moved ∙ ap (λ q. plus_ptr q st.width) e ∙ plus_ptr-plus_ptr p lo st.width _ refl)
        (omega (arith, st.fits)) done)

Streams-end : (s : Scanner) → Streams s (finished (record (send_eof s) { closed = true }))
unfolding send_eof send_token
Streams-end s p lo s' e le done =
    let same : s' ≡ record (send_eof s) { closed = true } = cc in
    ([], s.line, ap (λ (u : Scanner). u.sent) same, le)

-- What `Scan` has sent when it ends on a text: tokens whose lexemes lie in the text one behind the
-- other, inside its bounds, each spelled as its type asks (an operator by its characters, a keyword by
-- a word of the keyword list, an identifier by any other word, a number by digits, a string literal
-- by characters other than quotation marks), and behind them the token of the end, which comes once.
pub scan-Laid :
    (src : List ℕ) (s : Scanner)
    → scan src ≡ finished s
    → (ts : List Token) × (line : ℕ) × (s.sent ≡ ts ++ end_token line ∷ [])
      × Laid (record { at = 0; text = src }) 0 (length src) ts
unfolding scan scanner_init
scan-Laid src s done =
    scan_loop_rule Streams (λ s e. Streams-end s) (λ s cut p lo s' e le done. absurd (cc done))
      (λ s s' o st ih. Streams-step s s' o st ih) (suc (length src)) _ (omega arith)
      (record { at = 0; text = src }) 0 s (plus_ptr_zero _) (omega arith) done
