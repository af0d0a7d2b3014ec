-- ===== src/Scanner/Lines.antt =====
-- The line numbers of the tokens that `Scan` in src/scanner.c sends.
use lemon.Base.{
  ℕ, zero, suc, ◌+◌, ◌≡◌, refl, ap, ◌∙◌, ◌≢◌, subst, true, not, Option, none, some, List, [], ◌∷◌,
  ◌++◌, ◌==◌, length, take, drop, arith, append_assoc,
}
use lemon.Scanner.Chars.{Passes, newlines}
use lemon.Scanner.Steps.{Located, Output, Steps, plus_ptr_zero, plus_ptr-plus_ptr}
use lemon.Scanner.Tokens.{scan_loop_rule}
use lemon.Scanner.{Scanner, scanner_init, send_token, send_eof, Outcome, finished, scan}
use lemon.Token.{Ptr, deref, plus_ptr, Token}

-- A text without quotation marks.
abbrev pub NoQuotes : List ℕ → Type 0
NoQuotes = Passes (λ c. not (c == b'"'))

-- A lexeme that begins at offset `k` of the text stands on line one more than the line feeds before.
abbrev pub OnLine : List ℕ → Option Ptr → ℕ → Type 0
OnLine src none line = Unit {0}
OnLine src (some q) line = line ≡ suc (newlines (take q.at src))

abbrev pub Lined : List ℕ → List Token → Type 0
Lined src [] = Unit {0}
Lined src (t ∷ ts) = OnLine src t.view t.line × Lined src ts

newlines-take-add :
    (m n : ℕ) (xs : List ℕ)
    → newlines (take (m + n) xs) ≡ newlines (take m xs) + newlines (take n (drop m xs))
unfolding newlines
newlines-take-add zero n xs = let e : zero + n ≡ n = omega arith in rw e (omega arith)
newlines-take-add (suc m) n [] = let e : suc m + n ≡ suc (m + n) = omega arith in rw e (nil n)
  where
    nil : (n : ℕ) → 0 ≡ 0 + newlines (take n [])
    nil zero = refl
    nil (suc n) = refl
newlines-take-add (suc m) n (x ∷ xs) =
    let e : suc m + n ≡ suc (m + n) = omega arith in rw e (ground (arith, newlines-take-add m n xs))

NoQuotes-deref : (n : ℕ) (text : List ℕ) → NoQuotes text → deref (drop n text) ≢ b'"'
NoQuotes-deref zero [] h = omega arith
NoQuotes-deref (suc n) [] h = omega arith
NoQuotes-deref zero (c ∷ cs) h = λ e. ground (arith, h.0)
NoQuotes-deref (suc n) (c ∷ cs) h = NoQuotes-deref n cs h.1

-- where a run stands: at an offset of the text, with the lines counted up to there
record At (p : Ptr) (s : Scanner) : Type 0 where
  lo : ℕ
  here : s.pos ≡ plus_ptr p lo
  counted : s.line ≡ suc (newlines (take lo p.text))

module _ (src : List ℕ) (plain : NoQuotes src) where
  start : Ptr
  start = record { at = 0; text = src }

  no_quote : (s : Scanner) → At start s → deref s.pos.text ≢ b'"'
  unfolding start
  no_quote s a = rw a.here (NoQuotes-deref a.lo src plain)

  At-step : (s s₁ : Scanner) → Steps s s₁ → At start s → At start s₁
  unfolding start
  At-step s s₁ st a = record {
    lo = a.lo + st.width;
    here =
        st.moved ∙ ap (λ q. plus_ptr q st.width) a.here ∙ plus_ptr-plus_ptr _ a.lo st.width _ refl;
    counted =
        let text : s.pos.text ≡ drop a.lo src = ap (λ (q : Ptr). q.text) a.here in
        omega (
          arith,
          subst (λ u. s₁.line ≡ s.line + newlines (take st.width u)) text (st.lines (no_quote s a)),
          newlines-take-add a.lo st.width src,
          a.counted,
        );
  }

  token-OnLine :
      (s : Scanner) (n : ℕ) (o : Option Ptr) (len : ℕ)
      → At start s
      → Located s.pos n o len
      → OnLine src o s.line
  unfolding start
  token-OnLine s n none len a l = tt
  token-OnLine s n (some q) len a (k, e, fits, front) =
      let zero_k = front (no_quote s a) in
      let spot : q.at ≡ a.lo =
        omega (arith, ap (λ (r : Ptr). r.at) e, ap (λ (r : Ptr). r.at) a.here) in
      rw spot a.counted

  Lined-append :
      (s : Scanner) (n : ℕ) (tokens ts : List Token)
      → At start s
      → Output s.pos n s.line tokens
      → Lined src ts
      → Lined src (tokens ++ ts)
  Lined-append s n [] ts a out l = l
  Lined-append s n (t ∷ []) ts a out l =
      (rw out.at_line (token-OnLine s n t.view t.len a out.located), l)
  Lined-append s n (t ∷ u ∷ tokens) ts a out l = absurd out

  abbrev Counts : Scanner → Outcome → Type 0
  Counts s o =
      (s' : Scanner)
      → At start s
      → o ≡ finished s'
      → (ts : List Token) × (s'.sent ≡ s.sent ++ ts) × Lined src ts

  Counts-step : (s s₁ : Scanner) (o : Outcome) → Steps s s₁ → Counts s₁ o → Counts s o
  Counts-step s s₁ o st ih s' a done =
      let (ts, sent, lined) = ih s' (At-step s s₁ st a) done in
      (
        st.tokens ++ ts,
        sent ∙ ap (λ l. l ++ ts) st.sent ∙ append_assoc s.sent st.tokens ts,
        Lined-append s st.width st.tokens ts a st.output lined,
      )

  Counts-end : (s : Scanner) → Counts s (finished (record (send_eof s) { closed = true }))
  unfolding send_eof send_token
  Counts-end s s' a done =
      let same : s' ≡ record (send_eof s) { closed = true } = cc in
      (_ ∷ [], ap (λ (u : Scanner). u.sent) same, (tt, tt))

  -- When `Scan` ends on a text without quotation marks, every token that it has sent and that has a
  -- lexeme carries the number of the line on which its lexeme begins, counted from 1. (A string
  -- literal may run over several lines, which the scanner does not count.)
  pub scan-Lined : (s : Scanner) → scan src ≡ finished s → Lined src s.sent
  unfolding scan scanner_init start newlines
  scan-Lined s done =
      let (ts, sent, lined) =
        scan_loop_rule Counts (λ s e. Counts-end s) (λ s cut s' a done. absurd (cc done))
          Counts-step (suc (length src)) _ (omega arith) s
          (record { lo = 0; here = plus_ptr_zero _; counted = refl }) done in
      rw sent lined
