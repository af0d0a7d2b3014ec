-- ===== src/Scanner/Literals.antt =====
-- `ConsumeString` of src/scanner.c: terminated and unterminated string literals.
use lemon.Base.{
  ap, ==_iff, ◌∙◌, ℕ, zero, suc, ◌≤◌, ◌<◌, ◌≡◌, refl, ◌≢◌, Bool, true, false, not, none, some, List,
  [], ◌∷◌, ◌==◌, if◌then◌else◌, length, drop, arith, Bool-cases, inl, inr,
}
use lemon.Scanner.Chars.{is_space_eof, span, span-le-length, Passes-take-span}
use lemon.Scanner.{Scanner, send_token, consume_invalid, in_string, consume_string}
use lemon.Token.{literal_str, deref, plus_ptr}
use lemon.Scanner.Steps.{IsToken, Steps, plus_ptr-plus_ptr, invalid-IsToken}

-- A loop that stops at a NUL has passed all that another test passes.
span-le-stop :
    (p q : ℕ → Bool) (cs : List ℕ)
    → q 0 ≡ false
    → deref (drop (span p cs) cs) ≡ 0
    → span q cs ≤ span p cs
unfolding span
span-le-stop p q [] h e = omega arith
span-le-stop p q (c ∷ cs) h e = elim (Bool-cases (p c)) [
  | inl more ↦
      let e' : deref (drop (span p cs) cs) ≡ 0 = rw more at e in
      rw more (ground (arith, span-le-stop p q cs h e'))
  | inr stop ↦ let e' : c ≡ 0 = rw stop at e in rw (stop, e', h) (omega arith)
]

deref-drop-lt : (n : ℕ) (cs : List ℕ) → deref (drop n cs) ≢ 0 → n < length cs
deref-drop-lt zero [] h = absurd (h refl)
deref-drop-lt zero (c ∷ cs) h = omega arith
deref-drop-lt (suc n) [] h = absurd (h refl)
deref-drop-lt (suc n) (c ∷ cs) h = omega (arith, deref-drop-lt n cs h)

synchronize-at_quote :
    (cs : List ℕ)
    → deref (drop (span in_string cs) cs) ≡ 0
    → span (λ c. not (is_space_eof c)) (b'"' ∷ cs) ≤ suc (span in_string cs)
unfolding span
synchronize-at_quote cs e =
    ground
      (arith, span-le-stop in_string (λ c. not (is_space_eof c)) cs (unfold is_space_eof in refl) e)

-- A terminated literal's token; the view is null for the empty string.
literal-IsToken :
    (s : Scanner) (text : List ℕ)
    → drop 1 s.pos.text ≡ text
    → deref s.pos.text ≡ b'"'
    → let delta = span in_string text in
      IsToken s.pos (suc (suc delta)) s.line (record {
        view = if delta == 0 then none else some (plus_ptr s.pos 1);
        len = delta;
        type = literal_str;
        line = s.line;
        valid = true;
        bad_string = false;
      })
literal-IsToken s text e quote = elim (Bool-cases (span in_string text == 0)) [
  | inl empty ↦
      rw empty (record { spelled = tt; located = ground arith; at_line = refl; not_eof = λ h. cc })
  | inr more ↦ rw more (record {
    spelled = rw e (Passes-take-span in_string text);
    located = (1, refl, omega arith, λ h. absurd (h quote));
    at_line = refl;
    not_eof = λ h. cc;
  })
]

eq_false-ne : (c : ℕ) → (c == 0) ≡ false → c ≢ 0
eq_false-ne c h = ground arith

pub consume_string-Steps :
    (s : Scanner) (cs : List ℕ) → s.pos.text ≡ b'"' ∷ cs → Steps s (consume_string s)
unfolding consume_string consume_invalid send_token
consume_string-Steps s cs e = elim (Bool-cases (deref (drop n text) == 0)) [
  | inl ended ↦ rw ended (record {
    width = suc n;
    progress = omega arith;
    fits = rw e (omega (arith, span-le-length in_string cs));
    moved = plus_ptr-plus_ptr s.pos 1 n (suc n) (omega arith);
    tokens = _ ∷ [];
    sent = refl;
    lines = λ h. absurd (h (rw e));
    output =
        invalid-IsToken s true (suc n)
          (rw e (synchronize-at_quote cs (rw e at ((==_iff _ 0).0 ended))));
  })
  | inr closed ↦ rw closed (record {
    width = suc (suc n);
    progress = omega arith;
    fits =
        rw e (omega (arith, deref-drop-lt (span in_string cs) cs (eq_false-ne _ (rw e at closed))));
    moved =
        ap (λ p. plus_ptr p 1) (plus_ptr-plus_ptr s.pos 1 n (suc n) (omega arith))
        ∙ plus_ptr-plus_ptr s.pos (suc n) 1 (suc (suc n)) (omega arith);
    tokens = _ ∷ [];
    sent = refl;
    lines = λ h. absurd (h (rw e));
    output = literal-IsToken s text refl (rw e);
  })
]
  where
    text : List ℕ
    text = drop 1 s.pos.text

    n : ℕ
    n = span in_string text
