-- ===== src/Scanner/Tokens.antt =====
-- What a whole run of `Scan` in src/scanner.c sends: it ends, and the tokens cover the text in order.
use lemon.Base.{
  ℕ, zero, suc, ◌<◌, ◌≡◌, refl, ap, ◌≢◌, ◌⊎◌, true, false, Option, none, some, List, [], ◌∷◌, ◌==◌,
  ==_iff, length, drop, arith, Bool-cases, inl, inr, length-drop,
}
use lemon.Scanner.Progress.{Ensures, Cut, is_operator, step-Ensures}
use lemon.Scanner.Steps.{Steps}
use lemon.Scanner.{
  Scanner, scanner_init, send_eof, step, Outcome, finished, assert_failed, after, scan_loop, scan,
}
use lemon.Token.{Ptr, deref}

cons_of_deref : (cs : List ℕ) → deref cs ≢ 0 → (c : ℕ) × (r : List ℕ) × (cs ≡ c ∷ r) × (c ≢ 0)
cons_of_deref [] h = absurd (h refl)
cons_of_deref (c ∷ cs) h = (c, cs, refl, h)

eq_false-ne : (c : ℕ) → (c == 0) ≡ false → c ≢ 0
eq_false-ne c h = ground arith

-- A round of the loop, unless the text is at its end.
round : (s : Scanner) → (deref s.pos.text == 0) ≡ false → Ensures s (step s)
round s h =
    let (c, cs, e, nul) = cons_of_deref s.pos.text (eq_false-ne _ h) in step-Ensures s c cs e nul

module _ (fuel : ℕ) (s : Scanner) where
  pub scan_loop-end :
      (deref s.pos.text == 0) ≡ true
      → scan_loop (suc fuel) s ≡ finished (record (send_eof s) { closed = true })
  unfolding scan_loop
  scan_loop-end h = rw (h, scan_loop)

  pub scan_loop-more :
      (deref s.pos.text == 0) ≡ false → scan_loop (suc fuel) s ≡ after (step s) (scan_loop fuel)
  unfolding scan_loop
  scan_loop-more h = rw (h, scan_loop)

-- Fewer characters are left after a round.
length-Steps : {s s' : Scanner} → Steps s s' → length s'.pos.text < length s.pos.text
length-Steps {s} {s'} st =
    let e : s'.pos.text ≡ drop st.width s.pos.text = ap (λ (p : Ptr). p.text) st.moved in
    rw e (omega (arith, length-drop st.width s.pos.text, st.progress, st.fits))

-- The induction on the rounds of `Scan`, with fuel above the length of the text that is left.
module _ {ℓ} (P : Scanner → Outcome → Type ℓ)
    (at_end : (s : Scanner)
      → deref s.pos.text ≡ 0
      → P s (finished (record (send_eof s) { closed = true })))
    (at_cut : (s : Scanner) → Cut s.pos.text → P s assert_failed)
    (at_step : (s s' : Scanner) (o : Outcome) → Steps s s' → P s' o → P s o) where
  after_rule :
      (s : Scanner) (r : Option Scanner) (k : Scanner → Outcome)
      → Ensures s r
      → ((s' : Scanner) → Steps s s' → P s' (k s'))
      → P s (after r k)
  after_rule s none k cut ih = at_cut s cut
  after_rule s (some s') k st ih = at_step s s' (k s') st (ih s' st)

  pub scan_loop_rule : (fuel : ℕ) (s : Scanner) → length s.pos.text < fuel → P s (scan_loop fuel s)
  scan_loop_rule zero s h = absurd (omega arith)
  scan_loop_rule (suc fuel) s h = elim (Bool-cases (deref s.pos.text == 0)) [
    | inl ended ↦ rw (scan_loop-end fuel s ended) (at_end s ((==_iff _ 0).0 ended))
    | inr more ↦ rw (scan_loop-more fuel s more) (
        after_rule s (step s) (scan_loop fuel) (round s more)
          (λ s' st. scan_loop_rule fuel s' (omega (arith, length-Steps st))))
  ]

-- No character that the scanner looks behind stands at the end of the text.
abbrev pub Safe : List ℕ → Type 0
Safe [] = Unit {0}
Safe (c ∷ cs) = (is_operator c ≡ true → deref cs ≢ 0) × Safe cs

Safe-drop : (n : ℕ) (cs : List ℕ) → Safe cs → Safe (drop n cs)
Safe-drop zero cs h = h
Safe-drop (suc n) [] h = h
Safe-drop (suc n) (c ∷ cs) h = Safe-drop n cs h.1

Safe-not-Cut : (cs : List ℕ) → Safe cs → Cut cs → ⊥
Safe-not-Cut [] h cut = cc cut.0
Safe-not-Cut (c ∷ cs) h cut = h.0 cut.0 cut.1

-- `Scan` reaches the end of every text in which no operator character that is looked at with the
-- next one stands last or in front of a NUL, in one round more than there are characters at most,
-- and closes the channel there.
pub scan-finished :
    (src : List ℕ) → Safe src → (s : Scanner) × (scan src ≡ finished s) × (s.closed ≡ true)
unfolding scan scanner_init
scan-finished src =
    scan_loop_rule
      (λ s o. Safe s.pos.text → (s' : Scanner) × (o ≡ finished s') × (s'.closed ≡ true))
      (λ s e h. (_, refl, refl)) (λ s cut h. absurd (Safe-not-Cut s.pos.text h cut))
      (λ s s' o st ih h.
        ih (rw (ap (λ (p : Ptr). p.text) st.moved) (Safe-drop st.width s.pos.text h)))
      (suc (length src)) _ (omega arith)

-- Whatever the text, `Scan` reaches its end or stops at an assertion; it does not loop for ever.
pub scan_total :
    (src : List ℕ) → ((s : Scanner) × (scan src ≡ finished s)) ⊎ (scan src ≡ assert_failed)
unfolding scan scanner_init
scan_total src =
    scan_loop_rule (λ s o. ((s' : Scanner) × (o ≡ finished s')) ⊎ (o ≡ assert_failed))
      (λ s e. inl (_, refl)) (λ s cut. inr refl) (λ s s' o st ih. ih) (suc (length src)) _
      (omega arith)
