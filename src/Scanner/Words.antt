-- ===== src/Scanner/Words.antt =====
-- `ConsumeIdentOrKeyword` of src/scanner.c: the word that it passes and how it types it.
use lemon.Base.{
  NoNul, ◌∙◌, ℕ, suc, ◌≤◌, ◌<◌, ◌≡◌, sym, subst, Bool, true, List, [], ◌∷◌, length, take, arith,
  Option-cases, inl, inr,
}
use lemon.Keywords.Correct.{find_keyword, kmap_lookup_lem}
use lemon.Keywords.Table.{keywords}
use lemon.Keywords.{kmap_lookup}
use lemon.Scanner.Chars.{
  newlines, newlines-cons, newlines_of_Passes, letter-ne_newline, letter_digit-ne_newline,
  is_letter, is_letter_digit, span, Passes, span-le-length, Passes-take-span,
}
use lemon.Scanner.Grammar.{IsWord, Spelled, keyword-Spelled}
use lemon.Scanner.{Scanner, word_length, word_type, consume_word}
use lemon.Scanner.Steps.{Steps, consume-Steps}

NoNul-Passes :
    (test : ℕ → Bool) (w : List ℕ) → ((c : ℕ) → test c ≡ true → 0 < c) → Passes test w → NoNul w
NoNul-Passes test [] h p = tt
NoNul-Passes test (c ∷ w) h p = (h c p.0, NoNul-Passes test w h p.1)

is_letter_pos : (c : ℕ) → is_letter c ≡ true → 0 < c
unfolding is_letter
is_letter_pos c h = ground arith

is_letter_digit_pos : (c : ℕ) → is_letter_digit c ≡ true → 0 < c
unfolding is_letter_digit
is_letter_digit_pos c h = ground arith

word_type-Spelled : (w : List ℕ) → IsWord w → Spelled (word_type (find_keyword keywords w)) w
word_type-Spelled w i = elim (Option-cases (find_keyword keywords w)) [
  | inl none_found ↦ rw none_found (unfold word_type in (i, none_found))
  | inr (t, found) ↦ rw found (unfold word_type in keyword-Spelled w t i found)
]

-- A word at the front of a text is as long as its letters and digits, and typed by its lexeme.
record IsWordAt (text : List ℕ) : Type 0 where
  flat : newlines (take (word_length text) text) ≡ 0
  within : word_length text ≤ length text
  spelled : Spelled (word_type (kmap_lookup text (word_length text))) (take (word_length text) text)

word-IsWordAt : (c : ℕ) (cs : List ℕ) → is_letter c ≡ true → IsWordAt (c ∷ cs)
unfolding word_length
word-IsWordAt c cs h =
    let n = span is_letter_digit cs in
    let word : IsWord (take (suc n) (c ∷ cs)) = (h, Passes-take-span is_letter_digit cs) in
    let fit : suc n ≤ length (c ∷ cs) = omega (arith, span-le-length is_letter_digit cs) in
    let typ =
      kmap_lookup_lem (c ∷ cs) (suc n) fit
        (is_letter_pos c h, NoNul-Passes is_letter_digit _ is_letter_digit_pos word.1) in
    record {
      flat =
          newlines-cons c _ (letter-ne_newline c h)
          ∙ newlines_of_Passes is_letter_digit _ letter_digit-ne_newline word.1;
      within = fit;
      spelled = rw typ (word_type-Spelled _ word);
    }

word_length_pos : (text : List ℕ) → 0 < word_length text
unfolding word_length
word_length_pos text = omega arith

pub consume_word-Steps :
    (s : Scanner) (c : ℕ) (cs : List ℕ)
    → s.pos.text ≡ c ∷ cs
    → is_letter c ≡ true
    → Steps s (consume_word s)
unfolding consume_word
consume_word-Steps s c cs e h =
    let at_word = subst IsWordAt (sym e) (word-IsWordAt c cs h) in
    consume-Steps s _ _ (word_length_pos s.pos.text) at_word.within at_word.spelled at_word.flat
