-- ===== src/Tests/ScannerExamples.antt =====
-- The properties of the scanner and of the keyword search at concrete texts.
use lemon.Base.{ℕ, ◌≡◌, refl, true, List, [], ◌∷◌, ◌++◌, length, codes, arith}
use lemon.Token.{Token}
use lemon.Keywords.{kmap_lookup}
use lemon.Keywords.Table.{keywords}
use lemon.Keywords.Correct.{find_keyword, kmap_lookup_lem}
use lemon.Scanner
use lemon.Scanner.{Scanner, finished, assert_failed, scan}
use lemon.Scanner.Tokens.{Safe, scan-finished}
use lemon.Scanner.Stream.{end_token, Laid, scan-Laid}
use lemon.Scanner.Lines.{NoQuotes, Lined, scan-Lined}

abbrev text : List ℕ
text = codes "a\n<=let"

text-Safe : Safe text
unfolding Scanner.running
text-Safe = (
  λ e z. cc,
  (
    λ e z. cc,
    (λ e z. ground arith, (λ e z. ground arith, (λ e z. cc, (λ e z. cc, (λ e z. cc, tt))))),
  ),
)

text-NoQuotes : NoQuotes text
text-NoQuotes = (refl, (refl, (refl, (refl, (refl, (refl, (refl, tt)))))))

scan-finished_example : (s : Scanner) × (scan text ≡ finished s) × (s.closed ≡ true)
scan-finished_example = scan-finished text text-Safe

abbrev ran : (s : Scanner) × (scan text ≡ finished s) × (s.closed ≡ true)
ran = scan-finished text text-Safe

scan-Laid_example :
    (ts : List Token) × (line : ℕ) × (ran.0.sent ≡ ts ++ end_token line ∷ [])
    × Laid (record { at = 0; text = text }) 0 (length text) ts
scan-Laid_example = scan-Laid text ran.0 ran.1

scan-Lined_example : Lined text ran.0.sent
scan-Lined_example = scan-Lined text text-NoQuotes ran.0 ran.1

kmap_lookup_lem_example : kmap_lookup (codes "lets") 3 ≡ find_keyword keywords (codes "let")
kmap_lookup_lem_example =
    kmap_lookup_lem (codes "lets") 3 (omega arith) (omega arith, (omega arith, (omega arith, tt)))
