-- ===== src/Parser/Printed.antt =====
-- Counts that are printed in a payload are read back.
use model_lib.Prelude.{
  false, ◌&&◌, not, Bool, Option, if◌then◌else◌, ℕ, ◌≡◌, ◌∙◌, refl, ap, true, ◌||◌, [], ◌∷◌, ◌++◌,
  none, some, arith, ◌==◌, All, if_then, if_else,
}
use model_lib.Text.{Bytes, is_ascii, is_space, is_digit, lstrip}
use model_lib.Text.Decimal.{decimal, read_decimal, IsDigit, decimal-IsDigit, read_decimal-decimal}
use model_lib.Parser.Counts.{
  upper_char, is_word, after_word, span_digits, is_boundary, bounded_number, after_separator,
  count_word, cnt_word, match_here, search_count, extract_camera_count_ascii, automatic_count,
}

span_digits-append :
    (ds tail : Bytes)
    → All IsDigit ds
    → span_digits tail ≡ ([], tail)
    → span_digits (ds ++ tail) ≡ (ds, tail)
unfolding span_digits
span_digits-append [] tail h t = t
span_digits-append (d ∷ ds) tail h t =
    if_then (is_digit d) _ (([], d ∷ (ds ++ tail))) (ground (arith, h.0))
    ∙ ap (λ (r : Bytes × Bytes). (d ∷ r.0, r.1)) (span_digits-append ds tail h.1 t)

span_digits-boundary : (tail : Bytes) → is_boundary tail ≡ true → span_digits tail ≡ ([], tail)
unfolding span_digits is_boundary
span_digits-boundary [] h = refl
span_digits-boundary (c ∷ cs) h =
    if_else (is_digit c) ((c ∷ (span_digits cs).0, (span_digits cs).1)) ([], c ∷ cs) (ground arith)

lstrip-digit : (d : ℕ) (ds : Bytes) → IsDigit d → lstrip (d ∷ ds) ≡ d ∷ ds
unfolding lstrip is_space
lstrip-digit d ds h = ground arith

after_separator-digits :
    (separator : ℕ) (ds tail : Bytes) (n : ℕ)
    → (separator == b':' || separator == b'=') ≡ true
    → All IsDigit ds
    → read_decimal ds ≡ some n
    → is_boundary tail ≡ true
    → after_separator (separator ∷ (ds ++ tail)) ≡ some n
unfolding after_separator bounded_number read_decimal
after_separator-digits separator [] tail n s h r t = absurd (ground arith)
after_separator-digits separator (d ∷ ds) tail n s h r t =
    if_then (separator == b':' || separator == b'=') _ none s
    ∙ ap (λ x. bounded_number (span_digits x)) (lstrip-digit d (ds ++ tail) h.0)
    ∙ ap bounded_number (span_digits-append (d ∷ ds) tail h (span_digits-boundary tail t))
    ∙ if_then (is_boundary tail) (read_decimal (d ∷ ds)) none t
    ∙ r

-- No keyword begins in the text: after a `C` comes neither `O` nor `N`, and it does not end in `C`.
unfoldable pub has_no_keyword : Bytes → Bool
has_no_keyword [] = true
has_no_keyword (c ∷ []) = not (upper_char c == b'C')
has_no_keyword (c ∷ d ∷ rest) =
    (not (upper_char c == b'C') || not (upper_char d == b'O' || upper_char d == b'N'))
    && has_no_keyword (d ∷ rest)

-- A word character stands before what follows the text.
unfoldable pub ends_in_word : Bool → Bytes → Bool
ends_in_word before [] = before
ends_in_word before (c ∷ cs) = ends_in_word (is_word c) cs

if_same : (b : Bool) {x : Option ℕ} → (if b then x else x) ≡ x
if_same true = refl
if_same false = refl

match_here-no_keyword :
    (c : ℕ) (cs tail : Bytes)
    → has_no_keyword (c ∷ cs) ≡ true
    → match_here (c ∷ (cs ++ tail)) ≡ none
unfolding match_here after_word has_no_keyword
match_here-no_keyword c [] tail h = ground (arith, h)
match_here-no_keyword c (d ∷ cs) tail h = ground (arith, h)

has_no_keyword-rest :
    (c : ℕ) (cs : Bytes) → has_no_keyword (c ∷ cs) ≡ true → has_no_keyword cs ≡ true
unfolding has_no_keyword
has_no_keyword-rest c [] h = refl
has_no_keyword-rest c (d ∷ cs) h = ground (arith, h)

-- Where the expression matches behind such a text, its number is the count.
search_count-append :
    (before : Bool) (prefix text : Bytes) (n : ℕ)
    → has_no_keyword prefix ≡ true
    → ends_in_word before prefix ≡ false
    → match_here text ≡ some n
    → search_count before (prefix ++ text) ≡ some n
unfolding search_count ends_in_word
search_count-append before [] [] n k w h =
    absurd (unfold match_here after_word in ground (arith, h))
search_count-append before [] (c ∷ cs) n k w h = rw (w, h) refl
search_count-append before (d ∷ ds) text n k w h =
    let next = search_count-append (is_word d) ds text n (has_no_keyword-rest d ds k) w h in
    rw (match_here-no_keyword d ds text k, next) (if_same before)

extract_camera_count_ascii-append :
    (prefix text : Bytes) (n : ℕ)
    → has_no_keyword prefix ≡ true
    → ends_in_word false prefix ≡ false
    → match_here text ≡ some n
    → extract_camera_count_ascii (prefix ++ text) ≡ some n
unfolding extract_camera_count_ascii
extract_camera_count_ascii-append prefix text n k w h =
    search_count-append false prefix text n k w h

automatic_count-append :
    (prefix text : Bytes) (n : ℕ)
    → has_no_keyword prefix ≡ true
    → ends_in_word false prefix ≡ false
    → match_here text ≡ some n
    → automatic_count (prefix ++ text) ≡ some n
unfolding automatic_count
automatic_count-append prefix text n k w h =
    rw (extract_camera_count_ascii-append prefix text n k w h, automatic_count)

match_here-count_word :
    (rest : Bytes) → match_here (count_word ++ b':' ∷ rest) ≡ after_separator (b':' ∷ rest)
unfolding match_here after_word lstrip is_space
match_here-count_word rest = refl

match_here-cnt_word :
    (rest : Bytes) → match_here (cnt_word ++ b'=' ∷ rest) ≡ after_separator (b'=' ∷ rest)
unfolding match_here after_word lstrip is_space
match_here-cnt_word rest = refl

-- In an ASCII payload with `COUNT:` or `CNT=` and a printed count, the automatic mode reads that count,
-- whatever follows it that does not begin with a letter, a digit or an underscore, and whatever stands
-- before it that does not end in one of these and in which every `C` or `c` is followed by something
-- else than an `O` or an `N` of either case.
pub automatic_count-decimal :
    (n : ℕ) (prefix tail : Bytes)
    → is_ascii (prefix ++ tail) ≡ true
    → has_no_keyword prefix ≡ true
    → ends_in_word false prefix ≡ false
    → is_boundary tail ≡ true
    → (automatic_count (prefix ++ (count_word ++ b':' ∷ (decimal n ++ tail))) ≡ some n)
      × (automatic_count (prefix ++ (cnt_word ++ b'=' ∷ (decimal n ++ tail))) ≡ some n)
automatic_count-decimal n prefix tail a k w t =
    let digits = decimal-IsDigit n in
    let back = read_decimal-decimal n in
    (
      automatic_count-append prefix (count_word ++ b':' ∷ (decimal n ++ tail)) n k w (
          match_here-count_word (decimal n ++ tail)
          ∙ after_separator-digits b':' (decimal n) tail n refl digits back t),
      automatic_count-append prefix (cnt_word ++ b'=' ∷ (decimal n ++ tail)) n k w (
          match_here-cnt_word (decimal n ++ tail)
          ∙ after_separator-digits b'=' (decimal n) tail n refl digits back t),
    )
