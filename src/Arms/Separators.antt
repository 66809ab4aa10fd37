-- ===== src/Arms/Separators.antt =====
-- The count after a 1: what separates it, and that matching it finds just that.
use model_lib.Prelude.{
  ℕ, ◌≡◌, ◌<◌, refl, sym, ap, ◌∙◌, subst, true, false, [], ◌∷◌, ◌++◌, some, length, Option-cases,
  OnSome, OnSome-some, Bool-cases, inl, inr, arith,
}
use mathlib.Core.List.{append_assoc}
use model_lib.Text.{Bytes, is_space, is_digit}
use model_lib.Text.Span.{span, starts, Satisfies, span-append, span_sound}
use model_lib.Arms.Commands.{
  with_digits, match_digits, match_blank, is_mark, match_separated, match_count,
}

-- A separator: white space, or a comma or colon with white space around it.
pub data IsSeparator : Bytes → Type 0 where
  is_blank : {s : ℕ} {ss : Bytes} → Satisfies is_space (s ∷ ss) → IsSeparator (s ∷ ss)
  is_marked :
      (before : Bytes) (c : ℕ) (after : Bytes)
      → Satisfies is_space before
      → is_mark c ≡ true
      → Satisfies is_space after
      → IsSeparator (before ++ c ∷ after)

-- A separator, digits and no digit after them.
abbrev pub IsSeparated : Bytes → Bytes × Bytes × Bytes → Type 0
IsSeparated text m =
    IsSeparator m.0
    × (text ≡ m.0 ++ (m.1 ++ m.2))
    × Satisfies is_digit m.1
    × (0 < length m.1)
    × (starts is_digit m.2 ≡ false)

with_digits-IsSeparated :
    (separator : Bytes) (digits rest : Bytes)
    → IsSeparator separator
    → Satisfies is_digit digits
    → starts is_digit rest ≡ false
    → OnSome (IsSeparated (separator ++ (digits ++ rest))) (with_digits separator (digits, rest))
unfolding with_digits
with_digits-IsSeparated separator [] rest s d h = tt
with_digits-IsSeparated separator (d ∷ ds) rest s all h = (s, refl, all, omega arith, h)

match_digits-IsSeparated :
    (separator text : Bytes)
    → IsSeparator separator
    → OnSome (IsSeparated (separator ++ text)) (match_digits separator text)
unfolding match_digits
match_digits-IsSeparated separator text s =
    let (same, digits, stop) = span_sound is_digit text in
    subst (λ t. OnSome (IsSeparated (separator ++ t)) (with_digits separator (span is_digit text)))
      (sym same)
      (with_digits-IsSeparated separator (span is_digit text).0 (span is_digit text).1 s digits
        stop)

match_blank-IsSeparated :
    (spaces text : Bytes)
    → Satisfies is_space spaces
    → OnSome (IsSeparated (spaces ++ text)) (match_blank spaces text)
unfolding match_blank
match_blank-IsSeparated [] text h = tt
match_blank-IsSeparated (s ∷ ss) text h = match_digits-IsSeparated (s ∷ ss) text (is_blank h)

match_separated-IsSeparated :
    (spaces text : Bytes)
    → Satisfies is_space spaces
    → OnSome (IsSeparated (spaces ++ text)) (match_separated (spaces, text))
unfolding match_separated
match_separated-IsSeparated spaces [] h = tt
match_separated-IsSeparated spaces (c ∷ cs) h = elim (Bool-cases (is_mark c)) [
  | inl mark ↦
      let (same, blanks, _) = span_sound is_space cs in
      let more = (span is_space cs).0 in
      let rest = (span is_space cs).1 in
      let whole : (spaces ++ c ∷ more) ++ rest ≡ spaces ++ c ∷ cs =
        append_assoc spaces (c ∷ more) rest ∙ ap (λ t. spaces ++ c ∷ t) (sym same) in
      rw mark (
        subst (λ t. OnSome (IsSeparated t) (match_digits (spaces ++ c ∷ more) rest)) whole
          (match_digits-IsSeparated (spaces ++ c ∷ more) rest
            (is_marked spaces c more h mark blanks)))
  | inr other ↦ rw other (match_blank-IsSeparated spaces (c ∷ cs) h)
]

pub digit-NotSpace : (d : ℕ) → is_digit d ≡ true → (is_space d ≡ false) × (is_mark d ≡ false)
unfolding is_space
digit-NotSpace d h = ground arith

mark-NotSpace : (c : ℕ) → is_mark c ≡ true → is_space c ≡ false
unfolding is_space
mark-NotSpace c h = ground arith

match_digits_complete :
    (separator : Bytes) (d : ℕ) (ds rest : Bytes)
    → Satisfies is_digit (d ∷ ds)
    → starts is_digit rest ≡ false
    → match_digits separator (d ∷ ds ++ rest) ≡ some (separator, d ∷ ds, rest)
unfolding match_digits with_digits
match_digits_complete separator d ds rest all stop =
    ap (with_digits separator) (span-append is_digit (d ∷ ds) rest all stop)

-- A separator and digits are matched up to the end of the digits.
pub match_separated_complete :
    (sep : Bytes) (d : ℕ) (ds rest : Bytes)
    → IsSeparator sep
    → Satisfies is_digit (d ∷ ds)
    → starts is_digit rest ≡ false
    → match_separated (span is_space (sep ++ (d ∷ ds ++ rest))) ≡ some (sep, d ∷ ds, rest)
unfolding match_separated match_blank
match_separated_complete (s ∷ ss) d ds rest (is_blank blanks) all stop =
    let (not_space, not_mark) = digit-NotSpace d all.0 in
    ap match_separated (span-append is_space (s ∷ ss) (d ∷ ds ++ rest) blanks not_space)
    ∙ rw not_mark (match_digits_complete (s ∷ ss) d ds rest all stop)
match_separated_complete sep d ds rest (is_marked before c after b mark a) all stop =
    let tail : Bytes = d ∷ ds ++ rest in
    let (not_space, _) = digit-NotSpace d all.0 in
    ap (λ t. match_separated (span is_space t)) (append_assoc before (c ∷ after) tail)
    ∙ ap match_separated
        (span-append is_space before (c ∷ (after ++ tail)) b (mark-NotSpace c mark))
    ∙ rw (mark, span-append is_space after tail a not_space)
        (match_digits_complete (before ++ c ∷ after) d ds rest all stop)

-- A count: a separator and digits, or nothing.
pub data IsCount : Bytes → Type 0 where
  no_count : IsCount []
  counts :
      (sep : Bytes) (d : ℕ) (ds : Bytes)
      → IsSeparator sep
      → Satisfies is_digit (d ∷ ds)
      → IsCount (sep ++ d ∷ ds)

-- What is matched after a 1 is a count, and the text is that and the rest.
abbrev pub IsCounted : Bytes → Bytes × Bytes → Type 0
IsCounted text m = (text ≡ m.0 ++ m.1) × IsCount m.0

count_of_separated :
    (text : Bytes) (m : Bytes × Bytes × Bytes)
    → IsSeparated text m
    → IsCounted text (m.0 ++ m.1, m.2)
count_of_separated text (sep, [], rest) h = absurd (ground (arith, h.3))
count_of_separated text (sep, d ∷ ds, rest) h =
    (h.1 ∙ sym (append_assoc sep (d ∷ ds) rest), counts sep d ds h.0 h.2)

pub match_count-IsCounted : (text : Bytes) → IsCounted text (match_count text)
unfolding match_count
match_count-IsCounted text =
    let (same, blanks, _) = span_sound is_space text in
    let found : OnSome (IsSeparated text) (match_separated (span is_space text)) =
      subst (λ t. OnSome (IsSeparated t) (match_separated (span is_space text))) (sym same)
        (match_separated-IsSeparated (span is_space text).0 (span is_space text).1 blanks) in
    elim (Option-cases (match_separated (span is_space text))) [
      | inl e ↦ rw (e, match_count) (refl, no_count)
      | inr (m, e) ↦
          rw (e, match_count)
            (count_of_separated text m (OnSome-some (IsSeparated text) _ m found e))
    ]
