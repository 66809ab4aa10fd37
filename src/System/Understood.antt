-- ===== src/System/Understood.antt =====
-- What the arm controller takes out of a text, the main program understands.
use model_lib.Prelude.{
  ℕ, zero, suc, ◌≡◌, ◌⊎◌, refl, sym, ap, ◌∙◌, subst, Bool, true, false, [], ◌∷◌, ◌++◌, map, Option,
  none, some, ◌==◌, length, Option-cases, leb, OnSome, OnSome-some, ==_iff, ◌&&◌, Bool-cases, inl,
  inr, All, All-append, arith,
}
use mathlib.Core.Path.{ap₂}
use mathlib.Core.List.{append_assoc, append-nil}
use model_lib.Text.{Bytes, is_space, is_digit, lstrip, rstrip, strip, bytes_eq}
use model_lib.Text.Ends.{strip-cons_snoc, rstrip-append, rstrip-printed, IsBlank, IsPrinted}
use model_lib.Text.Span.{span, Satisfies}
use model_lib.Text.Decimal.{read_decimal}
use model_lib.Parser.Counts.{lower_char}
use model_lib.Arms.Separators.{
  IsCount, no_count, counts, match_count-IsCounted, IsSeparator, is_blank, is_marked,
  match_separated_complete, digit-NotSpace,
}
use model_lib.Arms.Commands.{
  is_letter, is_data, match_separated, match_count, match_data, match_command, find_commands,
  extract_commands,
}
use model_lib.Arms.Rounds.{drop_repeats-All}
use model_lib.System.Commands.{
  data_request, completion, counted_to_end, parse_count, parse_completion, parse_arm_command,
}

-- Characters without case.
abbrev pub IsPlain : ℕ → Type 0
IsPlain c = lower_char c ≡ c

map-plain : (text : Bytes) → All IsPlain text → map lower_char text ≡ text
map-plain [] h = refl
map-plain (c ∷ cs) h = ap₂ (◌∷◌) h.0 (map-plain cs h.1)

spaces-IsPlain : (ss : Bytes) → Satisfies is_space ss → All IsPlain ss
unfolding is_space
spaces-IsPlain [] h = tt
spaces-IsPlain (s ∷ ss) h = (ground (arith, h.0), spaces-IsPlain ss h.1)

digits-IsPlain : (ds : Bytes) → Satisfies is_digit ds → All IsPlain ds
digits-IsPlain [] h = tt
digits-IsPlain (d ∷ ds) h = (ground (arith, h.0), digits-IsPlain ds h.1)

separator-IsPlain : (sep : Bytes) → IsSeparator sep → All IsPlain sep
separator-IsPlain sep (is_blank h) = spaces-IsPlain sep h
separator-IsPlain sep (is_marked before c after b mark a) =
    All-append IsPlain before (c ∷ after) (spaces-IsPlain before b)
      (ground (arith, mark), spaces-IsPlain after a)

digits-IsPrinted : (ds : Bytes) → Satisfies is_digit ds → IsPrinted ds
digits-IsPrinted [] h = tt
digits-IsPrinted (d ∷ ds) h = ((digit-NotSpace d h.0).0, digits-IsPrinted ds h.1)

-- A completion with a count, and white space after it.
abbrev pub counted : Bytes → Bytes → Bytes
counted sep digits = b'1' ∷ (sep ++ digits)

pub strip-counted :
    (sep : Bytes) (d : ℕ) (ds ss : Bytes)
    → Satisfies is_digit (d ∷ ds)
    → IsBlank ss
    → strip (counted sep (d ∷ ds) ++ ss) ≡ counted sep (d ∷ ds)
unfolding lstrip is_space
strip-counted sep d ds ss h b =
    ap (λ t. strip (b'1' ∷ t)) (append_assoc sep (d ∷ ds) ss)
    ∙ rstrip-append (b'1' ∷ sep) (d ∷ (ds ++ ss)) d ds
        (rstrip-printed d ds ss (digits-IsPrinted (d ∷ ds) h) b)

parse_count-matched :
    (text sep ds : Bytes)
    → match_separated (span is_space text) ≡ some (sep, ds, [])
    → parse_count text ≡ completion (read_decimal ds)
unfolding parse_count counted_to_end
parse_count-matched [] sep ds e = absurd (no_match sep ds e)
  where
    no_match : (sep ds : Bytes) → ¬ (match_separated (span is_space []) ≡ some (sep, ds, []))
    no_match sep ds e = unfold match_separated span in ground arith
parse_count-matched (c ∷ cs) sep ds e = rw (e, parse_count)

parse_count-counted :
    (sep : Bytes) (d : ℕ) (ds : Bytes)
    → IsSeparator sep
    → Satisfies is_digit (d ∷ ds)
    → parse_count (sep ++ d ∷ ds) ≡ completion (read_decimal (d ∷ ds))
parse_count-counted sep d ds s h = parse_count-matched (sep ++ d ∷ ds) sep (d ∷ ds) (
    ap (λ t. match_separated (span is_space (sep ++ t))) (sym (append-nil (d ∷ ds)))
    ∙ match_separated_complete sep d ds [] s h refl)

parse_arm_command-completion :
    (rest : Bytes)
    → strip (b'1' ∷ rest) ≡ b'1' ∷ rest
    → All IsPlain rest
    → parse_arm_command (b'1' ∷ rest) ≡ parse_count rest
unfolding parse_arm_command parse_completion bytes_eq
parse_arm_command-completion rest e plain = rw (e, map-plain rest plain)

pub parse_arm_command-counted :
    (sep : Bytes) (d : ℕ) (ds : Bytes)
    → IsSeparator sep
    → Satisfies is_digit (d ∷ ds)
    → parse_arm_command (counted sep (d ∷ ds)) ≡ completion (read_decimal (d ∷ ds))
parse_arm_command-counted sep d ds s h =
    parse_arm_command-completion (sep ++ d ∷ ds)
      (ap strip (sym (append-nil (counted sep (d ∷ ds)))) ∙ strip-counted sep d ds [] h tt)
      (All-append IsPlain sep (d ∷ ds) (separator-IsPlain sep s) (digits-IsPlain (d ∷ ds) h))
    ∙ parse_count-counted sep d ds s h

-- The main program reads a command as what it is: a request, or a completion with its count.
abbrev pub IsUnderstood : Bytes → Type 0
IsUnderstood cmd =
    ((is_data cmd ≡ true) × (parse_arm_command cmd ≡ data_request))
    ⊎ ((is_data cmd ≡ false) × (count : Option ℕ) × (parse_arm_command cmd ≡ completion count))

count-IsUnderstood : (piece : Bytes) → IsCount piece → IsUnderstood (b'1' ∷ piece)
unfolding is_data bytes_eq parse_count
count-IsUnderstood [] no_count =
    inr (refl, none, parse_arm_command-completion [] (unfold lstrip rstrip is_space in refl) tt)
count-IsUnderstood piece (counts sep d ds s h) =
    inr (refl, read_decimal (d ∷ ds), parse_arm_command-counted sep d ds s h)

data-IsUnderstood : (cmd : Bytes) → strip cmd ≡ cmd → is_data cmd ≡ true → IsUnderstood cmd
unfolding is_data parse_arm_command
data-IsUnderstood cmd e h = inl (h, rw (e, h))

letter-NotSpace : (l c : ℕ) → leb 97 l ≡ true → is_letter l c ≡ true → is_space c ≡ false
unfolding is_space
letter-NotSpace l c h k = ground arith

and_four :
    (p q r s : Bool) → ((p && q) && (r && s)) ≡ true → (p && (q && (r && (s && true)))) ≡ true
and_four p q r s h = ground arith

all_four : (p q r s : Bool) → ((p && q) && (r && s)) ≡ true → (p ≡ true) × (s ≡ true)
all_four p q r s h = ground arith

match_data-IsUnderstood : (text : Bytes) → OnSome (λ m. IsUnderstood m.0) (match_data text)
unfolding match_data is_data bytes_eq
match_data-IsUnderstood [] = tt
match_data-IsUnderstood (a ∷ []) = tt
match_data-IsUnderstood (a ∷ b ∷ []) = tt
match_data-IsUnderstood (a ∷ b ∷ c ∷ []) = tt
match_data-IsUnderstood (a ∷ b ∷ c ∷ d ∷ rest) =
    let word : Bytes = a ∷ b ∷ c ∷ d ∷ [] in
    elim (Bool-cases
      ((is_letter b'd' a && is_letter b'a' b) && (is_letter b't' c && is_letter b'a' d))) [
        | inl yes' ↦
            let (first, last) =
              all_four (is_letter b'd' a) (is_letter b'a' b) (is_letter b't' c) (is_letter b'a' d)
                yes' in
            rw yes' (
              data-IsUnderstood word
                (strip-cons_snoc a (b ∷ c ∷ []) d (letter-NotSpace b'd' a refl first)
                  (letter-NotSpace b'a' d refl last))
                (and_four (is_letter b'd' a) (is_letter b'a' b) (is_letter b't' c)
                  (is_letter b'a' d) yes'))
        | inr no' ↦ rw no' tt
      ]

match_command-IsUnderstood : (text : Bytes) → OnSome (λ m. IsUnderstood m.0) (match_command text)
unfolding match_command
match_command-IsUnderstood [] = tt
match_command-IsUnderstood (c ∷ cs) = elim (Bool-cases (c == b'1')) [
  | inl one ↦ rw one (
      subst (λ k. IsUnderstood (k ∷ (match_count cs).0)) (sym ((==_iff c b'1').0 one))
        (count-IsUnderstood (match_count cs).0 (match_count-IsCounted cs).1))
  | inr other ↦ rw other (match_data-IsUnderstood (c ∷ cs))
]

find_commands-IsUnderstood : (n : ℕ) (text : Bytes) → All IsUnderstood (find_commands n text)
unfolding find_commands
find_commands-IsUnderstood zero text = tt
find_commands-IsUnderstood (suc n) [] = tt
find_commands-IsUnderstood (suc n) (c ∷ cs) = elim (Option-cases (match_command (c ∷ cs))) [
  | inl e ↦ rw (e, find_commands) (find_commands-IsUnderstood n cs)
  | inr (m, e) ↦
      rw (e, find_commands)
        (
          OnSome-some (λ m. IsUnderstood m.0) _ m (match_command-IsUnderstood (c ∷ cs)) e,
          find_commands-IsUnderstood n m.1,
        )
]

-- Every command that the arm controller takes out of a text is one that the main program
-- understands: a request for data exactly where the controller counts it as one, and otherwise a
-- completion, with or without a count. None is ignored.
pub extract_commands-IsUnderstood :
    (raw_text : Bytes) → All IsUnderstood (extract_commands raw_text)
unfolding extract_commands
extract_commands-IsUnderstood raw_text =
    let text = strip raw_text in
    drop_repeats-All IsUnderstood false (find_commands (length text) text)
      (find_commands-IsUnderstood (length text) text)
