-- ===== src/Cameras/Heartbeat.antt =====
-- Which data from a camera are taken for a heartbeat and dropped.
use model_lib.Prelude.{
  ℕ, ◌≡◌, ◌⊎◌, ◌↔◌, refl, sym, ap, ◌∙◌, subst, Bool, true, false, ◌&&◌, ◌||◌, [], ◌∷◌, ◌++◌, map,
  leb, ◌==◌, ==_iff, length, All-append, inl, inr, arith,
}
use model_lib.Text.{Bytes, bytes_eq}
use model_lib.Text.Span.{Satisfies}
use model_lib.Text.Strip.{strip_by, strip_by_sound, strip_by-all, strip_by-one}
use model_lib.Parser.Counts.{upper_char}
use model_lib.Cameras.Server.{is_filler, all_zero, is_nil, heartbeat_max_len, is_heartbeat}

-- Only filler, or one letter H with filler around it.
pub data IsHeartbeat : Bytes → Type 0 where
  filler : (text : Bytes) → Satisfies is_filler text → IsHeartbeat text
  letter :
      (before : Bytes) (c : ℕ) (after : Bytes)
      → Satisfies is_filler before
      → (upper_char c ≡ b'H')
      → Satisfies is_filler after
      → IsHeartbeat (before ++ c ∷ after)

all_zero-filler : (text : Bytes) → all_zero text ≡ true → Satisfies is_filler text
unfolding all_zero is_filler
all_zero-filler [] h = tt
all_zero-filler (c ∷ cs) h = (ground (arith, h), all_zero-filler cs (ground (arith, h)))

letter-NotFiller : (c : ℕ) → upper_char c ≡ b'H' → is_filler c ≡ false
unfolding is_filler
letter-NotFiller c h = ground arith

-- What is left after the stripping.
abbrev rest_test : Bytes → Bool
rest_test stripped =
    is_nil stripped || (bytes_eq (map upper_char stripped) (b'H' ∷ []) && length stripped == 1)

stripped-IsHeartbeat :
    (before stripped after : Bytes)
    → Satisfies is_filler before
    → Satisfies is_filler after
    → rest_test stripped ≡ true
    → IsHeartbeat (before ++ (stripped ++ after))
unfolding bytes_eq
stripped-IsHeartbeat before [] after h k e =
    filler (before ++ after) (All-append _ before after h k)
stripped-IsHeartbeat before (c ∷ []) after h k e =
    letter before c after h ((==_iff (upper_char c) b'H').0 (ground (arith, e))) k
stripped-IsHeartbeat before (c ∷ d ∷ ds) after h k e = absurd (ground (arith, e))

-- The zero test finds nothing that the stripping does not find.
or_zero : (a b c : Bool) → (a || (b || c)) ≡ true → (a ≡ true) ⊎ ((b ≡ true) ⊎ (c ≡ true))
or_zero true b c h = inl refl
or_zero false true c h = inr (inl refl)
or_zero false false c h = inr (inr h)

or_rest : (a b c : Bool) → c ≡ true → (a || (b || c)) ≡ true
or_rest a b c h = ground arith

nil-IsHeartbeat : (text : Bytes) → is_nil text ≡ true → IsHeartbeat text
nil-IsHeartbeat [] h = filler [] tt
nil-IsHeartbeat (c ∷ cs) h = absurd (ground (arith, h))

rest_test-one : (c : ℕ) → upper_char c ≡ b'H' → rest_test (c ∷ []) ≡ true
unfolding bytes_eq
rest_test-one c h = ground (arith, h)

IsHeartbeat-rest_test :
    (text : Bytes) → IsHeartbeat text → rest_test (strip_by is_filler text) ≡ true
IsHeartbeat-rest_test text (filler t h) = ap rest_test (strip_by-all is_filler t h)
IsHeartbeat-rest_test text (letter before c after h k l) =
    ap rest_test (strip_by-one is_filler before c after h (letter-NotFiller c k) l)
    ∙ rest_test-one c k

rest_test-IsHeartbeat :
    (text : Bytes) → rest_test (strip_by is_filler text) ≡ true → IsHeartbeat text
rest_test-IsHeartbeat text e =
    let (before, after, same, h, k) = strip_by_sound is_filler text in
    subst IsHeartbeat (sym same) (stripped-IsHeartbeat before (strip_by is_filler text) after h k e)

is_zero-IsHeartbeat :
    (text : Bytes)
    → (leb (length text) heartbeat_max_len && all_zero text) ≡ true
    → IsHeartbeat text
is_zero-IsHeartbeat text h = filler text (all_zero-filler text (ground (arith, h)))

-- Data count as a heartbeat exactly where they are only zero bytes, blanks and line ends, of any
-- length, or one letter h or H with such bytes around it.
pub is_heartbeat_iff : (bytes' : Bytes) → (is_heartbeat bytes' ≡ true) ↔ IsHeartbeat bytes'
unfolding is_heartbeat
is_heartbeat_iff bytes' =
    let zeros = leb (length bytes') heartbeat_max_len && all_zero bytes' in
    let rest = rest_test (strip_by is_filler bytes') in
    (
      λ h. elim (or_zero (is_nil bytes') zeros rest h) [
        | inl e ↦ nil-IsHeartbeat bytes' e
        | inr (inl e) ↦ is_zero-IsHeartbeat bytes' e
        | inr (inr e) ↦ rest_test-IsHeartbeat bytes' e
      ],
      λ h. or_rest (is_nil bytes') zeros rest (IsHeartbeat-rest_test bytes' h),
    )
