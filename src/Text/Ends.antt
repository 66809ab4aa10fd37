-- ===== src/Text/Ends.antt =====
-- The end of a text: what `strip`, `endswith` and `s[:-1]` do to a text with a known last character.
use model_lib.Prelude.{All, ℕ, ◌≡◌, refl, sym, ap, ◌∙◌, true, false, [], ◌∷◌, ◌++◌, ==_refl}
use mathlib.Core.List.{append-nil}
use model_lib.Text.{Bytes, lstrip, rstrip, strip, is_space, ends_with, drop_last}

rstrip-cons :
    (x : ℕ) (ys : Bytes) (d : ℕ) (ds : Bytes) → rstrip ys ≡ d ∷ ds → rstrip (x ∷ ys) ≡ x ∷ d ∷ ds
unfolding rstrip
rstrip-cons x ys d ds e = rw (e, rstrip)

rstrip-snoc : (xs : Bytes) (c : ℕ) → is_space c ≡ false → rstrip (xs ++ c ∷ []) ≡ xs ++ c ∷ []
rstrip-snoc [] c h = unfold rstrip in rw h
rstrip-snoc (x ∷ []) c h = rstrip-cons x (c ∷ []) c [] (rstrip-snoc [] c h)
rstrip-snoc (x ∷ y ∷ ys) c h =
    rstrip-cons x (y ∷ (ys ++ c ∷ [])) y (ys ++ c ∷ []) (rstrip-snoc (y ∷ ys) c h)

-- Neither end is white space.
pub strip-cons_snoc :
    (b : ℕ) (xs : Bytes) (c : ℕ)
    → is_space b ≡ false
    → is_space c ≡ false
    → strip (b ∷ (xs ++ c ∷ [])) ≡ b ∷ (xs ++ c ∷ [])
unfolding lstrip
strip-cons_snoc b xs c hb hc = rw hb (rstrip-snoc (b ∷ xs) c hc)

pub ends_with-snoc : (c : ℕ) (xs : Bytes) → ends_with c (xs ++ c ∷ []) ≡ true
unfolding ends_with
ends_with-snoc c [] = ==_refl c
ends_with-snoc c (x ∷ []) = ends_with-snoc c []
ends_with-snoc c (x ∷ y ∷ ys) = ends_with-snoc c (y ∷ ys)

pub drop_last-snoc : (c : ℕ) (xs : Bytes) → drop_last (xs ++ c ∷ []) ≡ xs
unfolding drop_last
drop_last-snoc c [] = refl
drop_last-snoc c (x ∷ []) = ap (◌∷◌ x) (drop_last-snoc c [])
drop_last-snoc c (x ∷ y ∷ ys) = ap (◌∷◌ x) (drop_last-snoc c (y ∷ ys))

pub rstrip-append :
    (xs ys : Bytes) (d : ℕ) (ds : Bytes) → rstrip ys ≡ d ∷ ds → rstrip (xs ++ ys) ≡ xs ++ d ∷ ds
rstrip-append [] ys d ds e = e
rstrip-append (x ∷ []) ys d ds e = rstrip-cons x ys d ds e
rstrip-append (x ∷ y ∷ xs) ys d ds e =
    rstrip-cons x (y ∷ (xs ++ ys)) y (xs ++ d ∷ ds) (rstrip-append (y ∷ xs) ys d ds e)

abbrev pub IsBlank : Bytes → Type 0
IsBlank = All (λ c. is_space c ≡ true)

abbrev pub IsPrinted : Bytes → Type 0
IsPrinted = All (λ c. is_space c ≡ false)

rstrip-blank : (ss : Bytes) → IsBlank ss → rstrip ss ≡ []
unfolding rstrip
rstrip-blank [] h = refl
rstrip-blank (s ∷ ss) h = rw (rstrip-blank ss h.1, h.0, rstrip)

-- White space at the end goes, up to a part without any.
pub rstrip-printed :
    (d : ℕ) (ds ss : Bytes) → IsPrinted (d ∷ ds) → IsBlank ss → rstrip (d ∷ (ds ++ ss)) ≡ d ∷ ds
unfolding rstrip
rstrip-printed d [] ss h b = rw (rstrip-blank ss b, h.0, rstrip)
rstrip-printed d (e ∷ ds) ss h b =
    rstrip-cons d (e ∷ (ds ++ ss)) e ds (rstrip-printed e ds ss h.1 b)

pub strip-printed : (d : ℕ) (ds : Bytes) → IsPrinted (d ∷ ds) → strip (d ∷ ds) ≡ d ∷ ds
unfolding lstrip
strip-printed d ds h =
    rw h.0 (ap (λ t. rstrip (d ∷ t)) (sym (append-nil ds)) ∙ rstrip-printed d ds [] h tt)
