-- ===== src/Parser/Registry.antt =====
-- Extractors that are registered are found.
use model_lib.Prelude.{
  ℕ, ◌≡◌, ◌∙◌, refl, ap, sym, true, false, List, [], ◌∷◌, none, some, arith, ==_refl, Bool-cases,
  inl, inr, if_then, if_else,
}
use model_lib.Text.{Bytes, bytes_eq}
use model_lib.Queue.History.{Outcome, returned, value_error}
use model_lib.Parser.Counts.{
  Extractor, mode_key, auto_mode, disabled_mode, find_extractor, put_extractor, extract_by_mode,
  extract_camera_count_from_payload, register_camera_count_extractor,
}

bytes_eq_refl : (a : Bytes) → bytes_eq a a ≡ true
unfolding bytes_eq
bytes_eq_refl [] = refl
bytes_eq_refl (a ∷ as') = ground (arith, ==_refl a, bytes_eq_refl as')

find_extractor-put_extractor :
    (key : Bytes) (x : Extractor) (es : List (Bytes × Extractor))
    → find_extractor key (put_extractor key x es) ≡ some x
unfolding find_extractor put_extractor
find_extractor-put_extractor key x [] = if_then (bytes_eq key key) (some x) none (bytes_eq_refl key)
find_extractor-put_extractor key x ((name, old) ∷ rest) = elim (Bool-cases (bytes_eq name key)) [
  | inl e ↦ rw e (if_then (bytes_eq name key) (some x) _ e)
  | inr e ↦
      rw e (if_else (bytes_eq name key) (some old) _ e ∙ find_extractor-put_extractor key x rest)
]

abbrev value_or :
    List (Bytes × Extractor) → Outcome (List (Bytes × Extractor)) → List (Bytes × Extractor)
value_or other (returned es) = es
value_or other value_error = other

-- The extractors after a registration under a key.
register-returned :
    (key : Bytes) (x : Extractor) (es fs : List (Bytes × Extractor))
    → (elim key [ [] ↦ value_error | c ∷ cs ↦ returned (put_extractor (c ∷ cs) x es) ])
      ≡ returned fs
    → (bytes_eq key [] ≡ false) × (find_extractor key fs ≡ some x)
unfolding bytes_eq
register-returned [] x es fs h = ground arith
register-returned (c ∷ cs) x es fs h = (
  refl,
  ap (find_extractor (c ∷ cs)) (sym (ap (value_or fs) h))
      ∙ find_extractor-put_extractor (c ∷ cs) x es,
)

-- An extractor that was registered under a mode reads every payload in that mode that is not empty,
-- unless the mode is `auto` or `disabled`.
register_camera_count_extractor-extract :
    (mode : Bytes) (x : Extractor) (es fs : List (Bytes × Extractor)) (b : ℕ) (bs : Bytes)
    → register_camera_count_extractor mode x es ≡ returned fs
    → bytes_eq (mode_key mode) auto_mode ≡ false
    → bytes_eq (mode_key mode) disabled_mode ≡ false
    → extract_camera_count_from_payload fs mode (b ∷ bs) ≡ x (b ∷ bs)
unfolding register_camera_count_extractor extract_camera_count_from_payload extract_by_mode
register_camera_count_extractor-extract mode x es fs b bs h auto disabled =
    let (present, found) = register-returned (mode_key mode) x es fs h in
    rw (disabled, auto, present, found, extract_by_mode)
