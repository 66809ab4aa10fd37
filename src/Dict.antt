-- ===== src/Dict.antt =====
-- Python's `dict` with integer keys, as the queue manager uses it: an association list in
-- insertion order. A write to a present key keeps its place, and a new key goes to the end.
pub mod Distinct
pub mod Paired
use model_lib.Prelude.{
  ℕ, ◌≡◌, refl, ◌+◌, Bool, true, false, List, [], ◌∷◌, map, Option, none, some, arith, ◌==◌,
  if◌then◌else◌, length, is_some,
}

abbrev pub Dict {ℓ} : Type ℓ → Type ℓ
Dict V = List (ℕ × V)

module _ {ℓ} {V : Type ℓ} where
  -- `d.get(k)`
  unfoldable pub get : ℕ → Dict V → Option V
  get k [] = none
  get k ((j, v) ∷ d) = if j == k then some v else get k d

  -- `d[k] = v`
  unfoldable pub put : ℕ → V → Dict V → Dict V
  put k v [] = (k, v) ∷ []
  put k v ((j, w) ∷ d) = if j == k then (j, v) ∷ d else (j, w) ∷ put k v d

  -- `d.pop(k, None)`
  unfoldable pub erase : ℕ → Dict V → Dict V
  erase k [] = []
  erase k ((j, w) ∷ d) = if j == k then d else (j, w) ∷ erase k d

  -- `d.get(k, v)`
  abbrev pub get_or : ℕ → V → Dict V → V
  get_or k v d = elim (get k d) [ none ↦ v | some w ↦ w ]

  abbrev pub contains : ℕ → Dict V → Bool
  contains k d = is_some (get k d)

  abbrev pub keys : Dict V → List ℕ
  keys = map (λ e. e.0)

  pub get-put :
      (k j : ℕ) (v : V) (d : Dict V) → get j (put k v d) ≡ (if k == j then some v else get j d)
  unfolding get put
  get-put k j v [] = refl
  get-put k j v ((i, w) ∷ d) = ground (arith, get-put k j v d)

  pub get-erase_ne : (k j : ℕ) (d : Dict V) → (k == j) ≡ false → get j (erase k d) ≡ get j d
  unfolding get erase
  get-erase_ne k j [] h = refl
  get-erase_ne k j ((i, w) ∷ d) h = ground (arith, get-erase_ne k j d)

  pub length-put :
      (k : ℕ) (v : V) (d : Dict V)
      → length (put k v d) ≡ (if contains k d then length d else length d + 1)
  unfolding get put
  length-put k v [] = omega arith
  length-put k v ((i, w) ∷ d) = ground (arith, length-put k v d)

  pub length-erase : (k : ℕ) (d : Dict V) → contains k d ≡ true → length (erase k d) + 1 ≡ length d
  unfolding get erase
  length-erase k [] h = ground arith
  length-erase k ((i, w) ∷ d) h = ground (arith, length-erase k d)
