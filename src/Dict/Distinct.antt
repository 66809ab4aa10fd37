-- ===== src/Dict/Distinct.antt =====
-- Dictionaries with distinct keys, and predicates on their entries.
use model_lib.Prelude.{
  OnSome, ℕ, ◌≡◌, refl, true, [], ◌∷◌, none, some, arith, subst, ◌==◌, ==_refl, Bool-cases, inl,
  inr, All, All-map,
}
use model_lib.Dict.{Dict, get, put, erase, get-put, get-erase_ne}

module _ {ℓ} {V : Type ℓ} where
  abbrev pub Distinct : Dict V → Type ℓ
  Distinct [] = Unit
  Distinct ((k, v) ∷ d) = (get k d ≡ none) × Distinct d

  pub Distinct-put : (k : ℕ) (v : V) (d : Dict V) → Distinct d → Distinct (put k v d)
  unfolding get put
  Distinct-put k v [] h = (refl, tt)
  Distinct-put k v ((j, w) ∷ d) h =
      ground (arith, Distinct-put k v d h.1, get-put k j v d, ==_refl j)

  pub Distinct-erase : (k : ℕ) (d : Dict V) → Distinct d → Distinct (erase k d)
  unfolding get erase
  Distinct-erase k [] h = tt
  Distinct-erase k ((j, w) ∷ d) h = ground (arith, Distinct-erase k d h.1, get-erase_ne k j d)

  pub get-erase_self : (k : ℕ) (d : Dict V) → Distinct d → get k (erase k d) ≡ none
  unfolding get erase
  get-erase_self k [] h = refl
  get-erase_self k ((j, w) ∷ d) h = ground (arith, get-erase_self k d h.1)

  get-cons_of_some :
      (k : ℕ) (v : V) (d : Dict V)
      → get k d ≡ none
      → (e : ℕ × V) → get e.0 d ≡ some e.1
      → get e.0 ((k, v) ∷ d) ≡ some e.1
  unfolding get
  get-cons_of_some k v d fresh (j, w) h = ground arith

  -- With distinct keys, each entry is what its key looks up.
  pub get_entries : (d : Dict V) → Distinct d → All (λ (e : ℕ × V). get e.0 d ≡ some e.1) d
  unfolding get
  get_entries [] h = tt
  get_entries ((k, v) ∷ d) h =
      (rw (==_refl k), All-map _ _ d (get-cons_of_some k v d h.0) (get_entries d h.1))

  module _ {κ} (P : ℕ × V → Type κ) where
    pub All-put :
        (k : ℕ) (v : V) (d : Dict V)
        → ((j : ℕ) → (j == k) ≡ true → P (j, v))
        → All P d
        → All P (put k v d)
    unfolding put
    All-put k v [] new h = (new k (==_refl k), tt)
    All-put k v ((j, w) ∷ d) new h = elim (Bool-cases (j == k)) [
      | inl e ↦ rw e (new j e, h.1)
      | inr e ↦ rw e (h.0, All-put k v d new h.1)
    ]

    pub All-erase : (k : ℕ) (d : Dict V) → All P d → All P (erase k d)
    unfolding erase
    All-erase k [] h = tt
    All-erase k ((j, w) ∷ d) h = elim (Bool-cases (j == k)) [
      | inl e ↦ rw e h.1
      | inr e ↦ rw e (h.0, All-erase k d h.1)
    ]

    pub All-get :
        (k : ℕ) (d : Dict V) {v : V}
        → All P d
        → get k d ≡ some v
        → (j : ℕ) × ((j == k) ≡ true) × P (j, v)
    unfolding get
    All-get k [] h e = cc
    All-get k ((j, w) ∷ d) h e = elim (Bool-cases (j == k)) [
      | inl hit ↦ (j, hit, subst (λ x. P (j, x)) (ground arith) h.0)
      | inr miss ↦ All-get k d h.1 (ground arith)
    ]

-- What holds of every value holds of the one that is found.
pub get-OnSome {ℓ κ} :
    {V : Type ℓ} (P : V → Type κ) (k : ℕ) (d : Dict V)
    → All (λ (e : ℕ × V). P e.1) d
    → OnSome P (get k d)
unfolding get
get-OnSome P k [] h = tt
get-OnSome P k ((j, w) ∷ d) h = elim (Bool-cases (j == k)) [
  | inl e ↦ rw e (h.0)
  | inr e ↦ rw e (get-OnSome P k d h.1)
]
