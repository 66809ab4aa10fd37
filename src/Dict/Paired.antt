-- ===== src/Dict/Paired.antt =====
-- Two dictionaries with the same keys in the same order, whose values are related at each key.
use model_lib.Prelude.{
  ℕ, suc, ◌≡◌, refl, sym, ap, subst, [], ◌∷◌, some, arith, ◌==◌, ==_iff, Bool-cases, inl, inr,
  length,
}
use model_lib.Dict.{Dict, get, put, erase, keys}
use mathlib.Core.Path.{ap₂}

module _ {V : Type 0} where
  abbrev pub Paired : (ℕ → V → V → Type 0) → Dict V → Dict V → Type 0
  Paired R [] [] = Unit
  Paired R [] (f ∷ e) = ⊥
  Paired R (f ∷ d) [] = ⊥
  Paired R ((k, v) ∷ d) ((j, w) ∷ e) = (j ≡ k) × R k v w × Paired R d e

  module _ (R : ℕ → V → V → Type 0) where
    pub Paired-put :
        (k : ℕ) (v w : V) (d e : Dict V) → R k v w → Paired R d e → Paired R (put k v d) (put k w e)
    unfolding put
    Paired-put k v w [] [] r h = (refl, r, tt)
    Paired-put k v w [] (f ∷ e) r h = absurd h
    Paired-put k v w (f ∷ d) [] r h = absurd h
    Paired-put k v w ((i, a) ∷ d) ((j, b) ∷ e) r h = elim (Bool-cases (i == k)) [
      | inl hit ↦ rw (h.0, hit) (refl, subst (λ x. R x v w) (sym ((==_iff i k).0 hit)) r, h.2)
      | inr miss ↦ rw (h.0, miss) (refl, h.1, Paired-put k v w d e r h.2)
    ]

    pub Paired-erase : (k : ℕ) (d e : Dict V) → Paired R d e → Paired R (erase k d) (erase k e)
    unfolding erase
    Paired-erase k [] [] h = tt
    Paired-erase k [] (f ∷ e) h = absurd h
    Paired-erase k (f ∷ d) [] h = absurd h
    Paired-erase k ((i, a) ∷ d) ((j, b) ∷ e) h = elim (Bool-cases (i == k)) [
      | inl hit ↦ rw (h.0, hit) h.2
      | inr miss ↦ rw (h.0, miss) (refl, h.1, Paired-erase k d e h.2)
    ]

    -- What one of the two holds at a key, the other holds too, related.
    pub Paired-get :
        (k : ℕ) (d e : Dict V) {v : V}
        → Paired R d e
        → get k d ≡ some v
        → (w : V) × (get k e ≡ some w) × R k v w
    unfolding get
    Paired-get k [] e h g = cc
    Paired-get k (f ∷ d) [] h g = absurd h
    Paired-get k ((i, a) ∷ d) ((j, b) ∷ e) {v} h g = elim (Bool-cases (i == k)) [
      | inl hit ↦ (
        b,
        rw (h.0, hit),
        subst (λ x. R x v b) ((==_iff i k).0 hit) (subst (λ x. R i x b) (ground arith) h.1),
      )
      | inr miss ↦
          let (w, found, r) = Paired-get k d e h.2 (ground arith) in (w, rw (h.0, miss) found, r)
    ]

    pub Paired-get_right :
        (k : ℕ) (d e : Dict V) {w : V}
        → Paired R d e
        → get k e ≡ some w
        → (v : V) × (get k d ≡ some v) × R k v w
    unfolding get
    Paired-get_right k d [] h g = cc
    Paired-get_right k [] (f ∷ e) h g = absurd h
    Paired-get_right k ((i, a) ∷ d) ((j, b) ∷ e) {w} h g = elim (Bool-cases (i == k)) [
      | inl hit ↦ (
        a,
        rw hit,
        subst (λ x. R x a w) ((==_iff i k).0 hit) (subst (λ x. R i a x) (ground (arith, h.0)) h.1),
      )
      | inr miss ↦
          let (v, found, r) = Paired-get_right k d e h.2 (ground (arith, h.0)) in
          (v, rw miss found, r)
    ]

    pub Paired-map :
        (S : ℕ → V → V → Type 0) (d e : Dict V)
        → ((k : ℕ) (v w : V) → R k v w → S k v w)
        → Paired R d e
        → Paired S d e
    Paired-map S [] [] f h = tt
    Paired-map S [] (x ∷ e) f h = absurd h
    Paired-map S (x ∷ d) [] f h = absurd h
    Paired-map S ((i, a) ∷ d) ((j, b) ∷ e) f h = (h.0, f i a b h.1, Paired-map S d e f h.2)

    pub Paired-length : (d e : Dict V) → Paired R d e → length d ≡ length e
    Paired-length [] [] h = refl
    Paired-length [] (x ∷ e) h = absurd h
    Paired-length (x ∷ d) [] h = absurd h
    Paired-length (f ∷ d) (g ∷ e) h = ap suc (Paired-length d e h.2)

    pub Paired-keys : (d e : Dict V) → Paired R d e → keys e ≡ keys d
    Paired-keys [] [] h = refl
    Paired-keys [] (x ∷ e) h = absurd h
    Paired-keys (x ∷ d) [] h = absurd h
    Paired-keys ((i, a) ∷ d) ((j, b) ∷ e) h = ap₂ ◌∷◌ h.0 (Paired-keys d e h.2)
