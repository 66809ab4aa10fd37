-- ===== src/Workflow/Draining.antt =====
-- The loops that drain a receive buffer, whatever it is that cuts the frames.
use model_lib.Prelude.{
  ℕ, zero, suc, ◌≡◌, ◌<◌, refl, List, [], ◌∷◌, Option, none, some, length, Option-cases, inl, inr,
  arith,
}
use mathlib.Core.Path.{ap₂}
use model_lib.Text.{Bytes}
use model_lib.Workflow.Frames.{drain}

-- What a loop without a bound takes out of a buffer: frames until there is none, and the rest.
pub data Drains (pop : Bytes → Option Bytes × Bytes) : Bytes → List Bytes → Bytes → Type 0 where
  empty : {b : Bytes} → (pop b).0 ≡ none → Drains pop b [] (pop b).1
  another :
      {b f rest : Bytes} {fs : List Bytes}
      → (pop b).0 ≡ some f
      → Drains pop (pop b).1 fs rest
      → Drains pop b (f ∷ fs) rest

-- A frame takes at least one byte.
abbrev pub Shrinks : (Bytes → Option Bytes × Bytes) → Type 0
Shrinks pop = (b f : Bytes) → (pop b).0 ≡ some f → length (pop b).1 < length b

module _ (pop : Bytes → Option Bytes × Bytes) where
  pub drain-Drains :
      Shrinks pop
      → (n : ℕ) (b : Bytes) → length b < n
      → Drains pop b (drain pop n b).0 (drain pop n b).1
  unfolding drain
  drain-Drains s zero b h = absurd (omega arith)
  drain-Drains s (suc n) b h = elim (Option-cases (pop b).0) [
    | inl e ↦ rw (e, drain) (empty e)
    | inr (f, e) ↦ rw (e, drain) (another e (drain-Drains s n (pop b).1 (omega (arith, s b f e))))
  ]

  pub Drains-unique :
      {b r t : Bytes} {fs gs : List Bytes}
      → Drains pop b fs r
      → Drains pop b gs t
      → (fs ≡ gs) × (r ≡ t)
  Drains-unique (empty e) (empty f) = (refl, refl)
  Drains-unique (empty e) (another f d) = absurd (ground (arith, e, f))
  Drains-unique (another e c) (empty f) = absurd (ground (arith, e, f))
  Drains-unique (another {f = x} e c) (another {f = y} f d) =
      let (rest, stay) = Drains-unique c d in let same : x ≡ y = cc in (ap₂ (◌∷◌) same rest, stay)
