-- ===== src/Queue/Oldest.antt =====
-- `min(queue, key=enqueue_seq)`: the entry that an overflow evicts.
use model_lib.Prelude.{ℕ, ◌≤◌, ◌≡◌, refl, [], ◌∷◌, some, arith, ltb, All, Bool-cases, inl, inr}
use model_lib.Dict
use model_lib.Dict.{Dict}
use model_lib.Dict.Distinct.{Distinct, get_entries}
use model_lib.Queue.State.{ArmQueueItem}
use model_lib.Queue.Enqueue.{oldest_from, oldest_pointer}

module _ (heap : ℕ → ArmQueueItem) where
  abbrev seq_of : ℕ × ℕ → ℕ
  seq_of e = (heap e.1).enqueue_seq

  -- What holds of the best entry so far and of the rest holds of the result.
  oldest_from-of_all {κ} :
      (P : ℕ × ℕ → Type κ) (best : ℕ × ℕ) (d : Dict ℕ)
      → P best
      → All P d
      → P (oldest_from heap best d)
  unfolding oldest_from
  oldest_from-of_all P best [] h a = h
  oldest_from-of_all P best (e ∷ d) h a = elim (Bool-cases (ltb (seq_of e) (seq_of best))) [
    | inl t ↦ rw t (oldest_from-of_all P e d a.0 a.1)
    | inr t ↦ rw t (oldest_from-of_all P best d h a.1)
  ]

  oldest_from-le :
      (best : ℕ × ℕ) (d : Dict ℕ) (n : ℕ)
      → n ≡ seq_of (oldest_from heap best d)
      → (n ≤ seq_of best) × All (λ e. n ≤ seq_of e) d
  unfolding oldest_from
  oldest_from-le best [] n q = (omega arith, tt)
  oldest_from-le best (e ∷ d) n q = elim (Bool-cases (ltb (seq_of e) (seq_of best))) [
    | inl t ↦ let (h, a) = oldest_from-le e d n (rw t at q) in (ground arith, (h, a))
    | inr t ↦ let (h, a) = oldest_from-le best d n (rw t at q) in (h, (ground arith, a))
  ]

  -- In a queue that is not empty the oldest entry is one of the queue's, and no other came earlier.
  pub oldest_pointer_lem :
      (e : ℕ × ℕ) (d : Dict ℕ)
      → Distinct (e ∷ d)
      → (p r : ℕ) × (oldest_pointer heap (e ∷ d) ≡ some p)
        × (Dict.get p (e ∷ d) ≡ some r)
        × All (λ x. (heap r).enqueue_seq ≤ seq_of x) (e ∷ d)
  unfolding oldest_pointer
  oldest_pointer_lem e d h =
      let x = oldest_from heap e d in
      let entries = get_entries (e ∷ d) h in
      (
        x.0,
        x.1,
        refl,
        oldest_from-of_all (λ y. Dict.get y.0 (e ∷ d) ≡ some y.1) e d entries.0 entries.1,
        oldest_from-le e d (seq_of x) refl,
      )
