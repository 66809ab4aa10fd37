-- ===== src/Queue/Invariant/Chosen.antt =====
-- The item that an output cache is made for stands in the arm's queue under its own pointer.
use model_lib.Prelude.{
  ℕ, zero, suc, ◌<◌, ◌≡◌, Bool, List, [], ◌∷◌, map, some, arith, leb, ◌==◌, All, get_elem?,
  Bool-cases, Option-cases, inl, inr, subst,
}
use model_lib.Dict
use model_lib.Dict.{Dict}
use model_lib.Dict.Distinct.{Distinct, get_entries}
use model_lib.Dict.Paired.{Paired-get, Paired-get_right}
use model_lib.Queue.State.{Manager, Store, ArmQueueItem, queue_of}
use model_lib.Queue.Dequeue.{insert_by_seq, sort_by_seq, ordered_items, index_of, candidate}
use model_lib.Queue.Invariant.Shape.{PairOk, IsSound}

pub record InQueue (s : Store) (arm_id r : ℕ) : Type 0 where
  pub known : r < s.next_ref
  pub found : Dict.get (s.heap r).pointer (queue_of s arm_id) ≡ some r

module _ (filled : Bool) (s : Store) (v : IsSound filled s) where
  -- What a pointer looks up belongs to the pointer.
  pub get-InQueue :
      (arm_id p r : ℕ)
      → Dict.get p (queue_of s arm_id) ≡ some r
      → ((s.heap r).pointer ≡ p) × InQueue s arm_id r
  unfolding Dict.get
  get-InQueue arm_id p r e = elim (Bool-cases (arm_id == 1)) [
    | inl one ↦
        let (q, _, o) = Paired-get (PairOk s) p s.arm1_queue s.arm2_queue v.paired (rw one at e) in
        (o.pointer1, record { known = o.known1; found = rw (o.pointer1) e })
    | inr other ↦ elim (Bool-cases (arm_id == 2)) [
      | inl two ↦
          let (q, _, o) =
            Paired-get_right (PairOk s) p s.arm1_queue s.arm2_queue v.paired
              (rw (other, two) at e) in
          (o.pointer2, record { known = o.known2; found = rw (o.pointer2) e })
      | inr none' ↦ absurd (ground (arith, rw (other, none') at e))
    ]
  ]

  queue-Distinct : (arm_id : ℕ) → Distinct (queue_of s arm_id)
  queue-Distinct arm_id = ground (arith, v.distinct1, v.distinct2)

  values-InQueue :
      (arm_id : ℕ) (d : Dict ℕ)
      → All (λ (e : ℕ × ℕ). Dict.get e.0 (queue_of s arm_id) ≡ some e.1) d
      → All (InQueue s arm_id) (map (λ e. e.1) d)
  values-InQueue arm_id [] h = tt
  values-InQueue arm_id (e ∷ d) h =
      ((get-InQueue arm_id e.0 e.1 h.0).1, values-InQueue arm_id d h.1)

module _ {κ} (P : ℕ → Type κ) (heap : ℕ → ArmQueueItem) where
  insert_by_seq-All : (r : ℕ) (rs : List ℕ) → P r → All P rs → All P (insert_by_seq heap r rs)
  unfolding insert_by_seq
  insert_by_seq-All r [] h a = (h, tt)
  insert_by_seq-All r (q ∷ qs) h a =
      elim (Bool-cases (leb (heap r).enqueue_seq (heap q).enqueue_seq)) [
        | inl e ↦ rw e (h, a)
        | inr e ↦ rw e (a.0, insert_by_seq-All r qs h a.1)
      ]

  sort_by_seq-All : (rs : List ℕ) → All P rs → All P (sort_by_seq heap rs)
  unfolding sort_by_seq
  sort_by_seq-All [] a = tt
  sort_by_seq-All (r ∷ rs) a =
      insert_by_seq-All r (sort_by_seq heap rs) a.0 (sort_by_seq-All rs a.1)

  get_elem?-All : (rs : List ℕ) (i : ℕ) {r : ℕ} → All P rs → get_elem? rs i ≡ some r → P r
  get_elem?-All [] i a e = cc
  get_elem?-All (q ∷ qs) zero a e = subst P (ground arith) a.0
  get_elem?-All (q ∷ qs) (suc i) a e = get_elem?-All qs i a.1 e

-- So does a candidate for prefetching.
pub candidate-InQueue :
    (filled : Bool) (m : Manager) (arm_id target r : ℕ)
    → IsSound filled m.store
    → candidate arm_id target m ≡ some r
    → InQueue m.store arm_id r
unfolding candidate
candidate-InQueue filled m arm_id target r v e =
    elim (Option-cases
      (index_of m.store.heap (m.store.heap target) 0 (ordered_items m.store arm_id))) [
        | inl miss ↦ cc (rw (miss, candidate) at e)
        | inr (base, hit) ↦
            get_elem?-All (InQueue m.store arm_id) m.store.heap (ordered_items m.store arm_id) _
              (sort_by_seq-All (InQueue m.store arm_id) m.store.heap _ (
                values-InQueue filled m.store v arm_id (queue_of m.store arm_id)
                  (get_entries _ (queue-Distinct filled m.store v arm_id))))
              (rw (hit, candidate) at e)
      ]
