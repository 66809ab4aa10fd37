-- ===== src/Queue/Eviction.antt =====
-- An enqueue into a full queue.
use model_lib.Prelude.{
  ℕ, ◌+◌, ◌≡◌, ◌≤◌, ◌∙◌, refl, sym, ap, subst, true, List, [], ◌∷◌, some, arith, leb, ◌==◌, All,
  Bool-cases, inl, inr, if_then,
}
use mathlib.Core.Path.{ap₂}
use model_lib.Dict
use model_lib.Dict.Distinct.{Distinct}
use model_lib.Queue.State.{Manager, Store, DequeueCache}
use model_lib.Queue.History.{update_arm_status, append_history, with_store}
use model_lib.Queue.Enqueue.{
  validate_pointer, oldest_pointer, evict_caches, drop_pair, remove_oldest_pair, add_pair,
  needs_room, enqueue_pair,
}
use model_lib.Queue.Oldest.{oldest_pointer_lem}
use model_lib.Queue.Invariant.Valid.{IsValid}

-- What the eviction of caches leaves alone.
record Kept (m n : Manager) : Type 0 where
  arm1 : n.store.arm1_queue ≡ m.store.arm1_queue
  arm2 : n.store.arm2_queue ≡ m.store.arm2_queue
  next : n.store.next_ref ≡ m.store.next_ref

evict_caches-Kept :
    (p : ℕ) (cs : List (ℕ × DequeueCache)) (m : Manager) → Kept m (evict_caches p cs m)
unfolding evict_caches update_arm_status
evict_caches-Kept p [] m = record { arm1 = refl; arm2 = refl; next = refl }
evict_caches-Kept p ((arm_id, c) ∷ cs) m =
    elim (Bool-cases ((m.store.heap c.queue_item).pointer == p)) [
      | inl e ↦ rw e (
          let h = evict_caches-Kept p cs _ in
          record { arm1 = h.arm1; arm2 = h.arm2; next = h.next })
      | inr e ↦ rw e (evict_caches-Kept p cs m)
    ]

-- The pair at a pointer is gone from both queues.
record Dropped (p : ℕ) (m n : Manager) : Type 0 where
  arm1 : n.store.arm1_queue ≡ Dict.erase p m.store.arm1_queue
  arm2 : n.store.arm2_queue ≡ Dict.erase p m.store.arm2_queue
  next : n.store.next_ref ≡ m.store.next_ref

remove_oldest_pair-Dropped :
    (now p : ℕ) (m : Manager)
    → oldest_pointer m.store.heap m.store.arm1_queue ≡ some p
    → Dropped p m (remove_oldest_pair now m)
unfolding remove_oldest_pair drop_pair append_history
remove_oldest_pair-Dropped now p m e =
    let kept = evict_caches-Kept p m.store.arm_caches (with_store (drop_pair p) m) in
    record {
      arm1 = rw (e, remove_oldest_pair) kept.arm1;
      arm2 = rw (e, remove_oldest_pair) kept.arm2;
      next = rw (e, remove_oldest_pair) kept.next;
    }

validate_pointer-store : (p : ℕ) (m : Manager) → (validate_pointer p m).store ≡ m.store
unfolding validate_pointer
validate_pointer-store p m = ground arith

validate_pointer-needs_room :
    (p : ℕ) (m : Manager) → needs_room p (validate_pointer p m) ≡ needs_room p m
unfolding validate_pointer needs_room
validate_pointer-needs_room p m = elim (Bool-cases (leb p 0)) [
  | inl e ↦ rw e refl
  | inr e ↦ rw e refl
]

enqueue_pair-store :
    (count pointer now : ℕ) (m : Manager)
    → needs_room pointer m ≡ true
    → (enqueue_pair count pointer now m).store
      ≡ add_pair count pointer now (remove_oldest_pair now (validate_pointer pointer m)).store
unfolding enqueue_pair append_history
enqueue_pair-store count pointer now m full =
    let c = validate_pointer pointer m in
    ap (λ (x : Manager). add_pair count pointer now x.store)
      (if_then (needs_room pointer c) (remove_oldest_pair now c) c
        (validate_pointer-needs_room pointer m ∙ full))

-- An enqueue of a new pointer into a full queue evicts one pair from both queues at once, that of
-- an item with the least sequence number, and writes the new pair, two new objects, to what is left.
pub enqueue_pair-evicts :
    (count pointer now : ℕ) (m : Manager) (e : ℕ × ℕ) (d : Dict.Dict ℕ)
    → IsValid m
    → m.store.arm1_queue ≡ e ∷ d
    → needs_room pointer m ≡ true
    → let n = (enqueue_pair count pointer now m).store in
      (p r : ℕ) × (Dict.get p m.store.arm1_queue ≡ some r)
      × All
          (λ (x : ℕ × ℕ). (m.store.heap r).enqueue_seq ≤ (m.store.heap x.1).enqueue_seq)
          m.store.arm1_queue
      × (n.arm1_queue ≡ Dict.put pointer m.store.next_ref (Dict.erase p m.store.arm1_queue))
      × (n.arm2_queue ≡ Dict.put pointer (m.store.next_ref + 1) (Dict.erase p m.store.arm2_queue))
unfolding add_pair
enqueue_pair-evicts count pointer now m e d v q full =
    let (p, r, least, found, oldest) =
      oldest_pointer_lem m.store.heap e d (subst Distinct q v.sound.distinct1) in
    let c = validate_pointer pointer m in
    let same = validate_pointer-store pointer m in
    let gone = remove_oldest_pair-Dropped now p c (
      ap (λ (s : Store). oldest_pointer s.heap s.arm1_queue) same
      ∙ ap (oldest_pointer m.store.heap) q
      ∙ least) in
    let s = enqueue_pair-store count pointer now m full in
    (
      p,
      r,
      ap (Dict.get p) q ∙ found,
      subst
          (λ l.
            All (λ (x : ℕ × ℕ). (m.store.heap r).enqueue_seq ≤ (m.store.heap x.1).enqueue_seq) l)
          (sym q) oldest,
      ap (λ x. x.arm1_queue) s
          ∙ ap₂ (Dict.put pointer) (gone.next ∙ ap (λ x. x.next_ref) same)
              (gone.arm1 ∙ ap (λ x. Dict.erase p x.arm1_queue) same),
      ap (λ x. x.arm2_queue) s
          ∙ ap₂ (Dict.put pointer) (ap (λ k. k + 1) (gone.next ∙ ap (λ x. x.next_ref) same))
              (gone.arm2 ∙ ap (λ x. Dict.erase p x.arm2_queue) same),
    )
