-- ===== src/Queue/Timeouts.antt =====
-- The end of a cycle: the slots that still wait are filled with the defaults.
use model_lib.Prelude.{ℕ, ◌≡◌, ◌≢◌, refl, sym, ap, subst, ◌∙◌, Option, none, some, arith, ==_refl}
use model_lib.Dict
use model_lib.Text.{Bytes}
use model_lib.Queue.State.{Manager, Store, ItemStatus, queue_of}
use model_lib.Queue.History.{with_store}
use model_lib.Queue.Defaults.{
  fill_if_empty, fill_waiting, fill_both_arms_default, default_payload_for_arm,
}

-- The data of an item after a fill: its own, or else the default.
abbrev pub or_default : Option Bytes → Bytes → Bytes
or_default none bytes = bytes
or_default (some own) bytes = own

fill_if_empty_self :
    (r : ℕ) (b : Bytes) (st : ItemStatus) (s : Store)
    → ((fill_if_empty r b st s).heap r).payload ≡ some (or_default (s.heap r).payload b)
unfolding fill_if_empty
fill_if_empty_self r b st s = ground (arith, ==_refl r)

fill_if_empty_other :
    (r x : ℕ) (b : Bytes) (st : ItemStatus) (s : Store)
    → r ≢ x
    → (fill_if_empty r b st s).heap x ≡ s.heap x
unfolding fill_if_empty
fill_if_empty_other r x b st s h = ground arith

fill_waiting-found :
    (arm_id p r : ℕ) (count : Option ℕ) (m : Manager)
    → Dict.get p (queue_of m.store arm_id) ≡ some r
    → fill_waiting arm_id (some p) count m
      ≡ with_store
          (fill_if_empty r
            (default_payload_for_arm m.config arm_id count)
            ItemStatus.timeout_default)
          m
unfolding fill_waiting
fill_waiting-found arm_id p r count m e = rw (e, fill_waiting)

fill_if_empty-arm2_queue :
    (r : ℕ) (b : Bytes) (st : ItemStatus) (s : Store)
    → (fill_if_empty r b st s).arm2_queue ≡ s.arm2_queue
unfolding fill_if_empty
fill_if_empty-arm2_queue r b st s = ground arith

-- Two fills one after the other, of different objects.
fill_twice :
    (r q : ℕ) (b c : Bytes) (st : ItemStatus) (s : Store)
    → r ≢ q
    → let t = fill_if_empty q c st (fill_if_empty r b st s) in
      ((t.heap r).payload ≡ some (or_default (s.heap r).payload b))
      × ((t.heap q).payload ≡ some (or_default (s.heap q).payload c))
      × ((x : ℕ) → r ≢ x → q ≢ x → t.heap x ≡ s.heap x)
fill_twice r q b c st s apart =
    let t = fill_if_empty r b st s in
    (
      ap (λ i. i.payload) (fill_if_empty_other q r c st t (λ e. apart (sym e)))
          ∙ fill_if_empty_self r b st s,
      fill_if_empty_self q c st t
          ∙ ap (λ i. some (or_default i.payload c)) (fill_if_empty_other r q b st s apart),
      λ x h1 h2. fill_if_empty_other q x c st t h2 ∙ fill_if_empty_other r x b st s h1,
    )

-- Both turns of the loop find their item.
fill_waiting_twice :
    (m : Manager) (p r q : ℕ)
    → Dict.get p m.store.arm1_queue ≡ some r
    → Dict.get p m.store.arm2_queue ≡ some q
    → (fill_waiting 2
        (some p)
        m.current_waiting_count
        (fill_waiting 1 (some p) m.current_waiting_count m)).store
      ≡ fill_if_empty q
          (default_payload_for_arm m.config 2 m.current_waiting_count)
          ItemStatus.timeout_default
          (fill_if_empty r
            (default_payload_for_arm m.config 1 m.current_waiting_count)
            ItemStatus.timeout_default
            m.store)
fill_waiting_twice m p r q e1 e2 =
    let count = m.current_waiting_count in
    let n =
      with_store
        (fill_if_empty r (default_payload_for_arm m.config 1 count) ItemStatus.timeout_default) m in
    ap (λ k. (fill_waiting 2 (some p) count k).store) (fill_waiting-found 1 p r count m e1)
    ∙ ap (λ k. k.store)
        (fill_waiting-found 2 p q count n (
          ap (Dict.get p) (
            fill_if_empty-arm2_queue r (default_payload_for_arm m.config 1 count)
              ItemStatus.timeout_default m.store)
          ∙ e2))

-- Where a pair of two objects waits, `_fill_both_arms_default_locked` leaves each of the two items
-- with data: its own if it had some, and otherwise the default of its arm with the cycle's count. It
-- touches no other item, and no pointer waits any more.
pub fill_both_arms_default_lem :
    (m : Manager) (p r q : ℕ)
    → m.current_waiting_pointer ≡ some p
    → Dict.get p m.store.arm1_queue ≡ some r
    → Dict.get p m.store.arm2_queue ≡ some q
    → r ≢ q
    → let n = fill_both_arms_default m in
      let default_of =
        λ (arm_id : ℕ). default_payload_for_arm m.config arm_id m.current_waiting_count in
      ((n.store.heap r).payload ≡ some (or_default (m.store.heap r).payload (default_of 1)))
      × ((n.store.heap q).payload ≡ some (or_default (m.store.heap q).payload (default_of 2)))
      × ((x : ℕ) → r ≢ x → q ≢ x → n.store.heap x ≡ m.store.heap x)
      × (n.current_waiting_pointer ≡ none)
unfolding fill_both_arms_default
fill_both_arms_default_lem m p r q w e1 e2 apart =
    let count = m.current_waiting_count in
    let store_eq =
      ap (λ w'. (fill_waiting 2 w' count (fill_waiting 1 w' count m)).store) w
      ∙ fill_waiting_twice m p r q e1 e2 in
    let facts =
      subst
        (λ t.
          ((t.heap r).payload
            ≡ some (or_default (m.store.heap r).payload (default_payload_for_arm m.config 1 count)))
          × ((t.heap q).payload
              ≡ some
                  (or_default (m.store.heap q).payload (default_payload_for_arm m.config 2 count)))
          × ((x : ℕ) → r ≢ x → q ≢ x → t.heap x ≡ m.store.heap x))
        (sym store_eq)
        (fill_twice r q (default_payload_for_arm m.config 1 count)
          (default_payload_for_arm m.config 2 count) ItemStatus.timeout_default m.store apart) in
    (facts.0, facts.1, facts.2, refl)
