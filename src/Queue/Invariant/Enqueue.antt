-- ===== src/Queue/Invariant/Enqueue.antt =====
-- Enqueueing keeps the invariant: the queue never holds more than its length.
use Prim.Native.Nat.{max}
use native.Mathlib.Nat.{le_trans}
use model_lib.Prelude.{
  ℕ, ◌+◌, ◌≤◌, ◌≡◌, refl, false, List, [], ◌∷◌, some, arith, leb, ◌==◌, length, is_some, Bool-cases,
  Option-cases, inl, inr, ap, subst,
}
use model_lib.Dict
use model_lib.Dict.{Dict, length-put, length-erase}
use model_lib.Dict.Distinct.{Distinct}
use model_lib.Queue.State.{Manager, DequeueCache}
use model_lib.Queue.History.{append_history, update_arm_status, with_store}
use model_lib.Queue.Defaults.{fill_both_arms_default}
use model_lib.Queue.Enqueue.{
  validate_pointer, oldest_pointer, evict_caches, drop_pair, remove_oldest_pair, add_pair,
  needs_room, enqueue_pair, start_cycle, plc_command_locked, handle_plc_command,
  normalize_plc_command,
}
use model_lib.Queue.Oldest.{oldest_pointer_lem}
use model_lib.Queue.Invariant.Stores.{erase_cache-IsSound, drop_pair-IsSound, add_pair-IsSound}
use model_lib.Queue.Invariant.Valid.{
  IsValid, fills, append_history-IsValid, fill_both_arms_default-IsValid,
}

validate_pointer-IsValid : (p : ℕ) (m : Manager) → IsValid m → IsValid (validate_pointer p m)
unfolding validate_pointer
validate_pointer-IsValid p m v = elim (Bool-cases (leb p 0)) [ inl e ↦ rw e v | inr e ↦ rw e v ]

-- Evicting caches touches neither the queues nor the configuration.
record SameQueues (m n : Manager) : Type 0 where
  arm1 : n.store.arm1_queue ≡ m.store.arm1_queue
  config : n.config ≡ m.config

evict_caches-SameQueues :
    (p : ℕ) (cs : List (ℕ × DequeueCache)) (m : Manager) → SameQueues m (evict_caches p cs m)
unfolding evict_caches update_arm_status
evict_caches-SameQueues p [] m = record { arm1 = refl; config = refl }
evict_caches-SameQueues p ((arm_id, c) ∷ cs) m =
    elim (Bool-cases ((m.store.heap c.queue_item).pointer == p)) [
      | inl e ↦
          rw e
            (let h = evict_caches-SameQueues p cs _ in record { arm1 = h.arm1; config = h.config })
      | inr e ↦ rw e (evict_caches-SameQueues p cs m)
    ]

evict_caches-IsValid :
    (p : ℕ) (cs : List (ℕ × DequeueCache)) (m : Manager) → IsValid m → IsValid (evict_caches p cs m)
unfolding evict_caches update_arm_status
evict_caches-IsValid p [] m v = v
evict_caches-IsValid p ((arm_id, c) ∷ cs) m v =
    elim (Bool-cases ((m.store.heap c.queue_item).pointer == p)) [
      | inl e ↦
          rw (e, evict_caches)
            (evict_caches-IsValid p cs _ (record {
              sound = erase_cache-IsSound (fills m.config) m.store arm_id v.sound;
              bounded = v.bounded;
              ring = v.ring;
            }))
      | inr e ↦ rw (e, evict_caches) (evict_caches-IsValid p cs m v)
    ]

-- Room for one more pointer.
abbrev HasRoom : Manager → Type 0
HasRoom m = length m.store.arm1_queue + 1 ≤ max 1 m.config.queue_length

erase-le : (k : ℕ) (d : Dict ℕ) {n : ℕ} → length d ≤ n → length (Dict.erase k d) ≤ n
unfolding Dict.erase
erase-le k [] h = h
erase-le k ((j, w) ∷ d) {n} h = elim (Bool-cases (j == k)) [
  | inl e ↦ rw e (omega arith)
  | inr e ↦ rw e (omega (arith, erase-le k d {n = length d} (omega arith)))
]

-- What `remove_oldest_pair` does when there is an oldest pointer.
abbrev evicted : ℕ → Manager → Manager
evicted pointer m = evict_caches pointer m.store.arm_caches (with_store (drop_pair pointer) m)

evicted-IsValid : (pointer : ℕ) (m : Manager) → IsValid m → IsValid (evicted pointer m)
unfolding drop_pair
evicted-IsValid pointer m v =
    evict_caches-IsValid pointer m.store.arm_caches (with_store (drop_pair pointer) m) (record {
      sound = drop_pair-IsSound (fills m.config) m.store pointer v.sound;
      bounded = erase-le pointer m.store.arm1_queue v.bounded;
      ring = v.ring;
    })

remove_oldest_pair-IsValid :
    (now : ℕ) (m : Manager) → IsValid m → IsValid (remove_oldest_pair now m)
unfolding remove_oldest_pair
remove_oldest_pair-IsValid now m v =
    elim (Option-cases (oldest_pointer m.store.heap m.store.arm1_queue)) [
      | inl e ↦ rw (e, remove_oldest_pair) v
      | inr (p, e) ↦
          rw (e, remove_oldest_pair) (append_history-IsValid _ now _ (evicted-IsValid p m v))
    ]

remove_oldest_pair-SameQueues :
    (now p : ℕ) (m : Manager)
    → oldest_pointer m.store.heap m.store.arm1_queue ≡ some p
    → ((remove_oldest_pair now m).store.arm1_queue ≡ Dict.erase p m.store.arm1_queue)
      × ((remove_oldest_pair now m).config ≡ m.config)
unfolding remove_oldest_pair drop_pair append_history
remove_oldest_pair-SameQueues now p m e =
    let same = evict_caches-SameQueues p m.store.arm_caches (with_store (drop_pair p) m) in
    (rw (e, remove_oldest_pair) same.arm1, rw (e, remove_oldest_pair) same.config)

-- After an eviction there is room for one more pointer.
remove_oldest_pair-HasRoom :
    (now : ℕ) (m : Manager) (d : Dict ℕ)
    → m.store.arm1_queue ≡ d
    → IsValid m
    → HasRoom (remove_oldest_pair now m)
unfolding remove_oldest_pair oldest_pointer append_history
remove_oldest_pair-HasRoom now m [] q v = rw (q, remove_oldest_pair) (omega (arith, ap length q))
remove_oldest_pair-HasRoom now m (e ∷ d) q v =
    let (p, r, least, found, _) =
      oldest_pointer_lem m.store.heap e d (subst Distinct q v.sound.distinct1) in
    let (queue, config) = remove_oldest_pair-SameQueues now p m (rw q least) in
    let shorter = length-erase p (e ∷ d) (ap is_some found) in
    rw (queue, config, q) (omega (arith, shorter, ap length q))

-- With room, a pair is added.
add_pair-IsValid :
    (count pointer now : ℕ) (m : Manager)
    → length (Dict.put pointer m.store.next_ref m.store.arm1_queue) ≤ max 1 m.config.queue_length
    → IsValid m
    → IsValid (with_store (add_pair count pointer now) m)
unfolding add_pair
add_pair-IsValid count pointer now m h v = record {
  sound = add_pair-IsSound (fills m.config) m.store count pointer now v.sound;
  bounded = h;
  ring = v.ring;
}

put-le-suc : (k v : ℕ) (d : Dict ℕ) → length (Dict.put k v d) ≤ length d + 1
put-le-suc k v d = ground (arith, length-put k v d)

-- Where no room is needed, the pointer is present or the queue is short.
put-le_of_roomy :
    (p r : ℕ) (m : Manager)
    → needs_room p m ≡ false
    → IsValid m
    → length (Dict.put p r m.store.arm1_queue) ≤ max 1 m.config.queue_length
unfolding needs_room
put-le_of_roomy p r m h v = ground (arith, length-put p r m.store.arm1_queue, v.bounded)

pub enqueue_pair-IsValid :
    (count pointer now : ℕ) (m : Manager) → IsValid m → IsValid (enqueue_pair count pointer now m)
unfolding enqueue_pair
enqueue_pair-IsValid count pointer now m v =
    let c = validate_pointer pointer m in
    let vc = validate_pointer-IsValid pointer m v in
    elim (Bool-cases (needs_room pointer c)) [
      | inl e ↦
          rw (e, enqueue_pair)
            (append_history-IsValid _ now _ (
              add_pair-IsValid count pointer now (remove_oldest_pair now c)
                (le_trans (put-le-suc pointer _ (remove_oldest_pair now c).store.arm1_queue)
                  (remove_oldest_pair-HasRoom now c c.store.arm1_queue refl vc))
                (remove_oldest_pair-IsValid now c vc)))
      | inr e ↦
          rw (e, enqueue_pair)
            (append_history-IsValid _ now _ (
              add_pair-IsValid count pointer now c (put-le_of_roomy pointer c.store.next_ref c e vc)
                vc))
    ]

start_cycle-IsValid :
    (count pointer now : ℕ) (m : Manager) → IsValid m → IsValid (start_cycle count pointer now m)
unfolding start_cycle
start_cycle-IsValid count pointer now m v = elim (Bool-cases (is_some m.current_waiting_pointer)) [
  | inl e ↦
      rw (e, start_cycle)
        (enqueue_pair-IsValid count pointer now (fill_both_arms_default m)
          (fill_both_arms_default-IsValid m v))
  | inr e ↦ rw (e, start_cycle) (enqueue_pair-IsValid count pointer now m v)
]

plc_command_locked-IsValid :
    (command count pointer now : ℕ) (m : Manager)
    → IsValid m
    → IsValid (plc_command_locked command count pointer now m).0
unfolding plc_command_locked
plc_command_locked-IsValid command count pointer now m v = elim (Bool-cases (command == 1)) [
  | inl e ↦ rw e (start_cycle-IsValid count pointer now m v)
  | inr e ↦ elim (Bool-cases (command == 11)) [
    | inl f ↦ rw (e, f) v
    | inr f ↦ elim (Bool-cases (command == 12)) [ inl g ↦ rw (e, f, g) v | inr g ↦ rw (e, f, g) v ]
  ]
]

pub handle_plc_command-IsValid :
    (command count pointer now : ℕ) (m : Manager)
    → IsValid m
    → IsValid (handle_plc_command command count pointer now m).0
unfolding handle_plc_command
handle_plc_command-IsValid command count pointer now m v =
    let locked = plc_command_locked (normalize_plc_command command) count pointer now m in
    let v1 = plc_command_locked-IsValid (normalize_plc_command command) count pointer now m v in
    elim (Bool-cases locked.0.callbacks.has_camera) [
      | inl e ↦ rw (e, handle_plc_command) v1
      | inr e ↦ rw (e, handle_plc_command) v1
    ]
