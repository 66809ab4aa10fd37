-- ===== src/Queue/Invariant/Dequeue.antt =====
-- The dequeue pointers keep the invariant: with `dequeue_timeout` no cache is without data.
use model_lib.Prelude.{
  ℕ, ◌≡◌, refl, sym, ◌∙◌, Bool, true, false, not, ◌&&◌, [], ◌∷◌, Option, none, some, arith, leb,
  ==_refl, if◌then◌else◌, is_some, Bool-cases, Option-cases, inl, inr, subst,
}
use model_lib.Dict
use model_lib.Text.{Bytes, from_be16}
use model_lib.Queue.State.{Manager, DequeueCache, ItemStatus, FillReason, queue_of}
use model_lib.Queue.History.{update_arm_status, update_item, with_store}
use model_lib.Queue.Defaults.{fill, fill_if_empty, fill_default_for_slot, default_payload_for_arm}
use model_lib.Queue.Dequeue.{
  candidate, warm, select_prefetch_item, dequeue_miss, prefetch_wait, new_cache, make_cache,
  cache_ready, after_selection, process_arm_dequeue, pointer_changed, note_pointer,
  dequeue_pointers, handle_dequeue_pointers, is_dequeue_timeout,
}
use model_lib.Queue.Invariant.Shape.{CacheOk}
use model_lib.Queue.Invariant.Stores.{put_cache-IsSound, erase_cache-IsSound}
use model_lib.Queue.Invariant.Chosen.{InQueue, get-InQueue, candidate-InQueue}
use model_lib.Queue.Invariant.Valid.{IsValid, fills, append_history-IsValid, update_item-IsValid}

-- A cache for an item that has data, or needs none.
pub put_cache-IsValid :
    (arm_id : ℕ) (c : DequeueCache) (m : Manager)
    → CacheOk (fills m.config) m.store (arm_id, c)
    → IsValid m
    → IsValid (with_store (λ s. record s { arm_caches = Dict.put arm_id c s.arm_caches }) m)
put_cache-IsValid arm_id c m o v = record {
  sound = put_cache-IsSound (fills m.config) m.store arm_id c o v.sound;
  bounded = v.bounded;
  ring = v.ring;
}

make_cache-IsValid :
    (arm_id target r offset now : ℕ) (m : Manager)
    → InQueue m.store arm_id r
    → IsValid m
    → IsValid (make_cache arm_id target r offset now m)
unfolding make_cache fill_default_for_slot fill_if_empty
make_cache-IsValid arm_id target r offset now m q v =
    elim (Bool-cases (is_dequeue_timeout m && not (is_some (m.store.heap r).payload))) [
      | inl e ↦
          rw (e, q.found, make_cache, fill_default_for_slot, empty e, fill_if_empty)
            (put_cache-IsValid arm_id (new_cache r arm_id target offset now)
              (with_store (update_item r (fill (bytes r) status)) m)
              (record { known = q.known; owner = refl; ready = λ h. rw (==_refl r) })
              (update_item-IsValid r (fill (bytes r) status) m
                (record {
                  pointer = refl;
                  count = refl;
                  enqueue_seq = refl;
                  timed_out = refl;
                  payload = λ h. refl;
                })
                v))
      | inr e ↦ rw e (
          put_cache-IsValid arm_id (new_cache r arm_id target offset now) m
            (record { known = q.known; owner = refl; ready = λ h. ground (arith, h) }) v)
    ]
  where
    status : ItemStatus
    status = ItemStatus.timeout_default_for FillReason.dequeue_pointer_reached

    bytes : ℕ → Bytes
    bytes q' = default_payload_for_arm m.config arm_id (some (m.store.heap q').count)

    empty :
        (is_dequeue_timeout m && not (is_some (m.store.heap r).payload)) ≡ true
        → is_some (m.store.heap r).payload ≡ false
    empty h = ground arith

cache_ready-IsValid :
    (arm_id target r offset now : ℕ) (m : Manager)
    → InQueue m.store arm_id r
    → IsValid m
    → IsValid (cache_ready arm_id target r offset now m)
unfolding cache_ready update_arm_status
cache_ready-IsValid arm_id target r offset now m q v =
    append_history-IsValid _ now _ (make_cache-IsValid arm_id target r offset now m q v)

prefetch_wait-IsValid :
    (arm_id pointer target now : ℕ) (m : Manager)
    → IsValid m
    → IsValid (prefetch_wait arm_id pointer target now m)
unfolding prefetch_wait update_arm_status
prefetch_wait-IsValid arm_id pointer target now m v = append_history-IsValid _ now _ (record {
  sound = erase_cache-IsSound (fills m.config) m.store arm_id v.sound;
  bounded = v.bounded;
  ring = v.ring;
})

dequeue_miss-IsValid :
    (arm_id pointer now : ℕ) (m : Manager) → IsValid m → IsValid (dequeue_miss arm_id pointer now m)
unfolding dequeue_miss update_arm_status
dequeue_miss-IsValid arm_id pointer now m v = append_history-IsValid _ now _ v

-- Choosing the item may set the warm-up mark, and nothing else.
record SameStore (m n : Manager) : Type 0 where
  valid : IsValid m → IsValid n
  store : n.store ≡ m.store

SameStore-if_warm :
    (warming : Bool) (arm_id : ℕ) (m : Manager) → SameStore m (if warming then warm arm_id m else m)
SameStore-if_warm true arm_id m = record { valid = λ v. v; store = refl }
SameStore-if_warm false arm_id m = record { valid = λ v. v; store = refl }

select-SameStore : (arm_id t : ℕ) (m : Manager) → SameStore m (select_prefetch_item arm_id t m).0
unfolding select_prefetch_item
select-SameStore arm_id t m = elim (Bool-cases (leb m.config.prefetch_offset 0)) [
  | inl plain ↦ rw (plain, select_prefetch_item) (record { valid = λ v. v; store = refl })
  | inr ahead ↦ elim (Option-cases (candidate arm_id t m)) [
    | inl miss ↦ rw (ahead, miss, select_prefetch_item) (SameStore-if_warm _ arm_id m)
    | inr (r, hit) ↦ rw (ahead, hit, select_prefetch_item) (record { valid = λ v. v; store = refl })
  ]
]

-- The chosen item is the target, or stands behind it.
select-InQueue :
    (arm_id t r : ℕ) (m : Manager)
    → IsValid m
    → InQueue m.store arm_id t
    → (select_prefetch_item arm_id t m).1 ≡ some r
    → InQueue m.store arm_id r
unfolding select_prefetch_item
select-InQueue arm_id t r m v q e = elim (Bool-cases (leb m.config.prefetch_offset 0)) [
  | inl plain ↦ subst (InQueue m.store arm_id) (ground (arith, rw plain at e)) q
  | inr ahead ↦ elim (Option-cases (candidate arm_id t m)) [
    | inl miss ↦ absurd (ground (arith, rw (ahead, miss, select_prefetch_item) at e))
    | inr (c, hit) ↦
        candidate-InQueue (fills m.config) m arm_id t r v.sound
          (hit ∙ (rw (ahead, hit, select_prefetch_item) at e))
  ]
]

after_selection-IsValid :
    (arm_id pointer t now : ℕ) (choice : Manager × Option ℕ × ℕ)
    → IsValid choice.0
    → ((r : ℕ) → choice.1 ≡ some r → InQueue choice.0.store arm_id r)
    → IsValid (after_selection arm_id pointer t now choice)
unfolding after_selection
after_selection-IsValid arm_id pointer t now (m, none, offset) v q =
    prefetch_wait-IsValid arm_id pointer t now m v
after_selection-IsValid arm_id pointer t now (m, some r, offset) v q =
    cache_ready-IsValid arm_id pointer r offset now m (q r refl) v

pub process_arm_dequeue-IsValid :
    (arm_id pointer now : ℕ) (m : Manager)
    → IsValid m
    → IsValid (process_arm_dequeue arm_id pointer now m)
unfolding process_arm_dequeue
process_arm_dequeue-IsValid arm_id pointer now m v =
    elim (Option-cases (Dict.get pointer (queue_of m.store arm_id))) [
      | inl e ↦ rw (e, process_arm_dequeue) (dequeue_miss-IsValid arm_id pointer now m v)
      | inr (t, e) ↦
          rw (e, process_arm_dequeue)
            (after_selection-IsValid arm_id pointer t now (select_prefetch_item arm_id t m)
              ((select-SameStore arm_id t m).valid v)
              (λ r h.
                subst (λ s. InQueue s arm_id r) (sym ((select-SameStore arm_id t m).store))
                  (select-InQueue arm_id t r m v
                    ((get-InQueue (fills m.config) m.store v.sound arm_id pointer t e).1) h)))
    ]

note_pointer-IsValid :
    (arm_id pointer : ℕ) (m : Manager) → IsValid m → IsValid (note_pointer arm_id pointer m)
unfolding note_pointer
note_pointer-IsValid arm_id pointer m v = elim (Bool-cases (pointer_changed arm_id pointer m)) [
  | inl e ↦ rw e v
  | inr e ↦ rw e v
]

if_process-IsValid :
    (changed : Bool) (arm_id pointer now : ℕ) (m : Manager)
    → IsValid m
    → IsValid (if changed then process_arm_dequeue arm_id pointer now m else m)
if_process-IsValid true arm_id pointer now m v = process_arm_dequeue-IsValid arm_id pointer now m v
if_process-IsValid false arm_id pointer now m v = v

dequeue_pointers-IsValid :
    (p q now : ℕ) (m : Manager) → IsValid m → IsValid (dequeue_pointers p q now m)
unfolding dequeue_pointers
dequeue_pointers-IsValid p q now m v =
    if_process-IsValid (pointer_changed 2 q (note_pointer 1 p m)) 2 q now _ (
      if_process-IsValid (pointer_changed 1 p m) 1 p now _
        (note_pointer-IsValid 2 q (note_pointer 1 p m) (note_pointer-IsValid 1 p m v)))

pub handle_dequeue_pointers-IsValid :
    (bytes : Bytes) (now : ℕ) (m : Manager)
    → IsValid m
    → IsValid (handle_dequeue_pointers bytes now m)
unfolding handle_dequeue_pointers
handle_dequeue_pointers-IsValid (a ∷ b ∷ c ∷ d ∷ []) now m v =
    dequeue_pointers-IsValid (from_be16 a b) (from_be16 c d) now m v
handle_dequeue_pointers-IsValid _ now m v = v
