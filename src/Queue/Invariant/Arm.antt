-- ===== src/Queue/Invariant/Arm.antt =====
-- Data requests keep the invariant.
use model_lib.Prelude.{
  ℕ, ◌+◌, ◌≡◌, refl, true, not, ◌&&◌, Option, none, some, arith, is_some, opt_eq, Bool-cases,
  Option-cases, inl, inr, subst, ==_iff, ltb, ◌||◌,
}
use model_lib.Dict
use model_lib.Dict.Distinct.{All-get}
use model_lib.Queue.State.{Manager, DequeueCache, ArmQueueItem, FillReason}
use model_lib.Queue.History.{
  build_arm_feedback_code, update_arm_status, update_item, with_store, send_done,
}
use model_lib.Queue.Defaults.{fill_if_empty, fill_default_for_slot}
use model_lib.Queue.Dequeue.{is_dequeue_timeout, process_arm_dequeue}
use model_lib.Queue.Arm.{
  Prepared, request_without_cache, fill_on_request, sent_item, request_with_cache, answer_cached,
  request_locked, refresh_cache, finish_request, handle_arm_data_request,
}
use model_lib.Queue.Invariant.Shape.{CacheOk}
use model_lib.Queue.Invariant.Stores.{Keeps}
use model_lib.Queue.Invariant.Dequeue.{put_cache-IsValid, process_arm_dequeue-IsValid}
use model_lib.Queue.Invariant.Valid.{
  IsValid, fills, append_history-IsValid, update_item-IsValid, send_done-IsValid,
  send_plc_feedback-IsValid, fill_default_for_slot-IsValid, if-IsValid, if-IsValid_fst,
}

request_without_cache-IsValid :
    (arm_id now : ℕ) (m : Manager) → IsValid m → IsValid (request_without_cache arm_id now m).0
unfolding request_without_cache update_arm_status
request_without_cache-IsValid arm_id now m v =
    if-IsValid_fst m.config.send_default_on_empty_request _ _
      (send_done-IsValid arm_id _ (append_history-IsValid _ now _ v))
      (append_history-IsValid _ now _ v)

fill_on_request-IsValid :
    (arm_id r : ℕ) (m : Manager) → IsValid m → IsValid (fill_on_request arm_id r m)
unfolding fill_on_request
fill_on_request-IsValid arm_id r m v =
    elim (Bool-cases (not (is_some (m.store.heap r).payload) && is_dequeue_timeout m)) [
      | inl e ↦ rw e (send_done-IsValid arm_id _ (fill_default_for_slot-IsValid arm_id _ _ m v))
      | inr e ↦ rw e v
    ]

-- The cache that is looked up for an arm is sound.
pub cached-CacheOk :
    (arm_id : ℕ) (c : DequeueCache) (m : Manager)
    → IsValid m
    → Dict.get arm_id m.store.arm_caches ≡ some c
    → CacheOk (fills m.config) m.store (arm_id, c)
cached-CacheOk arm_id c m v e =
    let (j, same, o) =
      All-get (CacheOk (fills m.config) m.store) arm_id m.store.arm_caches v.sound.caches e in
    subst (λ k. CacheOk (fills m.config) m.store (k, c)) ((==_iff j arm_id).0 same) o

-- A cache is written back, and its item assigned to.
pub mark-IsValid :
    (arm_id : ℕ) (c : DequeueCache) (f : ArmQueueItem → ArmQueueItem) (m : Manager)
    → CacheOk (fills m.config) m.store (arm_id, c)
    → Keeps (m.store.heap c.queue_item) (f (m.store.heap c.queue_item))
    → IsValid m
    → IsValid (
        with_store
          (λ s.
            update_item c.queue_item f (record s { arm_caches = Dict.put arm_id c s.arm_caches }))
          m)
mark-IsValid arm_id c f m o k v =
    update_item-IsValid c.queue_item f
      (with_store (λ s. record s { arm_caches = Dict.put arm_id c s.arm_caches }) m) k
      (put_cache-IsValid arm_id c m o v)

-- Filling the item of a request leaves the caches alone.
fill_slot-caches :
    (arm_id p : ℕ) (reason : FillReason) (m : Manager)
    → (fill_default_for_slot arm_id p reason m).store.arm_caches ≡ m.store.arm_caches
unfolding fill_default_for_slot fill_if_empty
fill_slot-caches arm_id p reason m = ground arith

send_done-store : (arm_id : ℕ) (m : Manager) → (send_done arm_id m).store ≡ m.store
unfolding send_done
send_done-store arm_id m = ground arith

fill_on_request-caches :
    (arm_id r : ℕ) (m : Manager)
    → (fill_on_request arm_id r m).store.arm_caches ≡ m.store.arm_caches
unfolding fill_on_request
fill_on_request-caches arm_id r m =
    elim (Bool-cases (not (is_some (m.store.heap r).payload) && is_dequeue_timeout m)) [
      | inl e ↦ rw (e, send_done-store) (fill_slot-caches arm_id _ _ m)
      | inr e ↦ rw e
    ]

request_with_cache-IsValid :
    (arm_id : ℕ) (c : DequeueCache) (now : ℕ) (m : Manager)
    → IsValid m
    → Dict.get arm_id m.store.arm_caches ≡ some c
    → IsValid (request_with_cache arm_id c now m).0
unfolding request_with_cache update_arm_status
request_with_cache-IsValid arm_id c now m v e =
    let filled = fill_on_request arm_id c.queue_item m in
    let vf = fill_on_request-IsValid arm_id c.queue_item m v in
    let o =
      cached-CacheOk arm_id c filled vf (rw (fill_on_request-caches arm_id c.queue_item m) e) in
    elim (Option-cases (filled.store.heap c.queue_item).payload) [
      | inl f ↦ rw (f, request_with_cache, answer_cached) (append_history-IsValid _ now _ vf)
      | inr (bytes, f) ↦
          rw (f, request_with_cache, answer_cached)
            (mark-IsValid arm_id (record c { data_sent = true; send_count = c.send_count + 1 })
              (sent_item now) filled (record { known = o.known; owner = o.owner; ready = o.ready })
              (record {
                pointer = refl;
                count = refl;
                enqueue_seq = refl;
                timed_out = refl;
                payload = λ h. h;
              })
              vf)
    ]

request_locked-IsValid :
    (arm_id now : ℕ) (m : Manager) → IsValid m → IsValid (request_locked arm_id now m).0
unfolding request_locked
request_locked-IsValid arm_id now m v = elim (Option-cases (Dict.get arm_id m.store.arm_caches)) [
  | inl e ↦ rw (e, request_locked) (request_without_cache-IsValid arm_id now m v)
  | inr (c, e) ↦ rw (e, request_locked) (request_with_cache-IsValid arm_id c now m v e)
]

refresh_cache-IsValid :
    (arm_id now : ℕ) (m : Manager) → IsValid m → IsValid (refresh_cache arm_id now m)
unfolding refresh_cache
refresh_cache-IsValid arm_id now m v =
    elim (Option-cases (Dict.get arm_id m.last_dequeue_pointers)) [
      | inl e ↦ rw (e, refresh_cache) v
      | inr (p, e) ↦
          rw (e, refresh_cache)
            (if-IsValid (opt_eq (Dict.get arm_id m.arm_positions) p) m
              (process_arm_dequeue arm_id p now m) v (process_arm_dequeue-IsValid arm_id p now m v))
    ]

finish_request-IsValid :
    (arm_id : ℕ) (m : Manager) (p : Option Prepared) (now : ℕ)
    → IsValid m
    → IsValid (finish_request arm_id m p now).0
unfolding finish_request build_arm_feedback_code
finish_request-IsValid arm_id m none now v = v
finish_request-IsValid arm_id m (some p) now v = elim (Bool-cases (ltb arm_id 1 || ltb 9 arm_id)) [
  | inl e ↦ rw (e, finish_request, build_arm_feedback_code) v
  | inr e ↦
      rw (e, finish_request, build_arm_feedback_code)
        (refresh_cache-IsValid arm_id now _
          (append_history-IsValid _ now _ (send_plc_feedback-IsValid _ m v)))
]

pub handle_arm_data_request-IsValid :
    (arm_id now : ℕ) (m : Manager) → IsValid m → IsValid (handle_arm_data_request arm_id now m).0
unfolding handle_arm_data_request
handle_arm_data_request-IsValid arm_id now m v =
    finish_request-IsValid arm_id (request_locked arm_id now m).0 (request_locked arm_id now m).1
      now (request_locked-IsValid arm_id now m v)
