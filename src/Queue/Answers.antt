-- ===== src/Queue/Answers.antt =====
-- With `dequeue_timeout` an arm that has a cache is never left without data.
use model_lib.Prelude.{
  ℕ, ◌≡◌, refl, ap, ◌∙◌, true, false, ◌||◌, Option, none, some, arith, ltb, is_some,
}
use model_lib.Dict
use model_lib.Text.{Bytes}
use model_lib.Queue.State.{Manager, DequeueCache, dequeue_timeout}
use model_lib.Queue.History.{returned, build_arm_feedback_code}
use model_lib.Queue.Arm.{
  Prepared, answer_cached, request_with_cache, request_locked, finish_request,
  handle_arm_data_request,
}
use model_lib.Queue.Requests.{IsArm, fill_on_request_ready, answer_cached-sent}
use model_lib.Queue.Invariant.Arm.{cached-CacheOk}
use model_lib.Queue.Invariant.Valid.{IsValid}

finish_request-result :
    (arm_id : ℕ) (m : Manager) (p : Prepared) (now : ℕ)
    → IsArm arm_id
    → (finish_request arm_id m (some p) now).1 ≡ returned (some p.bytes)
unfolding finish_request build_arm_feedback_code
finish_request-result arm_id m p now ok =
    let no_error : (ltb arm_id 1 || ltb 9 arm_id) ≡ false = ground arith in
    rw (no_error, finish_request, build_arm_feedback_code)

some_of_is_some {ℓ} : {A : Type ℓ} (o : Option A) → is_some o ≡ true → (a : A) × (o ≡ some a)
some_of_is_some none h = cc
some_of_is_some (some a) h = (a, refl)

-- In a valid state under `dequeue_timeout`, a data request of an arm 1 to 9 with a cache returns
-- data, which are those of the cached item: the item got them from the camera or as the default
-- when its cache was made, and the default of the request itself is never needed.
pub handle_arm_data_request-total :
    (m : Manager) (arm_id now : ℕ) (c : DequeueCache)
    → IsValid m
    → m.config.timeout_mode ≡ dequeue_timeout
    → IsArm arm_id
    → Dict.get arm_id m.store.arm_caches ≡ some c
    → (bytes : Bytes) × ((m.store.heap c.queue_item).payload ≡ some bytes)
      × ((handle_arm_data_request arm_id now m).1 ≡ returned (some bytes))
unfolding handle_arm_data_request request_locked request_with_cache
handle_arm_data_request-total m arm_id now c v mode ok e =
    let o = cached-CacheOk arm_id c m v e in
    let (bytes, has) = some_of_is_some (m.store.heap c.queue_item).payload (o.ready (rw mode)) in
    let answer =
      ap (answer_cached arm_id c now) (fill_on_request_ready m arm_id c.queue_item has)
      ∙ answer_cached-sent m arm_id now c bytes has in
    (
      bytes,
      has,
      rw (e, handle_arm_data_request, request_locked, answer)
          (finish_request-result arm_id _ _ now ok),
    )
