-- ===== src/Queue/Requests.antt =====
-- Data requests: what an arm receives, and the feedback that the PLC gets.
use model_lib.Prelude.{
  ℕ, ◌+◌, ◌≤◌, ◌≡◌, refl, sym, subst, ap, ◌∙◌, true, false, ◌||◌, List, [], ◌∷◌, ◌++◌, some, arith,
  ltb, ==_refl, if◌then◌else◌, Bool-cases, Option-cases, inl, inr,
}
use model_lib.Dict
use model_lib.Dict.{get-put}
use model_lib.Text.{Bytes}
use model_lib.Queue.State.{Manager, DequeueCache, Effect, ArmStatus, plc_feedback}
use model_lib.Queue.History.{
  returned, build_arm_feedback_code, send_plc_feedback, update_arm_status, append_history,
  with_store,
}
use model_lib.Queue.Arm.{
  Prepared, answer_cached, fill_on_request, request_with_cache, request_locked, refresh_cache,
  after_sending, finish_request, mark_sent, handle_arm_data_request,
}

-- An arm that feedback codes exist for.
abbrev pub IsArm : ℕ → Type 0
IsArm arm_id = (1 ≤ arm_id) × (arm_id ≤ 9)

-- The arm's cache holds an item with these bytes, and stands for the pointer noted last.
pub record Holds (m : Manager) (arm_id : ℕ) (bytes : Bytes) : Type 0 where
  pub cache : DequeueCache
  pub cached : Dict.get arm_id m.store.arm_caches ≡ some cache
  pub ready : (m.store.heap cache.queue_item).payload ≡ some bytes
  pub current : Dict.get arm_id m.last_dequeue_pointers ≡ Dict.get arm_id m.arm_positions

abbrev pub normal_code : ℕ → Bytes
normal_code arm_id = (48 + arm_id) ∷ b'N' ∷ []

-- The messages that a feedback adds.
abbrev pub with_feedback : Manager → Bytes → List Effect
with_feedback m code =
    if m.callbacks.has_plc_feedback then m.effects ++ plc_feedback code ∷ [] else m.effects

-- The state after the first section of a request that is answered.
pub sent : ℕ → DequeueCache → ℕ → Manager → Manager
unfolding mark_sent update_arm_status
sent arm_id c now m =
    update_arm_status arm_id ArmStatus.data_sent (with_store (mark_sent arm_id c now) m)

pub fill_on_request_ready :
    (m : Manager) (arm_id r : ℕ) {bytes : Bytes}
    → (m.store.heap r).payload ≡ some bytes
    → fill_on_request arm_id r m ≡ m
unfolding fill_on_request
fill_on_request_ready m arm_id r h = ground arith

pub answer_cached-sent :
    (m : Manager) (arm_id now : ℕ) (c : DequeueCache) (bytes : Bytes)
    → (m.store.heap c.queue_item).payload ≡ some bytes
    → answer_cached arm_id c now m ≡ (
      sent arm_id c now m,
      some (record {
        bytes = bytes;
        pointer = some (m.store.heap c.queue_item).pointer;
        count = some (m.store.heap c.queue_item).count;
      }),
    )
unfolding answer_cached sent
answer_cached-sent m arm_id now c bytes h = rw (h, answer_cached)

request_locked-sent :
    (m : Manager) (arm_id now : ℕ) (bytes : Bytes) (h : Holds m arm_id bytes)
    → (p : Prepared) × (request_locked arm_id now m ≡ (sent arm_id h.cache now m, some p))
      × (p.bytes ≡ bytes)
unfolding request_locked
request_locked-sent m arm_id now bytes h = (
  record {
    bytes = bytes;
    pointer = some (m.store.heap h.cache.queue_item).pointer;
    count = some (m.store.heap h.cache.queue_item).count;
  },
  rw (h.cached, request_locked)
      (unfold request_with_cache in
        ap (answer_cached arm_id h.cache now)
          (fill_on_request_ready m arm_id h.cache.queue_item h.ready)
        ∙ answer_cached-sent m arm_id now h.cache bytes h.ready),
  refl,
)

-- Nothing is refreshed while the cache stands for the pointer noted last.
refresh_cache_current :
    (m : Manager) (arm_id now : ℕ)
    → Dict.get arm_id m.last_dequeue_pointers ≡ Dict.get arm_id m.arm_positions
    → refresh_cache arm_id now m ≡ m
unfolding refresh_cache
refresh_cache_current m arm_id now h =
    elim (Option-cases (Dict.get arm_id m.last_dequeue_pointers)) [
      | inl e ↦ rw (e, refresh_cache)
      | inr (p, e) ↦ rw (e, refresh_cache) (ground (arith, ==_refl p))
    ]

sent-Holds :
    (m : Manager) (arm_id now : ℕ) (bytes : Bytes) (h : Holds m arm_id bytes)
    → Holds (sent arm_id h.cache now m) arm_id bytes
unfolding sent
sent-Holds m arm_id now bytes h = record {
  cache = record (h.cache) { data_sent = true; send_count = h.cache.send_count + 1 };
  cached = rw (get-put arm_id arm_id _ m.store.arm_caches, ==_refl arm_id);
  ready = rw (==_refl h.cache.queue_item) (h.ready);
  current = h.current;
}

feedback-Holds :
    (m : Manager) (arm_id : ℕ) (bytes code : Bytes)
    → Holds m arm_id bytes
    → Holds (send_plc_feedback code m) arm_id bytes
unfolding send_plc_feedback
feedback-Holds m arm_id bytes code h = elim (Bool-cases m.callbacks.has_plc_feedback) [
  | inl e ↦
      simp e (record { cache = h.cache; cached = h.cached; ready = h.ready; current = h.current })
  | inr e ↦ simp e h
]

pub feedback-effects :
    (m : Manager) (code : Bytes) → (send_plc_feedback code m).effects ≡ with_feedback m code
unfolding send_plc_feedback
feedback-effects m code = ground arith

after_sending-Holds :
    (m : Manager) (arm_id now : ℕ) (p : Prepared) (bytes : Bytes)
    → Holds m arm_id bytes
    → Holds (after_sending arm_id p now m) arm_id bytes
      × ((after_sending arm_id p now m).effects ≡ m.effects)
unfolding after_sending append_history
after_sending-Holds m arm_id now p bytes h =
    subst (λ n. Holds n arm_id bytes × (n.effects ≡ m.effects))
      (sym (refresh_cache_current _ arm_id now h.current))
      (record { cache = h.cache; cached = h.cached; ready = h.ready; current = h.current }, refl)

finish_request-Holds :
    (m : Manager) (arm_id now : ℕ) (p : Prepared) (bytes : Bytes)
    → IsArm arm_id
    → Holds m arm_id bytes
    → ((finish_request arm_id m (some p) now).1 ≡ returned (some p.bytes))
      × Holds (finish_request arm_id m (some p) now).0 arm_id bytes
      × ((finish_request arm_id m (some p) now).0.effects ≡ with_feedback m (normal_code arm_id))
unfolding finish_request build_arm_feedback_code
finish_request-Holds m arm_id now p bytes ok h =
    let no_error : (ltb arm_id 1 || ltb 9 arm_id) ≡ false = ground arith in
    let f = feedback-Holds m arm_id bytes (normal_code arm_id) h in
    let (kept, same) =
      after_sending-Holds (send_plc_feedback (normal_code arm_id) m) arm_id now p bytes f in
    rw (no_error, finish_request, build_arm_feedback_code) (refl, kept, same ∙ feedback-effects m _)

-- While an arm's cache stands for the pointer noted last and its item has data, a data request
-- returns these bytes, sends the PLC exactly one feedback code `XN`, and leaves the arm so that the
-- next request returns the same bytes again.
pub handle_arm_data_request-Holds :
    (m : Manager) (arm_id now : ℕ) (bytes : Bytes)
    → IsArm arm_id
    → Holds m arm_id bytes
    → ((handle_arm_data_request arm_id now m).1 ≡ returned (some bytes))
      × Holds (handle_arm_data_request arm_id now m).0 arm_id bytes
      × ((handle_arm_data_request arm_id now m).0.effects ≡ with_feedback m (normal_code arm_id))
unfolding handle_arm_data_request
handle_arm_data_request-Holds m arm_id now bytes ok h =
    let (p, e, same) = request_locked-sent m arm_id now bytes h in
    let (result, kept, effects) =
      finish_request-Holds (sent arm_id h.cache now m) arm_id now p bytes ok
        (sent-Holds m arm_id now bytes h) in
    rw (e, handle_arm_data_request)
      (result ∙ ap (λ b. returned (some b)) same, kept, effects ∙ unfold sent in refl)
