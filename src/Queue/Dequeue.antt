-- ===== src/Queue/Dequeue.antt =====
-- Output caches: the choice of the item, and the PLC's dequeue pointers.
use model_lib.Prelude.{
  ℕ, suc, ◌+◌, Bool, true, false, not, ◌&&◌, List, [], ◌∷◌, map, Option, none, some, leb, ◌==◌,
  if◌then◌else◌, get_elem?, is_some,
}
use model_lib.Dict
use model_lib.Dict.{Dict}
use model_lib.Text.{Bytes, from_be16}
use model_lib.Queue.State.{
  Manager, Store, ArmQueueItem, DequeueCache, ArmStatus, TimeoutMode, FillReason, EventKind,
  queue_of,
}
use model_lib.Queue.History.{Note, append_history, update_arm_status}
use model_lib.Queue.Defaults.{fill_default_for_slot}

-- `sorted(queue.values(), key=enqueue_seq)`, which is stable.
unfoldable pub insert_by_seq : (ℕ → ArmQueueItem) → ℕ → List ℕ → List ℕ
insert_by_seq heap r [] = r ∷ []
insert_by_seq heap r (q ∷ qs) =
    if leb (heap r).enqueue_seq (heap q).enqueue_seq
    then r ∷ q ∷ qs
    else q ∷ insert_by_seq heap r qs

unfoldable pub sort_by_seq : (ℕ → ArmQueueItem) → List ℕ → List ℕ
unfolding insert_by_seq
sort_by_seq heap [] = []
sort_by_seq heap (r ∷ rs) = insert_by_seq heap r (sort_by_seq heap rs)

abbrev pub ordered_items : Store → ℕ → List ℕ
ordered_items s arm_id = sort_by_seq s.heap (map (λ e. e.1) (queue_of s arm_id))

-- The index of the first item with the target's sequence number and pointer, counted from `i`.
unfoldable pub index_of : (ℕ → ArmQueueItem) → ArmQueueItem → ℕ → List ℕ → Option ℕ
index_of heap target i [] = none
index_of heap target i (r ∷ rs) =
    if (heap r).enqueue_seq == target.enqueue_seq && (heap r).pointer == target.pointer
    then some i
    else index_of heap target (suc i) rs

abbrev pub warm : ℕ → Manager → Manager
warm arm_id m = record m { arm_prefetch_warmed = Dict.put arm_id true m.arm_prefetch_warmed }

-- The item that lies the offset behind the target in the order of enqueueing.
unfoldable pub candidate : ℕ → ℕ → Manager → Option ℕ
unfolding sort_by_seq index_of
candidate arm_id target m =
    let items = ordered_items m.store arm_id in
    elim (index_of m.store.heap (m.store.heap target) 0 items) [
      | none ↦ none
      | some base ↦ get_elem? items (base + m.config.prefetch_offset)
    ]

-- The target stands in the queue, so that it is found, or else it is not.
unfoldable pub target_found : ℕ → ℕ → Manager → Bool
unfolding sort_by_seq index_of
target_found arm_id target m =
    is_some (index_of m.store.heap (m.store.heap target) 0 (ordered_items m.store arm_id))

-- `_select_prefetch_item_locked`: the item to send, if any, the offset applied, and the state, in
-- which the arm may be marked as warmed up.
unfoldable pub select_prefetch_item : ℕ → ℕ → Manager → Manager × Option ℕ × ℕ
unfolding candidate target_found
select_prefetch_item arm_id target m =
    if leb m.config.prefetch_offset 0
    then (m, some target, 0)
    else elim (candidate arm_id target m) [
      | some r ↦ (warm arm_id m, some r, m.config.prefetch_offset)
      | none ↦ (
        if target_found arm_id target m
              && (m.config.prefetch_drop_first
                  && not (Dict.get_or arm_id false m.arm_prefetch_warmed))
            then warm arm_id m
            else m,
        none,
        m.config.prefetch_offset,
      )
    ]

abbrev note_of : EventKind → Bool → ℕ → ℕ → Option ℕ → List ℕ → Option Bytes → Note
note_of kind warning arm_id pointer count numbers bytes = record {
  kind = kind;
  is_warning = warning;
  arm_id = some arm_id;
  pointer = some pointer;
  count = count;
  numbers = numbers;
  payload = bytes;
}

-- There is no item under the dequeue pointer.
unfoldable pub dequeue_miss : ℕ → ℕ → ℕ → Manager → Manager
dequeue_miss arm_id target_pointer now m =
    append_history (note_of EventKind.dequeue_miss true arm_id target_pointer none [] none) now
      (update_arm_status arm_id ArmStatus.no_data_available m)

-- The item to prefetch is not there yet: the arm's cache goes, and this turn sends nothing.
unfoldable pub prefetch_wait : ℕ → ℕ → ℕ → ℕ → Manager → Manager
prefetch_wait arm_id target_pointer target now m =
    append_history
      (note_of EventKind.prefetch_wait true arm_id target_pointer (some (m.store.heap target).count)
        [] none)
      now
      (update_arm_status arm_id ArmStatus.no_data_available (record m {
        store = record (m.store) { arm_caches = Dict.erase arm_id m.store.arm_caches };
        arm_positions = Dict.put arm_id target_pointer m.arm_positions;
      }))

abbrev pub new_cache : ℕ → ℕ → ℕ → ℕ → ℕ → DequeueCache
new_cache r arm_id target_pointer offset now = record {
  queue_item = r;
  arm_id = arm_id;
  trigger_pointer = target_pointer;
  prefetch_offset = offset;
  data_sent = false;
  confirmed = false;
  cache_time = now;
  send_count = 0;
}

abbrev pub is_dequeue_timeout : Manager → Bool
is_dequeue_timeout m = elim m.config.timeout_mode [
  | TimeoutMode.dequeue_timeout ↦ true
  | TimeoutMode.cycle_timeout ↦ false
]

-- The cache is made; with `dequeue_timeout` an item without data is filled with the default.
unfoldable pub make_cache : ℕ → ℕ → ℕ → ℕ → ℕ → Manager → Manager
make_cache arm_id target_pointer r offset now m =
    let cached = record m {
      store = record (m.store) {
        arm_caches =
            Dict.put arm_id (new_cache r arm_id target_pointer offset now) m.store.arm_caches;
      };
      arm_positions = Dict.put arm_id target_pointer m.arm_positions;
    } in
    if is_dequeue_timeout m && not (is_some (m.store.heap r).payload)
    then fill_default_for_slot arm_id (m.store.heap r).pointer FillReason.dequeue_pointer_reached
        cached
    else cached

unfoldable pub cache_ready : ℕ → ℕ → ℕ → ℕ → ℕ → Manager → Manager
unfolding make_cache
cache_ready arm_id target_pointer r offset now m =
    let made =
      update_arm_status arm_id ArmStatus.waiting_for_request
        (make_cache arm_id target_pointer r offset now m) in
    let item = made.store.heap r in
    append_history
      (note_of EventKind.dequeue_cache false arm_id target_pointer (some item.count) (offset ∷ [])
        item.payload)
      now
      (record made {
        stats = record (made.stats) { dequeue_operations = made.stats.dequeue_operations + 1 };
      })

-- What follows the choice of the item.
unfoldable pub after_selection : ℕ → ℕ → ℕ → ℕ → Manager × Option ℕ × ℕ → Manager
unfolding prefetch_wait cache_ready
after_selection arm_id target_pointer target now (chosen, none, offset) =
    prefetch_wait arm_id target_pointer target now chosen
after_selection arm_id target_pointer target now (chosen, some r, offset) =
    cache_ready arm_id target_pointer r offset now chosen

-- `_process_arm_dequeue_locked`.
unfoldable pub process_arm_dequeue : ℕ → ℕ → ℕ → Manager → Manager
unfolding select_prefetch_item dequeue_miss after_selection
process_arm_dequeue arm_id target_pointer now m =
    elim (Dict.get target_pointer (queue_of m.store arm_id)) [
      | none ↦ dequeue_miss arm_id target_pointer now m
      | some target ↦
          after_selection arm_id target_pointer target now (select_prefetch_item arm_id target m)
    ]

-- One turn of the first loop of `handle_dequeue_pointers`: a pointer that differs is noted.
unfoldable pub pointer_changed : ℕ → ℕ → Manager → Bool
pointer_changed arm_id pointer m = not (pointer == Dict.get_or arm_id 0 m.last_dequeue_pointers)

unfoldable pub note_pointer : ℕ → ℕ → Manager → Manager
unfolding pointer_changed
note_pointer arm_id pointer m =
    if pointer_changed arm_id pointer m
    then record m { last_dequeue_pointers = Dict.put arm_id pointer m.last_dequeue_pointers }
    else m

-- Both pointers are noted first, and then the caches of the arms that changed are made.
unfoldable pub dequeue_pointers : ℕ → ℕ → ℕ → Manager → Manager
unfolding note_pointer
dequeue_pointers pointer1 pointer2 now m =
    let changed1 = pointer_changed 1 pointer1 m in
    let noted1 = note_pointer 1 pointer1 m in
    let changed2 = pointer_changed 2 pointer2 noted1 in
    let noted2 = note_pointer 2 pointer2 noted1 in
    let done1 = if changed1 then process_arm_dequeue 1 pointer1 now noted2 else noted2 in
    if changed2 then process_arm_dequeue 2 pointer2 now done1 else done1

-- A frame that has not four bytes is dropped.
unfoldable pub handle_dequeue_pointers : Bytes → ℕ → Manager → Manager
unfolding dequeue_pointers
handle_dequeue_pointers (a ∷ b ∷ c ∷ d ∷ []) now m =
    dequeue_pointers (from_be16 a b) (from_be16 c d) now m
handle_dequeue_pointers _ now m = m
