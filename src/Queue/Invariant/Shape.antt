-- ===== src/Queue/Invariant/Shape.antt =====
-- The shape of the queues and the caches.
use model_lib.Prelude.{ℕ, ◌≤◌, ◌<◌, ◌≡◌, ◌≢◌, Bool, true, false, All}
use model_lib.Dict.Distinct.{Distinct}
use model_lib.Dict.Paired.{Paired}
use model_lib.Prelude.{is_some}
use model_lib.Queue.State.{Store, DequeueCache}

-- The two items under one pointer: both exist, are two objects, belong to the pointer, and come from one enqueueing.
pub record PairOk (s : Store) (p r q : ℕ) : Type 0 where
  pub known1 : r < s.next_ref
  pub known2 : q < s.next_ref
  pub apart : r ≢ q
  pub pointer1 : (s.heap r).pointer ≡ p
  pub pointer2 : (s.heap q).pointer ≡ p
  pub same_seq : (s.heap r).enqueue_seq ≡ (s.heap q).enqueue_seq
  pub same_count : (s.heap r).count ≡ (s.heap q).count
  pub numbered : (s.heap r).enqueue_seq ≤ s.enqueue_seq_counter

-- A cache holds an item and knows its arm. Where `filled`, the item has data.
pub record CacheOk (filled : Bool) (s : Store) (e : ℕ × DequeueCache) : Type 0 where
  pub known : e.1.queue_item < s.next_ref
  pub owner : e.1.arm_id ≡ e.0
  pub ready : filled ≡ true → is_some (s.heap e.1.queue_item).payload ≡ true

pub record IsSound (filled : Bool) (s : Store) : Type 0 where
  pub paired : Paired (PairOk s) s.arm1_queue s.arm2_queue
  pub distinct1 : Distinct s.arm1_queue
  pub distinct2 : Distinct s.arm2_queue
  pub caches : All (CacheOk filled s) s.arm_caches
  pub never_timed_out : (r : ℕ) → (s.heap r).timed_out ≡ false
