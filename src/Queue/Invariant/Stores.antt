-- ===== src/Queue/Invariant/Stores.antt =====
-- How the changes of the store keep its shape: an assignment to items, a cache made or removed, a
-- pair dropped, a pair added.
use model_lib.Prelude.{
  ℕ, ◌+◌, ◌≡◌, refl, sym, ◌∙◌, Bool, true, arith, ◌==◌, ==_iff, if◌then◌else◌, All-map, is_some,
  Bool-cases, inl, inr, subst,
}
use model_lib.Dict
use model_lib.Dict.Distinct.{Distinct-put, Distinct-erase, All-put, All-erase}
use model_lib.Dict.Paired.{Paired-put, Paired-erase, Paired-map}
use model_lib.Queue.State.{Store, DequeueCache, ArmQueueItem}
use model_lib.Queue.History.{update_item}
use model_lib.Queue.Enqueue.{add_pair, drop_pair}
use model_lib.Queue.Invariant.Shape.{PairOk, CacheOk, IsSound}

-- What an assignment to an item leaves alone; data may come and never goes.
pub record Keeps (a b : ArmQueueItem) : Type 0 where
  pub pointer : b.pointer ≡ a.pointer
  pub count : b.count ≡ a.count
  pub enqueue_seq : b.enqueue_seq ≡ a.enqueue_seq
  pub timed_out : b.timed_out ≡ a.timed_out
  pub payload : is_some a.payload ≡ true → is_some b.payload ≡ true

pub Keeps-refl : (a : ArmQueueItem) → Keeps a a
Keeps-refl a = record {
  pointer = refl;
  count = refl;
  enqueue_seq = refl;
  timed_out = refl;
  payload = λ h. h;
}

abbrev with_heap : Store → (ℕ → ArmQueueItem) → Store
with_heap s h = record s { heap = h }

module _ (filled : Bool) (s : Store) where
  heap-IsSound :
      (h : ℕ → ArmQueueItem)
      → ((r : ℕ) → Keeps (s.heap r) (h r))
      → IsSound filled s
      → IsSound filled (with_heap s h)
  heap-IsSound h k v = record {
    paired = Paired-map _ _ s.arm1_queue s.arm2_queue (λ p r q. pair p r q) v.paired;
    distinct1 = v.distinct1;
    distinct2 = v.distinct2;
    caches = All-map _ _ s.arm_caches (λ e. cache e) v.caches;
    never_timed_out = λ r. (k r).timed_out ∙ v.never_timed_out r;
  }
    where
      pair : (p r q : ℕ) → PairOk s p r q → PairOk (with_heap s h) p r q
      pair p r q o = record {
        known1 = o.known1;
        known2 = o.known2;
        apart = o.apart;
        pointer1 = (k r).pointer ∙ o.pointer1;
        pointer2 = (k q).pointer ∙ o.pointer2;
        same_seq = (k r).enqueue_seq ∙ o.same_seq ∙ sym ((k q).enqueue_seq);
        same_count = (k r).count ∙ o.same_count ∙ sym ((k q).count);
        numbered = omega (arith, (k r).enqueue_seq, o.numbered);
      }

      cache : (e : ℕ × DequeueCache) → CacheOk filled s e → CacheOk filled (with_heap s h) e
      cache e o = record {
        known = o.known;
        owner = o.owner;
        ready = λ f. (k e.1.queue_item).payload (o.ready f);
      }

  pub update_item-IsSound :
      (r : ℕ) (f : ArmQueueItem → ArmQueueItem)
      → Keeps (s.heap r) (f (s.heap r))
      → IsSound filled s
      → IsSound filled (update_item r f s)
  update_item-IsSound r f k v = heap-IsSound _ keeps v
    where
      keeps : (q : ℕ) → Keeps (s.heap q) (if r == q then f (s.heap q) else s.heap q)
      keeps q = elim (Bool-cases (r == q)) [
        | inl e ↦ rw e (subst (λ x. Keeps (s.heap x) (f (s.heap x))) ((==_iff r q).0 e) k)
        | inr e ↦ rw e (Keeps-refl (s.heap q))
      ]

  pub put_cache-IsSound :
      (arm_id : ℕ) (c : DequeueCache)
      → CacheOk filled s (arm_id, c)
      → IsSound filled s
      → IsSound filled (record s { arm_caches = Dict.put arm_id c s.arm_caches })
  put_cache-IsSound arm_id c o v = record {
    paired = Paired-map _ _ s.arm1_queue s.arm2_queue (λ p r q x. assumption) v.paired;
    distinct1 = v.distinct1;
    distinct2 = v.distinct2;
    caches =
        All-map _ _ _ (λ e x. assumption)
          (All-put (CacheOk filled s) arm_id c s.arm_caches
            (λ j e. subst (λ x. CacheOk filled s (x, c)) (sym ((==_iff j arm_id).0 e)) o) v.caches);
    never_timed_out = v.never_timed_out;
  }

  pub erase_cache-IsSound :
      (arm_id : ℕ)
      → IsSound filled s
      → IsSound filled (record s { arm_caches = Dict.erase arm_id s.arm_caches })
  erase_cache-IsSound arm_id v = record {
    paired = Paired-map _ _ s.arm1_queue s.arm2_queue (λ p r q x. assumption) v.paired;
    distinct1 = v.distinct1;
    distinct2 = v.distinct2;
    caches =
        All-map _ _ _ (λ e x. assumption)
          (All-erase (CacheOk filled s) arm_id s.arm_caches v.caches);
    never_timed_out = v.never_timed_out;
  }

  pub drop_pair-IsSound : (pointer : ℕ) → IsSound filled s → IsSound filled (drop_pair pointer s)
  unfolding drop_pair
  drop_pair-IsSound pointer v = record {
    paired =
        Paired-map _ _ _ _ (λ p r q x. assumption)
          (Paired-erase (PairOk s) pointer s.arm1_queue s.arm2_queue v.paired);
    distinct1 = Distinct-erase pointer s.arm1_queue v.distinct1;
    distinct2 = Distinct-erase pointer s.arm2_queue v.distinct2;
    caches = All-map _ _ s.arm_caches (λ e x. assumption) v.caches;
    never_timed_out = v.never_timed_out;
  }

  module _ (count pointer now : ℕ) where
    added : Store
    added = add_pair count pointer now s

    added_old : (p r q : ℕ) → PairOk s p r q → PairOk added p r q
    unfolding added add_pair
    added_old p r q o = ground arith

    added_new : PairOk added pointer s.next_ref (s.next_ref + 1)
    unfolding added add_pair
    added_new = ground arith

    added_cache : (e : ℕ × DequeueCache) → CacheOk filled s e → CacheOk filled added e
    unfolding added add_pair
    added_cache e o = ground arith

    pub add_pair-IsSound : IsSound filled s → IsSound filled (add_pair count pointer now s)
    unfolding added add_pair
    add_pair-IsSound v = record {
      paired =
          Paired-put (PairOk added) pointer s.next_ref (s.next_ref + 1) s.arm1_queue s.arm2_queue
            added_new (Paired-map _ _ s.arm1_queue s.arm2_queue added_old v.paired);
      distinct1 = Distinct-put pointer s.next_ref s.arm1_queue v.distinct1;
      distinct2 = Distinct-put pointer (s.next_ref + 1) s.arm2_queue v.distinct2;
      caches = All-map _ _ s.arm_caches added_cache v.caches;
      never_timed_out = λ r. ground (arith, v.never_timed_out r);
    }
