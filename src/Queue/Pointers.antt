-- ===== src/Queue/Pointers.antt =====
-- The dequeue pointers: a frame that says nothing new changes nothing.
use model_lib.Prelude.{
  ℕ, ◌≡◌, refl, ap, ◌∙◌, Bool, true, false, [], ◌∷◌, Option, none, some, arith, ==_refl,
  if◌then◌else◌, Option-cases, inl, inr,
}
use model_lib.Dict
use model_lib.Dict.{get-put}
use model_lib.Text.{Bytes, from_be16}
use model_lib.Queue.State.{Manager, queue_of}
use model_lib.Queue.History.{update_arm_status, append_history}
use model_lib.Queue.Defaults.{fill_default_for_slot}
use model_lib.Queue.Dequeue.{
  select_prefetch_item, dequeue_miss, prefetch_wait, make_cache, cache_ready, after_selection,
  process_arm_dequeue, pointer_changed, note_pointer, dequeue_pointers, handle_dequeue_pointers,
}

cache_ready-pointers :
    (arm_id p r offset now : ℕ) (m : Manager)
    → (cache_ready arm_id p r offset now m).last_dequeue_pointers ≡ m.last_dequeue_pointers
unfolding cache_ready make_cache fill_default_for_slot update_arm_status append_history
cache_ready-pointers arm_id p r offset now m = ground arith

select-pointers :
    (arm_id t : ℕ) (m : Manager)
    → (select_prefetch_item arm_id t m).0.last_dequeue_pointers ≡ m.last_dequeue_pointers
unfolding select_prefetch_item
select-pointers arm_id t m = ground arith

after_selection-pointers :
    (arm_id p t now : ℕ) (choice : Manager × Option ℕ × ℕ)
    → (after_selection arm_id p t now choice).last_dequeue_pointers ≡ choice.0.last_dequeue_pointers
unfolding after_selection prefetch_wait update_arm_status append_history
after_selection-pointers arm_id p t now (m, none, offset) = refl
after_selection-pointers arm_id p t now (m, some r, offset) =
    cache_ready-pointers arm_id p r offset now m

pub process-pointers :
    (arm_id p now : ℕ) (m : Manager)
    → (process_arm_dequeue arm_id p now m).last_dequeue_pointers ≡ m.last_dequeue_pointers
unfolding process_arm_dequeue dequeue_miss update_arm_status append_history
process-pointers arm_id p now m = elim (Option-cases (Dict.get p (queue_of m.store arm_id))) [
  | inl e ↦ rw (e, process_arm_dequeue)
  | inr (t, e) ↦
      rw (e, process_arm_dequeue)
        (after_selection-pointers arm_id p t now (select_prefetch_item arm_id t m)
          ∙ select-pointers arm_id t m)
]

-- The pointers that a manager has noted last, 0 where there is none.
abbrev pub noted_pointer : ℕ → Manager → ℕ
noted_pointer arm_id m = Dict.get_or arm_id 0 m.last_dequeue_pointers

if_process-pointers :
    (b : Bool) (arm_id p now : ℕ) (m : Manager)
    → (if b then process_arm_dequeue arm_id p now m else m).last_dequeue_pointers
      ≡ m.last_dequeue_pointers
if_process-pointers true arm_id p now m = process-pointers arm_id p now m
if_process-pointers false arm_id p now m = refl

note_pointer_self :
    (arm_id p : ℕ) (m : Manager) → noted_pointer arm_id (note_pointer arm_id p m) ≡ p
unfolding note_pointer pointer_changed
note_pointer_self arm_id p m =
    ground (arith, get-put arm_id arm_id p m.last_dequeue_pointers, ==_refl arm_id)

note_pointer_other :
    (p : ℕ) (m : Manager) → noted_pointer 1 (note_pointer 2 p m) ≡ noted_pointer 1 m
unfolding note_pointer
note_pointer_other p m = ground (arith, get-put 2 1 p m.last_dequeue_pointers)

-- A frame leaves its pointers noted.
dequeue_pointers-noted :
    (p q now : ℕ) (m : Manager)
    → (noted_pointer 1 (dequeue_pointers p q now m) ≡ p)
      × (noted_pointer 2 (dequeue_pointers p q now m) ≡ q)
unfolding dequeue_pointers
dequeue_pointers-noted p q now m =
    let n1 = note_pointer 1 p m in
    let n2 = note_pointer 2 q n1 in
    let b1 = pointer_changed 1 p m in
    let b2 = pointer_changed 2 q n1 in
    let d1 = if b1 then process_arm_dequeue 1 p now n2 else n2 in
    let same = if_process-pointers b2 2 q now d1 ∙ if_process-pointers b1 1 p now n2 in
    (
      ap (Dict.get_or 1 0) same ∙ note_pointer_other q n1 ∙ note_pointer_self 1 p m,
      ap (Dict.get_or 2 0) same ∙ note_pointer_self 2 q n1,
    )

note_pointer_same :
    (arm_id p : ℕ) (m : Manager)
    → noted_pointer arm_id m ≡ p
    → (pointer_changed arm_id p m ≡ false) × (note_pointer arm_id p m ≡ m)
unfolding note_pointer pointer_changed
note_pointer_same arm_id p m h = (ground arith, ground arith)

dequeue_pointers_same :
    (p q now : ℕ) (m : Manager)
    → noted_pointer 1 m ≡ p
    → noted_pointer 2 m ≡ q
    → dequeue_pointers p q now m ≡ m
unfolding dequeue_pointers
dequeue_pointers_same p q now m a b =
    let (c1, _) = note_pointer_same 1 p m a in
    let (c2, _) = note_pointer_same 2 q m b in rw (c1, c2)

-- A frame that comes again, at any later time, changes nothing: no cache is made anew, so that a
-- completed or half-sent cache keeps its state.
pub handle_dequeue_pointers_twice :
    (frame : Bytes) (now later : ℕ) (m : Manager)
    → handle_dequeue_pointers frame later (handle_dequeue_pointers frame now m)
      ≡ handle_dequeue_pointers frame now m
unfolding handle_dequeue_pointers
handle_dequeue_pointers_twice (a ∷ b ∷ c ∷ d ∷ []) now later m =
    let (h1, h2) = dequeue_pointers-noted (from_be16 a b) (from_be16 c d) now m in
    dequeue_pointers_same (from_be16 a b) (from_be16 c d) later _ h1 h2
handle_dequeue_pointers_twice _ now later m = refl
