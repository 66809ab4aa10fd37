-- ===== src/Workflow/Invariant/Opening.antt =====
-- The commands 11 and 12 keep the invariant.
use model_lib.Prelude.{
  ℕ, ◌≡◌, refl, sym, ap, Bool, true, false, ◌||◌, [], Option, none, some, arith, ◌==◌,
  if◌then◌else◌, opt_eq, Bool-cases, Option-cases, inl, inr,
}
use model_lib.Dict
use model_lib.Dict.{get-put}
use model_lib.Dict.Distinct.{Distinct-put}
use model_lib.Text.{is_ascii, Bytes}
use model_lib.Queue.Enqueue.{enqueue_item}
use model_lib.Queue.Invariant.Enqueue.{enqueue_pair-IsValid, handle_plc_command-IsValid}
use model_lib.Workflow.State.{
  EnqueueCycle, Coordinator, UnknownEnqueuePolicy, ignore, legacy, new_cycle, to_3d, sends,
}
use model_lib.Workflow.Commands.{
  put_cycle, handle_start, send_3d_end, found_cycle, ended, note_end, handle_end, unknown_command,
  handle_plc_enqueue, end_message, first_truthy, normalize_2d_type,
}
use model_lib.Workflow.Invariant.{
  CycleOk, IsValid, sends-IsValid, put-CycleOk, put_cycle-IsValid, get-put-some, if-IsValid_given,
}

new_cycle-CycleOk : (k pointer : ℕ) → CycleOk [] k (new_cycle k pointer)
new_cycle-CycleOk k pointer = record {
  count = refl;
  ends = λ h. ground arith;
  is_open = refl;
  waiting = λ h. ground arith;
}

handle_start-IsValid :
    (count pointer now : ℕ) (sent : Bool) (w : Coordinator)
    → IsValid w
    → IsValid (handle_start count pointer now sent w)
unfolding handle_start put_cycle enqueue_item
handle_start-IsValid count pointer now sent w v = record {
  manager = enqueue_pair-IsValid count pointer now w.queue_manager v.manager;
  distinct = Distinct-put count (new_cycle count pointer) w.cycles v.distinct;
  cycles =
      put-CycleOk (CycleOk []) count (new_cycle count pointer) w.cycles
        (new_cycle-CycleOk count pointer) v.cycles;
  window = λ k c g h.
      sym
        (ap (λ x. x.end_received) (get-put-some count k (new_cycle count pointer) c w.cycles g h));
}

pub send_3d_end-IsValid :
    (count : ℕ) (override : Option Bytes) (sent : Bool) (w : Coordinator)
    → ((c : EnqueueCycle) → Dict.get count w.cycles ≡ some c → c.end_received ≡ true)
    → IsValid w
    → IsValid (send_3d_end count override sent w)
unfolding send_3d_end
send_3d_end-IsValid count override sent w received v =
    elim (Option-cases (Dict.get count w.cycles)) [
      | inl e ↦ rw (e, send_3d_end) v
      | inr (c, e) ↦ elim (Bool-cases c.end_sent_to_3d) [
        | inl s ↦ rw (e, s, send_3d_end) v
        | inr s ↦
            let o = v.cycles count c e in
            let marked : (b : Bool)
                → IsValid (put_cycle count (record c { end_sent_to_3d = b }) w) =
              λ b.
                put_cycle-IsValid [] count (record c { end_sent_to_3d = b }) w v
                  (record {
                    count = o.count;
                    ends = λ h. received c e;
                    is_open = o.is_open;
                    waiting = o.waiting;
                  })
                  (λ g. v.window count c g e) in
            let text = normalize_2d_type (first_truthy override c.part_type) in
            let message = to_3d (end_message c.count text) sent in
            rw (e, s, send_3d_end)
              (if-IsValid_given [] (is_ascii text)
                (sends message (put_cycle count (record c { end_sent_to_3d = sent }) w)) _
                (λ y. sends-IsValid [] message _ (marked sent)) (λ y. marked true))
      ]
    ]

found_cycle-CycleOk :
    (count pointer : ℕ) (w : Coordinator)
    → IsValid w
    → CycleOk [] count (found_cycle count pointer w)
found_cycle-CycleOk count pointer w v = elim (Option-cases (Dict.get count w.cycles)) [
  | inl e ↦ rw (e, found_cycle) (new_cycle-CycleOk count pointer)
  | inr (c, e) ↦ rw (e, found_cycle) (v.cycles count c e)
]

ended-CycleOk :
    (count pointer : ℕ) (c : EnqueueCycle) → CycleOk [] count c → CycleOk [] count (ended pointer c)
ended-CycleOk count pointer c o = record {
  count = o.count;
  ends = λ h. refl;
  is_open = o.is_open;
  waiting = o.waiting;
}

window_kept :
    (o : Option ℕ) (count k : ℕ)
    → (if opt_eq o count then none else o) ≡ some k
    → (o ≡ some k) × ((count == k) ≡ false)
window_kept none count k h = ground arith
window_kept (some n) count k h = ground arith

note_end-IsValid :
    (count pointer : ℕ) (w : Coordinator) → IsValid w → IsValid (note_end count pointer w)
unfolding note_end put_cycle
note_end-IsValid count pointer w v =
    let cycle = found_cycle count pointer w in
    let ok = ended-CycleOk count pointer cycle (found_cycle-CycleOk count pointer w v) in
    record {
      manager = v.manager;
      distinct = Distinct-put count (ended pointer cycle) w.cycles v.distinct;
      cycles = put-CycleOk (CycleOk []) count (ended pointer cycle) w.cycles ok v.cycles;
      window = λ k c g h.
          let (was, other) = window_kept w.active_2d_window_count count k g in
          v.window k c was (ground (arith, get-put count k (ended pointer cycle) w.cycles, other));
    }

note_end-received :
    (count pointer : ℕ) (w : Coordinator) (c : EnqueueCycle)
    → Dict.get count (note_end count pointer w).cycles ≡ some c
    → c.end_received ≡ true
unfolding note_end put_cycle
note_end-received count pointer w c h = sym (
    ap (λ x. x.end_received)
      (get-put-some count count (ended pointer (found_cycle count pointer w)) c w.cycles refl h))

handle_end-IsValid :
    (count pointer : ℕ) (sent : Bool) (w : Coordinator)
    → IsValid w
    → IsValid (handle_end count pointer sent w)
unfolding handle_end
handle_end-IsValid count pointer sent w v =
    send_3d_end-IsValid count _ sent (note_end count pointer w) (note_end-received count pointer w)
      (note_end-IsValid count pointer w v)

unknown_command-IsValid :
    (policy : UnknownEnqueuePolicy) (command count pointer now : ℕ) (w : Coordinator)
    → IsValid w
    → IsValid (unknown_command policy command count pointer now w)
unfolding unknown_command
unknown_command-IsValid ignore command count pointer now w v = v
unknown_command-IsValid legacy command count pointer now w v = record {
  manager = handle_plc_command-IsValid command count pointer now w.queue_manager v.manager;
  distinct = v.distinct;
  cycles = v.cycles;
  window = v.window;
}

pub handle_plc_enqueue-IsValid :
    (command count pointer now : ℕ) (sent : Bool) (w : Coordinator)
    → IsValid w
    → IsValid (handle_plc_enqueue command count pointer now sent w)
unfolding handle_plc_enqueue
handle_plc_enqueue-IsValid command count pointer now sent w v =
    elim (Bool-cases (command == 11 || command == 17)) [
      | inl s ↦ rw (s, handle_plc_enqueue) (handle_start-IsValid count pointer now sent w v)
      | inr s ↦ elim (Bool-cases (command == 12 || command == 18)) [
        | inl e ↦ rw (s, e, handle_plc_enqueue) (handle_end-IsValid count pointer sent w v)
        | inr e ↦
            rw (s, e, handle_plc_enqueue)
              (unknown_command-IsValid w.unknown_enqueue_policy command count pointer now w v)
      ]
    ]
