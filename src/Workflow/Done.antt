-- ===== src/Workflow/Done.antt =====
-- The feedback `Done` of a cycle.
use model_lib.Prelude.{
  ℕ, ◌≡◌, ap, ◌∙◌, sym, Bool, true, false, ◌&&◌, [], ◌∷◌, ◌++◌, none, some, if◌then◌else◌,
  Bool-cases, if_then, if_else, inl, inr,
}
use mathlib.Core.List.{append-nil}
use model_lib.Dict
use model_lib.Dict.Distinct.{Distinct, get-erase_self}
use model_lib.Workflow.State.{EnqueueCycle, Coordinator, enqueue_feedback, sends}
use model_lib.Workflow.Camera3d.{try_send_done, done_feedback}

abbrev pub is_complete : EnqueueCycle → Bool
is_complete c = c.arm1_ready && c.arm2_ready

-- The state after a `Done`.
abbrev closed : ℕ → Coordinator → Coordinator
closed n w = sends (enqueue_feedback done_feedback) (record w { cycles = Dict.erase n w.cycles })

try_send_done_gone : (n : ℕ) (w : Coordinator) → Dict.get n w.cycles ≡ none → try_send_done n w ≡ w
unfolding try_send_done
try_send_done_gone n w e = rw (e, try_send_done)

try_send_done_complete :
    (n : ℕ) (w : Coordinator) (c : EnqueueCycle)
    → Dict.get n w.cycles ≡ some c
    → c.done_sent_to_plc ≡ false
    → is_complete c ≡ true
    → try_send_done n w ≡ closed n w
unfolding try_send_done
try_send_done_complete n w c e fresh both =
    rw (e, try_send_done) (if_else c.done_sent_to_plc w _ fresh ∙ if_then (is_complete c) _ w both)

try_send_done_incomplete :
    (n : ℕ) (w : Coordinator) (c : EnqueueCycle)
    → Dict.get n w.cycles ≡ some c
    → c.done_sent_to_plc ≡ false
    → is_complete c ≡ false
    → try_send_done n w ≡ w
unfolding try_send_done
try_send_done_incomplete n w c e fresh waits =
    rw (e, try_send_done)
      (if_else c.done_sent_to_plc w _ fresh ∙ if_else (is_complete c) (closed n w) w waits)

-- `_try_send_done` on an open cycle sends one `Done` and closes the cycle if both arms are ready, and
-- otherwise sends nothing and leaves it open. A second call right after it changes nothing.
pub try_send_done_once :
    (n : ℕ) (w : Coordinator) (c : EnqueueCycle)
    → Distinct w.cycles
    → Dict.get n w.cycles ≡ some c
    → c.done_sent_to_plc ≡ false
    → let after = try_send_done n w in
      (after.sendings
        ≡ w.sendings ++ (if is_complete c then enqueue_feedback done_feedback ∷ [] else []))
      × (Dict.get n after.cycles ≡ (if is_complete c then none else some c))
      × (try_send_done n after ≡ after)
try_send_done_once n w c distinct e fresh = elim (Bool-cases (is_complete c)) [
  | inl both ↦
      let now = try_send_done_complete n w c e fresh both in
      let gone = get-erase_self n w.cycles distinct in
      (
        ap (λ x. x.sendings) now
            ∙ ap (λ l. w.sendings ++ l)
                (sym (if_then (is_complete c) (enqueue_feedback done_feedback ∷ []) [] both)),
        ap (λ x. Dict.get n x.cycles) now ∙ gone ∙ sym (if_then (is_complete c) none (some c) both),
        ap (try_send_done n) now ∙ try_send_done_gone n (closed n w) gone ∙ sym now,
      )
  | inr waits ↦
      let now = try_send_done_incomplete n w c e fresh waits in
      (
        ap (λ x. x.sendings) now
            ∙ sym (append-nil w.sendings)
            ∙ ap (λ l. w.sendings ++ l)
                (sym (if_else (is_complete c) (enqueue_feedback done_feedback ∷ []) [] waits)),
        ap (λ x. Dict.get n x.cycles) now ∙ e ∙ sym (if_else (is_complete c) none (some c) waits),
        ap (try_send_done n) now,
      )
]
