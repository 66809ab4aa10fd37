-- ===== src/Plc/Sending.antt =====
-- The messages to the PLC: `send_dequeue_feedback`, `send_enqueue_feedback` and `_close_connection`.
use model_lib.Prelude.{
  ℕ, ◌≡◌, ◌∙◌, refl, sym, ap, Bool, true, false, ◌&&◌, ◌||◌, List, [], ◌∷◌, ◌++◌, arith, ◌==◌,
  if◌then◌else◌, length, Bool-cases, inl, inr, if_then, if_else,
}
use mathlib.Core.List.{append_assoc, append-nil}
use model_lib.Dict
use model_lib.Text.{Bytes}
use model_lib.Queue.History.{Outcome, returned, value_error, build_arm_feedback_code}
use model_lib.Queue.Codes.{build_arm_feedback_code_faithful}

pub data ConnectionType : Type 0 where
  enqueue dequeue : ConnectionType

-- `works` says whether `sendall` on the socket succeeds; otherwise it raises, and that is logged.
pub record PlcConnectionInfo : Type 0 where
  pub connection_type : ConnectionType
  pub connected : Bool
  pub works : Bool

-- The connections by number in place of a name, and the messages that went out.
pub record PlcHandler : Type 0 where
  pub connections : Dict.Dict PlcConnectionInfo
  pub sent : List (ℕ × Bytes)

abbrev pub same_type : ConnectionType → ConnectionType → Bool
same_type enqueue enqueue = true
same_type dequeue dequeue = true
same_type enqueue dequeue = false
same_type dequeue enqueue = false

-- The connections that a message is for.
unfoldable pub targets_of :
    ConnectionType → Dict.Dict PlcConnectionInfo → Dict.Dict PlcConnectionInfo
targets_of t [] = []
targets_of t ((id, c) ∷ rest) =
    let others = targets_of t rest in
    if same_type c.connection_type t && c.connected then (id, c) ∷ others else others

-- The loop over the targets, with the success so far.
unfoldable pub send_all :
    Bytes → Dict.Dict PlcConnectionInfo → PlcHandler × Bool → PlcHandler × Bool
send_all payload [] state = state
send_all payload ((id, c) ∷ rest) (h, success) =
    send_all payload rest
      (if c.works then (record h { sent = h.sent ++ (id, payload) ∷ [] }, true) else (h, success))

unfoldable pub send_to : ConnectionType → Bytes → PlcHandler → PlcHandler × Bool
unfolding targets_of send_all
send_to t payload h = send_all payload (targets_of t h.connections) (h, false)

unfoldable pub send_dequeue_feedback : Bytes → PlcHandler → Outcome (PlcHandler × Bool)
unfolding send_to
send_dequeue_feedback feedback_code h =
    if length feedback_code == 2 then returned (send_to dequeue feedback_code h) else value_error

unfoldable pub send_enqueue_feedback : Bytes → PlcHandler → PlcHandler × Bool
unfolding send_to
send_enqueue_feedback [] h = (h, false)
send_enqueue_feedback (c ∷ cs) h = send_to enqueue (c ∷ cs) h

-- `_close_connection`: a connection that is gone already is passed over.
unfoldable pub close_connection : ℕ → PlcHandler → PlcHandler
unfolding Dict.erase
close_connection id h = record h { connections = Dict.erase id h.connections }

-- The messages that go out: to each connection of the type that is connected and works, in order.
unfoldable pub deliveries : ConnectionType → Bytes → Dict.Dict PlcConnectionInfo → List (ℕ × Bytes)
deliveries t payload [] = []
deliveries t payload ((id, c) ∷ rest) =
    let others = deliveries t payload rest in
    if (same_type c.connection_type t && c.connected) && c.works
    then (id, payload) ∷ others
    else others

abbrev pub some_delivered : List (ℕ × Bytes) → Bool
some_delivered [] = false
some_delivered (d ∷ ds) = true

or_true : (b : Bool) → true ≡ (b || true)
or_true true = refl
or_true false = refl

send_all-deliveries :
    (t : ConnectionType) (payload : Bytes) (cs : Dict.Dict PlcConnectionInfo) (h : PlcHandler)
    (success : Bool)
    → ((send_all payload (targets_of t cs) (h, success)).0.sent ≡ h.sent ++ deliveries t payload cs)
      × ((send_all payload (targets_of t cs) (h, success)).1
          ≡ (success || some_delivered (deliveries t payload cs)))
unfolding send_all targets_of deliveries
send_all-deliveries t payload [] h success = (sym (append-nil h.sent), ground arith)
send_all-deliveries t payload ((id, c) ∷ rest) h success =
    elim (Bool-cases (same_type c.connection_type t && c.connected)) [
      | inl aimed ↦ elim (Bool-cases c.works) [
        | inl works ↦
            let next = record h { sent = h.sent ++ (id, payload) ∷ [] } in
            let rec = send_all-deliveries t payload rest next true in
            simp (aimed, works, send_all)
              (
                ap (λ x. (send_all payload (targets_of t rest) x).0.sent)
                      (if_then c.works (next, true) (h, success) works)
                    ∙ rec.0
                    ∙ append_assoc h.sent ((id, payload) ∷ []) (deliveries t payload rest),
                ap (λ x. (send_all payload (targets_of t rest) x).1)
                      (if_then c.works (next, true) (h, success) works)
                    ∙ rec.1
                    ∙ or_true success,
              )
        | inr fails ↦
            let next = record h { sent = h.sent ++ (id, payload) ∷ [] } in
            let rec = send_all-deliveries t payload rest h success in
            simp (aimed, fails, send_all)
              (
                ap (λ x. (send_all payload (targets_of t rest) x).0.sent)
                      (if_else c.works (next, true) (h, success) fails)
                    ∙ rec.0,
                ap (λ x. (send_all payload (targets_of t rest) x).1)
                      (if_else c.works (next, true) (h, success) fails)
                    ∙ rec.1,
              )
      ]
      | inr other ↦ simp (other, send_all) (send_all-deliveries t payload rest h success)
    ]

-- A feedback code of the queue manager is never refused by the PLC handler: it goes once to every
-- dequeue connection that is connected and works, in their order, and the result says whether there
-- was one. No enqueue connection gets it.
pub send_dequeue_feedback-deliveries :
    (arm_id : ℕ) (status : Bytes) (code : Bytes) (h : PlcHandler)
    → build_arm_feedback_code arm_id status ≡ returned code
    → (n : PlcHandler) × (success : Bool) × (send_dequeue_feedback code h ≡ returned (n, success))
      × (n.sent ≡ h.sent ++ deliveries dequeue code h.connections)
      × (success ≡ some_delivered (deliveries dequeue code h.connections))
unfolding send_dequeue_feedback send_to
send_dequeue_feedback-deliveries arm_id status code h built =
    let two = ((build_arm_feedback_code_faithful arm_id arm_id status status).1 code built).1 in
    let all = send_all-deliveries dequeue code h.connections h false in
    let r = send_to dequeue code h in
    (
      r.0,
      r.1,
      if_then (length code == 2) (returned r) value_error (ground (arith, two)),
      all.0,
      all.1,
    )
