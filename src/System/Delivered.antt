-- ===== src/System/Delivered.antt =====
-- The PLC's connections while messages go out and while connections come and go.
use model_lib.Prelude.{
  ℕ, ◌≡◌, ◌∙◌, refl, Bool, true, false, ◌++◌, List, [], ◌∷◌, All, Option-cases, inl, inr, length,
  ◌==◌, if◌then◌else◌,
}
use model_lib.Dict
use model_lib.Dict.Distinct.{Distinct, Distinct-put, Distinct-erase, All-put, All-erase, get-OnSome}
use model_lib.Prelude.{OnSome-some}
use model_lib.Text.{Bytes}
use model_lib.Queue.State.{Effect, camera_trigger, plc_feedback, plc_stage}
use model_lib.Queue.History.{returned, value_error}
use model_lib.Plc.Sending.{
  ConnectionType, enqueue, dequeue, PlcConnectionInfo, PlcHandler, send_all, send_to, targets_of,
  send_dequeue_feedback, send_enqueue_feedback, close_connection,
}
use model_lib.Plc.Servers.{new_connection, add_connection}
use model_lib.System.Callbacks.{deliver_effect, deliver}
use model_lib.System.Events.{set_works}

send_all-connections :
    (payload : Bytes) (cs : Dict.Dict PlcConnectionInfo) (h : PlcHandler) (success : Bool)
    → (send_all payload cs (h, success)).0.connections ≡ h.connections
unfolding send_all
send_all-connections payload [] h success = refl
send_all-connections payload ((id, c) ∷ cs) h success =
    elim c.works
      as (λ b.
        (send_all payload cs (
          if b
          then (record h { sent = h.sent ++ (id, payload) ∷ [] }, true)
          else (h, success))).0.connections
        ≡ h.connections) [
          | true ↦
              send_all-connections payload cs (record h { sent = h.sent ++ (id, payload) ∷ [] })
                true
          | false ↦ send_all-connections payload cs h success
        ]

deliver_effect-connections :
    (e : Effect) (h : PlcHandler) → (deliver_effect e h).connections ≡ h.connections
unfolding deliver_effect send_dequeue_feedback send_enqueue_feedback send_to
deliver_effect-connections (plc_feedback code) h =
    elim (length code == 2)
      as (λ b.
        (elim (if b then returned (send_to dequeue code h) else value_error) as (λ _. PlcHandler) [
          | returned r ↦ r.0
          | value_error ↦ h
        ]).connections
        ≡ h.connections) [
          | true ↦ send_all-connections code (targets_of dequeue h.connections) h false
          | false ↦ refl
        ]
deliver_effect-connections (plc_stage []) h = refl
deliver_effect-connections (plc_stage (c ∷ cs)) h =
    send_all-connections (c ∷ cs) (targets_of enqueue h.connections) h false
deliver_effect-connections (camera_trigger command count) h = refl

pub deliver-connections :
    (es : List Effect) (h : PlcHandler) → (deliver es h).connections ≡ h.connections
unfolding deliver
deliver-connections [] h = refl
deliver-connections (e ∷ es) h =
    deliver-connections es (deliver_effect e h) ∙ deliver_effect-connections e h

-- Every connection stands under a name of its own and counts as connected.
abbrev pub IsValidPlc : Dict.Dict PlcConnectionInfo → Type 0
IsValidPlc cs = Distinct cs × All (λ e. e.1.connected ≡ true) cs

pub add_connection-IsValidPlc :
    (t : ConnectionType) (id : ℕ) (sends : Bool) (h : PlcHandler)
    → IsValidPlc h.connections
    → IsValidPlc (add_connection t id sends h).connections
unfolding add_connection
add_connection-IsValidPlc t id sends h v = (
  Distinct-put id (new_connection t sends) h.connections v.0,
  All-put (λ e. e.1.connected ≡ true) id (new_connection t sends) h.connections (λ j e. refl) v.1,
)

pub close_connection-IsValidPlc :
    (id : ℕ) (h : PlcHandler)
    → IsValidPlc h.connections
    → IsValidPlc (close_connection id h).connections
unfolding close_connection
close_connection-IsValidPlc id h v = (
  Distinct-erase id h.connections v.0,
  All-erase (λ e. e.1.connected ≡ true) id h.connections v.1,
)

pub set_works-IsValidPlc :
    (id : ℕ) (sends : Bool) (h : PlcHandler)
    → IsValidPlc h.connections
    → IsValidPlc (set_works id sends h).connections
unfolding set_works
set_works-IsValidPlc id sends h v = elim (Option-cases (Dict.get id h.connections)) [
  | inl e ↦ rw (e, set_works) v
  | inr (c, e) ↦
      let found : c.connected ≡ true =
        OnSome-some (λ c. c.connected ≡ true) _ c
          (get-OnSome (λ c. c.connected ≡ true) id h.connections v.1) e in
      rw (e, set_works)
        (
          Distinct-put id (record c { works = sends }) h.connections v.0,
          All-put (λ e. e.1.connected ≡ true) id (record c { works = sends }) h.connections
              (λ j e. found) v.1,
        )
]
