-- ===== src/Workflow/Invariant/Typing.antt =====
-- The frames of the 2D camera keep the invariant.
use model_lib.Prelude.{
  ℕ, ◌≡◌, refl, ap, Bool, [], Option, none, some, Option-cases, inl, inr, ◌∙◌, sym,
}
use model_lib.Dict
use model_lib.Dict.{get-put}
use model_lib.Text.{Bytes}
use model_lib.Text.Integer.{ℤ, pos, negsuc}
use model_lib.Workflow.State.{EnqueueCycle, Coordinator}
use model_lib.Workflow.Commands.{put_cycle}
use model_lib.Workflow.Camera2d.{
  Frame2d, ready, result, requested, ready_for, handle_2d_ready, typed, take_type, take_result,
  handle_parsed, parse_2d_payload, handle_2d_frame,
}
use model_lib.Workflow.Invariant.{
  IsValid, sends-IsValid, put_cycle-IsValid, get-put-some, if-IsValid_given,
}
use model_lib.Workflow.Invariant.Opening.{send_3d_end-IsValid}

ready_for-IsValid :
    (count : ℕ) (sent : Bool) (w : Coordinator) → IsValid w → IsValid (ready_for count sent w)
unfolding ready_for
ready_for-IsValid count sent w v = elim (Option-cases (Dict.get count w.cycles)) [
  | inl e ↦ rw (e, ready_for) v
  | inr (c, e) ↦
      let o = v.cycles count c e in
      rw (e, ready_for)
        (if-IsValid_given [] c.end_received _ _ (λ r. v)
          (λ r.
            if-IsValid_given [] c.request_sent_to_2d _ _ (λ q. v)
              (λ q. sends-IsValid [] _ (put_cycle count (requested sent c) w) (
                put_cycle-IsValid [] count (requested sent c) w v
                  (record {
                    count = o.count;
                    ends = o.ends;
                    is_open = o.is_open;
                    waiting = o.waiting;
                  })
                  (λ g. v.window count c g e)))))
]

handle_2d_ready-IsValid :
    (sent : Bool) (w : Coordinator) → IsValid w → IsValid (handle_2d_ready sent w)
unfolding handle_2d_ready
handle_2d_ready-IsValid sent w v = go w.active_2d_window_count
  where
    go : (o : Option ℕ) → IsValid (elim o [ none ↦ w | some count ↦ ready_for count sent w ])
    go none = v
    go (some count) = ready_for-IsValid count sent w v

typed-IsValid :
    (count : ℕ) (part_type : Bytes) (c : EnqueueCycle) (w : Coordinator)
    → IsValid w
    → Dict.get count w.cycles ≡ some c
    → IsValid (put_cycle count (typed part_type c) w)
typed-IsValid count part_type c w v e =
    let o = v.cycles count c e in
    put_cycle-IsValid [] count (typed part_type c) w v
      (record { count = o.count; ends = o.ends; is_open = o.is_open; waiting = o.waiting })
      (λ g. v.window count c g e)

take_type-IsValid :
    (count : ℕ) (part_type : Bytes) (sent : Bool) (w : Coordinator)
    → IsValid w
    → IsValid (take_type count part_type sent w)
unfolding take_type put_cycle
take_type-IsValid count part_type sent w v = elim (Option-cases (Dict.get count w.cycles)) [
  | inl e ↦ rw (e, take_type) v
  | inr (c, e) ↦
      let stored = put_cycle count (typed part_type c) w in
      rw (e, take_type)
        (if-IsValid_given [] c.end_sent_to_3d _ _ (λ s. v)
          (λ s.
            if-IsValid_given [] c.end_received _ _
              (λ r.
                send_3d_end-IsValid count none sent stored
                  (λ d h.
                    sym (
                      ap (λ x. x.end_received)
                        (get-put-some count count (typed part_type c) d w.cycles refl h))
                    ∙ r)
                  (typed-IsValid count part_type c w v e))
              (λ r. typed-IsValid count part_type c w v e)))
]

take_result-IsValid :
    (count : ℤ) (part_type : Bytes) (sent : Bool) (w : Coordinator)
    → IsValid w
    → IsValid (take_result count part_type sent w)
unfolding take_result
take_result-IsValid (pos n) part_type sent w v = take_type-IsValid n part_type sent w v
take_result-IsValid (negsuc n) part_type sent w v = v

handle_parsed-IsValid :
    (frame : Option Frame2d) (replied sent : Bool) (w : Coordinator)
    → IsValid w
    → IsValid (handle_parsed frame replied sent w)
unfolding handle_parsed
handle_parsed-IsValid none replied sent w v = v
handle_parsed-IsValid (some ready) replied sent w v = handle_2d_ready-IsValid sent w v
handle_parsed-IsValid (some (result count part_type)) replied sent w v =
    take_result-IsValid count part_type sent _ (sends-IsValid [] _ w v)

pub handle_2d_frame-IsValid :
    (frame : Bytes) (replied sent : Bool) (w : Coordinator)
    → IsValid w
    → IsValid (handle_2d_frame frame replied sent w)
unfolding handle_2d_frame
handle_2d_frame-IsValid frame replied sent w v =
    handle_parsed-IsValid (parse_2d_payload frame) replied sent w v
