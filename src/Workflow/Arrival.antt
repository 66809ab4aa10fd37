-- ===== src/Workflow/Arrival.antt =====
-- What the coordinator does with the bytes of the 3D camera, however they arrive.
use model_lib.Prelude.{
  ℕ, suc, ◌≡◌, refl, sym, ap, ◌∙◌, subst, Bool, List, [], ◌∷◌, ◌++◌, none, some, length,
  Option-cases, inl, inr, arith,
}
use mathlib.Core.Path.{ap₂}
use mathlib.Core.List.{append_assoc, append-nil}
use model_lib.Text.{Bytes}
use model_lib.Cameras.Server.{camera_3d}
use model_lib.Workflow.State.{Coordinator}
use model_lib.Workflow.Events.{Input, frame_3d, step, run}
use model_lib.Workflow.Frames.{
  search_frame, pop_3d_frame, drain, Receiver, inputs_3d, on_camera_payload,
}
use model_lib.Workflow.Draining.{Drains, empty, another, drain-Drains, Drains-unique}
use model_lib.Workflow.Fragments.{
  search_frame-append, pop_3d_frame-some, pop_3d_frame-none, pop_3d_frame-Shrinks,
}

-- A buffer without a frame stays as it is.
stays : (a : Bytes) → (pop_3d_frame a).0 ≡ none → (pop_3d_frame a).1 ≡ a
stays a e = elim (Option-cases (search_frame a)) [
  | inl none' ↦ ap (λ p. p.1) (pop_3d_frame-none a none')
  | inr (m, some') ↦ absurd (ground (arith, e, ap (λ p. p.0) (pop_3d_frame-some a m some')))
]

-- A frame is found as well where more bytes follow, and they follow the rest.
pop_3d_frame-append :
    (a b f : Bytes)
    → (pop_3d_frame a).0 ≡ some f
    → pop_3d_frame (a ++ b) ≡ (some f, (pop_3d_frame a).1 ++ b)
pop_3d_frame-append a b f e = elim (Option-cases (search_frame a)) [
  | inl none' ↦ absurd (ground (arith, e, ap (λ p. p.0) (pop_3d_frame-none a none')))
  | inr (m, some') ↦
      let popped = pop_3d_frame-some a m some' in
      pop_3d_frame-some (a ++ b) (m.0, m.1 ++ b) (search_frame-append a b m some')
      ∙ ap₂ (λ g r. (g, r ++ b)) (sym (ap (λ p. p.0) popped) ∙ e) (sym (ap (λ p. p.1) popped))
]

Drains-append :
    {a r s : Bytes} {fs gs : List Bytes} (b : Bytes)
    → Drains pop_3d_frame a fs r
    → Drains pop_3d_frame (r ++ b) gs s
    → Drains pop_3d_frame (a ++ b) (fs ++ gs) s
Drains-append {s = s} {gs = gs} b (empty {b = a} e) d =
    subst (λ t. Drains pop_3d_frame (t ++ b) gs s) (stays a e) d
Drains-append {s = s} {gs = gs} b (another {b = a} {f = f} {fs = fs} e c) d =
    let popped = pop_3d_frame-append a b f e in
    another (ap (λ p. p.0) popped) (
      subst (λ t. Drains pop_3d_frame t (fs ++ gs) s) (sym (ap (λ p. p.1) popped))
        (Drains-append b c d))

run-append : (is js : List (ℕ × Input)) (w : Coordinator) → run (is ++ js) w ≡ run js (run is w)
unfolding run
run-append [] js w = refl
run-append (i ∷ is) js w = run-append is js (step i w)

-- The frames and the rest of a buffer.
abbrev drained : Bytes → List Bytes × Bytes
drained all = drain pop_3d_frame (suc (length all)) all

drained-Drains : (all : Bytes) → Drains pop_3d_frame all (drained all).0 (drained all).1
drained-Drains all =
    drain-Drains pop_3d_frame pop_3d_frame-Shrinks (suc (length all)) all (omega arith)

drained-append :
    (a b : Bytes)
    → ((drained a).0 ++ (drained ((drained a).1 ++ b)).0 ≡ (drained (a ++ b)).0)
      × ((drained ((drained a).1 ++ b)).1 ≡ (drained (a ++ b)).1)
drained-append a b =
    Drains-unique pop_3d_frame
      (Drains-append b (drained-Drains a) (drained-Drains ((drained a).1 ++ b)))
      (drained-Drains (a ++ b))

-- What `on_camera_payload` does with the bytes of the 3D camera that are in the buffer.
abbrev received : ℕ → Receiver → Bytes → Receiver
received now r all = record r {
  coordinator = run (inputs_3d now (drained all).0) r.coordinator;
  buffer_3d = (drained all).1;
}

map-append :
    (now : ℕ) (fs gs : List Bytes) → inputs_3d now (fs ++ gs) ≡ inputs_3d now fs ++ inputs_3d now gs
map-append now [] gs = refl
map-append now (f ∷ fs) gs = ap (◌∷◌ (now, frame_3d f)) (map-append now fs gs)

run_frames-append :
    (now : ℕ) (fs gs hs : List Bytes) (w : Coordinator)
    → fs ++ gs ≡ hs
    → run (inputs_3d now gs) (run (inputs_3d now fs) w) ≡ run (inputs_3d now hs) w
run_frames-append now fs gs hs w e =
    sym (run-append (inputs_3d now fs) (inputs_3d now gs) w)
    ∙ ap (λ is. run is w) (sym (map-append now fs gs) ∙ ap (inputs_3d now) e)

received-append :
    (now : ℕ) (r : Receiver) (a b : Bytes)
    → received now (received now r a) ((drained a).1 ++ b) ≡ received now r (a ++ b)
received-append now r a b =
    let (frames, rest) = drained-append a b in
    ap₂ (λ w s. record r { coordinator = w; buffer_3d = s })
      (run_frames-append now (drained a).0 (drained ((drained a).1 ++ b)).0 (drained (a ++ b)).0
        r.coordinator frames)
      rest

-- The payloads one after the other.
unfoldable pub receive_3d : (ℕ → Bool × Bool) → ℕ → List Bytes → Receiver → Receiver
unfolding on_camera_payload
receive_3d sent now [] r = r
receive_3d sent now (p ∷ ps) r = receive_3d sent now ps (on_camera_payload camera_3d p sent now r)

unfoldable pub joined : List Bytes → Bytes
joined [] = []
joined (p ∷ ps) = p ++ joined ps

on_camera_payload-append :
    (sent : ℕ → Bool × Bool) (now : ℕ) (p q : Bytes) (r : Receiver)
    → on_camera_payload camera_3d q sent now (on_camera_payload camera_3d p sent now r)
      ≡ on_camera_payload camera_3d (p ++ q) sent now r
unfolding on_camera_payload
on_camera_payload-append sent now [] q r = refl
on_camera_payload-append sent now (b ∷ bs) [] r =
    ap (λ p. on_camera_payload camera_3d p sent now r) (sym (append-nil (b ∷ bs)))
on_camera_payload-append sent now (b ∷ bs) (c ∷ cs) r =
    received-append now r (r.buffer_3d ++ b ∷ bs) (c ∷ cs)
    ∙ ap (received now r) (append_assoc r.buffer_3d (b ∷ bs) (c ∷ cs))

-- However the bytes of the 3D camera are cut into payloads, in the middle of a frame or with several
-- frames in one, the coordinator ends in the same state, with the same bytes in its buffer, as when
-- they arrive in one piece at that time.
pub receive_3d-joined :
    (sent : ℕ → Bool × Bool) (now : ℕ) (ps : List Bytes) (r : Receiver)
    → receive_3d sent now ps r ≡ on_camera_payload camera_3d (joined ps) sent now r
unfolding receive_3d joined
receive_3d-joined sent now [] r = unfold on_camera_payload in refl
receive_3d-joined sent now (p ∷ ps) r =
    receive_3d-joined sent now ps (on_camera_payload camera_3d p sent now r)
    ∙ on_camera_payload-append sent now p (joined ps) r
