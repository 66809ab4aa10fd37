-- ===== src/Workflow/Invariant/Storing.antt =====
-- The frames of the 3D camera keep the invariant, and so does any sequence of inputs.
use model_lib.Prelude.{
  ℕ, ◌≡◌, ap, ◌∙◌, sym, subst, Bool, true, false, ◌&&◌, List, [], ◌∷◌, Option, none, some, arith,
  ◌==◌, if◌then◌else◌, ==_refl, ==_iff, Bool-cases, Option-cases, inl, inr,
}
use model_lib.Dict
use model_lib.Dict.{get-erase_ne}
use model_lib.Dict.Distinct.{Distinct-erase, get-erase_self}
use model_lib.Text.{Bytes, strip}
use model_lib.Text.Integer.{ℤ, pos, negsuc, split_on}
use model_lib.Queue.State.{Config, Manager}
use model_lib.Queue.Camera.{store_camera_data}
use model_lib.Queue.Calls
use model_lib.Queue.Calls.{Call, new_manager}
use model_lib.Queue.Invariant.Completion.{run-new_manager-IsValid}
use model_lib.Queue.Invariant.Valid
use model_lib.Queue.Invariant.Camera.{store_camera_data-IsValid}
use model_lib.Workflow.State.{EnqueueCycle, Coordinator, UnknownEnqueuePolicy, new_coordinator}
use model_lib.Workflow.Commands.{put_cycle}
use model_lib.Workflow.Camera3d.{
  arm_added, add_count, store_for_cycle, store_parsed, parse_3d_segment, store_segments,
  try_send_done, try_all, with_text, handle_3d_frame,
}
use model_lib.Workflow.Events.{Input, commands, frame_2d, frame_3d, step, run}
use model_lib.Workflow.Invariant.{
  has, CycleOk, IsValidFor, IsValid, sends-IsValid, put_cycle-IsValid,
}
use model_lib.Workflow.Invariant.Opening.{handle_plc_enqueue-IsValid}
use model_lib.Workflow.Invariant.Typing.{handle_2d_frame-IsValid}

has-add_count : (n k : ℕ) (t : List ℕ) → has k t ≡ true → has k (add_count n t) ≡ true
unfolding has add_count
has-add_count n k [] h = ground arith
has-add_count n k (j ∷ js) h = ground (arith, has-add_count n k js)

has-add_count_self : (n : ℕ) (t : List ℕ) → has n (add_count n t) ≡ true
unfolding has add_count
has-add_count_self n [] = ground (arith, ==_refl n)
has-add_count_self n (j ∷ js) = ground (arith, has-add_count_self n js)

CycleOk-add :
    (n k : ℕ) (t : List ℕ) (c : EnqueueCycle) → CycleOk t k c → CycleOk (add_count n t) k c
CycleOk-add n k t c o = record {
  count = o.count;
  ends = o.ends;
  is_open = o.is_open;
  waiting = λ h. has-add_count n k t (o.waiting h);
}

-- A state and the counts that a frame has touched so far.
abbrev Valid2 : Coordinator × List ℕ → Type 0
Valid2 (w, t) = IsValidFor t w

if-Valid2 :
    (b : Bool) (x y : Coordinator × List ℕ) → Valid2 x → Valid2 y → Valid2 (if b then x else y)
if-Valid2 true x y f g = f
if-Valid2 false x y f g = g

store_for_cycle-IsValid :
    (arm_id count : ℕ) (bytes : Bytes) (now : ℕ) (c : EnqueueCycle) (w : Coordinator) (t : List ℕ)
    → IsValidFor t w
    → Dict.get count w.cycles ≡ some c
    → Valid2 (store_for_cycle arm_id count bytes now c (w, t))
unfolding store_for_cycle
store_for_cycle-IsValid arm_id count bytes now c w t v e =
    let r = store_camera_data count c.pointer bytes arm_id now w.queue_manager in
    let good =
      store_camera_data-IsValid count c.pointer bytes arm_id now w.queue_manager v.manager in
    let o = v.cycles count c e in
    if-Valid2 r.1
      (put_cycle count (arm_added arm_id c) (record w { queue_manager = r.0 }), add_count count t)
      (record w { queue_manager = r.0 }, t)
      (put_cycle-IsValid (add_count count t) count (arm_added arm_id c)
        (record w { queue_manager = r.0 })
        (record {
          manager = good;
          distinct = v.distinct;
          cycles = λ k d h. CycleOk-add count k t d (v.cycles k d h);
          window = v.window;
        })
        (record {
          count = o.count;
          ends = o.ends;
          is_open = o.is_open;
          waiting = λ h. has-add_count_self count t;
        })
        (λ g. v.window count c g e))
      (record { manager = good; distinct = v.distinct; cycles = v.cycles; window = v.window })

store_parsed-IsValid :
    (o : Option (ℕ × ℤ × Bytes)) (now : ℕ) (w : Coordinator) (t : List ℕ)
    → IsValidFor t w
    → Valid2 (store_parsed o now (w, t))
unfolding store_parsed
store_parsed-IsValid none now w t v = v
store_parsed-IsValid (some (arm_id, negsuc n, bytes)) now w t v = v
store_parsed-IsValid (some (arm_id, pos count, bytes)) now w t v =
    elim (Option-cases (Dict.get count w.cycles)) [
      | inl e ↦ rw (e, store_parsed) v
      | inr (c, e) ↦ rw (e, store_parsed) (store_for_cycle-IsValid arm_id count bytes now c w t v e)
    ]

store_segments-IsValid :
    (segments : List Bytes) (now : ℕ) (w : Coordinator) (t : List ℕ)
    → IsValidFor t w
    → Valid2 (store_segments segments now (w, t))
unfolding store_segments
store_segments-IsValid [] now w t v = v
store_segments-IsValid (s ∷ ss) now w t v =
    store_segments-IsValid ss now (store_parsed (parse_3d_segment s) now (w, t)).0
      (store_parsed (parse_3d_segment s) now (w, t)).1
      (store_parsed-IsValid (parse_3d_segment s) now w t v)

-- A count need not be among the touched ones where its cycle is not ready for both arms.
CycleOk-drop :
    (n k : ℕ) (t : List ℕ) (c : EnqueueCycle)
    → ((n == k) ≡ true → (c.arm1_ready && c.arm2_ready) ≡ false)
    → CycleOk (n ∷ t) k c
    → CycleOk t k c
unfolding has
CycleOk-drop n k t c unready o = record {
  count = o.count;
  ends = o.ends;
  is_open = o.is_open;
  waiting = λ h. elim (Bool-cases (n == k)) [
    | inl hit ↦ ground (unready hit, h, arith)
    | inr miss ↦ ground (arith, o.waiting h)
  ];
}

IsValidFor-drop :
    (n : ℕ) (t : List ℕ) (w : Coordinator)
    → ((c : EnqueueCycle) → Dict.get n w.cycles ≡ some c → (c.arm1_ready && c.arm2_ready) ≡ false)
    → IsValidFor (n ∷ t) w
    → IsValidFor t w
IsValidFor-drop n t w unready v = record {
  manager = v.manager;
  distinct = v.distinct;
  cycles = λ k c h.
      CycleOk-drop n k t c
        (λ same. unready c (ap (λ i. Dict.get i w.cycles) ((==_iff n k).0 same) ∙ h))
        (v.cycles k c h);
  window = v.window;
}

get-erase-some :
    (n k : ℕ) (c : EnqueueCycle) (w : Coordinator) (t : List ℕ)
    → IsValidFor t w
    → Dict.get k (Dict.erase n w.cycles) ≡ some c
    → ((n == k) ≡ false) × (Dict.get k w.cycles ≡ some c)
get-erase-some n k c w t v h = elim (Bool-cases (n == k)) [
  | inl hit ↦ ground (
    arith,
    get-erase_self n w.cycles v.distinct,
    ap (λ i. Dict.get i (Dict.erase n w.cycles)) ((==_iff n k).0 hit) ∙ h,
  )
  | inr miss ↦ (miss, sym (get-erase_ne n k w.cycles miss) ∙ h)
]

erased-IsValid :
    (n : ℕ) (t : List ℕ) (w : Coordinator)
    → IsValidFor (n ∷ t) w
    → IsValidFor t (record w { cycles = Dict.erase n w.cycles })
erased-IsValid n t w v = record {
  manager = v.manager;
  distinct = Distinct-erase n w.cycles v.distinct;
  cycles = λ k c h.
      let (miss, old) = get-erase-some n k c w (n ∷ t) v h in
      CycleOk-drop n k t c (λ same. ground (miss, same, arith)) (v.cycles k c old);
  window = λ k c g h. let (miss, old) = get-erase-some n k c w (n ∷ t) v h in v.window k c g old;
}

try_send_done-IsValid :
    (n : ℕ) (t : List ℕ) (w : Coordinator) → IsValidFor (n ∷ t) w → IsValidFor t (try_send_done n w)
unfolding try_send_done
try_send_done-IsValid n t w v = elim (Option-cases (Dict.get n w.cycles)) [
  | inl e ↦ rw (e, try_send_done) (IsValidFor-drop n t w (λ c h. ground (arith, e, h)) v)
  | inr (c, e) ↦ elim (Bool-cases (c.arm1_ready && c.arm2_ready)) [
    | inl both ↦
        rw (e, (v.cycles n c e).is_open, both, try_send_done)
          (sends-IsValid t _ _ (erased-IsValid n t w v))
    | inr waits ↦
        rw (e, (v.cycles n c e).is_open, waits, try_send_done)
          (IsValidFor-drop n t w
            (λ d h.
              subst
                (λ (x : Option EnqueueCycle). elim x [
                  | none ↦ Unit
                  | some y ↦ (y.arm1_ready && y.arm2_ready) ≡ false
                ])
                (sym e ∙ h) waits)
            v)
  ]
]

try_all-IsValid : (t : List ℕ) (w : Coordinator) → IsValidFor t w → IsValid (try_all t w)
unfolding try_all
try_all-IsValid [] w v = v
try_all-IsValid (n ∷ t) w v = try_all-IsValid t (try_send_done n w) (try_send_done-IsValid n t w v)

handle_3d_frame-IsValid :
    (frame : Bytes) (now : ℕ) (w : Coordinator) → IsValid w → IsValid (handle_3d_frame frame now w)
unfolding handle_3d_frame
handle_3d_frame-IsValid frame now w v =
    let segments = with_text (split_on b'A' (strip frame)) in
    let r = store_segments segments now (w, []) in
    try_all-IsValid r.1 r.0 (store_segments-IsValid segments now w [] v)

pub step-IsValid : (i : ℕ × Input) (w : Coordinator) → IsValid w → IsValid (step i w)
unfolding step
step-IsValid (now, commands command count pointer sent) w v =
    handle_plc_enqueue-IsValid command count pointer now sent w v
step-IsValid (now, frame_2d frame replied sent) w v = handle_2d_frame-IsValid frame replied sent w v
step-IsValid (now, frame_3d frame) w v = handle_3d_frame-IsValid frame now w v

pub run-IsValid_coordinator :
    (is : List (ℕ × Input)) (w : Coordinator) → IsValid w → IsValid (run is w)
unfolding run
run-IsValid_coordinator [] w v = v
run-IsValid_coordinator (i ∷ is) w v = run-IsValid_coordinator is (step i w) (step-IsValid i w v)

new_coordinator-IsValid :
    (m : Manager) (policy : UnknownEnqueuePolicy)
    → Valid.IsValid m
    → IsValid (new_coordinator m policy)
unfolding has Dict.get
new_coordinator-IsValid m policy v = record {
  manager = v;
  distinct = tt;
  cycles = λ k c h. absurd (ground arith);
  window = λ k c g h. absurd (ground arith);
}

-- Whatever commands and frames come in any order, starting from any calls of a new queue manager,
-- the coordinator is well formed between two of them: its queue manager keeps the invariant of the
-- queues; every open cycle stands under its own count; its end was sent to the 3D camera only after
-- command 12; the cycle of the 2D window has not ended; and no open cycle has both arms ready, so
-- that `Done` goes out with the frame that completes a cycle.
pub run-new_coordinator-IsValid :
    (config : Config) (calls : List (ℕ × Call)) (policy : UnknownEnqueuePolicy)
    (is : List (ℕ × Input))
    → IsValid (run is (new_coordinator (Calls.run calls (new_manager config)) policy))
run-new_coordinator-IsValid config calls policy is =
    run-IsValid_coordinator is _
      (new_coordinator-IsValid _ policy (run-new_manager-IsValid config calls))
