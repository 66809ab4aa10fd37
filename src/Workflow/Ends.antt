-- ===== src/Workflow/Ends.antt =====
-- The end message to the 3D camera.
use model_lib.Prelude.{
  ℕ, ◌≡◌, refl, ap, ◌∙◌, Bool, true, false, [], ◌∷◌, ◌++◌, Option, none, some, arith, if◌then◌else◌,
  if_else, if_then, ==_refl,
}
use model_lib.Dict
use model_lib.Dict.{get-put}
use model_lib.Text.{Bytes, is_ascii}
use model_lib.Text.Integer.{pos}
use model_lib.Workflow.State.{EnqueueCycle, Coordinator, to_2d, to_3d, sends}
use model_lib.Workflow.Commands.{
  no_type, normalize_2d_type, is_truthy, first_truthy, end_message, put_cycle, send_3d_end,
  found_cycle, ended, note_end, handle_end,
}
use model_lib.Workflow.Camera2d.{result, take_type, take_result, handle_parsed}

get-put_self :
    (k : ℕ) (c : EnqueueCycle) (d : Dict.Dict EnqueueCycle) → Dict.get k (Dict.put k c d) ≡ some c
get-put_self k c d = ground (arith, ==_refl k, get-put k k c d)

-- A cycle whose end was sent takes no further end and no type.
send_3d_end-sent :
    (k : ℕ) (override : Option Bytes) (sent : Bool) (w : Coordinator) (c : EnqueueCycle)
    → Dict.get k w.cycles ≡ some c
    → c.end_sent_to_3d ≡ true
    → send_3d_end k override sent w ≡ w
unfolding send_3d_end
send_3d_end-sent k override sent w c e s = rw (e, s, send_3d_end)

take_type-sent :
    (k : ℕ) (part_type : Bytes) (sent : Bool) (w : Coordinator) (c : EnqueueCycle)
    → Dict.get k w.cycles ≡ some c
    → c.end_sent_to_3d ≡ true
    → take_type k part_type sent w ≡ w
unfolding take_type
take_type-sent k part_type sent w c e s = rw (e, s, take_type)

-- The type that goes out with command 12: that of the cycle, or 00,00 where it has none.
abbrev pub type_at_end : Option Bytes → Bytes
type_at_end part_type = normalize_2d_type (if is_truthy part_type then part_type else some no_type)

send_3d_end-open :
    (k : ℕ) (override : Option Bytes) (sent : Bool) (w : Coordinator) (c : EnqueueCycle)
    → Dict.get k w.cycles ≡ some c
    → c.end_sent_to_3d ≡ false
    → is_ascii (normalize_2d_type (first_truthy override c.part_type)) ≡ true
    → send_3d_end k override sent w
      ≡ sends
          (to_3d (end_message c.count (normalize_2d_type (first_truthy override c.part_type))) sent)
          (put_cycle k (record c { end_sent_to_3d = sent }) w)
unfolding send_3d_end
send_3d_end-open k override sent w c e s a =
    rw (e, send_3d_end)
      (if_else c.end_sent_to_3d w _ s
        ∙ if_then (is_ascii (normalize_2d_type (first_truthy override c.part_type))) _ _ a)

first_truthy-type :
    (o : Option Bytes)
    → first_truthy (if is_truthy o then none else some no_type) o
      ≡ (if is_truthy o then o else some no_type)
first_truthy-type none = refl
first_truthy-type (some []) = refl
first_truthy-type (some (x ∷ xs)) = refl

-- The state after command 12.
abbrev after_end : ℕ → ℕ → Bool → Coordinator → Coordinator
after_end count pointer sent w =
    let c = found_cycle count pointer w in
    sends (to_3d (end_message c.count (type_at_end c.part_type)) sent) (
      put_cycle count (record (ended pointer c) { end_sent_to_3d = sent })
        (note_end count pointer w))

note_end-get :
    (count pointer : ℕ) (w : Coordinator)
    → Dict.get count (note_end count pointer w).cycles
      ≡ some (ended pointer (found_cycle count pointer w))
unfolding note_end put_cycle
note_end-get count pointer w = get-put_self count _ w.cycles

handle_end-open :
    (count pointer : ℕ) (sent : Bool) (w : Coordinator)
    → (found_cycle count pointer w).end_sent_to_3d ≡ false
    → is_ascii (type_at_end (found_cycle count pointer w).part_type) ≡ true
    → handle_end count pointer sent w ≡ after_end count pointer sent w
unfolding handle_end
handle_end-open count pointer sent w s a =
    let c = found_cycle count pointer w in
    send_3d_end-open count _ sent (note_end count pointer w) (ended pointer c)
      (note_end-get count pointer w) s
      (ap (λ t. is_ascii (normalize_2d_type t)) (first_truthy-type c.part_type) ∙ a)
    ∙ ap
        (λ t. sends (to_3d (end_message c.count (normalize_2d_type t)) sent) (
          put_cycle count (record (ended pointer c) { end_sent_to_3d = sent })
            (note_end count pointer w)))
        (first_truthy-type c.part_type)

after_end-get :
    (count pointer : ℕ) (sent : Bool) (w : Coordinator)
    → Dict.get count (after_end count pointer sent w).cycles
      ≡ some (record (ended pointer (found_cycle count pointer w)) { end_sent_to_3d = sent })
unfolding put_cycle
after_end-get count pointer sent w = get-put_self count _ (note_end count pointer w).cycles

note_end-sendings :
    (count pointer : ℕ) (w : Coordinator) → (note_end count pointer w).sendings ≡ w.sendings
unfolding note_end put_cycle
note_end-sendings count pointer w = refl

after_end-sendings :
    (count pointer : ℕ) (sent : Bool) (w : Coordinator)
    → (after_end count pointer sent w).sendings
      ≡ w.sendings
        ++ to_3d
            (end_message
              (found_cycle count pointer w).count
              (type_at_end (found_cycle count pointer w).part_type))
            sent
          ∷ []
unfolding put_cycle
after_end-sendings count pointer sent w =
    let c = found_cycle count pointer w in
    ap (λ l. l ++ to_3d (end_message c.count (type_at_end c.part_type)) sent ∷ [])
      (note_end-sendings count pointer w)

-- A further command 12 in a cycle whose end was sent only notes its pointer.
handle_end-sent :
    (count pointer : ℕ) (sent : Bool) (w : Coordinator) (c : EnqueueCycle)
    → Dict.get count w.cycles ≡ some c
    → c.end_sent_to_3d ≡ true
    → handle_end count pointer sent w ≡ note_end count pointer w
unfolding handle_end
handle_end-sent count pointer sent w c e s =
    let found : found_cycle count pointer w ≡ c = rw (e, found_cycle) refl in
    send_3d_end-sent count _ sent (note_end count pointer w)
      (ended pointer (found_cycle count pointer w)) (note_end-get count pointer w)
      (ap (λ x. x.end_sent_to_3d) found ∙ s)

handle_parsed-sent :
    (count : ℕ) (part_type : Bytes) (replied sent : Bool) (w : Coordinator) (c : EnqueueCycle)
    → Dict.get count w.cycles ≡ some c
    → c.end_sent_to_3d ≡ true
    → handle_parsed (some (result (pos count) part_type)) replied sent w
      ≡ sends (to_2d (b'O' ∷ b'K' ∷ []) replied) w
unfolding handle_parsed take_result
handle_parsed-sent count part_type replied sent w c e s =
    take_type-sent count part_type sent (sends (to_2d (b'O' ∷ b'K' ∷ []) replied) w) c e s

-- If the end of the cycle was not sent yet and its type is ASCII, command 12 sends the 3D camera one
-- message with the count and the type, with 00,00 in place of a missing type, whatever the 2D camera
-- did, and marks the cycle if the message went out. In any later state in which the count has a cycle
-- with that mark, a further command 12 sends nothing and only notes its pointer and closes the window
-- of the count, and a type of that count is answered with OK and changes nothing else.
pub handle_end_once :
    (count pointer : ℕ) (sent : Bool) (w : Coordinator)
    → (found_cycle count pointer w).count ≡ count
    → (found_cycle count pointer w).end_sent_to_3d ≡ false
    → is_ascii (type_at_end (found_cycle count pointer w).part_type) ≡ true
    → (later : Coordinator) (cycle : EnqueueCycle) → Dict.get count later.cycles ≡ some cycle
    → cycle.end_sent_to_3d ≡ true
    → (next : ℕ) (part_type : Bytes) (replied again : Bool)
    → let c = found_cycle count pointer w in
      let after = handle_end count pointer sent w in
      (after.sendings ≡ w.sendings ++ to_3d (end_message count (type_at_end c.part_type)) sent ∷ [])
      × (Dict.get count after.cycles ≡ some (record (ended pointer c) { end_sent_to_3d = sent }))
      × (handle_end count next again later ≡ note_end count next later)
      × ((handle_end count next again later).sendings ≡ later.sendings)
      × (handle_parsed (some (result (pos count) part_type)) replied again later
          ≡ sends (to_2d (b'O' ∷ b'K' ∷ []) replied) later)
handle_end_once count pointer sent w same s a later cycle present marked next part_type replied
      again =
    let c = found_cycle count pointer w in
    let e = handle_end-open count pointer sent w s a in
    let further = handle_end-sent count next again later cycle present marked in
    (
      ap (λ x. x.sendings) e
          ∙ after_end-sendings count pointer sent w
          ∙ ap (λ n. w.sendings ++ to_3d (end_message n (type_at_end c.part_type)) sent ∷ []) same,
      ap (λ x. Dict.get count x.cycles) e ∙ after_end-get count pointer sent w,
      further,
      ap (λ x. x.sendings) further ∙ note_end-sendings count next later,
      handle_parsed-sent count part_type replied again later cycle present marked,
    )
