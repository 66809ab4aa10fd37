-- ===== src/Plc/Pointers.antt =====
-- The changes of the dequeue pointers, as the PLC handler and the queue manager each keep them.
use model_lib.Prelude.{ℕ, ◌≡◌, refl, [], ◌∷◌, some, arith, ◌==◌, if◌then◌else◌}
use model_lib.Dict
use model_lib.Dict.{get-put}
use model_lib.Text.{Bytes, from_be16}
use model_lib.Queue.History.{returned, value_error}
use model_lib.Parser.{parse_plc_dequeue_data, changes_from, detect_pointer_changes}

-- The last pointers and the changes, after one arm.
unfoldable pub compare_pointer : ℕ → ℕ → Dict.Dict ℕ × Dict.Dict ℕ → Dict.Dict ℕ × Dict.Dict ℕ
unfolding Dict.get Dict.put
compare_pointer arm_id pointer (last, changed) =
    if pointer == Dict.get_or arm_id 0 last
    then (last, changed)
    else (Dict.put arm_id pointer last, Dict.put arm_id pointer changed)

-- `_parse_and_detect_dequeue_changes`: the new `last_dequeue_pointers`, and the changes.
unfoldable pub parse_and_detect_dequeue_changes : Bytes → Dict.Dict ℕ → Dict.Dict ℕ × Dict.Dict ℕ
unfolding compare_pointer
parse_and_detect_dequeue_changes (a ∷ b ∷ c ∷ d ∷ []) last =
    compare_pointer 2 (from_be16 c d) (compare_pointer 1 (from_be16 a b) (last, []))
parse_and_detect_dequeue_changes _ last = (last, [])

-- The PLC handler finds in a message the changes that the parser finds in it against the pointers
-- noted last, and none in a message that the parser refuses. A message that comes again has none.
pub parse_and_detect_dequeue_changes-detect :
    (frame : Bytes) (last : Dict.Dict ℕ)
    → ((parse_and_detect_dequeue_changes frame last).1 ≡ (elim (parse_plc_dequeue_data frame) [
      | value_error ↦ []
      | returned current ↦ detect_pointer_changes current (some last)
    ]))
      × ((parse_and_detect_dequeue_changes frame (parse_and_detect_dequeue_changes frame last).0).1
          ≡ [])
unfolding parse_and_detect_dequeue_changes parse_plc_dequeue_data compare_pointer changes_from
    detect_pointer_changes
parse_and_detect_dequeue_changes-detect (a ∷ b ∷ c ∷ d ∷ []) last =
    let p = from_be16 a b in
    let q = from_be16 c d in
    (
      ground (arith, get-put 1 2 p last),
      ground (
        arith,
        get-put 1 2 p last,
        get-put 1 1 p last,
        get-put 2 1 q last,
        get-put 2 2 q last,
        get-put 2 1 q (Dict.put 1 p last),
        get-put 2 2 q (Dict.put 1 p last),
      ),
    )
parse_and_detect_dequeue_changes-detect [] last = (refl, refl)
parse_and_detect_dequeue_changes-detect (a ∷ []) last = (refl, refl)
parse_and_detect_dequeue_changes-detect (a ∷ b ∷ []) last = (refl, refl)
parse_and_detect_dequeue_changes-detect (a ∷ b ∷ c ∷ []) last = (refl, refl)
parse_and_detect_dequeue_changes-detect (a ∷ b ∷ c ∷ d ∷ e ∷ f) last = (refl, refl)
