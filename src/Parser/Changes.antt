-- ===== src/Parser/Changes.antt =====
-- The changes between two pointer messages.
use model_lib.Prelude.{ℕ, ◌≡◌, ◌∙◌, refl, [], ◌∷◌, Option, none, some, arith, ◌==◌, if◌then◌else◌}
use model_lib.Dict
use model_lib.Dict.{get-put}
use model_lib.Dict.Distinct.{Distinct}
use model_lib.Parser.{changes_from, detect_pointer_changes}

-- What changed for an arm: its pointer, if it has one that is not the last one, or 0 where there
-- was none.
unfoldable pub change_of : Option ℕ → Dict.Dict ℕ → ℕ → Option ℕ
unfolding Dict.get
change_of none last arm_id = none
change_of (some pointer) last arm_id =
    if pointer == Dict.get_or arm_id 0 last then none else some pointer

unfoldable keep_or : Option ℕ → Option ℕ → Option ℕ
keep_or none old = old
keep_or (some v) old = some v

keep_or-none : (o : Option ℕ) → keep_or o none ≡ o
unfolding keep_or
keep_or-none none = refl
keep_or-none (some v) = refl

changes_from-get :
    (last current changes : Dict.Dict ℕ) (arm_id : ℕ)
    → Distinct current
    → Dict.get arm_id (changes_from last current changes)
      ≡ keep_or (change_of (Dict.get arm_id current) last arm_id) (Dict.get arm_id changes)
unfolding changes_from change_of keep_or Dict.get
changes_from-get last [] changes arm_id h = refl
changes_from-get last ((j, p) ∷ rest) changes arm_id h = ground (
  arith,
  changes_from-get last rest changes arm_id h.1,
  changes_from-get last rest (Dict.put j p changes) arm_id h.1,
  get-put j arm_id p changes,
  h.0,
)

-- `detect_pointer_changes` has an arm exactly where its pointer in the new message is not the one of
-- the last message (or 0, where that had none), with the new pointer; and it has every arm where
-- there was no last message.
pub detect_pointer_changes-get :
    (current last : Dict.Dict ℕ) (arm_id : ℕ)
    → Distinct current
    → (Dict.get arm_id (detect_pointer_changes current (some last))
        ≡ change_of (Dict.get arm_id current) last arm_id)
      × (Dict.get arm_id (detect_pointer_changes current none) ≡ Dict.get arm_id current)
unfolding detect_pointer_changes keep_or
detect_pointer_changes-get current last arm_id h =
    (changes_from-get last current [] arm_id h ∙ keep_or-none _, refl)
