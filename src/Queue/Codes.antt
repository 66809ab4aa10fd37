-- ===== src/Queue/Codes.antt =====
-- The codes that go out: feedback codes, and the default payloads.
use model_lib.Prelude.{
  ℕ, ◌+◌, ◌-◌, ◌%◌, ◌*◌, ◌/◌, ◌≤◌, ◌<◌, ◌≡◌, refl, ap, ◌⊎◌, ◌≢◌, true, false, inl, inr, Bool-cases,
  ==_iff, ◌==◌, ◌↔◌, [], ◌∷◌, ◌++◌, Option, none, some, arith, length,
}
use mathlib.Core.List.{append_assoc}
use model_lib.Text.{Bytes, is_space}
use model_lib.Text.Ends.{strip-cons_snoc, ends_with-snoc, drop_last-snoc}
use model_lib.Text.Decimal.{decimal, decimal4}
use model_lib.Queue.State.{Config}
use model_lib.Queue.History.{
  returned, value_error, normal_status, done_status, is_feedback_status, build_arm_feedback_code,
}
use model_lib.Queue.Defaults.{default_marker_for_arm, default_payload_for_arm}
use model_lib.Queue.Camera.{extract_arm_id, arm_of_text}

length-status : (s : Bytes) → is_feedback_status s ≡ true → length s ≡ 1
length-status [] h = absurd (ground (arith, h))
length-status (c ∷ []) h = refl
length-status (c ∷ d ∷ r) h = absurd (ground (arith, h))

status_other : (s : Bytes) → is_feedback_status s ≡ false → (s ≢ normal_status) × (s ≢ done_status)
status_other s h = (
  λ e. ground (arith, h, ap is_feedback_status e),
  λ e. ground (arith, h, ap is_feedback_status e),
)

status_known : (s : Bytes) → is_feedback_status s ≡ true → (s ≡ normal_status) ⊎ (s ≡ done_status)
status_known [] h = absurd (ground (arith, h))
status_known (c ∷ []) h = elim (Bool-cases (c == b'N')) [
  | inl e ↦ inl (ap (λ x. x ∷ []) ((==_iff c b'N').0 e))
  | inr e ↦ inr (ap (λ x. x ∷ []) ((==_iff c b'D').0 (ground (arith, h, e))))
]
status_known (c ∷ d ∷ r) h = absurd (ground (arith, h))

-- A feedback code is refused exactly for an arm that is not 1 to 9 or a status other than N and D.
-- A code is the digit of the arm and the status, two characters, and two calls with the same code had
-- the same arm and the same status.
pub build_arm_feedback_code_faithful :
    (a b : ℕ) (s t : Bytes)
    → ((build_arm_feedback_code a s ≡ value_error)
        ↔ ((a < 1) ⊎ (9 < a) ⊎ ((s ≢ normal_status) × (s ≢ done_status))))
      × ((code : Bytes)
          → build_arm_feedback_code a s ≡ returned code
          → (code ≡ (48 + a) ∷ s)
            × (length code ≡ 2)
            × (build_arm_feedback_code b t ≡ returned code → (a ≡ b) × (s ≡ t)))
unfolding build_arm_feedback_code
build_arm_feedback_code_faithful a b s t = elim (Bool-cases (is_feedback_status s)) [
  | inl known ↦ (
    (
      λ h. ground (arith, known, h),
      λ bad. elim bad [
        | inl low ↦ ground (arith, low)
        | inr (inl high) ↦ ground (arith, high)
        | inr (inr (n, d)) ↦ elim (status_known s known) [
          | inl e ↦ absurd (n e)
          | inr e ↦ absurd (d e)
        ]
      ],
    ),
    λ code h. (
      ground (arith, known, h),
      ground (arith, known, h, length-status s known),
      λ k. ground (arith, known, h, k),
    ),
  )
  | inr other ↦ (
    (λ h. inr (inr (status_other s other)), λ bad. ground (arith, other)),
    λ code h. absurd (ground (arith, other, h)),
  )
]

-- The text of a count in a default payload.
abbrev count_text : Option ℕ → Bytes
count_text count = elim count [ none ↦ b'0' ∷ [] | some n ↦ decimal n ]

default_body : Config → ℕ → Option ℕ → Bytes
default_body config arm_id count =
    decimal4 (default_marker_for_arm config arm_id) ++ (b',' ∷ (count_text count ++ b')' ∷ []))

default_payload-shape :
    (config : Config) (arm_id : ℕ) (count : Option ℕ)
    → default_payload_for_arm config arm_id count
      ≡ b'(' ∷ (default_body config arm_id count ++ b'E' ∷ [])
unfolding default_payload_for_arm default_body
default_payload-shape config arm_id count = simp append_assoc

arm_of_text-digit :
    (c : ℕ) (rest : Bytes) → (c ≡ 49) ⊎ (c ≡ 50) → arm_of_text (b'(' ∷ c ∷ rest) ≡ some (c - 48)
unfolding arm_of_text
arm_of_text-digit c rest h = ground arith

default_body-arm :
    (config : Config) (arm_id : ℕ) (count : Option ℕ)
    → (arm_id ≡ 1) ⊎ (arm_id ≡ 2)
    → arm_id * 1000 ≤ default_marker_for_arm config arm_id
    → default_marker_for_arm config arm_id < arm_id * 1000 + 1000
    → arm_of_text (b'(' ∷ default_body config arm_id count) ≡ some arm_id
unfolding default_body decimal4
default_body-arm config arm_id count two lo hi =
    let k = default_marker_for_arm config arm_id in
    let digit : k / 1000 % 10 ≡ arm_id = ground arith in
    rw (arm_of_text-digit (48 + k / 1000 % 10) _ (ground arith)) (ap some (ground arith))

-- The default payload of an arm is recognised as that arm's camera data, whatever its count, where
-- the configured marker has four digits and begins with the arm's: the arm is 1 or 2, and the marker
-- stands from arm * 1000 to arm * 1000 + 999.
pub extract_arm_id-default_payload :
    (config : Config) (arm_id : ℕ) (count : Option ℕ)
    → (arm_id ≡ 1) ⊎ (arm_id ≡ 2)
    → arm_id * 1000 ≤ default_marker_for_arm config arm_id
    → default_marker_for_arm config arm_id < arm_id * 1000 + 1000
    → extract_arm_id (default_payload_for_arm config arm_id count) ≡ some arm_id
unfolding extract_arm_id
extract_arm_id-default_payload config arm_id count two lo hi =
    let body = default_body config arm_id count in
    rw
      (
        default_payload-shape config arm_id count,
        strip-cons_snoc b'(' body b'E' (unfold is_space in refl) (unfold is_space in refl),
        ends_with-snoc b'E' (b'(' ∷ body),
        drop_last-snoc b'E' (b'(' ∷ body),
      )
      (default_body-arm config arm_id count two lo hi)
