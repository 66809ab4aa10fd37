-- ===== src/Parser/Frames.antt =====
-- What is packed is unpacked, and which messages are refused.
use model_lib.Prelude.{
  ℕ, ◌≡◌, ◌≢◌, ◌⊎◌, ◌∙◌, refl, ap, sym, ◌<◌, true, false, List, [], ◌∷◌, ◌++◌, some, arith, leb,
  map, ◌>>=◌, Option, none, Option-cases, length, length-append, Bool-cases, inl, inr, ◌↔◌,
}
use mathlib.Core.Path.{ap₂}
use model_lib.Text.{Bytes, ends_with, from_be16, hi_byte, lo_byte}
use model_lib.Text.Integer.{ℤ, pos, negsuc}
use model_lib.Text.Ends.{ends_with-snoc, drop_last-snoc}
use model_lib.Queue.History.{returned, value_error}
use model_lib.Parser.{
  arm, validate_data_format, FieldOrder, command_count_pointer, command_pointer_count, other_order,
  order_fields, parse_plc_enqueue_data, ParsedPlcEnqueueData,
}
use model_lib.Parser.Arm.{
  FloatOps, ProcessedArmData, fits, low, pack_points, pack_arm_data, unpack_points, unpack_fields,
  unpack_arm_data,
}

>>=-some :
    {A B : Type 0}
    → (m : Option A) (f : A → Option B) {b : B} → (m >>= f) ≡ some b
    → (a : A) × (m ≡ some a) × (f a ≡ some b)
>>=-some none f h = absurd (ground (arith, h))
>>=-some (some a) f h = (a, refl, h)

-- What `struct` reads back of the bytes of a float.
abbrev pub IsRounding : {F : Type 0} → FloatOps F → Type 0
IsRounding {F} ops =
    (x : F) (e : ℕ × ℕ × ℕ × ℕ) → ops.encode x ≡ some e → ops.decode e ≡ ops.rounded x

unpack_points-pack_points :
    {F : Type 0}
    → (ops : FloatOps F) → IsRounding ops
    → (xs : List F) (b : Bytes) → pack_points ops xs ≡ some b
    → unpack_points ops b ≡ map ops.rounded xs
unfolding unpack_points pack_points
unpack_points-pack_points ops law [] b h =
    let same : [] ≡ b = cc in ap (unpack_points ops) (sym same)
unpack_points-pack_points ops law (x ∷ xs) b h =
    let (e, encoded, next) = >>=-some (ops.encode x) _ h in
    let (rest, packed, last) = >>=-some (pack_points ops xs) _ next in
    let same : (e.0 ∷ e.1 ∷ e.2 ∷ e.3 ∷ rest) ≡ b = cc in
    ap (unpack_points ops) (sym same)
    ∙ ap₂ (◌∷◌) (law x e encoded) (unpack_points-pack_points ops law xs rest packed)

be16-bytes : (n : ℕ) → from_be16 (hi_byte n) (lo_byte n) ≡ n
be16-bytes n = omega arith

module _ {F : Type 0} (ops : FloatOps F) where
  unpack_fields-snoc :
      (a b c d e f : ℕ) (xs : Bytes)
      → unpack_fields ops (a ∷ b ∷ c ∷ d ∷ e ∷ f ∷ (xs ++ b'E' ∷ []))
        ≡ returned (record {
          flag = pos (from_be16 a b);
          sensor_count = from_be16 c d;
          pulse_pointer = from_be16 e f;
          points = unpack_points ops xs;
        })
  unfolding unpack_fields
  unpack_fields-snoc a b c d e f [] = refl
  unpack_fields-snoc a b c d e f (x ∷ xs) =
      ap
        (λ ys. returned (record {
          flag = pos (from_be16 a b);
          sensor_count = from_be16 c d;
          pulse_pointer = from_be16 e f;
          points = unpack_points ops ys;
        }))
        (drop_last-snoc b'E' (x ∷ xs))

  unpack_arm_data-snoc :
      (a b c d e f : ℕ) (xs : Bytes)
      → unpack_arm_data ops (a ∷ b ∷ c ∷ d ∷ e ∷ f ∷ (xs ++ b'E' ∷ []))
        ≡ unpack_fields ops (a ∷ b ∷ c ∷ d ∷ e ∷ f ∷ (xs ++ b'E' ∷ []))
  unfolding unpack_arm_data
  unpack_arm_data-snoc a b c d e f xs =
      rw (ends_with-snoc b'E' (a ∷ b ∷ c ∷ d ∷ e ∷ f ∷ xs), unpack_arm_data)

  -- The message of a flag, a count, a pointer and the bytes of the points.
  abbrev message : ℕ → ℕ → ℕ → Bytes → Bytes
  message n c p points =
      hi_byte n ∷ lo_byte n ∷ hi_byte c ∷ lo_byte c ∷ hi_byte p ∷ lo_byte p ∷ (points ++ b'E' ∷ [])

  unpack_arm_data-message :
      (n c p : ℕ) (points : Bytes)
      → unpack_arm_data ops (message n c p points)
        ≡ returned (record {
          flag = pos n;
          sensor_count = c;
          pulse_pointer = p;
          points = unpack_points ops points;
        })
  unpack_arm_data-message n c p points =
      unpack_arm_data-snoc _ _ _ _ _ _ points
      ∙ unpack_fields-snoc _ _ _ _ _ _ points
      ∙ rw (be16-bytes n, be16-bytes c, be16-bytes p) refl

  -- A packed message is that of the fields, and the flag is not negative.
  pack_arm_data-message :
      (f : ℤ) (c p : ℕ) (xs : List F) (bytes : Bytes)
      → pack_arm_data ops (record { flag = f; sensor_count = c; pulse_pointer = p; points = xs })
        ≡ some bytes
      → (points : Bytes) × (pack_points ops xs ≡ some points)
        × (f ≡ pos (low f))
        × (bytes ≡ message (low f) c p points)
  unfolding pack_arm_data fits
  pack_arm_data-message (pos n) c p xs bytes h = elim (Option-cases (pack_points ops xs)) [
    | inl refused ↦ absurd (ground (arith, refused, h))
    | inr (points, packed) ↦ (points, packed, refl, ground (arith, packed, h))
  ]
  pack_arm_data-message (negsuc n) c p xs bytes h = ground arith

  validate_data_format-message :
      (n c p : ℕ) (points : Bytes) → validate_data_format (message n c p points) arm ≡ true
  unfolding validate_data_format
  validate_data_format-message n c p points =
      rw
        (
          ends_with-snoc b'E'
              (hi_byte n ∷ lo_byte n ∷ hi_byte c ∷ lo_byte c ∷ hi_byte p ∷ lo_byte p ∷ points),
          length-append points (b'E' ∷ []),
        )
        (ground arith)

  -- Arm data that are packed without an exception pass the format test and are unpacked to the same
  -- flag, count and pointer, and to the points rounded to float32, where `struct` reads back a number
  -- that it wrote as the nearest float32.
  pub unpack_arm_data-pack_arm_data :
      IsRounding ops
      → (d : ProcessedArmData F) (bytes : Bytes) → pack_arm_data ops d ≡ some bytes
      → (unpack_arm_data ops bytes ≡ returned (record d { points = map ops.rounded d.points }))
        × (validate_data_format bytes arm ≡ true)
  unpack_arm_data-pack_arm_data law d bytes h =
      let (points, packed, e, m) =
        pack_arm_data-message d.flag d.sensor_count d.pulse_pointer d.points bytes h in
      (
        ap (unpack_arm_data ops) m
            ∙ unpack_arm_data-message (low d.flag) d.sensor_count d.pulse_pointer points
            ∙ ap
                (λ xs. returned (record {
                  flag = pos (low d.flag);
                  sensor_count = d.sensor_count;
                  pulse_pointer = d.pulse_pointer;
                  points = xs;
                }))
                (unpack_points-pack_points ops law d.points points packed)
            ∙ ap (λ f. returned (record d { flag = f; points = map ops.rounded d.points })) (sym e),
        ap (λ b. validate_data_format b arm) m
            ∙ validate_data_format-message (low d.flag) d.sensor_count d.pulse_pointer points,
      )

  unpack_fields-short :
      (bytes : Bytes) → leb 7 (length bytes) ≡ false → unpack_fields ops bytes ≡ value_error
  unfolding unpack_fields
  unpack_fields-short [] h = refl
  unpack_fields-short (a ∷ []) h = refl
  unpack_fields-short (a ∷ b ∷ []) h = refl
  unpack_fields-short (a ∷ b ∷ c ∷ []) h = refl
  unpack_fields-short (a ∷ b ∷ c ∷ d ∷ []) h = refl
  unpack_fields-short (a ∷ b ∷ c ∷ d ∷ e ∷ []) h = refl
  unpack_fields-short (a ∷ b ∷ c ∷ d ∷ e ∷ f ∷ []) h = refl
  unpack_fields-short (a ∷ b ∷ c ∷ d ∷ e ∷ f ∷ g ∷ rest) h = ground arith

  unpack_fields-long :
      (bytes : Bytes) → leb 7 (length bytes) ≡ true → unpack_fields ops bytes ≢ value_error
  unfolding unpack_fields
  unpack_fields-long [] h = ground arith
  unpack_fields-long (a ∷ []) h = ground arith
  unpack_fields-long (a ∷ b ∷ []) h = ground arith
  unpack_fields-long (a ∷ b ∷ c ∷ []) h = ground arith
  unpack_fields-long (a ∷ b ∷ c ∷ d ∷ []) h = ground arith
  unpack_fields-long (a ∷ b ∷ c ∷ d ∷ e ∷ []) h = ground arith
  unpack_fields-long (a ∷ b ∷ c ∷ d ∷ e ∷ f ∷ []) h = ground arith
  unpack_fields-long (a ∷ b ∷ c ∷ d ∷ e ∷ f ∷ g ∷ rest) h = λ k. ground arith

  -- Arm data are refused exactly where the format test fails.
  pub unpack_arm_data-error_iff :
      (bytes : Bytes)
      → (unpack_arm_data ops bytes ≡ value_error) ↔ (validate_data_format bytes arm ≡ false)
  unfolding unpack_arm_data validate_data_format
  unpack_arm_data-error_iff bytes = elim (Bool-cases (ends_with b'E' bytes)) [
    | inl e ↦ elim (Bool-cases (leb 7 (length bytes))) [
      | inl l ↦
          rw (e, l, unpack_arm_data, validate_data_format)
            (λ h. absurd (unpack_fields-long bytes l h), λ h. ground arith)
      | inr l ↦
          rw (e, l, unpack_arm_data, validate_data_format)
            (λ h. refl, λ h. unpack_fields-short bytes l)
    ]
    | inr e ↦ rw (e, unpack_arm_data, validate_data_format) (λ h. ground arith, λ h. refl)
  ]

order_fields-error :
    (order : FieldOrder) (c f g : ℕ) (rest : Bytes)
    → order_fields order c f g rest ≡ value_error
    → order ≡ other_order
unfolding order_fields
order_fields-error command_count_pointer c f g rest h = ground arith
order_fields-error command_pointer_count c f g rest h = ground arith
order_fields-error other_order c f g rest h = refl

-- Enqueue messages are refused exactly where they have less than six bytes or the order is unknown.
-- The two known orders agree on the command and the rest and swap the count and the pointer.
pub parse_plc_enqueue_data-orders :
    (order : FieldOrder) (bytes : Bytes)
    → ((parse_plc_enqueue_data order bytes ≡ value_error)
        ↔ ((length bytes < 6) ⊎ (order ≡ other_order)))
      × ((d e : ParsedPlcEnqueueData)
          → parse_plc_enqueue_data command_count_pointer bytes ≡ returned d
          → parse_plc_enqueue_data command_pointer_count bytes ≡ returned e
          → (d.command ≡ e.command)
            × (d.sensor_count ≡ e.enqueue_pointer)
            × (d.enqueue_pointer ≡ e.sensor_count)
            × (d.additional_data ≡ e.additional_data))
unfolding parse_plc_enqueue_data order_fields
parse_plc_enqueue_data-orders order (a ∷ b ∷ c ∷ d ∷ e ∷ f ∷ rest) =
    ((λ h. inr (order_fields-error order _ _ _ rest h), λ h. ground arith), λ x y h k. ground arith)
parse_plc_enqueue_data-orders order [] =
    ((λ h. inl (omega arith), λ h. refl), λ x y h k. ground arith)
parse_plc_enqueue_data-orders order (a ∷ []) =
    ((λ h. inl (omega arith), λ h. refl), λ x y h k. ground arith)
parse_plc_enqueue_data-orders order (a ∷ b ∷ []) =
    ((λ h. inl (omega arith), λ h. refl), λ x y h k. ground arith)
parse_plc_enqueue_data-orders order (a ∷ b ∷ c ∷ []) =
    ((λ h. inl (omega arith), λ h. refl), λ x y h k. ground arith)
parse_plc_enqueue_data-orders order (a ∷ b ∷ c ∷ d ∷ []) =
    ((λ h. inl (omega arith), λ h. refl), λ x y h k. ground arith)
parse_plc_enqueue_data-orders order (a ∷ b ∷ c ∷ d ∷ e ∷ []) =
    ((λ h. inl (omega arith), λ h. refl), λ x y h k. ground arith)
