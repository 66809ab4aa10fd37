-- ===== src/Parser/Arm.antt =====
-- `pack_arm_data`, `unpack_arm_data` and `process_camera_data`. The four bytes of a float32 are the
-- work of `struct`, which is a parameter here.
use model_lib.Prelude.{
  ◌>>=◌, ℕ, Bool, false, ◌&&◌, List, [], ◌∷◌, ◌++◌, Option, none, some, ltb, if◌then◌else◌,
}
use model_lib.Text.{Bytes, from_be16, hi_byte, lo_byte, ends_with, drop_last}
use model_lib.Text.Integer.{ℤ, pos, negsuc}
use model_lib.Queue.History.{Outcome, returned, value_error}

-- What `struct` does with `"!f"`, and `int` with a float: `none` stands for its exception, which
-- `struct` raises for a number that a float32 cannot hold. `rounded` is the float32 nearest to a
-- number.
pub record FloatOps (F : Type 0) : Type 0 where
  pub encode : F → Option (ℕ × ℕ × ℕ × ℕ)
  pub decode : ℕ × ℕ × ℕ × ℕ → F
  pub rounded : F → F
  pub truncate : F → Option ℤ

pub record ProcessedArmData (F : Type 0) : Type 0 where
  pub flag : ℤ
  pub sensor_count : ℕ
  pub pulse_pointer : ℕ
  pub points : List F

-- The flag is the first point; an exception of `int` goes on to the caller.
unfoldable pub process_camera_data :
    {F : Type 0} → FloatOps F → ℕ → ℕ → List F → Option (ProcessedArmData F)
process_camera_data ops count pointer [] =
    some (record { flag = pos 0; sensor_count = count; pulse_pointer = pointer; points = [] })
process_camera_data ops count pointer (x ∷ xs) = elim (ops.truncate x) [
  | none ↦ none
  | some n ↦ some (record { flag = n; sensor_count = count; pulse_pointer = pointer; points = xs })
]

-- `none` where `struct` refuses one of the points.
unfoldable pub pack_points : {F : Type 0} → FloatOps F → List F → Option Bytes
pack_points ops [] = some []
pack_points ops (x ∷ xs) = do
  e ← ops.encode x
  rest ← pack_points ops xs
  some (e.0 ∷ e.1 ∷ e.2 ∷ e.3 ∷ rest)

-- `struct.pack("!H", n)`, which refuses what 16 bits cannot hold.
unfoldable pub fits : ℤ → Bool
fits (pos n) = ltb n 65536
fits (negsuc n) = false

abbrev pub low : ℤ → ℕ
low (pos n) = n
low (negsuc n) = 0

-- `none` stands for the exception of `struct`.
unfoldable pub pack_arm_data : {F : Type 0} → FloatOps F → ProcessedArmData F → Option Bytes
unfolding fits pack_points
pack_arm_data ops d =
    if fits d.flag && (ltb d.sensor_count 65536 && ltb d.pulse_pointer 65536)
    then (pack_points ops d.points >>= λ points. some (
        hi_byte (low d.flag)
        ∷ lo_byte (low d.flag)
        ∷ hi_byte d.sensor_count
        ∷ lo_byte d.sensor_count
        ∷ hi_byte d.pulse_pointer
        ∷ lo_byte d.pulse_pointer
        ∷ (points ++ b'E' ∷ [])))
    else none

-- The points of the slices of four bytes; a shorter rest is passed over.
unfoldable pub unpack_points : {F : Type 0} → FloatOps F → Bytes → List F
unpack_points ops (a ∷ b ∷ c ∷ d ∷ rest) = ops.decode (a, b, c, d) ∷ unpack_points ops rest
unpack_points ops _ = []

-- The fields, once the terminator is there.
unfoldable pub unpack_fields : {F : Type 0} → FloatOps F → Bytes → Outcome (ProcessedArmData F)
unfolding unpack_points drop_last
unpack_fields ops (a ∷ b ∷ c ∷ d ∷ e ∷ f ∷ g ∷ rest) = returned (record {
  flag = pos (from_be16 a b);
  sensor_count = from_be16 c d;
  pulse_pointer = from_be16 e f;
  points = unpack_points ops (drop_last (g ∷ rest));
})
unpack_fields ops _ = value_error

unfoldable pub unpack_arm_data : {F : Type 0} → FloatOps F → Bytes → Outcome (ProcessedArmData F)
unfolding unpack_fields ends_with
unpack_arm_data ops bytes = if ends_with b'E' bytes then unpack_fields ops bytes else value_error
