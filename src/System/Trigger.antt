-- ===== src/System/Trigger.antt =====
-- The message that starts the camera, from the message of the PLC.
use model_lib.Prelude.{ℕ, ◌<◌}
use model_lib.Parser.{ParsedPlcEnqueueData}

abbrev pub IsByte : ℕ → Type 0
IsByte c = c < 256

abbrev pub IsWord : ℕ → Type 0
IsWord n = n < 65536

-- The fields of a message.
abbrev AreWords : ParsedPlcEnqueueData → Type 0
AreWords d = IsWord d.command × IsWord d.sensor_count × IsWord d.enqueue_pointer
