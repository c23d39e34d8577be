-- ===== src/Port/Clock/Sent.antt =====
-- The messages of `synccom_port_set_clock_bits`, src/port.c, as the firmware and the clock generator on
-- the pins of FCR read them.
use synccom_linux.Prelude.{ℕ, List, [], ◌∷◌, if◌then◌else◌, ◌==◌}
use synccom_linux.Registers.{fcr_offset}
use synccom_linux.Port.{Port, Message}
use synccom_linux.Port.Usb.Wire.{Command, read_from, write_to, unknown, parse}

-- The values that a list of messages writes to FCR, as the firmware reads it.
abbrev pub with_fcr_value : Command → List ℕ → List ℕ
with_fcr_value (read_from offset) values = values
with_fcr_value (write_to offset value) values =
    if offset == fcr_offset then value ∷ values else values
with_fcr_value unknown values = values

abbrev pub fcr_values : List Message → List ℕ
fcr_values [] = []
fcr_values (m ∷ ms) = with_fcr_value (parse m.bytes) (fcr_values ms)
