-- ===== src/Port/Memory.antt =====
-- The memory that a port's frames use, and the purge of either direction, src/port.c.
pub mod Purge
use synccom_linux.Prelude.{ℕ, Bool, true, Option, none, some, add32}
use synccom_linux.Frame
use synccom_linux.Frame.{Frame}
use synccom_linux.Flist
use synccom_linux.Port.{Port, Ret, done}
use synccom_linux.Port.Usb.{execute_rres, execute_tres}

abbrev pub pending_length : Option Frame → ℕ
pending_length none = 0
pending_length (some f) = Frame.get_length f

-- `synccom_port_get_input_memory_usage`
unfoldable pub get_input_memory_usage : Port → ℕ
get_input_memory_usage p =
    add32 (add32 p.queued_iframes.estimated_memory_usage (Frame.get_length p.istream))
      (pending_length p.pending_iframe)

-- `synccom_port_get_output_memory_usage`
unfoldable pub get_output_memory_usage : Port → ℕ
get_output_memory_usage p =
    add32 p.queued_oframes.estimated_memory_usage (pending_length p.pending_oframe)

-- `synccom_port_purge_rx`: the receiver is reset, and all that has been received is dropped. The code of
-- the reset command is not returned.
unfoldable pub purge_rx : Port → Ret × Port
purge_rx p =
    let p' = (execute_rres p).1 in
    (
      done 1,
      record p' {
        queued_iframes = Flist.clear p'.queued_iframes;
        pending_iframes = Flist.clear p'.pending_iframes;
        istream = Frame.clear p'.istream;
        pending_iframe = none;
      },
    )

-- `synccom_port_purge_tx`: the transmitter is reset, all that waits to be sent is dropped, and writers
-- are woken.
unfoldable pub purge_tx : Port → Ret × Port
purge_tx p =
    let p' = (execute_tres p).1 in
    (
      done 1,
      record p' {
        queued_oframes = Flist.clear p'.queued_oframes;
        pending_oframe = none;
        output_woken = true;
      },
    )
