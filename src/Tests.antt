-- ===== src/Tests.antt =====
-- Concrete ports and frames, and, in the children, the theorems applied to them.
mod Frames
mod Transmit
mod Receive
mod Registers
mod Calls
mod ClockBits
mod Lifecycle
mod Writers
use synccom_linux.Prelude.{ℕ, Bool, true, false, none, some, List, [], ◌∷◌, replicate}
use synccom_linux.Frame.{Frame, empty_frame}
use synccom_linux.Flist
use synccom_linux.Port.{Port, MemoryCap}
use synccom_linux.Port.Tx.{WriteAnswers, SubmitAnswers}

-- Three bytes in a block of four.
abbrev pub three : Frame
three = record {
  buffer = some (1 ∷ 2 ∷ 3 ∷ 0 ∷ []);
  data_length = 3;
  buffer_size = 4;
  frame_size = 3;
  lost_bytes = 0;
  number = 7;
  timestamp = replicate 16 0;
}

-- Six bytes in a block of eight.
abbrev pub six : Frame
six = record {
  buffer = some (10 ∷ 11 ∷ 12 ∷ 13 ∷ 14 ∷ 15 ∷ 0 ∷ 0 ∷ []);
  data_length = 6;
  buffer_size = 8;
  frame_size = 6;
  lost_bytes = 0;
  number = 8;
  timestamp = replicate 16 0;
}

-- A port with nothing queued, whose device answers every read with the bytes 0, 0, 0 and 5.
abbrev pub idle : Port
idle = record {
  channel = 0;
  queued_iframes = Flist.init;
  pending_iframes = Flist.init;
  queued_oframes = Flist.init;
  pending_iframe = none;
  pending_oframe = none;
  istream = empty_frame 0;
  register_storage = replicate 24 0;
  memory_cap = record { input = 1000; output = 1000 };
  last_isr_value = 0;
  append_status = 0;
  append_timestamp = 0;
  ignore_timeout = 0;
  rx_multiple = 0;
  tx_modifiers = 0;
  fx2_rev = 0x110;
  errors = none;
  frame_counter = 1;
  errorcheck1 = 0;
  errorcheck2 = 1;
  device = λ _. 0x05000000;
  sent = [];
  submitted_urbs = 8;
  send_oframe_scheduled = false;
  bclist_scheduled = false;
  input_woken = false;
  output_woken = false;
}

abbrev pub granted : WriteAnswers
granted = record { frame_granted = true; buffer_granted = true; uncopied = 0 }

abbrev pub uncopied : WriteAnswers
uncopied = record { frame_granted = true; buffer_granted = true; uncopied = 1 }
