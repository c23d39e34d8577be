-- ===== src/Port.antt =====
-- `struct synccom_port`, src/port.h, with what its functions in src/port.c work on beside it: the two
-- file-level variables of the receive path, the counter of frame.c, and the USB device.
-- The children hold the functions, a file for each group of src/port.c, and what is proved of them.
pub mod Usb
pub mod Settings
pub mod Memory
pub mod Tx
pub mod Rx
pub mod Clock
pub mod Init
use synccom_linux.Prelude.{ℕ, ◌*◌, Bool, Option, none, some, List, [], ◌∷◌, ◌++◌}
use synccom_linux.Frame.{Frame}
use synccom_linux.Flist.{Flist}
use synccom_linux.Registers.{Registers}

-- The error numbers that the driver returns or tests; C's value is the negative of the number.
pub data Errno : Type 0 where
  enomem enobufs eagain erestartsys eopnotsupp einval efault enotty enodev : Errno
  eio epipe enoent econnreset eshutdown etimedout : Errno

-- An `int` or `ssize_t` result: a count or code that is not negative, or an error.
pub data Ret : Type 0 where
  done : ℕ → Ret
  fail : Errno → Ret

-- `struct synccom_memory_cap`; an `int` is its 32-bit pattern.
pub record MemoryCap : Type 0 where
  pub input : ℕ
  pub output : ℕ

-- A bulk transfer to the device: the endpoint, the bytes that the code put into the buffer, and the size
-- that it asks to be sent.
pub record Message : Type 0 where
  pub endpoint : ℕ
  pub bytes : List ℕ
  pub size : ℕ

-- `device` stands for the hardware: the word that it answers when it is read after the transfers of the
-- list. `sent` are the transfers so far. The flags say that a tasklet or a work item is scheduled, and
-- that the sleepers of a wait queue have been woken; `submitted_urbs` counts the receive transfers that
-- wait for data. Of the USB bookkeeping nothing else is kept.
pub record Port : Type 0 where
  pub channel : ℕ
  pub queued_iframes : Flist
  pub pending_iframes : Flist
  pub queued_oframes : Flist
  pub pending_iframe : Option Frame
  pub pending_oframe : Option Frame
  pub istream : Frame
  pub register_storage : Registers
  pub memory_cap : MemoryCap
  pub last_isr_value : ℕ
  pub append_status : ℕ
  pub append_timestamp : ℕ
  pub ignore_timeout : ℕ
  pub rx_multiple : ℕ
  pub tx_modifiers : ℕ
  pub fx2_rev : ℕ
  pub errors : Option Errno
  pub frame_counter : ℕ
  pub errorcheck1 : ℕ
  pub errorcheck2 : ℕ
  pub device : List Message → ℕ
  pub sent : List Message
  pub submitted_urbs : ℕ
  pub send_oframe_scheduled : Bool
  pub bclist_scheduled : Bool
  pub input_woken : Bool
  pub output_woken : Bool

-- `usb_bulk_msg` to the device.
abbrev pub bulk_out : Port → ℕ → List ℕ → ℕ → Port
bulk_out p endpoint bytes size = record p {
  sent = p.sent ++ (record { endpoint = endpoint; bytes = bytes; size = size } ∷ []);
}
