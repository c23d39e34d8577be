-- ===== src/Port/Init.antt =====
-- `initialize` of src/port.c, with the defaults of src/config.h: the state of a port when its device has
-- been probed.
pub mod Defaults
use synccom_linux.Prelude.{
  ℕ, ◌-◌, ◌^◌, Bool, true, false, Option, none, some, List, [], ◌∷◌, if◌then◌else◌,
}
use synccom_linux.Frame
use synccom_linux.Flist
use synccom_linux.Registers.{Registers}
use synccom_linux.Port.{Port, MemoryCap, Message}
use synccom_linux.Port.Usb.{set_registers, execute_rres, execute_tres, get_fx2}
use synccom_linux.Port.Settings.{
  xf, set_append_status, set_ignore_timeout, set_tx_modifiers, set_rx_multiple,
}
use synccom_linux.Port.Clock.{set_clock_bits}

abbrev pub default_memory_cap : MemoryCap
default_memory_cap = record { input = 1000000; output = 1000000 }

abbrev pub default_clock_bits : List ℕ
default_clock_bits =
    0x0f ∷ 0x61 ∷ 0xe5 ∷ 0x00 ∷ 0x00 ∷ 0x00 ∷ 0x00 ∷ 0x00 ∷ 0x00 ∷ 0x00 ∷ 0x00 ∷ 0x18 ∷ 0x16 ∷ 0x40
    ∷ 0x01 ∷ 0x04 ∷ 0x00 ∷ 0xff ∷ 0xff ∷ 0xff ∷ []

-- A register that `SYNCCOM_REGISTERS_INIT` has left at -1.
abbrev pub unset : ℕ
unset = 2 ^ 64 - 1

-- `register_storage` before `set_registers`, in the order of the struct.
abbrev pub default_registers : Registers
default_registers =
    unset ∷ unset ∷ 0x08001000 ∷ unset ∷ unset ∷ unset ∷ unset ∷ 0x00112004 ∷ 0x00000018
    ∷ 0x00000000 ∷ 0x00000000 ∷ 0x0000007e ∷ 0x00000000 ∷ 0x0000007e ∷ 0x00000000 ∷ 0x00000000
    ∷ 0x00000000 ∷ 0x00000000 ∷ 0x00000000 ∷ unset ∷ unset ∷ 0x0f000000 ∷ 0x00000004 ∷ 0x00000000
    ∷ []

abbrev pub number_of_urbs : ℕ
number_of_urbs = 8

-- The settings with which `initialize` begins. The struct that `set_registers` reads is the storage that
-- it writes; since each round writes the register that it has read, the model passes a copy.
unfoldable pub default_settings : Port → Port
default_settings p =
    let p1 = record p { memory_cap = default_memory_cap } in
    let p2 = (set_append_status p1 0).1 in
    let p3 = set_ignore_timeout p2 0 in
    let p4 = (set_tx_modifiers p3 xf).1 in
    let p5 = set_rx_multiple p4 0 in
    (set_registers (record p5 { register_storage = default_registers }) default_registers).1

-- The frame lists, the stream, and no frame in the works.
unfoldable pub empty_queues : Port → Frame.Frame → ℕ → Port
empty_queues p istream counter = record p {
  queued_oframes = Flist.init;
  queued_iframes = Flist.init;
  pending_iframes = Flist.init;
  istream = istream;
  frame_counter = counter;
  pending_iframe = none;
  pending_oframe = none;
}

-- `initialize`. `clock_granted` and `istream_granted` answer its two requests for memory whose failure
-- has no crash at once: without the stream the port is left with a NULL `istream`, `none` here.
-- `signed` is that of `get_fx2`. The transfers of `synccom_port_create_urbs` are submitted, and the
-- timer is started, which the model does not keep.
unfoldable pub initialize : Port → Bool → Bool → Bool → Option Port
initialize p clock_granted istream_granted signed =
    let p1 = set_clock_bits (default_settings p) default_clock_bits clock_granted in
    let (made, counter) = Frame.new p1.frame_counter istream_granted in
    elim made [
      | none ↦ none
      | some istream ↦
          (let p2 = empty_queues p1 istream counter in
            let p3 = (execute_tres (execute_rres p2).1).1 in
            let p4 = record p3 { submitted_urbs = number_of_urbs } in
            let (fx2, p5) = get_fx2 signed p4 in some (record p5 { fx2_rev = fx2 }))
    ]
