-- ===== src/Driver/Ioctl.antt =====
-- `synccom_ioctl` of src/main.c: one command for each case of its switch, with what the user passes in.
-- `copied` says that the copies between user and kernel space succeed.
pub mod Errors
use synccom_linux.Prelude.{
  ℕ, Bool, true, false, Option, none, some, List, [], if◌then◌else◌, ◌==◌, u32, suc, ◌∷◌, length,
}
use synccom_linux.Registers.{Registers}
use synccom_linux.Port.{Port, MemoryCap, Ret, done, fail, efault, einval, enotty, bulk_out}
use synccom_linux.Port.Usb.{
  register_endpoint, get_registers, set_registers, can_support_nonvolatile, get_nonvolatile,
  set_nonvolatile,
}
use synccom_linux.Port.Settings.{
  set_append_status, get_append_status, set_append_timestamp, get_append_timestamp,
  set_ignore_timeout, get_ignore_timeout, set_rx_multiple, get_rx_multiple, set_tx_modifiers,
  get_tx_modifiers, set_memory_cap, get_input_memory_cap, get_output_memory_cap,
}
use synccom_linux.Port.Memory.{purge_tx, purge_rx}
use synccom_linux.Port.Clock.{set_clock_bits}

pub data Command : Type 0 where
  test : Command
  registers_get registers_set : Registers → Command
  tx_purge rx_purge : Command
  append_status_enable append_status_disable append_status_get : Command
  append_timestamp_enable append_timestamp_disable append_timestamp_get : Command
  memory_cap_set : MemoryCap → Command
  memory_cap_get : Command
  clock_bits_set : List ℕ → Command
  ignore_timeout_enable ignore_timeout_disable ignore_timeout_get : Command
  tx_modifiers_set : ℕ → Command
  tx_modifiers_get : Command
  rx_multiple_enable rx_multiple_disable rx_multiple_get : Command
  nonvolatile_set : ℕ → Command
  nonvolatile_get : Command
  reprogram : List ℕ → Command
  unknown : Command

-- What a command puts into the user's memory.
pub data Reply : Type 0 where
  nothing : Reply
  word : ℕ → Reply
  registers : Registers → Reply
  memory_cap : MemoryCap → Reply

-- `program_synccom`: the bytes of a line up to its carriage return, behind the command 0x06. The loop has
-- no other end: `none` is a line that has none in its fifty bytes, where C goes on behind both arrays.
unfoldable pub line_bytes : List ℕ → Option (List ℕ)
line_bytes [] = none
line_bytes (c ∷ line) =
    if c == 13
    then some []
    else (elim (line_bytes line) [ none ↦ none | some bytes ↦ some (c ∷ bytes) ])

unfoldable pub program : Port → List ℕ → Option Port
unfolding line_bytes
program p line = elim (line_bytes line) [
  | none ↦ none
  | some bytes ↦ some (bulk_out p register_endpoint (0x06 ∷ bytes) (suc (length bytes)))
]

-- The result of a command, the reply, and the port; `none` is the overrun of `program`.
abbrev pub Answer : Type 0
Answer = Option (Ret × Reply × Port)

-- A value for the user, if it can be copied there.
abbrev reply_word : Bool → ℕ → Port → Answer
reply_word copied v p = some (if copied then (done 0, word v, p) else (fail efault, nothing, p))

-- A result that has no reply.
abbrev no_reply : Ret × Port → Answer
no_reply (r, p) = some (r, nothing, p)

abbrev quiet : Port → Answer
quiet p = some (done 0, nothing, p)

-- A command that needs what the user passes in.
abbrev copied_in : Bool → Port → Port → Answer
copied_in copied p p' = if copied then quiet p' else some (fail efault, nothing, p)

-- `synccom_ioctl`. `clock_granted` is the answer to the request for memory of `set_clock_bits`. For
-- `registers_get` two copies are made, in and out.
unfoldable pub ioctl : Port → Command → Bool → Bool → Bool → Answer
ioctl p test copied copied_out clock_granted = quiet p
ioctl p (registers_get regs) copied copied_out clock_granted =
    if copied
    then (let (regs', p') = get_registers p regs in
        some (if copied_out then (done 0, registers regs', p') else (fail efault, nothing, p')))
    else some (fail efault, nothing, p)
ioctl p (registers_set regs) copied copied_out clock_granted =
    copied_in copied p (set_registers p regs).1
ioctl p tx_purge copied copied_out clock_granted = no_reply (purge_tx p)
ioctl p rx_purge copied copied_out clock_granted = no_reply (purge_rx p)
ioctl p append_status_enable copied copied_out clock_granted = no_reply (set_append_status p 1)
ioctl p append_status_disable copied copied_out clock_granted = quiet (set_append_status p 0).1
ioctl p append_status_get copied copied_out clock_granted =
    reply_word copied_out (get_append_status p) p
ioctl p append_timestamp_enable copied copied_out clock_granted =
    no_reply (set_append_timestamp p 1)
ioctl p append_timestamp_disable copied copied_out clock_granted =
    quiet (set_append_timestamp p 0).1
ioctl p append_timestamp_get copied copied_out clock_granted =
    reply_word copied_out (get_append_timestamp p) p
ioctl p (memory_cap_set cap) copied copied_out clock_granted =
    copied_in copied p (set_memory_cap p cap)
ioctl p memory_cap_get copied copied_out clock_granted =
    if copied_out
    then some (
      done 0,
      memory_cap (record { input = get_input_memory_cap p; output = get_output_memory_cap p }),
      p,
    )
    else some (fail efault, nothing, p)
ioctl p (clock_bits_set bits) copied copied_out clock_granted =
    copied_in copied p (set_clock_bits p bits clock_granted)
ioctl p ignore_timeout_enable copied copied_out clock_granted = quiet (set_ignore_timeout p 1)
ioctl p ignore_timeout_disable copied copied_out clock_granted = quiet (set_ignore_timeout p 0)
ioctl p ignore_timeout_get copied copied_out clock_granted =
    reply_word copied_out (get_ignore_timeout p) p
ioctl p (tx_modifiers_set value) copied copied_out clock_granted =
    no_reply (set_tx_modifiers p (u32 value))
ioctl p tx_modifiers_get copied copied_out clock_granted =
    some (done 0, word (get_tx_modifiers p), p)
ioctl p rx_multiple_enable copied copied_out clock_granted = quiet (set_rx_multiple p 1)
ioctl p rx_multiple_disable copied copied_out clock_granted = quiet (set_rx_multiple p 0)
ioctl p rx_multiple_get copied copied_out clock_granted =
    reply_word copied_out (get_rx_multiple p) p
ioctl p (nonvolatile_set value) copied copied_out clock_granted =
    if can_support_nonvolatile p
    then (let (r, p') = set_nonvolatile p (u32 value) in some (done r, nothing, p'))
    else some (fail einval, nothing, p)
ioctl p nonvolatile_get copied copied_out clock_granted =
    if can_support_nonvolatile p
    then (let (v, p') = get_nonvolatile p in reply_word copied_out v p')
    else some (fail einval, nothing, p)
ioctl p (reprogram line) copied copied_out clock_granted =
    if copied
    then (elim (program p line) [ none ↦ none | some p' ↦ quiet p' ])
    else some (fail efault, nothing, p)
ioctl p unknown copied copied_out clock_granted = some (fail enotty, nothing, p)
