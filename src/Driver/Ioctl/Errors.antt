-- ===== src/Driver/Ioctl/Errors.antt =====
-- The errors of `synccom_ioctl` of src/main.c.
use synccom_linux.Prelude.{
  ℕ, ◌≡◌, ◌⊎◌, Bool, true, false, not, ◌&&◌, Option, none, some, arith, u32, if◌then◌else◌, ltb,
}
use synccom_linux.Port.{Port, done, fail, Errno, efault, einval, enotty, eopnotsupp}
use synccom_linux.Port.Usb.{can_support_nonvolatile, set_nonvolatile}
use synccom_linux.Port.Settings.{
  is_streaming, set_append_status, set_append_timestamp, set_tx_modifiers,
}
use synccom_linux.Port.Memory.{purge_tx, purge_rx}
use synccom_linux.Driver.Ioctl
use synccom_linux.Driver.Ioctl.{Command, Reply, nothing, Answer, ioctl}

-- The commands that copy something in from the user, and those that copy something out and look whether
-- that went well.
abbrev pub takes_input : Command → Bool
takes_input (Ioctl.registers_get regs) = true
takes_input (Ioctl.registers_set regs) = true
takes_input (Ioctl.memory_cap_set cap) = true
takes_input (Ioctl.clock_bits_set bits) = true
takes_input (Ioctl.reprogram line) = true
takes_input command = false

abbrev pub gives_output : Command → Bool
gives_output (Ioctl.registers_get regs) = true
gives_output Ioctl.append_status_get = true
gives_output Ioctl.append_timestamp_get = true
gives_output Ioctl.memory_cap_get = true
gives_output Ioctl.ignore_timeout_get = true
gives_output Ioctl.rx_multiple_get = true
gives_output Ioctl.nonvolatile_get = true
gives_output command = false

-- The errors that a command has of its own.
abbrev pub own_error : Port → Command → Option Errno
own_error p Ioctl.append_status_enable = if is_streaming p then some eopnotsupp else none
own_error p Ioctl.append_timestamp_enable = some eopnotsupp
own_error p (Ioctl.tx_modifiers_set value) = if ltb 4 (u32 value) then some einval else none
own_error p (Ioctl.nonvolatile_set value) = if ltb p.fx2_rev 0x110 then some einval else none
own_error p Ioctl.nonvolatile_get = if ltb p.fx2_rev 0x110 then some einval else none
own_error p Ioctl.unknown = some enotty
own_error p command = none

-- The error of a command: a failed copy in comes first, and a failed copy out last.
abbrev pub error_of : Port → Command → Bool → Bool → Option Errno
error_of p command copied copied_out =
    if takes_input command && not copied then some efault else elim (own_error p command) [
      | some e ↦ some e
      | none ↦ (if gives_output command && not copied_out then some efault else none)
    ]

-- The error that an answer reports.
abbrev pub reported : Answer → Option Errno
reported none = none
reported (some (done n, reply, p)) = none
reported (some (fail e, reply, p)) = some e

set_tx_modifiers-Ret :
    (p : Port) (v : ℕ)
    → ((ltb 4 v ≡ true) × (set_tx_modifiers p v ≡ (fail einval, p)))
      ⊎ ((ltb 4 v ≡ false) × ((set_tx_modifiers p v).0 ≡ done 1))
unfolding set_tx_modifiers
set_tx_modifiers-Ret p v = ground arith

set_append_status-Ret :
    (p : Port)
    → ((is_streaming p ≡ true) × (set_append_status p 1 ≡ (fail eopnotsupp, p)))
      ⊎ ((is_streaming p ≡ false) × ((set_append_status p 1).0 ≡ done 1))
unfolding set_append_status
set_append_status-Ret p = ground arith

-- The answer that reports an error, with no reply and the port as before.
abbrev pub refused : Port → Option Errno → Answer
refused p none = none
refused p (some e) = some (fail e, nothing, p)

-- Each command, with any outcome of the copies between user and kernel space: it reports exactly the
-- error of `error_of`, or none. That is EFAULT for input that could not be copied in, and behind it for
-- output that could not be copied out; EOPNOTSUPP for appending the status in a streaming mode and for
-- appending timestamps; EINVAL for transmit modifiers above 4, and for the nonvolatile word with a firmware before
-- 0x110; and ENOTTY for an unknown command. With an error, but for that of a copy out alone, there is no
-- reply and the port is as before.
pub ioctl_lem :
    (p : Port) (command : Command) (copied copied_out clock_granted : Bool)
    → let answer = ioctl p command copied copied_out clock_granted in
      let error = error_of p command copied copied_out in
      (reported answer ≡ error)
      × ((error ≡ none)
          ⊎ (((takes_input command && not copied) ≡ false)
              × (own_error p command ≡ none)
              × (copied_out ≡ false))
          ⊎ (answer ≡ refused p error))
unfolding ioctl purge_tx purge_rx set_append_timestamp can_support_nonvolatile set_nonvolatile
ioctl_lem p (Ioctl.tx_modifiers_set value) copied copied_out clock_granted =
    ground (arith, set_tx_modifiers-Ret p (u32 value))
ioctl_lem p command copied copied_out clock_granted = ground (arith, set_append_status-Ret p)
