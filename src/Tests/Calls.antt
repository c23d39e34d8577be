-- ===== src/Tests/Calls.antt =====
-- The settings and purges of src/port.c, the ioctls of src/main.c, and the attributes of src/sysfs.c.
use synccom_linux.Prelude.{
  bit_and, ◌≡◌, ◌≢◌, ◌↔◌, ◌⊎◌, Option, false, true, none, some, [], ◌∷◌, arith,
}
use synccom_linux.Frame.{contents}
use synccom_linux.Port.{Port, done, fail, efault, Errno, enobufs}
use synccom_linux.Port.Settings.{get_input_memory_cap, get_output_memory_cap}
use synccom_linux.Port.Memory.{get_input_memory_usage, purge_rx}
use synccom_linux.Port.Memory.Purge.{rres, IsCommanded, HasNothing, purge_rx_lem}
use synccom_linux.Driver
use synccom_linux.Driver.{ready, returned, wait_until, has_room, poll}
use synccom_linux.Driver.Poll.{poll_lem}
use synccom_linux.Port.Rx.{has_incoming_data}
use synccom_linux.Driver.Ioctl.{clock_bits_set, ioctl}
use synccom_linux.Driver.Ioctl.Errors.{reported, refused, ioctl_lem}
use synccom_linux.Sysfs.{bar0_register_store}
use synccom_linux.Sysfs.Attributes.{attr_groups}
use synccom_linux.Sysfs.Answers.{GroupsAnswer, attr_groups_lem}
use synccom_linux.Sysfs.Overrun.{fstew_overruns}
use synccom_linux.Port.Tx.{SubmitAnswers}
use synccom_linux.Port.Tx.Stuck.{worker, timer, steps}
use synccom_linux.Tests.{six, idle, granted}

abbrev busy : Port
busy = record idle { istream = six; pending_oframe = some six }

abbrev submitted : SubmitAnswers
submitted = record { urb_granted = true; buffer_granted = true; accepted = true }

purge_rx_example :
    let (r, p') = purge_rx busy in
    (r ≡ done 1)
    × IsCommanded busy rres p'
    × (p'.queued_iframes.frames ≡ [])
    × (p'.pending_iframes.frames ≡ [])
    × (p'.pending_iframe ≡ none)
    × (contents p'.istream ≡ [])
    × (get_input_memory_usage p' ≡ 0)
    × HasNothing p' 100 (λ i. 0)
    × (p'.queued_oframes ≡ busy.queued_oframes)
    × (p'.pending_oframe ≡ busy.pending_oframe)
purge_rx_example = purge_rx_lem busy 100 (λ i. 0)

ioctl_example :
    let answer = ioctl busy (clock_bits_set (1 ∷ [])) false true true in
    (reported answer ≡ some efault)
    × ((◌≡◌ {A = Option Errno} (some efault) none)
        ⊎ ((true ≡ false) × (◌≡◌ {A = Option Errno} none none) × (true ≡ false))
        ⊎ (answer ≡ refused busy (some efault)))
ioctl_example = ioctl_lem busy (clock_bits_set (1 ∷ [])) false true true

fstew_overruns_example :
    let (count, p') = bar0_register_store (λ buf base. 255) idle "fstew" (102 ∷ 102 ∷ []) in
    (count ≡ 2)
    × (p'.register_storage ≡ idle.register_storage)
    × (get_input_memory_cap p' ≡ 255)
    × (get_output_memory_cap p' ≡ 0)
    × (Driver.write (steps p' (worker submitted ∷ timer ∷ [])) true (8 ∷ []) true [] granted
        ≡ returned (fail enobufs) (steps p' (worker submitted ∷ timer ∷ [])))
fstew_overruns_example =
    fstew_overruns (λ buf base. 255) idle (102 ∷ 102 ∷ []) (worker submitted ∷ timer ∷ []) true
      (8 ∷ []) true [] granted (omega arith)

poll_example :
    ((bit_and (poll busy) 0x0001 ≢ 0) ↔ (wait_until has_incoming_data true busy [] ≡ ready busy))
    × ((bit_and (poll busy) 0x0004 ≢ 0) ↔ (has_room 1 busy ≡ true))
poll_example = poll_lem busy

attr_groups_example : GroupsAnswer (attr_groups true)
attr_groups_example = attr_groups_lem true
