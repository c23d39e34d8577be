-- ===== src/Lib.antt =====
-- The Linux driver of the SYNC/COM-USB serial adapter (synccom): its port, its transmit and receive
-- paths, its registers, the calls that user programs make, and the life of a port; with the calculation of
-- clock bits in user space.
--
-- A user writes bytes to a port; `synccom_write` (src/main.c) waits for room under the output memory cap,
-- and `synccom_port_write` (src/port.c) puts them as one frame (src/frame.c) on a list (src/flist.c). The
-- tasklet `oframe_worker` takes the first frame and hands it to the device, a part of the size of its
-- FIFO at a time. In the other direction the callback of a receive transfer appends bytes to the stream
-- of the port, a work item asks the device for the sizes of complete frames and lists them, and
-- `synccom_read` hands out bytes or whole frames. Registers are read and written by short commands over
-- USB (src/port.c), with addresses from src/utils.c; ioctls (src/main.c) and sysfs attributes
-- (src/sysfs.c) call the setters and getters of the port. `synccom_probe` makes a port and
-- `synccom_disconnect` gives it up; the reference that each open file holds keeps it (src/main.c). The
-- twenty bytes that a port shifts into its clock generator are found by lib/raw/calculate-clock-bits.c.
--
-- The files:
-- Prelude passes on names of the library, and has Boolean tests and 32-bit arithmetic (Prelude/Tests),
-- lists and `memmove` (Prelude/Lists), and bit fields (Prelude/Bits).
-- Frame has src/frame.c, function by function under its name without `synccom_frame_`. Frame/Valid has
-- the invariant, Frame/Bytes the operations as those of a queue of bytes.
-- Flist has src/flist.c, in the same way; Flist/Usage is about the byte count, Flist/Fifo about order.
-- Registers has the offsets of src/port.h and the functions of src/utils.c; Registers/Address is about
-- names and bus addresses.
-- Port has the struct of src/port.h. Its children hold the functions of src/port.c, named without
-- `synccom_port_`, and what is shown of them: Usb for the register commands (Usb/Wire, Usb/Storage),
-- Settings (Settings/Modes), Memory for usage and purges (Memory/Purge), Tx for the transmit path
-- (Tx/Send, Tx/Queue, Tx/Flow, Tx/Stuck), Rx for the receive path (Rx/Receive, Rx/Stream, Rx/Flow,
-- Rx/Spec, Rx/Round, Rx/Deliver, Rx/Listing), Clock
-- (Clock/Words, Clock/Received, Clock/Sent) and Init (Init/Defaults).
-- Driver has read, write, poll and flush of src/main.c (Driver/Caps, Driver/Poll), Driver/Ioctl the ioctls
-- (Driver/Ioctl/Errors). Driver/Writers has several threads in `synccom_write`, a step for each lock
-- that a call takes, a purge being one step, and one the test of a sleeper that is woken:
-- Driver/Semaphore is about a semaphore, Writers/Room about the bytes that wait, Writers/Safe and
-- Writers/Moves about the invariant of both, Writers/Exclude about the semaphore alone, Writers/Leaves about a thread with the semaphore, and
-- Writers/Alone about one that none disturbs. Driver/Readers has several threads in `synccom_read`, with
-- Readers/Fed about the invariant and Readers/Moves about what follows.
-- Sysfs has the stores and shows of src/sysfs.c (Sysfs/Overrun), Sysfs/Attributes its tables of attributes
-- (Sysfs/Answers).
-- Lifecycle has probe (Lifecycle/Probe, Lifecycle/Probed), open, release, disconnect, suspend and reset
-- of src/main.c: Lifecycle/Calls is about each call, Lifecycle/Count has the steps and the count of references,
-- Lifecycle/Safe what follows from it.
-- Debug has src/debug.c (Debug/Counts).
-- ClockBits has lib/raw/calculate-clock-bits.c: its two functions, the loops of the search
-- (ClockBits/Search) and the tables (ClockBits/Tables). ClockBits/Decode reads the bytes; Encode, Filter,
-- Split, Output and RoundTrip are about the tables, Finds, Sound and Least about the search, and
-- ClockBits/Calculation is about the whole.
-- Tests has concrete ports and frames, and the theorems applied to them.
--
-- Numbers are those of C: an `unsigned` or `int` is its 32-bit pattern and wraps, where the code can make
-- it wrap. A function that changes a frame, a list or a port returns the new one beside C's result. What
-- the kernel answers comes in as arguments: whether memory is granted, how many bytes a copy from or to
-- the user leaves, whether a transfer is taken, and what wakes a sleeper. The device is a function from
-- the transfers so far to the word that it answers next, so any device is covered. In `get_register`,
-- `set_register` and `set_clock` the few bytes of a message are taken as granted, and each transfer as
-- sent: the code uses the bytes without a test, and drops the result of `usb_bulk_msg`. An access outside a
-- buffer, and a NULL dereference, is `none`.
-- Fuel: `frame_read` has one round more than there are frames on the list, and its theorem says that the
-- read ends; the loop over the output dividers has as many rounds as the first divider is high, and the
-- search is shown to end; `get_count` has a round for each bit of a word and one for the end. `timed_out`
-- polls as often as the code says.
-- The tests that the clock search makes in `double` are functions that the model is given, any functions;
-- an error allowed of 2 ^ 64 - 1 millionths, which would wrap, is not looked at.
--
-- Not modelled: the locks, but for those that `synccom_write` and `synccom_read` take, in Driver/Writers and
-- Driver/Readers, and `io_mutex` between the calls of a reset (elsewhere each function is one step); what
-- other threads interleave; the messages of the kernel's log but for those of src/debug.c; the doubles
-- among the results of the clock search; and the user programs of examples.
pub mod Prelude
pub mod Frame
pub mod Flist
pub mod Registers
pub mod Port
pub mod Driver
pub mod Sysfs
pub mod Debug
pub mod Lifecycle
pub mod ClockBits
pub mod Tests
