-- ===== src/Driver/Readers/Fed.antt =====
-- The invariant of the threads in `synccom_read`, src/main.c, and of their port in a streaming mode.
use synccom_linux.Prelude.{
  ℕ, suc, ◌-◌, ◌≤◌, ◌<◌, ◌≡◌, min, refl, sym, ap, Bool, true, false, ◌++◌, arith, length,
  length-append, if_both, ◌==◌,
}
use mathlib.Core.Path.{subst, subst⁻¹}
use synccom_linux.Frame
use synccom_linux.Frame.{contents}
use synccom_linux.Frame.Valid.{length-contents}
use synccom_linux.Port.{Port, done, fail, eagain, erestartsys}
use synccom_linux.Port.Rx
use synccom_linux.Port.Rx.{Urb, has_incoming_data, read_data_callback, stream_read}
use synccom_linux.Port.Rx.Stream.{IsStream, arrived, reading_lem}
use synccom_linux.Driver.Semaphore.{
  all-update, others_idle, update, IsExclusive, same-IsExclusive, take-IsExclusive,
  leave-IsExclusive,
}
use synccom_linux.Driver.Readers.{
  Reader, resting, taking, testing, no_data, reading, leaving, sleeping, holds, after_read, turn,
  World, after,
}

-- What a thread knows: it asks for a byte at least; what it is to read is there; it has got some.
abbrev pub Knows : Port → Reader → Type 0
Knows p (resting r) = Unit
Knows p (taking count nonblock) = 0 < count
Knows p (testing count nonblock) = 0 < count
Knows p (no_data count nonblock) = 0 < count
Knows p (sleeping count) = 0 < count
Knows p (reading count) = (0 < count) × (0 < p.istream.data_length)
Knows p (leaving r) = (n : ℕ) × (r ≡ done n) × (0 < n)

pub record IsFed (w : World) : Type 0 where
  pub exclusive : IsExclusive holds w.semaphore w.readers
  pub stream : IsStream w.port
  pub known : (i : ℕ) → Knows w.port (w.readers i)

grown-Knows :
    (p p' : Port) (a : Reader)
    → p.istream.data_length ≤ p'.istream.data_length
    → Knows p a
    → Knows p' a
grown-Knows p p' (reading count) more (asks, there) = (asks, omega arith)
grown-Knows p p' (resting r) more k = k
grown-Knows p p' (taking count nonblock) more k = k
grown-Knows p p' (testing count nonblock) more k = k
grown-Knows p p' (no_data count nonblock) more k = k
grown-Knows p p' (sleeping count) more k = k
grown-Knows p p' (leaving r) more k = k

idle-Knows : (p p' : Port) (a : Reader) → holds a ≡ false → Knows p a → Knows p' a
idle-Knows p p' (resting r) h k = k
idle-Knows p p' (taking count nonblock) h k = k
idle-Knows p p' (testing count nonblock) h k = k
idle-Knows p p' (no_data count nonblock) h k = k
idle-Knows p p' (sleeping count) h k = k
idle-Knows p p' (reading count) h k = ground arith
idle-Knows p p' (leaving r) h k = k

stay-IsFed :
    (w : World) (i sem : ℕ) (a : Reader)
    → IsFed w
    → IsExclusive holds sem (update w.readers i a)
    → Knows w.port a
    → IsFed (after w.readers i (w.port, sem, a))
stay-IsFed w i sem a s e k = record {
  exclusive = e;
  stream = s.stream;
  known = all-update (Knows w.port) w.readers i a k (λ j _. s.known j);
}

pub keep :
    (w : World) (i : ℕ) (a : Reader)
    → IsFed w
    → holds (w.readers i) ≡ holds a
    → Knows w.port a
    → IsFed (after w.readers i (w.port, w.semaphore, a))
keep w i a s same k =
    stay-IsFed w i w.semaphore a s
      (same-IsExclusive holds w.semaphore w.readers i a s.exclusive (sym same)) k

has_data_lem : (p : Port) → IsStream p → has_incoming_data p ≡ true → 0 < p.istream.data_length
unfolding has_incoming_data Frame.is_empty
has_data_lem p s h = ground (arith, s.streaming)

-- A thread that has found data reads it.
read-IsFed :
    (w : World) (i count : ℕ)
    → w.readers i ≡ reading count
    → IsFed w
    → IsFed
        (after w.readers i (after_read w.port w.semaphore count (Rx.read w.port count (λ _. 0))))
unfolding stream_read Frame.get_length
read-IsFed w i count at s =
    let p' = (stream_read w.port count 0).2 in
    let (stream, result, _, _) = reading_lem w.port count s.stream in
    let (asks, there) : Knows w.port (reading count) = subst (Knows w.port) at (s.known i) in
    let mine : holds (w.readers i) ≡ true = ap holds at in
    let a = leaving (done (min count w.port.istream.data_length)) in
    subst⁻¹ (λ o. IsFed (after w.readers i (after_read w.port w.semaphore count o))) result
      (record {
        exclusive = same-IsExclusive holds w.semaphore w.readers i a s.exclusive (sym mine);
        stream = stream;
        known =
            all-update (Knows p') w.readers i a
              (min count w.port.istream.data_length, refl, omega arith)
              (λ j other.
                idle-Knows w.port p' (w.readers j)
                  (others_idle holds w.semaphore w.readers i j s.exclusive mine other) (s.known j));
      })

pub arrival-IsFed :
    (w : World) (p' : Port) (urb : Urb)
    → IsFed w
    → IsStream p'
    → contents p'.istream ≡ contents w.port.istream ++ arrived w.port urb
    → IsFed (record w { port = p' })
arrival-IsFed w p' urb s s' gained =
    let more : w.port.istream.data_length ≤ p'.istream.data_length = omega (
      arith,
      length-contents s.stream.valid,
      length-contents s'.valid,
      ap length gained,
      length-append (contents w.port.istream) (arrived w.port urb),
    ) in
    record {
      exclusive = s.exclusive;
      stream = s';
      known = λ i. grown-Knows w.port p' (w.readers i) more (s.known i);
    }

pub turn-IsFed :
    (w : World) (i : ℕ) (interrupted : Bool) (a : Reader)
    → w.readers i ≡ a
    → IsFed w
    → IsFed (after w.readers i (turn w.port w.semaphore a interrupted))
unfolding turn
turn-IsFed w i interrupted a at s = turned a at (subst (Knows w.port) at (s.known i))
  where
    place : Port × ℕ × Reader → Type 0
    place t = IsFed (after w.readers i t)

    turned :
        (a : Reader)
        → w.readers i ≡ a
        → Knows w.port a
        → place (turn w.port w.semaphore a interrupted)
    turned (resting r) at k = keep w i (resting r) s (ap holds at) tt
    turned (testing count nonblock) at k =
        if_both (λ b. place (w.port, w.semaphore, b)) (has_incoming_data w.port)
          (λ found.
            keep w i (reading count) s (ap holds at) (k, has_data_lem w.port s.stream found))
          (λ _. keep w i (no_data count nonblock) s (ap holds at) k)
    turned (reading count) at k = read-IsFed w i count at s
    turned (leaving r) at k =
        stay-IsFed w i (suc w.semaphore) (resting r) s
          (leave-IsExclusive holds w.semaphore w.readers i (resting r) s.exclusive (ap holds at)
            refl)
          tt
    turned (no_data count nonblock) at k =
        if_both (λ b. place (w.port, suc w.semaphore, b)) nonblock
          (λ _.
            stay-IsFed w i (suc w.semaphore) (resting (fail eagain)) s
              (leave-IsExclusive holds w.semaphore w.readers i (resting (fail eagain)) s.exclusive
                (ap holds at) refl)
              tt)
          (λ _.
            stay-IsFed w i (suc w.semaphore) (sleeping count) s
              (leave-IsExclusive holds w.semaphore w.readers i (sleeping count) s.exclusive
                (ap holds at) refl)
              k)
    turned (taking count nonblock) at k =
        if_both place interrupted (λ _. keep w i (resting (fail erestartsys)) s (ap holds at) tt)
          (λ _.
            if_both place (w.semaphore == 0)
              (λ _. keep w i (taking count nonblock) s (ap holds at) k)
              (λ h.
                stay-IsFed w i (w.semaphore - 1) (testing count nonblock) s
                  (take-IsExclusive holds w.semaphore w.readers i (testing count nonblock)
                    s.exclusive (ground arith) refl)
                  k))
    turned (sleeping count) at k =
        if_both place (has_incoming_data w.port)
          (λ _. keep w i (taking count false) s (ap holds at) k)
          (λ _.
            if_both place interrupted
              (λ _. keep w i (resting (fail erestartsys)) s (ap holds at) tt)
              (λ _. keep w i (sleeping count) s (ap holds at) k))
