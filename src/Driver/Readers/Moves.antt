-- ===== src/Driver/Readers/Moves.antt =====
-- Any number of threads in `synccom_read` of src/main.c, in any order of their steps, on a port in a
-- streaming mode.
use synccom_linux.Prelude.{
  ℕ, ◌<◌, ◌≡◌, refl, ap, Bool, true, false, some, List, [], ◌∷◌, arith, if_both, ◌==◌,
}
use mathlib.Core.Path.{subst, subst⁻¹}
use synccom_linux.Port.{Port, Ret, done}
use synccom_linux.Port.Rx.{Urb, read_data_callback}
use synccom_linux.Port.Rx.Stream.{IsWhole, IsStream, transfer-Gains}
use synccom_linux.Driver.Semaphore.{start-IsExclusive}
use synccom_linux.Driver.Readers.{
  Reader, resting, taking, testing, no_data, reading, leaving, sleeping, holds, enter, turn, World,
  Event, calls, turns, arrives, called, after, move, moves,
}
use synccom_linux.Driver.Readers.Fed.{Knows, IsFed, keep, turn-IsFed, arrival-IsFed}

abbrev pub AreWhole : List Event → Type 0
AreWhole [] = Unit
AreWhole (arrives urb ∷ es) = IsWhole urb × AreWhole es
AreWhole (e ∷ es) = AreWhole es

called-Knows :
    (p : Port) (count : ℕ) (nonblock : Bool) (a : Reader)
    → Knows p a
    → (holds a ≡ holds (called count nonblock a)) × Knows p (called count nonblock a)
unfolding enter
called-Knows p count nonblock (resting r) k =
    if_both (λ a. (false ≡ holds a) × Knows p a) (count == 0) (λ _. (refl, tt))
      (λ h. (refl, ground arith))
called-Knows p count nonblock (taking c n) k = (refl, k)
called-Knows p count nonblock (testing c n) k = (refl, k)
called-Knows p count nonblock (no_data c n) k = (refl, k)
called-Knows p count nonblock (reading c) k = (refl, k)
called-Knows p count nonblock (sleeping c) k = (refl, k)
called-Knows p count nonblock (leaving r) k = (refl, k)

-- One more event goes through when the rest do.
first-moves :
    (e : Event) (es : List Event) (w w' w'' : World)
    → move w e ≡ some w'
    → moves w' es ≡ some w''
    → moves w (e ∷ es) ≡ some w''
unfolding moves
first-moves e es w w' w'' one more = ground arith

arrives-move :
    (w : World) (urb : Urb) (p' : Port)
    → read_data_callback w.port urb true ≡ some p'
    → move w (arrives urb) ≡ some (record w { port = p' })
unfolding move
arrives-move w urb p' h = ground arith

moves-IsFed :
    (es : List Event) (w : World)
    → AreWhole es
    → IsFed w
    → (w' : World) × (moves w es ≡ some w') × IsFed w'
unfolding moves move
moves-IsFed [] w whole s = (w, refl, s)
moves-IsFed (calls i count nonblock ∷ es) w whole s =
    let (same, k) = called-Knows w.port count nonblock (w.readers i) (s.known i) in
    moves-IsFed es (after w.readers i (w.port, w.semaphore, called count nonblock (w.readers i)))
      whole (keep w i (called count nonblock (w.readers i)) s same k)
moves-IsFed (turns i interrupted ∷ es) w whole s =
    moves-IsFed es (after w.readers i (turn w.port w.semaphore (w.readers i) interrupted)) whole
      (turn-IsFed w i interrupted (w.readers i) refl s)
moves-IsFed (arrives urb ∷ es) w (whole, rest) s =
    let (p', result, stream, gained, _) = transfer-Gains w.port urb s.stream whole in
    let (w'', ran, s'') =
      moves-IsFed es (record w { port = p' }) rest (arrival-IsFed w p' urb s stream gained) in
    (
      w'',
      first-moves (arrives urb) es w (record w { port = p' }) w'' (arrives-move w urb p' result)
          ran,
      s'',
    )

-- A port in a streaming mode that no thread is reading, as `synccom_port_initialize` makes its semaphore.
pub record IsStart (w : World) : Type 0 where
  pub one : w.semaphore ≡ 1
  pub idle : (i : ℕ) → (r : Ret) × (w.readers i ≡ resting r)
  pub stream : IsStream w.port

start-IsFed : (w : World) → IsStart w → IsFed w
start-IsFed w s = record {
  exclusive =
      start-IsExclusive holds w.semaphore w.readers s.one
        (λ i. (let (r, at) = s.idle i in ap holds at));
  stream = s.stream;
  known = λ i. (let (r, at) = s.idle i in subst⁻¹ (Knows w.port) at tt);
}

-- From a port in a streaming mode that no thread is reading, with its stream valid and within the input
-- memory cap, over any number of threads that call `synccom_read` and go on, and receive transfers that
-- are failed, empty, or spell a payload size that stays in their buffers, in any order, with memory
-- granted and copies to the user succeeding: no transfer reads outside its buffer; two threads between
-- taking the semaphore and giving it back are the same thread; and one that has called `synccom_port_read`
-- has got at least one byte.
pub readers_get_bytes :
    (es : List Event) (w : World)
    → IsStart w
    → AreWhole es
    → (w' : World) × (moves w es ≡ some w')
      × ((i j : ℕ) → holds (w'.readers i) ≡ true → holds (w'.readers j) ≡ true → i ≡ j)
      × ((i : ℕ) (r : Ret) → w'.readers i ≡ leaving r → (n : ℕ) × (r ≡ done n) × (0 < n))
readers_get_bytes es w start whole =
    let (w', ran, s) = moves-IsFed es w whole (start-IsFed w start) in
    (w', ran, s.exclusive.unique, λ i r at. subst (Knows w'.port) at (s.known i))
