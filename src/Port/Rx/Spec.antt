-- ===== src/Port/Rx/Spec.antt =====
-- What a read of whole frames promises, without the queue, the stream or the user's memory of
-- src/port.c: the frames are cut from the received bytes by their sizes, one after another, as long as
-- the next is complete and has room.
use synccom_linux.Prelude.{
  ℕ, ◌+◌, ◌-◌, ◌≤◌, ◌≡◌, refl, Bool, true, false, ◌&&◌, Option, none, some, List, [], ◌∷◌, ◌++◌,
  arith, if◌then◌else◌, leb, ◌==◌, length, length-append, length-take, take, drop,
}
use synccom_linux.Port.Rx.{UserWrite}

-- The two bytes of status at the end of each frame, which the user gets only if they are asked for.
abbrev pub trailer : Bool → ℕ
trailer status = if status then 0 else 2

-- What the user gets, the sizes of the frames that are left, and the bytes that are left.
pub record Delivery : Type 0 where
  pub out : List ℕ
  pub sizes : List ℕ
  pub stream : List ℕ

-- A frame's bytes in front of what else is delivered.
unfoldable pub prepend : List ℕ → Delivery → Delivery
prepend bytes d = record d { out = bytes ++ d.out }

unfoldable pub deliver : Bool → Bool → ℕ → List ℕ → List ℕ → Delivery
deliver status multiple room [] stream = record { out = []; sizes = []; stream = stream }
deliver status multiple room (n ∷ ns) stream =
    let shown = n - trailer status in
    let rest = deliver status multiple (room - shown) ns (drop n stream) in
    let last : Delivery = record { out = []; sizes = ns; stream = drop n stream } in
    if leb n (room + trailer status) && leb n (length stream)
    then prepend (take shown stream) (if multiple then rest else last)
    else record { out = []; sizes = n ∷ ns; stream = stream }

-- Every frame has at least the bytes of its trailer.
unfoldable pub all_long : Bool → List ℕ → Bool
all_long status [] = true
all_long status (n ∷ ns) = leb (trailer status) n && all_long status ns

-- The bytes of writes that lie one behind another from `off` on.
unfoldable pub gather : ℕ → List UserWrite → Option (List ℕ)
gather off [] = some []
gather off ((place, bytes) ∷ writes) =
    if place == off
    then (elim (gather (off + length bytes) writes) [
      | none ↦ none
      | some more ↦ some (bytes ++ more)
    ])
    else none

-- The user gets no more bytes than there is room for.
pub deliver-fits :
    (status multiple : Bool) (room : ℕ) (sizes stream : List ℕ)
    → all_long status sizes ≡ true
    → length (deliver status multiple room sizes stream).out ≤ room
unfolding deliver all_long prepend
deliver-fits status multiple room [] stream long = omega arith
deliver-fits status multiple room (n ∷ ns) stream long = ground (
  arith,
  deliver-fits status multiple (room - (n - trailer status)) ns (drop n stream),
  length-append (take (n - trailer status) stream)
      (deliver status multiple (room - (n - trailer status)) ns (drop n stream)).out,
  length-append (take (n - trailer status) stream) [],
  length-take (n - trailer status) stream,
)

pub deliver-nil :
    (status multiple : Bool) (room : ℕ) (stream : List ℕ)
    → deliver status multiple room [] stream ≡ record { out = []; sizes = []; stream = stream }
unfolding deliver
deliver-nil status multiple room stream = refl

-- The delivery from a queue that is not empty, by the test on its first frame.
module _ (status : Bool) (room n : ℕ) (ns stream : List ℕ) where
  pub deliver-refuses :
      (multiple : Bool)
      → (leb n (room + trailer status) && leb n (length stream)) ≡ false
      → deliver status multiple room (n ∷ ns) stream
        ≡ record { out = []; sizes = n ∷ ns; stream = stream }
  unfolding deliver
  deliver-refuses multiple h = ground arith

  pub deliver-last :
      (leb n (room + trailer status) && leb n (length stream)) ≡ true
      → deliver status false room (n ∷ ns) stream
        ≡ prepend
            (take (n - trailer status) stream)
            (record { out = []; sizes = ns; stream = drop n stream })
  unfolding deliver
  deliver-last h = ground arith

  pub deliver-more :
      (leb n (room + trailer status) && leb n (length stream)) ≡ true
      → deliver status true room (n ∷ ns) stream
        ≡ prepend
            (take (n - trailer status) stream)
            (deliver status true (room - (n - trailer status)) ns (drop n stream))
  unfolding deliver
  deliver-more h = ground arith
