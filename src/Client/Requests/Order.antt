-- ===== src/Client/Requests/Order.antt =====
-- The byte order in which a connection sends: client_connection.py and connection.py.
use chess_pyspec.Base.{ℕ, ◌<◌, ◌≡◌, refl, ap, ◌∙◌, some}
use chess_pyspec.Base.Result.{Result, ok, err}
use chess_pyspec.Bytes.Words.{Endian}
use chess_pyspec.Platform.{Floats, Numpy}
use chess_pyspec.Protocol.Messages.{Header, Clock, Packet, Message, serialize}
use chess_pyspec.Protocol.Payloads.{Data}
use chess_pyspec.Client.Sequence.{uint32_max, successor, next_number}
use chess_pyspec.Client.Requests.{Connection, taken, begin, sent, on_message, on_timeout, numbered}
use chess_pyspec.Client.Requests.Replies.{
  begins, receives, expires, others, steps, Reachable, Reachable-IsSound, begin-sent,
  begin-numbered,
}

module _ (fl : Floats) (np : Numpy) where
  -- What happens while no message comes in
  pub data Quiet (native : Endian) : Connection fl np → Connection fl np → Type 0 where
    still : {c : Connection fl np} → Quiet native c c
    then_begins :
        {b c : Connection fl np} (h : Header) (d : Data fl np) (now : Clock)
        → Quiet native b c
        → Quiet native b (begin fl np native h d now c).0
    then_expires :
        {b c : Connection fl np} (n : ℕ) → Quiet native b c → Quiet native b (on_timeout fl np n c)
    then_others :
        {b c : Connection fl np} {n : ℕ}
        → next_number 2 c.last ≡ some n
        → Quiet native b c
        → Quiet native b (taken fl np n c)

  Quiet-Reachable :
      {native : Endian} {b c : Connection fl np}
      → Reachable fl np native b
      → Quiet native b c
      → Reachable fl np native c
  Quiet-Reachable r still = r
  Quiet-Reachable r (then_begins h d now q) = steps (Quiet-Reachable r q) (begins h d now)
  Quiet-Reachable r (then_expires n q) = steps (Quiet-Reachable r q) (expires n)
  Quiet-Reachable r (then_others e q) = steps (Quiet-Reachable r q) (others e)

  sent-peer :
      (n : ℕ) (c : Connection fl np) (r : Result Packet) → (sent fl np n c r).0.peer ≡ c.peer
  unfolding sent
  sent-peer n c (ok p) = refl
  sent-peer n c (err e) = refl

  Quiet-peer :
      {native : Endian} {b c : Connection fl np}
      → Reachable fl np native b
      → Quiet native b c
      → c.peer ≡ b.peer
  unfolding on_timeout taken
  Quiet-peer r still = refl
  Quiet-peer {native} r (then_begins {c = c} h d now q) =
      ap (λ x. x.0.peer)
        (begin-sent fl np native h d now c
          (Reachable-IsSound fl np (Quiet-Reachable r q)).last_bound)
      ∙ sent-peer (successor c.last) c _
      ∙ Quiet-peer r q
  Quiet-peer r (then_expires n q) = Quiet-peer r q
  Quiet-peer r (then_others e q) = Quiet-peer r q

  -- A request that is made after a message came in, with no other message in between, is
  -- serialized in the byte order of that message. Its number, which is in the range of sequence
  -- numbers, follows the last that any connection of the program took.
  pub begin-on_message :
      {native : Endian} {b c : Connection fl np} (m : Message fl np) (h : Header) (d : Data fl np)
      (now : Clock)
      → Reachable fl np native b
      → Quiet native (on_message fl np m b) c
      → ((begin fl np native h d now c).0.last ≡ successor c.last)
        × (0 < successor c.last)
        × (successor c.last < uint32_max)
        × ((begin fl np native h d now c).1
            ≡ serialize fl np native (numbered fl np h (successor c.last)) d (some m.order) now)
  unfolding on_message
  begin-on_message {native} {c = c} m h d now r q =
      let heard = steps r (receives m) in
      let (last, low, high, made) = begin-numbered fl np h d now (Quiet-Reachable heard q) in
      let order = Quiet-peer heard q in
      (
        last,
        low,
        high,
        made ∙ ap (λ o. serialize fl np native (numbered fl np h (successor c.last)) d o now) order,
      )
