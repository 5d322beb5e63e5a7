-- ===== src/System.antt =====
-- A client and a server together: a request travels from one to the other, and its reply back.
pub mod Methods
pub mod Symbols
use chess_pyspec.Base.{ℕ, ◌≡◌, refl, sym, ap, ◌∙◌, some, ◌++◌, ==_refl, Text, Bytes}
use mathlib.Core.Option
use chess_pyspec.Base.Int.{ℤ, pos}
use chess_pyspec.Base.Result.{ok}
use chess_pyspec.Bytes.Words.{Endian}
use chess_pyspec.Dict.{get}
use chess_pyspec.Platform.{Floats, Numpy}
use chess_pyspec.Payload.{Payload}
use chess_pyspec.Protocol.Command.{Command}
use chess_pyspec.Protocol.Messages.{
  Header, Clock, Packet, Message, serialize, wire, read_one_message,
}
use chess_pyspec.Protocol.Messages.RoundTrip.{order_of, IsSafe, read-serialize}
use chess_pyspec.Protocol.Payloads.{Data}
use chess_pyspec.Protocol.Payloads.RoundTrip.{received}
use chess_pyspec.Client.Sequence.{successor}
use chess_pyspec.Client.Requests
use chess_pyspec.Client.Requests.{
  Connection, Future, waiting, begin, numbered, on_message, outcome, set_response,
}
use chess_pyspec.Client.Requests.Replies.{
  Reachable, steps, begins, future_of, effect, future_of-on_message, begin-numbered,
}
use chess_pyspec.Server.Counting.{wrote}
use chess_pyspec.Server.Events
use chess_pyspec.Server.Events.{property_get}
use chess_pyspec.Server.Handlers.{run_task, on_event, on_property_get}
use chess_pyspec.Server.State.{
  Python, Property, State, handle, answer, reply_header, send_object, or_error, reply, send,
}

module _ {fl : Floats} {np : Numpy} (env : Python fl np) where
  open env use {py}

  abbrev pub get_header : Text → Header
  get_header p = record { command = Command.chan_read; sequence_number = pos 0; name = p }

  -- The request arrives as the event that asks for the property.
  request_arrives :
      (native : Endian) (p : Text) (now : Clock) (rest : Bytes) {c : Connection fl np} {pk : Packet}
      → Reachable fl np native c
      → (begin fl np native (get_header p) Payload.nothing now c).1 ≡ ok pk
      → IsSafe fl np
          (numbered fl np (get_header p) (successor c.last))
          Payload.nothing
          (order_of fl np native c.peer)
      → (m : Message fl np) × (read_one_message fl np (wire pk ++ rest) ≡ ok (m, rest))
        × (Events.dispatch fl np m ≡ ok (property_get (pos (successor c.last)) p))
  unfolding Events.dispatch Events.by_command
  request_arrives native p now rest {c} {pk} r e safe =
      let h = numbered fl np (get_header p) (successor c.last) in
      let (_, _, _, made) = begin-numbered fl np (get_header p) Payload.nothing now r in
      (_, read-serialize fl np native h Payload.nothing c.peer now rest safe (sym made ∙ e), refl)

  -- The handler answers with the value.
  handler_replies :
      (k : ℕ) (n : ℤ) (p : Text) (t : State fl np env) {q : Property fl np} {pk : Packet}
      → get t.properties p ≡ some q
      → serialize fl np env.native
          (reply_header fl np env Command.reply n)
          q.value
          (t.peers k)
          t.now
        ≡ ok pk
      → run_task env (handle k (property_get n p)) t
        ≡ wrote env t k (reply_header fl np env Command.reply n) q.value
  unfolding run_task on_event on_property_get answer or_error send_object reply send
  handler_replies k n p t {q} e h =
      rw (e, run_task, on_event, on_property_get)
        (rw (py.to_data-of_data q.value, h, answer, send_object, reply, send) refl)

  -- The reply arrives at the request.
  reply_arrives :
      {native : Endian} {c : Connection fl np} (n : ℕ) (v : Data fl np) (o : Endian)
      → Reachable fl np native c
      → future_of fl np c.requests n ≡ some waiting
      → future_of fl np
          (on_message fl np
            (record {
              header = reply_header fl np env Command.reply (pos n);
              payload = v;
              order = o;
            })
            c).requests
          n
        ≡ some (outcome fl np v)
  unfolding effect Requests.dispatch Requests.by_command set_response
  reply_arrives n v o r e =
      future_of-on_message fl np _ n r
      ∙ ap (Option.map (effect fl np (Requests.reply (pos n) v) n)) e
      ∙ rw (==_refl n) refl

  -- A client in a reachable state asks for a property `p` that the server has, and the request and
  -- the reply are messages that can be read back. Then the bytes of the request are read as the
  -- event for `p` with the number of the request; the handler of that event writes one reply, with the value of the
  -- property; and the bytes of the reply are read as a message on which the request, if it still waits,
  -- gets that value, as it arrives.
  pub property_get-replies :
      (native : Endian) (p : Text) (now : Clock) (k : ℕ) (t : State fl np env) (rest more : Bytes)
      {c : Connection fl np} {q : Property fl np} {pk rp : Packet}
      → Reachable fl np native c
      → IsSafe fl np
          (numbered fl np (get_header p) (successor c.last))
          Payload.nothing
          (order_of fl np native c.peer)
      → (begin fl np native (get_header p) Payload.nothing now c).1 ≡ ok pk
      → future_of fl np
          (begin fl np native (get_header p) Payload.nothing now c).0.requests
          (successor c.last)
        ≡ some waiting
      → get t.properties p ≡ some q
      → IsSafe fl np
          (reply_header fl np env Command.reply (pos (successor c.last)))
          q.value
          (order_of fl np env.native (t.peers k))
      → serialize fl np env.native
          (reply_header fl np env Command.reply (pos (successor c.last)))
          q.value
          (t.peers k)
          t.now
        ≡ ok rp
      → ((m : Message fl np) × (read_one_message fl np (wire pk ++ rest) ≡ ok (m, rest))
          × (Events.dispatch fl np m ≡ ok (property_get (pos (successor c.last)) p)))
        × (run_task env (handle k (property_get (pos (successor c.last)) p)) t
            ≡ wrote env t k (reply_header fl np env Command.reply (pos (successor c.last))) q.value)
        × ((m : Message fl np) × (read_one_message fl np (wire rp ++ more) ≡ ok (m, more))
            × (future_of fl np
                  (on_message fl np m
                    (begin fl np native (get_header p) Payload.nothing now c).0).requests
                  (successor c.last)
                ≡ some (
                    outcome fl np
                      (received fl np (order_of fl np env.native (t.peers k)) q.value))))
  property_get-replies native p now k t rest more {c} {q} reach safe asked waits has safe₂ replied =
      let n = successor c.last in
      let h = reply_header fl np env Command.reply (pos n) in
      (
        request_arrives native p now rest reach asked safe,
        handler_replies k (pos n) p t has replied,
        (
          _,
          read-serialize fl np env.native h q.value (t.peers k) t.now more safe₂ replied,
          reply_arrives n (received fl np (order_of fl np env.native (t.peers k)) q.value)
              (order_of fl np env.native (t.peers k))
              (steps reach (begins (get_header p) Payload.nothing now)) waits,
        ),
      )
