-- ===== src/Client/Requests.antt =====
-- Requests that wait for a reply: `_send_with_reply` and `_dispatch_typed_message_events` of
-- pyspec/_connection/client_connection.py, and what `_listen` of connection.py remembers of the
-- peer for `_send`.
pub mod Replies
pub mod Order
use chess_pyspec.Base.{
  ℕ, zero, suc, ◌+◌, ◌≡◌, Bool, true, false, Option, none, some, List, [], ◌∷◌, ◌++◌, map, arith,
  ◌==◌, ◌&&◌, if◌then◌else◌, Text,
}
use mathlib.Core.Option
use chess_pyspec.Base.Int.{ℤ, pos, negsuc, eq_ℤ}
use chess_pyspec.Base.Result.{Result, ok, err, runtime_error}
use chess_pyspec.Bytes.Words.{Endian}
use chess_pyspec.Platform.{Floats, Numpy}
use chess_pyspec.Payload.{Payload}
use chess_pyspec.Protocol.Command.{Command}
use chess_pyspec.Protocol.Messages.{Header, Clock, Packet, Message, serialize}
use chess_pyspec.Protocol.Payloads.{Data}
use chess_pyspec.Client.Sequence.{successor, next_number}

module _ (fl : Floats) (np : Numpy) where
  -- What a message from the server is turned into.
  pub data Event : Type 0 where
    property_change : Text → Data fl np → Event
    reply : ℤ → Data fl np → Event
    unrecognized : Command → Event

  unfoldable pub by_command : Command → Message fl np → Event
  by_command Command.event m = property_change m.header.name m.payload
  by_command Command.reply m = reply m.header.sequence_number m.payload
  by_command Command.hello_reply m = reply m.header.sequence_number m.payload
  by_command c m = unrecognized c

  unfoldable pub dispatch : Message fl np → Event
  unfolding by_command
  dispatch m = by_command m.header.command m

  -- `failed` holds the server's text of a `RemoteException`; `cancelled` is a timeout.
  pub data Future : Type 0 where
    waiting : Future
    resolved : Data fl np → Future
    failed : Text → Future
    cancelled : Future

  -- A call of `_send_with_reply`, and whether it still listens for its reply.
  pub record Request : Type 0 where
    pub number : ℕ
    pub future : Future
    pub listening : Bool

  -- `last` is the module's `LAST_SEQUENCE_NUMBER`, as it is for every connection, and `peer` is `_peer_endianness`.
  pub record Connection : Type 0 where
    pub last : ℕ
    pub requests : List Request
    pub peer : Option Endian

  -- The connection when the counter, a global of the module, has come to n elsewhere
  unfoldable pub taken : ℕ → Connection → Connection
  taken n c = record { last = n; requests = c.requests; peer = c.peer }

  abbrev pub numbered : Header → ℕ → Header
  numbered h n = record { command = h.command; sequence_number = pos n; name = h.name }

  -- Where the packet was written, the request waits; an exception ends it, and its listener goes.
  unfoldable sent : ℕ → Connection → Result Packet → Connection × Result Packet
  sent n c (err e) = (record { last = n; requests = c.requests; peer = c.peer }, err e)
  sent n c (ok p) =
      let r : Request = record { number = n; future = waiting; listening = true } in
      (record { last = n; requests = c.requests ++ (r ∷ []); peer = c.peer }, ok p)

  -- `_send_with_reply` up to where it waits: the packet that is written, or the exception.
  unfoldable pub begin :
      Endian → Header → Data fl np → Clock → Connection → Connection × Result Packet
  unfolding sent
  begin native h d now c = elim (next_number 2 c.last) [
    | none ↦ (c, err runtime_error)
    | some n ↦ sent n c (serialize fl np native (numbered h n) d c.peer now)
  ]

  -- An `ErrorStr` becomes a `RemoteException`.
  unfoldable pub outcome : Data fl np → Future
  outcome (Payload.error t) = failed t
  outcome d = resolved d

  -- `set_response`: a future that is done keeps what it has.
  unfoldable pub set_response : Data fl np → Future → Future
  unfolding outcome
  set_response d waiting = outcome d
  set_response d f = f

  -- The event `reply-{n}`: a listener is removed before it is called.
  unfoldable pub emit_reply : ℤ → Data fl np → Request → Request
  unfolding set_response
  emit_reply z d r =
      if r.listening && eq_ℤ (pos r.number) z
      then record { number = r.number; future = set_response d r.future; listening = false }
      else r

  unfoldable pub handle : Event → List Request → List Request
  unfolding emit_reply
  handle (reply z d) rs = map (emit_reply z d) rs
  handle (property_change p d) rs = rs
  handle (unrecognized c) rs = rs

  -- `_listen` for one message.
  unfoldable pub on_message : Message fl np → Connection → Connection
  unfolding dispatch handle
  on_message m c = record {
    last = c.last;
    requests = handle (dispatch m) c.requests;
    peer = some m.order;
  }

  -- `asyncio.wait_for` gives up: the future is cancelled, and `finally` removes the listener.
  unfoldable pub expire : ℕ → Request → Request
  expire n r =
      if r.number == n
      then record {
        number = r.number;
        future = elim r.future [ waiting ↦ cancelled | f ↦ f ];
        listening = false;
      }
      else r

  unfoldable pub on_timeout : ℕ → Connection → Connection
  unfolding expire
  on_timeout n c = record { last = c.last; requests = map (expire n) c.requests; peer = c.peer }
