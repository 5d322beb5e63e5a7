-- ===== src/Server/State.antt =====
-- The state of a `Server` (pyspec/server/server.py), its properties
-- (pyspec/server/_remote_property.py), and what it writes to its connections.
use chess_pyspec.Base.{
  ℕ, ◌≡◌, Bool, false, Option, none, some, List, [], ◌∷◌, ◌++◌, ◌||◌, ◌==◌, if◌then◌else◌, Text,
}
use chess_pyspec.Base.Int.{ℤ, pos}
use chess_pyspec.Base.Result.{
  Result, Error, ok, err, type_error, value_error, ◌>>=◌, ◌>>◌, require, or_raise,
}
use chess_pyspec.Bytes.Utf8.{encode}
use chess_pyspec.Base.{Bytes}
use chess_pyspec.Bytes.Words.{Endian}
use chess_pyspec.Dict.{Dict, get}
use chess_pyspec.Platform.{Floats, Numpy}
use chess_pyspec.Payload.{Payload}
use chess_pyspec.Protocol.Command.{Command}
use chess_pyspec.Protocol.Messages.{Header, Clock, serialize}
use chess_pyspec.Protocol.Payloads.{Data}
use chess_pyspec.SpecSyntax.{Objects, Expr}
use chess_pyspec.Server.Events.{Event}

-- What the server takes from Python: its objects, `ast.parse`, `eval`, the byte order of the
-- machine, and the text of an exception, which can be encoded.
pub record Python (fl : Floats) (np : Numpy) : Type 1 where
  pub py : Objects fl np
  pub parse : Text → Option (Expr py.V)
  pub eval : Text → Result py.V
  pub native : Endian
  pub explain : Error → Text
  pub encode-explain : (e : Error) → (b : Bytes) × (encode (explain e) ≡ ok b)

-- A coroutine of a remote function that runs for a connection, and the number of its reply.
pub record Call : Type 0 where
  pub connection : ℕ
  pub number : Option ℤ

-- A remote function returns an object, or a coroutine.
pub data Outcome (V : Type 0) : Type 0 where
  returned : V → Outcome V
  started : Outcome V

unfoldable pub member : ℕ → List ℕ → Bool
member c [] = false
member c (d ∷ ds) = d == c || member c ds

-- `set.add` and `set.discard`
unfoldable pub add : ℕ → List ℕ → List ℕ
unfolding member
add c ds = if member c ds then ds else ds ++ (c ∷ [])

unfoldable pub discard : ℕ → List ℕ → List ℕ
discard c [] = []
discard c (d ∷ ds) = let rest = discard c ds in if d == c then rest else d ∷ rest

abbrev none_is_empty : Option (List ℕ) → List ℕ
none_is_empty none = []
none_is_empty (some ds) = ds

module _ (fl : Floats) (np : Numpy) where
  -- A `Property`; `accepts` is `isinstance(value, self._dtype)`.
  pub record Property : Type 0 where
    pub value : Data fl np
    pub accepts : Data fl np → Bool

  -- `Property.set`, but for the event
  unfoldable pub set_value : Data fl np → Property → Result Property
  set_value v p = do require (p.accepts v) type_error; ok (record p { value = v })

  -- A message that was written to a connection. A closed connection drops it.
  pub record Written : Type 0 where
    pub to : ℕ
    pub header : Header
    pub payload : Data fl np

  -- What waits in the event loop: a handler of an event, and the two tasks of a broadcast.
  pub data Task : Type 0 where
    handle : ℕ → Event fl np → Task
    broadcast : Text → Data fl np → Task
    deliver : ℕ → Text → Data fl np → Task

  pub record Server (V : Type 0) : Type 0 where
    pub properties : Dict Property
    pub functions : Dict (List V → Result (Outcome V))
    pub listeners : Dict (List ℕ)
    pub queue : List Task
    pub running : List Call
    pub written : List Written
    pub closed : List ℕ
    -- The connections whose `_listen` has ended by an exception
    pub stopped : List ℕ
    pub peers : ℕ → Option Endian
    pub allow_remote_code_execution : Bool
    pub now : Clock

  unfoldable pub listeners_of : {V : Type 0} → Server V → Text → List ℕ
  listeners_of s p = none_is_empty (get s.listeners p)

  module _ (env : Python fl np) where
    open env use {py, native, explain}

    abbrev pub State : Type 0
    State = Server py.V

    -- `Connection._send`
    unfoldable pub send : ℕ → Header → Data fl np → State → Result State
    send c h d s = do
      _ ← serialize fl np native h d (s.peers c) s.now
      ok (record s { written = s.written ++ (record { to = c; header = h; payload = d } ∷ []) })

    abbrev pub reply_header : Command → ℤ → Header
    reply_header k n = record { command = k; sequence_number = n; name = [] }

    unfoldable pub reply : ℕ → ℤ → Data fl np → State → Result State
    unfolding send
    reply c n d s = send c (reply_header Command.reply n) d s

    unfoldable pub reply_error : ℕ → ℤ → Error → State → Result State
    unfolding send
    reply_error c n e s = send c (reply_header Command.reply n) (Payload.error (explain e)) s

    unfoldable pub hello_reply : ℕ → ℤ → State → Result State
    unfolding send
    hello_reply c n s = send c (reply_header Command.hello_reply n) Payload.nothing s

    abbrev pub event_header : Text → Header
    event_header p = record { command = Command.event; sequence_number = pos 0; name = p }

    unfoldable pub prop_send : ℕ → Text → Data fl np → State → Result State
    unfolding send
    prop_send c p d s = send c (event_header p) d s

    -- A task that raises changes nothing more.
    abbrev pub after : State → Result State → State
    after s (ok t) = t
    after s (err e) = s

    unfoldable pub send_object : ℕ → ℤ → py.V → State → Result State
    unfolding reply
    send_object c n v s = do d ← or_raise (py.to_data v) value_error; reply c n d s

    unfoldable pub or_error : ℕ → ℤ → State → Result State → State
    unfolding reply_error
    or_error c n s (ok t) = t
    or_error c n s (err e) = after s (reply_error c n e s)

    -- `async with connection.catch_reply_exceptions(n): await connection.reply(n, r)`
    unfoldable pub answer : ℕ → ℤ → Result py.V → State → State
    unfolding send_object or_error
    answer c n r s = or_error c n s (r >>= λ v. send_object c n v s)
