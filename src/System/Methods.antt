-- ===== src/System/Methods.antt =====
-- What the methods of a client become at the server: client_connection.py and server_connection.py.
use chess_pyspec.Base.{ℕ, ◌≡◌, refl, ap, ◌∙◌, Option, none, [], ◌++◌, Text, Bytes}
use chess_pyspec.Base.Int.{pos}
use chess_pyspec.Base.Result.{Result, ok, err, ◌>>=◌}
use chess_pyspec.Bytes.Words.{Endian}
use chess_pyspec.Platform.{Floats, Numpy}
use chess_pyspec.Payload.{Payload}
use chess_pyspec.Protocol.Command.{Command}
use chess_pyspec.Protocol.Messages.{
  Header, Clock, Packet, Message, serialize, wire, read_one_message,
}
use chess_pyspec.Protocol.Messages.RoundTrip.{order_of, IsSafe, read-serialize}
use chess_pyspec.Protocol.Payloads.{Data}
use chess_pyspec.Protocol.Payloads.RoundTrip.{received}
use chess_pyspec.Client.Methods.{
  header, Method, prop_get, prop_watch, prop_unwatch, prop_set, abort, hello, remote_cmd,
  remote_cmd_no_return, remote_func, remote_func_no_return, build_remote_function_string, sends,
}
use chess_pyspec.Client.Requests.{numbered}
use chess_pyspec.Server.Dispatch.{received-text}
use chess_pyspec.Server.Events
use chess_pyspec.Server.Events.{Event, dispatch, by_command, as_str}

module _ (fl : Floats) (np : Numpy) where
  -- The event that a method asks for, with the number of the request
  abbrev pub asked : Endian → ℕ → Method fl np → Result (Event fl np)
  asked o n (prop_get p) = ok (Events.property_get (pos n) p)
  asked o n (prop_watch p) = ok (Events.property_watch p)
  asked o n (prop_unwatch p) = ok (Events.property_unwatch p)
  asked o n (prop_set p d) = ok (Events.property_set p (received fl np o d))
  asked o n abort = ok Events.abort
  asked o n hello = ok (Events.hello (pos n))
  asked o n (remote_cmd t) = ok (Events.remote_cmd (pos n) t)
  asked o n (remote_cmd_no_return t) = ok (Events.remote_cmd_no_return t)
  asked o n (remote_func f args) =
      build_remote_function_string f args >>= λ t. ok (Events.remote_func (pos n) t)
  asked o n (remote_func_no_return f args) =
      build_remote_function_string f args >>= λ t. ok (Events.remote_func_no_return t)

  abbrev pub arrived : Endian → ℕ → Header × Data fl np → Message fl np
  arrived o n m = record {
    header = numbered fl np m.0 n;
    payload = received fl np o m.1;
    order = o;
  }

  -- `float` reads none of these texts as a number.
  abbrev NoNumber : Result Text → Type 0
  NoNumber (ok t) = fl.parse t ≡ none
  NoNumber (err e) = Unit

  abbrev pub IsSent : Method fl np → Type 0
  IsSent (remote_cmd t) = NoNumber (ok t)
  IsSent (remote_cmd_no_return t) = NoNumber (ok t)
  IsSent (remote_func f args) = NoNumber (build_remote_function_string f args)
  IsSent (remote_func_no_return f args) = NoNumber (build_remote_function_string f args)
  IsSent _ = Unit

  -- The message of a text is read as the event of that text.
  arrives :
      (o : Endian) (n : ℕ) (h : Header) (e : Text → Event fl np) (r : Result Text)
      → ((t : Text)
          → dispatch fl np
              (record { header = numbered fl np h n; payload = Payload.text t; order = o })
            ≡ ok (e t))
      → NoNumber r
      → ((r >>= λ t. ok (h, Payload.text t)) >>= λ s. dispatch fl np (arrived o n s))
        ≡ (r >>= λ t. ok (e t))
  arrives o n h e (err x) same q = refl
  arrives o n h e (ok t) same q =
      ap (λ d. dispatch fl np (record { header = numbered fl np h n; payload = d; order = o }))
        (received-text fl np o t q)
      ∙ same t

  -- What a method sends, once it has arrived, is the event that the method asks for.
  dispatch-sends :
      (o : Endian) (n : ℕ) (m : Method fl np)
      → IsSent m
      → (sends fl np m >>= λ s. dispatch fl np (arrived o n s)) ≡ asked o n m
  unfolding sends dispatch by_command as_str
  dispatch-sends o n (prop_get p) h = refl
  dispatch-sends o n (prop_watch p) h = refl
  dispatch-sends o n (prop_unwatch p) h = refl
  dispatch-sends o n (prop_set p d) h = refl
  dispatch-sends o n abort h = refl
  dispatch-sends o n hello h = refl
  dispatch-sends o n (remote_cmd t) h = rw (received-text fl np o t h) refl
  dispatch-sends o n (remote_cmd_no_return t) h = rw (received-text fl np o t h) refl
  dispatch-sends o n (remote_func f args) h =
      arrives o n (header fl np Command.func_with_return []) (Events.remote_func (pos n))
        (build_remote_function_string f args) (λ t. refl) h
  dispatch-sends o n (remote_func_no_return f args) h =
      arrives o n (header fl np Command.func []) Events.remote_func_no_return
        (build_remote_function_string f args) (λ t. refl) h

  -- A method of the client that sends a message, with any number and in either byte order: the bytes
  -- are read by the server as a message that is the event which the method asks for, and what
  -- follows them is left. The message is one that can be read back, as its payload is ASCII and its
  -- sizes fit, and `float` reads no text of a command or a function call as a number.
  pub read-sends :
      (native : Endian) (order : Option Endian) (now : Clock) (n : ℕ) (m : Method fl np)
      (rest : Bytes) {s : Header × Data fl np} {pk : Packet}
      → sends fl np m ≡ ok s
      → IsSent m
      → IsSafe fl np (numbered fl np s.0 n) s.1 (order_of fl np native order)
      → serialize fl np native (numbered fl np s.0 n) s.1 order now ≡ ok pk
      → (x : Message fl np) × (read_one_message fl np (wire pk ++ rest) ≡ ok (x, rest))
        × (dispatch fl np x ≡ asked (order_of fl np native order) n m)
  read-sends native order now n m rest {s} e h safe made = (
    arrived (order_of fl np native order) n s,
    read-serialize fl np native (numbered fl np s.0 n) s.1 order now rest safe made,
    rw e at (dispatch-sends (order_of fl np native order) n m h),
  )
