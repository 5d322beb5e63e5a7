-- ===== src/Server/Events.antt =====
-- pyspec/_connection/server_connection.py: the events that the messages of a client become.
use chess_pyspec.Base.{Text}
use chess_pyspec.Base.Int.{ℤ}
use chess_pyspec.Base.Result.{Result, ok, err, type_error, value_error, ◌>>=◌}
use chess_pyspec.Platform.{Floats, Numpy}
use chess_pyspec.Payload.{Payload}
use chess_pyspec.Protocol.Command.{Command}
use chess_pyspec.Protocol.Messages.{Header, Message}
use chess_pyspec.Protocol.Payloads.{Data}

module _ (fl : Floats) (np : Numpy) where
  pub data Event : Type 0 where
    close abort : Event
    hello : ℤ → Event
    property_set : Text → Data fl np → Event
    property_get : ℤ → Text → Event
    property_watch property_unwatch : Text → Event
    remote_cmd_no_return remote_func_no_return : Text → Event
    remote_cmd remote_func : ℤ → Text → Event

  -- `isinstance(msg.data, str)`, which an `ErrorStr` is too
  unfoldable pub as_str : Data fl np → Result Text
  as_str (Payload.text t) = ok t
  as_str (Payload.error t) = ok t
  as_str _ = err type_error

  unfoldable pub by_command : Command → Header → Data fl np → Result Event
  unfolding as_str
  by_command Command.close h d = ok close
  by_command Command.abort h d = ok abort
  by_command Command.hello h d = ok (hello h.sequence_number)
  by_command Command.chan_send h d = ok (property_set h.name d)
  by_command Command.chan_read h d = ok (property_get h.sequence_number h.name)
  by_command Command.register h d = ok (property_watch h.name)
  by_command Command.unregister h d = ok (property_unwatch h.name)
  by_command Command.cmd h d = do t ← as_str d; ok (remote_cmd_no_return t)
  by_command Command.cmd_with_return h d = do t ← as_str d; ok (remote_cmd h.sequence_number t)
  by_command Command.func h d = do t ← as_str d; ok (remote_func_no_return t)
  by_command Command.func_with_return h d = do t ← as_str d; ok (remote_func h.sequence_number t)
  by_command _ h d = err value_error

  -- `_dispatch_typed_message_events`
  unfoldable pub dispatch : Message fl np → Result Event
  unfolding by_command
  dispatch m = by_command m.header.command m.header m.payload
