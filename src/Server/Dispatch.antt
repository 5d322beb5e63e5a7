-- ===== src/Server/Dispatch.antt =====
-- Commands that a client sends as text: `_dispatch_typed_message_events` and `_listen`.
use chess_pyspec.Base.{
  ◌≡◌, refl, ap, ◌∙◌, true, ℕ, Option, none, some, List, [], ◌∷◌, ◌++◌, inl, inr, Bool-cases,
  Option-cases, ==_refl, arith, Text,
}
use chess_pyspec.Base.Int.{ℤ}
use chess_pyspec.Base.Result.{ok, err, type_error}
use chess_pyspec.Bytes.Words.{Endian}
use chess_pyspec.Platform.{Floats, Numpy}
use chess_pyspec.Payload.{Payload}
use chess_pyspec.AssociativeArray
use chess_pyspec.Protocol.Command.{Command}
use chess_pyspec.Protocol.Messages.{Header, Message}
use chess_pyspec.Protocol.Payloads.{Data}
use chess_pyspec.Protocol.Payloads.RoundTrip.{received}
use chess_pyspec.Server.Events.{
  Event, remote_cmd_no_return, remote_func_no_return, remote_cmd, remote_func, as_str, by_command,
  dispatch,
}
use chess_pyspec.Server.Handlers.{receive}
use chess_pyspec.Server.State.{Python, State, member}
use chess_pyspec.Server.Watching.{member-append}

module _ (fl : Floats) (np : Numpy) where
  -- What a client asks for with a text
  unfoldable pub command_event : Command → ℤ → Text → Option (Event fl np)
  command_event Command.cmd n t = some (remote_cmd_no_return t)
  command_event Command.cmd_with_return n t = some (remote_cmd n t)
  command_event Command.func n t = some (remote_func_no_return t)
  command_event Command.func_with_return n t = some (remote_func n t)
  command_event _ n t = none

  -- The message that arrives for a text
  abbrev pub texted : Endian → Header → Text → Message fl np
  texted o h t = record { header = h; payload = received fl np o (Payload.text t); order = o }

  by_command-text :
      (k : Command) (h : Header) (t : Text) {e : Event fl np}
      → command_event k h.sequence_number t ≡ some e
      → by_command fl np k h (Payload.text t) ≡ ok e
  unfolding by_command command_event as_str
  by_command-text Command.cmd h t e = cc
  by_command-text Command.cmd_with_return h t e = cc
  by_command-text Command.func h t e = cc
  by_command-text Command.func_with_return h t e = cc
  by_command-text _ h t e = cc

  by_command-num :
      (k : Command) (h : Header) (t : Text) (v : Data fl np) {e : Event fl np}
      → command_event k h.sequence_number t ≡ some e
      → as_str fl np v ≡ err type_error
      → by_command fl np k h v ≡ err type_error
  unfolding by_command command_event
  by_command-num Command.cmd h t v e q = rw q refl
  by_command-num Command.cmd_with_return h t v e q = rw q refl
  by_command-num Command.func h t v e q = rw q refl
  by_command-num Command.func_with_return h t v e q = rw q refl
  by_command-num _ h t v e q = cc

  pub received-text :
      (o : Endian) (t : Text)
      → fl.parse t ≡ none
      → received fl np o (Payload.text t) ≡ Payload.text t
  unfolding AssociativeArray.try_cast
  received-text o t h = rw (h, AssociativeArray.try_cast) refl

  as_str-received :
      (o : Endian) (t : Text) {f : fl.F}
      → fl.parse t ≡ some f
      → as_str fl np (received fl np o (Payload.text t)) ≡ err type_error
  unfolding as_str AssociativeArray.try_cast
  as_str-received o t h = rw (h, AssociativeArray.try_cast) refl

  -- A command or a function call that is sent as a text becomes its event, if `float` does not
  -- read the text as a number; if it does, the data arrives as a number and TypeError is raised.
  pub dispatch-texted :
      (o : Endian) (h : Header) (t : Text) {e : Event fl np}
      → command_event h.command h.sequence_number t ≡ some e
      → dispatch fl np (texted o h t) ≡ elim (fl.parse t) [ none ↦ ok e | some f ↦ err type_error ]
  unfolding dispatch
  dispatch-texted o h t {e} q = elim (Option-cases (fl.parse t)) [
    | inl p ↦
        rw p (
          ap (by_command fl np h.command h) (received-text o t p) ∙ by_command-text h.command h t q)
    | inr (f, p) ↦ rw p (by_command-num h.command h t _ q (as_str-received o t p))
  ]

module _ {fl : Floats} {np : Numpy} (env : Python fl np) where
  stopped-last : (c : ℕ) (ds : List ℕ) → member c (ds ++ (c ∷ [])) ≡ true
  unfolding member
  stopped-last c ds = ground (arith, member-append c ds (c ∷ []), ==_refl c)

  receive_ignored :
      (c : ℕ) (m : Message fl np) (s : State fl np env)
      → member c s.stopped ≡ true
      → receive env c m s ≡ s
  unfolding receive
  receive_ignored c m s h = rw (h, receive) refl

  receive_stops :
      (c : ℕ) (m : Message fl np) (s : State fl np env)
      → dispatch fl np m ≡ err type_error
      → member c (receive env c m s).stopped ≡ true
  unfolding receive
  receive_stops c m s h = elim (Bool-cases (member c s.stopped)) [
    | inl k ↦ rw (k, receive) k
    | inr k ↦ rw (k, h, receive) (stopped-last c s.stopped)
  ]

  -- After a command or a function call whose text `float` reads as a number, the server ignores
  -- every further message of the connection.
  pub receive-numeric :
      (c : ℕ) (o : Endian) (h : Header) (t : Text) (m : Message fl np) (s : State fl np env)
      {e : Event fl np} {f : fl.F}
      → command_event fl np h.command h.sequence_number t ≡ some e
      → fl.parse t ≡ some f
      → receive env c m (receive env c (texted fl np o h t) s)
        ≡ receive env c (texted fl np o h t) s
  receive-numeric c o h t m s q p =
      receive_ignored c m _ (receive_stops c _ s (dispatch-texted fl np o h t q ∙ rw p refl))
