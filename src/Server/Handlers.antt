-- ===== src/Server/Handlers.antt =====
-- The handlers of `_on_client_connected`, the event loop that runs them, and what happens to a
-- server (pyspec/server/server.py).
use chess_pyspec.Base.{
  ℕ, zero, suc, Option, none, some, List, [], ◌∷◌, ◌++◌, map, ◌==◌, if◌then◌else◌, Text,
}
use chess_pyspec.Base.Int.{ℤ}
use chess_pyspec.Base.Result.{Result, ok, err, runtime_error, server_exception, value_error, ◌>>=◌}
use chess_pyspec.Bytes.Words.{Endian}
use chess_pyspec.Dict.{get, set}
use chess_pyspec.Platform.{Floats, Numpy}
use chess_pyspec.Protocol.Messages.{Message}
use chess_pyspec.Protocol.Payloads.{Data}
use chess_pyspec.Server.Commands.{execute_function, execute_command}
use chess_pyspec.Server.Events.{
  Event, close, abort, hello, property_set, property_get, property_watch, property_unwatch,
  remote_cmd_no_return, remote_func_no_return, remote_cmd, remote_func, dispatch,
}
use chess_pyspec.Server.State.{
  Python, set_value, Task, handle, broadcast, deliver, Call, Outcome, returned, started, member,
  add, discard, listeners_of, State, hello_reply, prop_send, after, answer,
}

module _ {fl : Floats} {np : Numpy} (env : Python fl np) where
  open env use {py}

  -- `prop.set(v)` of a property that the server has: the broadcast becomes a task.
  unfoldable pub set_property : Text → Data fl np → State fl np env → Result (State fl np env)
  unfolding set_value
  set_property p v s = elim (get s.properties p) [
    | none ↦ err value_error
    | some old ↦ set_value fl np v old >>= λ new.
        ok (record s {
          properties = set s.properties p new;
          queue = s.queue ++ (broadcast p v ∷ []);
        })
  ]

  -- A request that is executed: an object is the reply, if one is wanted; a coroutine runs on.
  unfoldable pub proceed : ℕ → Option ℤ → Result (Outcome py.V) → State fl np env → State fl np env
  proceed c n (ok started) s = record s {
    running = s.running ++ (record { connection = c; number = n } ∷ []);
  }
  proceed c (some n) (ok (returned v)) s = answer fl np env c n (ok v) s
  proceed c (some n) (err e) s = answer fl np env c n (err e) s
  proceed c none _ s = s

  -- What a coroutine ends with is the reply.
  unfoldable pub end_call : Call → Result py.V → State fl np env → State fl np env
  end_call k r s = elim k.number [ none ↦ s | some n ↦ answer fl np env k.connection n r s ]

  unfoldable pub cancel_all : List Call → State fl np env → State fl np env
  unfolding end_call
  cancel_all [] s = s
  cancel_all (k ∷ ks) s = cancel_all ks (end_call k (err runtime_error) s)

  -- `Server.abort`: every coroutine is cancelled, and ends with "Function execution aborted."
  unfoldable pub abort_all : State fl np env → State fl np env
  unfolding cancel_all
  abort_all s = cancel_all s.running (record s { running = [] })

  unfoldable pub on_property_get : ℕ → ℤ → Text → State fl np env → State fl np env
  on_property_get c n p s = elim (get s.properties p) [
    | none ↦ answer fl np env c n (err server_exception) s
    | some q ↦ answer fl np env c n (ok (py.of_data q.value)) s
  ]

  unfoldable pub on_property_watch : ℕ → Text → State fl np env → State fl np env
  on_property_watch c p s =
      let t = record s { listeners = set s.listeners p (add c (listeners_of fl np s p)) } in
      elim (get s.properties p) [
        | none ↦ t
        | some q ↦ after fl np env t (prop_send fl np env c p q.value t)
      ]

  unfoldable pub on_property_unwatch : ℕ → Text → State fl np env → State fl np env
  on_property_unwatch c p s = record s {
    listeners = set s.listeners p (discard c (listeners_of fl np s p));
  }

  -- The handlers, as far as they run without waiting.
  unfoldable pub on_event : ℕ → Event fl np → State fl np env → State fl np env
  unfolding abort_all on_property_get on_property_watch on_property_unwatch proceed set_property
  on_event c close s = record s { closed = s.closed ++ (c ∷ []) }
  on_event c abort s = abort_all s
  on_event c (hello n) s = after fl np env s (hello_reply fl np env c n s)
  on_event c (property_set p v) s = after fl np env s (set_property p v s)
  on_event c (property_get n p) s = on_property_get c n p s
  on_event c (property_watch p) s = on_property_watch c p s
  on_event c (property_unwatch p) s = on_property_unwatch c p s
  on_event c (remote_cmd_no_return t) s = proceed c none (execute_command env s t) s
  on_event c (remote_cmd n t) s = proceed c (some n) (execute_command env s t) s
  on_event c (remote_func_no_return t) s = proceed c none (execute_function env s t) s
  on_event c (remote_func n t) s = proceed c (some n) (execute_function env s t) s

  -- `broadcast_property`: one task for each connection that listens now.
  unfoldable pub broadcast_property : Text → Data fl np → State fl np env → State fl np env
  broadcast_property p v s = record s {
    queue = s.queue ++ map (λ c. deliver c p v) (listeners_of fl np s p);
  }

  unfoldable pub run_task : Task fl np → State fl np env → State fl np env
  unfolding on_event broadcast_property
  run_task (handle c e) s = on_event c e s
  run_task (broadcast p v) s = broadcast_property p v s
  run_task (deliver c p v) s = after fl np env s (prop_send fl np env c p v s)

  -- The event loop runs the oldest task.
  unfoldable pub run_next : State fl np env → State fl np env
  unfolding run_task
  run_next s = elim s.queue [ [] ↦ s | t ∷ ts ↦ run_task t (record s { queue = ts }) ]

  -- The event loop runs this many tasks.
  unfoldable pub run_tasks : ℕ → State fl np env → State fl np env
  unfolding run_next
  run_tasks zero s = s
  run_tasks (suc n) s = run_tasks n (run_next s)

  -- `on_close` is no coroutine and runs at once; the other handlers become tasks.
  unfoldable pub emit : ℕ → Event fl np → State fl np env → State fl np env
  unfolding on_event
  emit c close s = on_event c close s
  emit c e s = record s { queue = s.queue ++ (handle c e ∷ []) }

  unfoldable with_peer : ℕ → Endian → (ℕ → Option Endian) → ℕ → Option Endian
  with_peer c e peers d = if c == d then some e else peers d

  -- `_listen` on one more message; an exception of the dispatch ends it.
  unfoldable pub receive : ℕ → Message fl np → State fl np env → State fl np env
  unfolding emit with_peer
  receive c m s =
      if member c s.stopped
      then s
      else (let t = record s { peers = with_peer c m.order s.peers } in
          elim (dispatch fl np m) [
            | ok e ↦ emit c e t
            | err x ↦ record t { stopped = t.stopped ++ (c ∷ []) }
          ])

  -- The n-th coroutine that runs, and the others.
  unfoldable pub take_out : ℕ → List Call → Option (Call × List Call)
  take_out n [] = none
  take_out zero (k ∷ ks) = some (k, ks)
  take_out (suc n) (k ∷ ks) = elim (take_out n ks) [ none ↦ none | some r ↦ some (r.0, k ∷ r.1) ]

  unfoldable pub finish : ℕ → Result py.V → State fl np env → State fl np env
  unfolding take_out end_call
  finish n r s = elim (take_out n s.running) [
    | none ↦ s
    | some k ↦ end_call k.0 r (record s { running = k.1 })
  ]
