-- ===== src/Server/Answers.antt =====
-- What a server owes and has given: an event moves a request on, and loses none.
use chess_pyspec.Base.{
  Option-cases, ℕ, zero, suc, ◌+◌, ◌≡◌, refl, ap, Option, none, some, List, [], ◌∷◌, map, inl, inr,
  arith, Text,
}
use chess_pyspec.Base.Int.{ℤ}
use chess_pyspec.Base.Result.{Result, ok, err, err-ne-ok, ok-injective, >>=-eq-ok, server_exception}
use chess_pyspec.Dict.{get, set}
use chess_pyspec.Platform.{Floats, Numpy}
use chess_pyspec.Payload.{Payload}
use chess_pyspec.Protocol.Command.{Command}
use chess_pyspec.Protocol.Messages.Sending.{serialize-nothing}
use chess_pyspec.Protocol.Payloads.{Data}
use chess_pyspec.Server.Commands.{execute_function, execute_command}
use chess_pyspec.Server.Events.{
  Event, close, abort, hello, property_set, property_get, property_watch, property_unwatch,
  remote_cmd_no_return, remote_func_no_return, remote_cmd, remote_func,
}
use chess_pyspec.Server.Handlers.{
  set_property, proceed, abort_all, on_property_get, on_property_watch, on_property_unwatch,
  on_event, broadcast_property, run_task, run_next, emit, take_out, finish,
}
use chess_pyspec.Server.State.{
  set_value, add, listeners_of, event_header, hello_reply, Python, Task, handle, broadcast, deliver,
  Call, Outcome, returned, started, State, send, prop_send, after, reply_header,
}
use chess_pyspec.Server.Counting.{
  one, executing, executing-append, number_of, replied, waiting, replied-append, waiting-append,
  waiting-deliver, wrote, send-wrote, total, total-answer, total-end_call, total-cancel_all,
}

module _ {fl : Floats} {np : Numpy} (env : Python fl np) where
  open env use {py}

  total-proceed :
      (c : ℕ) (n : ℤ) (d : ℕ) (m : Option ℤ) (r : Result (Outcome py.V)) (s : State fl np env)
      → total env c n (proceed env d m r s) ≡ total env c n s + one c n d m
  unfolding proceed total one
  total-proceed c n d m (ok started) s =
      omega (arith, executing-append c n s.running (record { connection = d; number = m }))
  total-proceed c n d (some m) (ok (returned v)) s = total-answer env c n d m (ok v) s
  total-proceed c n d (some m) (err e) s = total-answer env c n d m (err e) s
  total-proceed c n d none (ok (returned v)) s = omega arith
  total-proceed c n d none (err e) s = omega arith

  total-after :
      (c : ℕ) (n : ℤ) (s : State fl np env) (r : Result (State fl np env))
      → ((t : State fl np env) → r ≡ ok t → total env c n t ≡ total env c n s)
      → total env c n (after fl np env s r) ≡ total env c n s
  total-after c n s (ok t) k = k t refl
  total-after c n s (err e) k = refl

  total-prop_send :
      (c : ℕ) (n : ℤ) (d : ℕ) (p : Text) (v : Data fl np) (s : State fl np env)
      → total env c n (after fl np env s (prop_send fl np env d p v s)) ≡ total env c n s
  unfolding prop_send total replied
  total-prop_send c n d p v s = total-after c n s _ (λ t e.
      rw (← send-wrote env d (event_header fl np env p) v s e)
        (omega (arith, replied-append c n s.written _)))

  total-set_ok :
      (c : ℕ) (n : ℤ) (p : Text) (v : Data fl np) (s : State fl np env) {t : State fl np env}
      → set_property env p v s ≡ ok t
      → total env c n t ≡ total env c n s
  unfolding set_property total waiting
  total-set_ok c n p v s {t = t} e = elim (Option-cases (get s.properties p)) [
    | inl q ↦ absurd (err-ne-ok (rw (q, set_property) at e))
    | inr (old, q) ↦
        let (new, _, e₂) = >>=-eq-ok (set_value fl np v old) _ (rw (q, set_property) at e) in
        rw (← ok-injective e₂) (omega (arith, waiting-append c n s.queue (broadcast p v ∷ [])))
  ]

  pub total-set_property :
      (c : ℕ) (n : ℤ) (p : Text) (v : Data fl np) (s : State fl np env)
      → total env c n (after fl np env s (set_property env p v s)) ≡ total env c n s
  unfolding set_property
  total-set_property c n p v s = total-after c n s _ (λ t e. total-set_ok c n p v s {t = t} e)

  hello_reply-wrote :
      (c : ℕ) (n : ℤ) (s : State fl np env)
      → hello_reply fl np env c n s
        ≡ ok (wrote env s c (reply_header fl np env Command.hello_reply n) Payload.nothing)
  unfolding hello_reply send
  hello_reply-wrote c n s =
      let (pk, hp) =
        serialize-nothing fl np env.native (reply_header fl np env Command.hello_reply n)
          (s.peers c) s.now refl in
      rw hp refl

  total-on_event :
      (c : ℕ) (n : ℤ) (d : ℕ) (e : Event fl np) (s : State fl np env)
      → total env c n (on_event env d e s) ≡ total env c n s + one c n d (number_of e)
  unfolding on_event on_property_get on_property_watch on_property_unwatch abort_all number_of one
      total replied executing
  total-on_event c n d close s = omega arith
  total-on_event c n d abort s =
      omega (arith, total-cancel_all env c n s.running (record s { running = [] }))
  total-on_event c n d (hello m) s =
      rw (hello_reply-wrote d m s) (omega (arith, replied-append c n s.written _))
  total-on_event c n d (property_set p v) s = omega (arith, total-set_property c n p v s)
  total-on_event c n d (property_get m p) s = elim (Option-cases (get s.properties p)) [
    | inl e ↦ rw (e, on_event, on_property_get) (total-answer env c n d m (err server_exception) s)
    | inr (q, e) ↦
        rw (e, on_event, on_property_get) (total-answer env c n d m (ok (py.of_data q.value)) s)
  ]
  total-on_event c n d (property_watch p) s =
      let t : State fl np env = record s {
        listeners = set s.listeners p (add d (listeners_of fl np s p));
      } in
      elim (Option-cases (get s.properties p)) [
        | inl e ↦ rw (e, on_event, on_property_watch) (omega arith)
        | inr (q, e) ↦
            rw (e, on_event, on_property_watch) (omega (arith, total-prop_send c n d p q.value t))
      ]
  total-on_event c n d (property_unwatch p) s = omega arith
  total-on_event c n d (remote_cmd_no_return t) s =
      total-proceed c n d none (execute_command env s t) s
  total-on_event c n d (remote_cmd m t) s = total-proceed c n d (some m) (execute_command env s t) s
  total-on_event c n d (remote_func_no_return t) s =
      total-proceed c n d none (execute_function env s t) s
  total-on_event c n d (remote_func m t) s =
      total-proceed c n d (some m) (execute_function env s t) s

  total-run_task :
      (c : ℕ) (n : ℤ) (t : Task fl np) (s : State fl np env)
      → total env c n (run_task env t s) ≡ total env c n s + waiting c n (t ∷ [])
  unfolding run_task broadcast_property total waiting
  total-run_task c n (handle d e) s = omega (arith, total-on_event c n d e s)
  total-run_task c n (broadcast p v) s = omega (
    arith,
    waiting-append c n s.queue (map (λ d. deliver d p v) (listeners_of fl np s p)),
    waiting-deliver env c n p v (listeners_of fl np s p),
  )
  total-run_task c n (deliver d p v) s = omega (arith, total-prop_send c n d p v s)

  total-run_first :
      (c : ℕ) (n : ℤ) (s : State fl np env) (ts : List (Task fl np))
      → s.queue ≡ ts
      → total env c n (run_next env s) ≡ total env c n s
  unfolding run_next total waiting
  total-run_first c n s [] q = rw (q, run_next) (omega (arith, ap (waiting c n) q))
  total-run_first c n s (t ∷ ts) q =
      rw (q, run_next)
        (omega (
          arith,
          total-run_task c n t (record s { queue = ts }),
          waiting-append c n (t ∷ []) ts,
          ap (waiting c n) q,
        ))

  pub total-run_next :
      (c : ℕ) (n : ℤ) (s : State fl np env) → total env c n (run_next env s) ≡ total env c n s
  total-run_next c n s = total-run_first c n s s.queue refl

  pub total-emit :
      (c : ℕ) (n : ℤ) (d : ℕ) (e : Event fl np) (s : State fl np env)
      → total env c n (emit env d e s) ≡ total env c n s + one c n d (number_of e)
  unfolding emit total waiting
  total-emit c n d close s = total-on_event c n d close s
  total-emit c n d e s = omega (arith, waiting-append c n s.queue (handle d e ∷ []))

  abbrev one_and : ℕ → ℤ → Call × List Call → ℕ
  one_and c n r = one c n r.0.connection r.0.number + executing c n r.1

  one_and-some :
      (c : ℕ) (n : ℤ) {x y : Call × List Call} → some x ≡ some y → one_and c n x ≡ one_and c n y
  one_and-some c n {x} {y} e = let q : x ≡ y = cc in ap (one_and c n) q

  executing-take_out :
      (c : ℕ) (n : ℤ) (i : ℕ) (ks : List Call) {k : Call} {js : List Call}
      → take_out env i ks ≡ some (k, js)
      → executing c n ks ≡ one_and c n (k, js)
  unfolding take_out executing
  executing-take_out c n i [] e = cc
  executing-take_out c n zero (k ∷ ks) {k = k'} {js = js} e =
      let q : (k, ks) ≡ (k', js) = cc in ap (one_and c n) q
  executing-take_out c n (suc i) (k ∷ ks) {k = k'} {js = js} e =
      elim (Option-cases (take_out env i ks)) [
        | inl q ↦
            let y : Call × List Call = (k', js) in
            let bad : none ≡ some y = rw (q, take_out) at e in cc
        | inr (r, q) ↦
            omega (arith, one_and-some c n (rw (q, take_out) at e), executing-take_out c n i ks q)
      ]

  pub total-finish :
      (c : ℕ) (n : ℤ) (i : ℕ) (r : Result py.V) (s : State fl np env)
      → total env c n (finish env i r s) ≡ total env c n s
  unfolding finish total
  total-finish c n i r s = elim (Option-cases (take_out env i s.running)) [
    | inl q ↦ rw (q, finish) refl
    | inr ((k, js), q) ↦
        rw (q, finish)
          (omega (
            arith,
            total-end_call env c n k r (record s { running = js }),
            executing-take_out c n i s.running q,
          ))
  ]
