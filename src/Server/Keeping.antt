-- ===== src/Server/Keeping.antt =====
-- The changes of a server that touch neither its listeners nor its tasks.
use chess_pyspec.Base.{
  ℕ, ◌≡◌, refl, ◌∙◌, Option, none, some, List, [], ◌∷◌, inl, inr, Option-cases, Text,
}
use chess_pyspec.Base.Int.{ℤ}
use chess_pyspec.Base.Result.{Result, ok, err, Result-cases, runtime_error, server_exception}
use chess_pyspec.Dict.{get, set}
use chess_pyspec.Platform.{Floats, Numpy}
use chess_pyspec.Protocol.Command.{Command}
use chess_pyspec.Protocol.Payloads.{Data}
use chess_pyspec.Server.Counting.{send-wrote, answer-wrote}
use chess_pyspec.Server.Handlers.{
  proceed, end_call, cancel_all, on_property_get, on_property_watch, take_out, finish,
}
use chess_pyspec.Server.State.{
  Python, Call, Outcome, returned, started, add, listeners_of, State, reply_header, event_header,
  prop_send, hello_reply, after, answer,
}

module _ {fl : Floats} {np : Numpy} (env : Python fl np) where
  open env use {py}

  -- A change of the server that does not touch its listeners or its tasks
  pub record Keeps (s t : State fl np env) : Type 0 where
    pub listeners_same : t.listeners ≡ s.listeners
    pub queue_same : t.queue ≡ s.queue

  pub keep : {s : State fl np env} → Keeps s s
  keep {s = s} = record { listeners_same = refl; queue_same = refl }

  pub keep_trans : {s t u : State fl np env} → Keeps s t → Keeps t u → Keeps s u
  keep_trans h k = record {
    listeners_same = k.listeners_same ∙ h.listeners_same;
    queue_same = k.queue_same ∙ h.queue_same;
  }

  pub answer-Keeps :
      (c : ℕ) (n : ℤ) (r : Result py.V) (s : State fl np env) → Keeps s (answer fl np env c n r s)
  answer-Keeps c n r s =
      let (d, e) = answer-wrote env c n r s in
      rw e (record { listeners_same = refl; queue_same = refl })

  pub prop_send-Keeps :
      (d : ℕ) (q : Text) (v : Data fl np) (s : State fl np env)
      → Keeps s (after fl np env s (prop_send fl np env d q v s))
  unfolding prop_send
  prop_send-Keeps d q v s = elim (Result-cases (prop_send fl np env d q v s)) [
    | inl (t, e) ↦ rw e (
        rw (← send-wrote env d (event_header fl np env q) v s e)
          (record { listeners_same = refl; queue_same = refl }))
    | inr (x, e) ↦ rw e keep
  ]

  pub hello-Keeps :
      (d : ℕ) (m : ℤ) (s : State fl np env)
      → Keeps s (after fl np env s (hello_reply fl np env d m s))
  unfolding hello_reply
  hello-Keeps d m s = elim (Result-cases (hello_reply fl np env d m s)) [
    | inl (t, e) ↦ rw e (
        rw (← send-wrote env d (reply_header fl np env Command.hello_reply m) _ s e)
          (record { listeners_same = refl; queue_same = refl }))
    | inr (x, e) ↦ rw e keep
  ]

  pub on_property_get-Keeps :
      (d : ℕ) (m : ℤ) (q : Text) (s : State fl np env) → Keeps s (on_property_get env d m q s)
  unfolding on_property_get
  on_property_get-Keeps d m q s = elim (Option-cases (get s.properties q)) [
    | inl e ↦ rw (e, on_property_get) (answer-Keeps d m (err server_exception) s)
    | inr (v, e) ↦ rw (e, on_property_get) (answer-Keeps d m (ok (py.of_data v.value)) s)
  ]

  pub on_property_watch-Keeps :
      (d : ℕ) (q : Text) (s : State fl np env)
      → Keeps
          (record s { listeners = set s.listeners q (add d (listeners_of fl np s q)) })
          (on_property_watch env d q s)
  unfolding on_property_watch
  on_property_watch-Keeps d q s = elim (Option-cases (get s.properties q)) [
    | inl e ↦ rw (e, on_property_watch) keep
    | inr (v, e) ↦ rw (e, on_property_watch) (prop_send-Keeps d q v.value _)
  ]

  pub end_call-Keeps :
      (k : Call) (r : Result py.V) (s : State fl np env) → Keeps s (end_call env k r s)
  unfolding end_call
  end_call-Keeps k r s = elim (Option-cases k.number) [
    | inl q ↦ rw (q, end_call) keep
    | inr (n, q) ↦ rw (q, end_call) (answer-Keeps k.connection n r s)
  ]

  pub cancel_all-Keeps : (ks : List Call) (s : State fl np env) → Keeps s (cancel_all env ks s)
  unfolding cancel_all
  cancel_all-Keeps [] s = keep
  cancel_all-Keeps (k ∷ ks) s =
      keep_trans (end_call-Keeps k (err runtime_error) s)
        (cancel_all-Keeps ks (end_call env k (err runtime_error) s))

  pub proceed-Keeps :
      (c : ℕ) (n : Option ℤ) (r : Result (Outcome py.V)) (s : State fl np env)
      → Keeps s (proceed env c n r s)
  unfolding proceed
  proceed-Keeps c n (ok started) s = record { listeners_same = refl; queue_same = refl }
  proceed-Keeps c (some n) (ok (returned v)) s = answer-Keeps c n (ok v) s
  proceed-Keeps c (some n) (err e) s = answer-Keeps c n (err e) s
  proceed-Keeps c none (ok (returned v)) s = keep
  proceed-Keeps c none (err e) s = keep

  pub finish-Keeps : (i : ℕ) (r : Result py.V) (s : State fl np env) → Keeps s (finish env i r s)
  unfolding finish
  finish-Keeps i r s = elim (Option-cases (take_out env i s.running)) [
    | inl q ↦ rw (q, finish) keep
    | inr ((k, js), q) ↦
        let h = end_call-Keeps k r (record s { running = js }) in
        rw (q, finish) (record { listeners_same = h.listeners_same; queue_same = h.queue_same })
  ]
