-- ===== src/Server/Updates.antt =====
-- A property that is assigned: what the server writes to the connections that listen to it.
use chess_pyspec.Base.{
  text_eq_refl, ℕ, suc, ◌≡◌, refl, sym, ap, ◌∙◌, Option, some, List, [], ◌∷◌, ◌++◌, append_assoc,
  append-nil, length, map, inl, inr, Bool-cases, Option-cases, Text,
}
use chess_pyspec.Base.Int.{ℤ}
use chess_pyspec.Base.Result.{Result, ok, err, err-ne-ok, ok-injective, Result-cases, >>=-eq-ok}
use chess_pyspec.Dict.{get, set, get-set}
use chess_pyspec.Bytes.Words.{Endian}
use chess_pyspec.Platform.{Floats, Numpy}
use chess_pyspec.Protocol.Messages.{Packet, Clock, serialize}
use chess_pyspec.Protocol.Payloads.{Data}
use chess_pyspec.Payload.{Payload}
use chess_pyspec.Protocol.Command.{Command}
use chess_pyspec.Server.Counting.{wrote, reply_error-wrote}
use chess_pyspec.Server.Handlers.{
  set_property, broadcast_property, run_task, run_next, run_tasks, on_property_get,
}
use chess_pyspec.Server.State.{
  Python, Property, set_value, Written, Task, broadcast, deliver, listeners_of, State, send,
  event_header, prop_send, after, answer, or_error, send_object, reply, reply_header,
}

module _ {fl : Floats} {np : Numpy} (env : Python fl np) where
  open env use {py, native}

  -- The event that tells a connection the value, if it can be serialized
  told : Text → Data fl np → Clock → ℕ → Result Packet → List (Written fl np)
  told p v now c (ok pk) = record { to = c; header = event_header fl np env p; payload = v } ∷ []
  told p v now c (err x) = []

  -- The events for these connections, in this order
  unfoldable pub events :
      Text → Data fl np → (ℕ → Option Endian) → Clock → List ℕ → List (Written fl np)
  unfolding told
  events p v peers now [] = []
  events p v peers now (c ∷ cs) =
      told p v now c (serialize fl np native (event_header fl np env p) v (peers c) now)
      ++ events p v peers now cs

  deliver-told :
      (p : Text) (v : Data fl np) (c : ℕ) (s : State fl np env)
      → after fl np env s (prop_send fl np env c p v s) ≡ record s {
        written =
            s.written
            ++ told p v s.now c
                (serialize fl np native (event_header fl np env p) v (s.peers c) s.now);
      }
  unfolding prop_send send told
  deliver-told p v c s =
      elim (Result-cases (serialize fl np native (event_header fl np env p) v (s.peers c) s.now)) [
        | inl (pk, e) ↦ rw (e, prop_send, send) refl
        | inr (x, e) ↦
            rw (e, prop_send, send)
              (ap (λ ws. record s { written = ws }) (sym (append-nil s.written)))
      ]

  run_tasks-deliver :
      (p : Text) (v : Data fl np) (cs : List ℕ) (ts : List (Task fl np)) (s : State fl np env)
      → run_tasks env (length cs) (record s { queue = map (λ c. deliver c p v) cs ++ ts })
        ≡ record s { queue = ts; written = s.written ++ events p v s.peers s.now cs }
  unfolding run_tasks run_next run_task events
  run_tasks-deliver p v [] ts s =
      ap (λ ws. record s { queue = ts; written = ws }) (sym (append-nil s.written))
  run_tasks-deliver p v (c ∷ cs) ts s =
      let new =
        told p v s.now c (serialize fl np native (event_header fl np env p) v (s.peers c) s.now) in
      ap (run_tasks env (length cs)) (deliver-told p v c _)
      ∙ run_tasks-deliver p v cs ts (record s { written = s.written ++ new })
      ∙ ap (λ ws. record s { queue = ts; written = ws })
          (append_assoc s.written new (events p v s.peers s.now cs))

  set_value-value :
      (v : Data fl np) (old : Property fl np) {new : Property fl np}
      → set_value fl np v old ≡ ok new
      → new.value ≡ v
  unfolding set_value
  set_value-value v old e = elim (Bool-cases (old.accepts v)) [
    | inl h ↦ ap (λ x. x.value) (sym (ok-injective (rw (h, set_value) at e)))
    | inr h ↦ absurd (err-ne-ok (rw (h, set_value) at e))
  ]

  set_property-ok :
      (p : Text) (v : Data fl np) (s : State fl np env) {t : State fl np env}
      → set_property env p v s ≡ ok t
      → (q : Property fl np) × (q.value ≡ v)
        × (record s { properties = set s.properties p q; queue = s.queue ++ (broadcast p v ∷ []) }
            ≡ t)
  unfolding set_property
  set_property-ok p v s e = elim (Option-cases (get s.properties p)) [
    | inl h ↦ absurd (err-ne-ok (rw (h, set_property) at e))
    | inr (old, h) ↦
        let (new, hn, e₂) = >>=-eq-ok (set_value fl np v old) _ (rw (h, set_property) at e) in
        (new, set_value-value v old hn, ok-injective e₂)
  ]

  broadcast-events :
      (p : Text) (v : Data fl np) (s : State fl np env)
      → run_tasks env
          (suc (length (listeners_of fl np s p)))
          (record s { queue = broadcast p v ∷ [] })
        ≡ record s {
          queue = [];
          written = s.written ++ events p v s.peers s.now (listeners_of fl np s p);
        }
  unfolding run_tasks run_next run_task broadcast_property listeners_of
  broadcast-events p v s =
      let ls = listeners_of fl np s p in
      ap (λ ts. run_tasks env (length ls) (record s { queue = ts }))
        (sym (append-nil (map (λ c. deliver c p v) ls)))
      ∙ run_tasks-deliver p v ls [] s

  get_set :
      (p : Text) (q : Property fl np) (s : State fl np env) → get (set s.properties p q) p ≡ some q
  get_set p q s = get-set s.properties p p q ∙ rw (text_eq_refl p) refl

  on_property_get-some :
      (c : ℕ) (n : ℤ) (p : Text) (t : State fl np env) {q : Property fl np}
      → get t.properties p ≡ some q
      → on_property_get env c n p t ≡ answer fl np env c n (ok (py.of_data q.value)) t
  unfolding on_property_get
  on_property_get-some c n p t e = rw (e, on_property_get) refl

  -- When no task waits and a property is assigned, the tasks of the event loop write one event with the value to every
  -- connection that listens to the property, in their order, as far as the value can be
  -- serialized for it, and change nothing else.
  pub set_property-events :
      (p : Text) (v : Data fl np) (s t : State fl np env)
      → s.queue ≡ []
      → set_property env p v s ≡ ok t
      → run_tasks env (suc (length (listeners_of fl np s p))) t ≡ record t {
        queue = [];
        written = s.written ++ events p v s.peers s.now (listeners_of fl np s p);
      }
  unfolding run_tasks run_next run_task broadcast_property listeners_of
  set_property-events p v s t idle e =
      let (q, hv, ht) = set_property-ok p v s e in
      let ls = listeners_of fl np s p in
      rw (← ht) (
        ap
          (λ ts.
            run_tasks env (suc (length ls))
              (record s { properties = set s.properties p q; queue = ts ++ (broadcast p v ∷ []) }))
          idle
        ∙ broadcast-events p v (record s { properties = set s.properties p q }))

  -- The server when it has answered a request for a value, by what `serialize` gives for the reply
  unfoldable pub answered : ℕ → ℤ → Data fl np → State fl np env → Result Packet → State fl np env
  answered c n v s (ok pk) = wrote env s c (reply_header fl np env Command.reply n) v
  answered c n v s (err x) =
      wrote env s c (reply_header fl np env Command.reply n) (Payload.error (env.explain x))

  answer-of_data :
      (c : ℕ) (n : ℤ) (v : Data fl np) (s : State fl np env)
      → answer fl np env c n (ok (py.of_data v)) s
        ≡ answered c n v s
            (serialize fl np native (reply_header fl np env Command.reply n) v (s.peers c) s.now)
  unfolding answer or_error send_object reply send answered
  answer-of_data c n v s =
      let made =
        serialize fl np native (reply_header fl np env Command.reply n) v (s.peers c) s.now in
      elim (Result-cases made) [
        | inl (pk, e) ↦ rw (py.to_data-of_data v, e) refl
        | inr (x, e) ↦ rw (py.to_data-of_data v, e) (rw (reply_error-wrote env c n x s) refl)
      ]

  -- A property that was assigned is read back: a request for it writes exactly one message, a reply
  -- to the connection that asked, with the number of the request and the value that was assigned;
  -- where that cannot be serialized, the reply is the error of that.
  pub on_property_get-set_property :
      (c : ℕ) (n : ℤ) (p : Text) (v : Data fl np) (s t : State fl np env)
      → set_property env p v s ≡ ok t
      → on_property_get env c n p t
        ≡ answered c n v t
            (serialize fl np native (reply_header fl np env Command.reply n) v (t.peers c) t.now)
  on_property_get-set_property c n p v s t e =
      let (q, hv, ht) = set_property-ok p v s e in
      on_property_get-some c n p t (ap (λ u. get u.properties p) (sym ht) ∙ get_set p q s)
      ∙ ap (λ x. answer fl np env c n (ok (py.of_data x)) t) hv
      ∙ answer-of_data c n v t
