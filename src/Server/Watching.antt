-- ===== src/Server/Watching.antt =====
-- Who listens to a property of the server: the last request of a connection counts.
use chess_pyspec.Base.{
  ℕ, ◌≡◌, refl, ap, ◌∙◌, Bool, true, false, not, ◌&&◌, ◌||◌, Option, none, some, List, [], ◌∷◌,
  ◌++◌, map, ◌==◌, inl, inr, Option-cases, Bool-cases, if◌then◌else◌, arith, Text, text_eq,
  text_eq_iff,
}
use chess_pyspec.Base.Result.{Result-cases}
use chess_pyspec.Dict.{get, set, get-set}
use chess_pyspec.Platform.{Floats, Numpy}
use chess_pyspec.Protocol.Messages.{Message}
use chess_pyspec.Protocol.Payloads.{Data}
use chess_pyspec.Server.Commands.{execute_function, execute_command}
use chess_pyspec.Server.Events.{
  Event, close, abort, hello, property_set, property_get, property_watch, property_unwatch,
  remote_cmd_no_return, remote_func_no_return, remote_cmd, remote_func, dispatch,
}
use chess_pyspec.Server.Handlers.{
  set_property, abort_all, on_property_get, on_property_watch, on_property_unwatch, on_event,
  broadcast_property, run_task, run_next, emit, receive,
}
use chess_pyspec.Server.Keeping.{
  Keeps, cancel_all-Keeps, hello-Keeps, on_property_get-Keeps, on_property_watch-Keeps,
  proceed-Keeps, finish-Keeps, prop_send-Keeps,
}
use chess_pyspec.Server.Runs.{
  Action, received, turned, finished, assigned, ticked, act, run, accepted,
}
use chess_pyspec.Server.State.{
  Python, Task, handle, broadcast, deliver, set_value, member, add, discard, listeners_of, State,
  after,
}

pub member-append : (c : ℕ) (ds es : List ℕ) → member c (ds ++ es) ≡ (member c ds || member c es)
unfolding member
member-append c [] es = refl
member-append c (d ∷ ds) es = ground (arith, member-append c ds es)

member-add : (c d : ℕ) (ds : List ℕ) → member c (add d ds) ≡ (d == c || member c ds)
unfolding add member
member-add c d ds = elim (Bool-cases (member d ds)) [
  | inl q ↦ rw (q, add) (ground arith)
  | inr q ↦ rw (q, add) (ground (arith, member-append c ds (d ∷ [])))
]

member-discard : (c d : ℕ) (ds : List ℕ) → member c (discard d ds) ≡ (not (d == c) && member c ds)
unfolding discard member
member-discard c d [] = ground arith
member-discard c d (e ∷ ds) = ground (arith, member-discard c d ds)

module _ {fl : Floats} {np : Numpy} where
  -- Whether a connection listens to a property after this event
  unfoldable pub asked_by : ℕ → Text → ℕ → Event fl np → Bool → Bool
  asked_by c p d (property_watch q) b = if d == c && text_eq q p then true else b
  asked_by c p d (property_unwatch q) b = if d == c && text_eq q p then false else b
  asked_by c p d _ b = b

  unfoldable pub pending : ℕ → Text → Bool → List (Task fl np) → Bool
  unfolding asked_by
  pending c p b [] = b
  pending c p b (handle d e ∷ ts) = pending c p (asked_by c p d e b) ts
  pending c p b (broadcast q v ∷ ts) = pending c p b ts
  pending c p b (deliver d q v ∷ ts) = pending c p b ts

  pending-append :
      (c : ℕ) (p : Text) (b : Bool) (ts us : List (Task fl np))
      → pending c p b (ts ++ us) ≡ pending c p (pending c p b ts) us
  unfolding pending
  pending-append c p b [] us = refl
  pending-append c p b (handle d e ∷ ts) us = pending-append c p (asked_by c p d e b) ts us
  pending-append c p b (broadcast q v ∷ ts) us = pending-append c p b ts us
  pending-append c p b (deliver d q v ∷ ts) us = pending-append c p b ts us

module _ {fl : Floats} {np : Numpy} (env : Python fl np) where
  open env use {py}

  pending-deliver :
      (c : ℕ) (p q : Text) (v : Data fl np) (b : Bool) (ds : List ℕ)
      → pending {fl = fl} {np = np} c p b (map (λ d. deliver d q v) ds) ≡ b
  unfolding pending
  pending-deliver c p q v b [] = refl
  pending-deliver c p q v b (d ∷ ds) = pending-deliver c p q v b ds

  -- Whether the connection `c` listens to `p`, once the tasks that wait have run
  unfoldable pub view : ℕ → Text → State fl np env → Bool
  unfolding pending member listeners_of
  view c p s = pending c p (member c (listeners_of fl np s p)) s.queue

  view-Keeps : (c : ℕ) (p : Text) {s t : State fl np env} → Keeps env s t → view c p t ≡ view c p s
  unfolding view listeners_of
  view-Keeps c p h = rw (h.listeners_same, h.queue_same) refl

  view-set_property :
      (c : ℕ) (p q : Text) (v : Data fl np) (s : State fl np env)
      → view c p (after fl np env s (set_property env q v s)) ≡ view c p s
  unfolding view set_property pending
  view-set_property c p q v s = elim (Option-cases (get s.properties q)) [
    | inl h ↦ rw (h, set_property) refl
    | inr (old, h) ↦ elim (Result-cases (set_value fl np v old)) [
      | inl (new, k) ↦ rw (h, k, set_property) (pending-append c p _ s.queue (broadcast q v ∷ []))
      | inr (x, k) ↦ rw (h, k, set_property) refl
    ]
  ]

  listening : ℕ → Text → State fl np env → Bool
  unfolding member listeners_of
  listening c p s = member c (listeners_of fl np s p)

  -- A state whose listeners to `q` are these
  abbrev listen : Text → List ℕ → State fl np env → State fl np env
  listen q ds s = record s { listeners = set s.listeners q ds }

  listening-listen :
      (c : ℕ) (p q : Text) (ds : List ℕ) (s : State fl np env)
      → listening c p (listen q ds s) ≡ (if text_eq q p then member c ds else listening c p s)
  unfolding listening listeners_of
  listening-listen c p q ds s = elim (Bool-cases (text_eq q p)) [
    | inl h ↦ rw (get-set s.listeners q p ds, h) refl
    | inr h ↦ rw (get-set s.listeners q p ds, h) refl
  ]

  listening-same :
      (c : ℕ) (p q : Text) (s : State fl np env)
      → text_eq q p ≡ true
      → member c (listeners_of fl np s q) ≡ listening c p s
  unfolding listening
  listening-same c p q s h = ap (λ x. member c (listeners_of fl np s x)) ((text_eq_iff q p).0 h)

  listening-watch :
      (c : ℕ) (p : Text) (d : ℕ) (q : Text) (s : State fl np env)
      → listening c p (listen q (add d (listeners_of fl np s q)) s)
        ≡ asked_by {fl = fl} {np = np} c p d (property_watch q) (listening c p s)
  unfolding asked_by
  listening-watch c p d q s = elim (Bool-cases (text_eq q p)) [
    | inl h ↦
        listening-listen c p q _ s
        ∙ rw h (ground (arith, member-add c d (listeners_of fl np s q), listening-same c p q s h))
    | inr h ↦ listening-listen c p q _ s ∙ rw h (ground arith)
  ]

  listening-unwatch :
      (c : ℕ) (p : Text) (d : ℕ) (q : Text) (s : State fl np env)
      → listening c p (listen q (discard d (listeners_of fl np s q)) s)
        ≡ asked_by {fl = fl} {np = np} c p d (property_unwatch q) (listening c p s)
  unfolding asked_by
  listening-unwatch c p d q s = elim (Bool-cases (text_eq q p)) [
    | inl h ↦
        listening-listen c p q _ s
        ∙ rw h
            (ground (arith, member-discard c d (listeners_of fl np s q), listening-same c p q s h))
    | inr h ↦ listening-listen c p q _ s ∙ rw h (ground arith)
  ]

  view-on_event :
      (c : ℕ) (p : Text) (d : ℕ) (e : Event fl np) (s : State fl np env)
      → view c p (on_event env d e s) ≡ pending c p (asked_by c p d e (listening c p s)) s.queue
  unfolding on_event on_property_get on_property_watch on_property_unwatch abort_all view listening
      asked_by
  view-on_event c p d close s = refl
  view-on_event c p d abort s =
      view-Keeps c p (cancel_all-Keeps env s.running (record s { running = [] }))
  view-on_event c p d (hello m) s = view-Keeps c p (hello-Keeps env d m s)
  view-on_event c p d (property_set q v) s = view-set_property c p q v s
  view-on_event c p d (property_get m q) s = view-Keeps c p (on_property_get-Keeps env d m q s)
  view-on_event c p d (property_watch q) s =
      view-Keeps c p (on_property_watch-Keeps env d q s)
      ∙ ap (λ b. pending c p b s.queue) (listening-watch c p d q s)
  view-on_event c p d (property_unwatch q) s =
      ap (λ b. pending c p b s.queue) (listening-unwatch c p d q s)
  view-on_event c p d (remote_cmd_no_return t) s =
      view-Keeps c p (proceed-Keeps env d none (execute_command env s t) s)
  view-on_event c p d (remote_cmd m t) s =
      view-Keeps c p (proceed-Keeps env d (some m) (execute_command env s t) s)
  view-on_event c p d (remote_func_no_return t) s =
      view-Keeps c p (proceed-Keeps env d none (execute_function env s t) s)
  view-on_event c p d (remote_func m t) s =
      view-Keeps c p (proceed-Keeps env d (some m) (execute_function env s t) s)

  view-run_task :
      (c : ℕ) (p : Text) (t : Task fl np) (ts : List (Task fl np)) (s : State fl np env)
      → view c p (run_task env t (record s { queue = ts })) ≡ pending c p (listening c p s) (t ∷ ts)
  unfolding run_task broadcast_property view listening pending
  view-run_task c p (handle d e) ts s = view-on_event c p d e (record s { queue = ts })
  view-run_task c p (broadcast q v) ts s =
      pending-append c p _ ts _ ∙ pending-deliver c p q v _ (listeners_of fl np s q)
  view-run_task c p (deliver d q v) ts s =
      view-Keeps c p (prop_send-Keeps env d q v (record s { queue = ts }))

  view-run_first :
      (c : ℕ) (p : Text) (s : State fl np env) (ts : List (Task fl np))
      → s.queue ≡ ts
      → view c p (run_next env s) ≡ pending c p (listening c p s) ts
  unfolding run_next view listening
  view-run_first c p s [] q = rw (q, run_next) (ap (pending c p (listening c p s)) q)
  view-run_first c p s (t ∷ ts) q = rw (q, run_next) (view-run_task c p t ts s)

  view-emit :
      (c : ℕ) (p : Text) (d : ℕ) (e : Event fl np) (s : State fl np env)
      → view c p (emit env d e s) ≡ asked_by c p d e (view c p s)
  unfolding emit view pending asked_by listening
  view-emit c p d close s = view-on_event c p d close s
  view-emit c p d e s = pending-append c p _ s.queue (handle d e ∷ [])

  unfoldable pub by_request : ℕ → Text → Option (ℕ × Event fl np) → Bool → Bool
  unfolding asked_by
  by_request c p none b = b
  by_request c p (some (d, e)) b = asked_by c p d e b

  view-receive :
      (c : ℕ) (p : Text) (d : ℕ) (m : Message fl np) (s : State fl np env)
      → view c p (receive env d m s) ≡ by_request c p (accepted env (received d m) s) (view c p s)
  unfolding receive accepted by_request view
  view-receive c p d m s = elim (Bool-cases (member d s.stopped)) [
    | inl q ↦ rw (q, receive, accepted) refl
    | inr q ↦ elim (Result-cases (dispatch fl np m)) [
      | inl (e, h) ↦ rw (q, h, receive, accepted) (view-emit c p d e _)
      | inr (x, h) ↦ rw (q, h, receive, accepted) refl
    ]
  ]

  view-act :
      (c : ℕ) (p : Text) (a : Action fl np py.V) (s : State fl np env)
      → view c p (act env a s) ≡ by_request c p (accepted env a s) (view c p s)
  unfolding act accepted by_request view listening
  view-act c p (received d m) s = view-receive c p d m s
  view-act c p turned s = view-run_first c p s s.queue refl
  view-act c p (finished i r) s = view-Keeps c p (finish-Keeps env i r s)
  view-act c p (assigned q v) s = view-set_property c p q v s
  view-act c p (ticked t) s = refl

  -- The answer of the last request of `c` about `p` that was accepted, or `b` if there is none
  unfoldable pub asked_to_listen :
      ℕ → Text → List (Action fl np py.V) → State fl np env → Bool → Bool
  unfolding by_request act
  asked_to_listen c p [] s b = b
  asked_to_listen c p (a ∷ l) s b =
      asked_to_listen c p l (act env a s) (by_request c p (accepted env a s) b)

  -- Whatever happens to a server, once the tasks that wait have run, a connection listens to a
  -- property just if the last of its requests to watch or unwatch it, of those accepted, was to watch it; with no
  -- such request it listens as it did before.
  pub view-run :
      (c : ℕ) (p : Text) (l : List (Action fl np py.V)) (s : State fl np env)
      → view c p (run env l s) ≡ asked_to_listen c p l s (view c p s)
  unfolding run asked_to_listen
  view-run c p [] s = refl
  view-run c p (a ∷ l) s =
      view-run c p l (act env a s) ∙ ap (asked_to_listen c p l (act env a s)) (view-act c p a s)
