-- ===== src/Client/Requests/Replies.antt =====
-- What becomes of the requests of a connection.
use chess_pyspec.Base.{
  ℕ, ◌<◌, ◌≡◌, refl, sym, ap, ◌∙◌, subst, Bool, true, false, Option, none, some, List, [], ◌∷◌,
  ◌++◌, map, arith, ◌==◌, if◌then◌else◌, All,
}
use mathlib.Core.Option
use chess_pyspec.Base.Int.{ℤ, pos, eq_ℤ}
use chess_pyspec.Base.Result.{Result, ok, err}
use chess_pyspec.Bytes.Words.{Endian}
use chess_pyspec.Platform.{Floats, Numpy}
use chess_pyspec.Payload.{Payload}
use chess_pyspec.Protocol.Messages.{Header, Clock, Packet, Message, serialize}
use chess_pyspec.Protocol.Payloads.{Data}
use chess_pyspec.Client.Sequence.{uint32_max, successor, next_number, next_number_total}
use chess_pyspec.Client.Requests.{
  outcome, Event, reply, property_change, unrecognized, dispatch, Future, waiting, resolved, failed,
  cancelled, Request, Connection, taken, begin, set_response, emit_reply, handle, sent, on_message,
  expire, on_timeout, numbered,
}

module _ (fl : Floats) (np : Numpy) where
  -- The future of the oldest request with a number.
  unfoldable pub future_of : List (Request fl np) → ℕ → Option (Future fl np)
  future_of [] n = none
  future_of (r ∷ rs) n = if r.number == n then some r.future else future_of rs n

  pub is_waiting : Future fl np → Bool
  is_waiting waiting = true
  is_waiting _ = false

  -- A request listens exactly while its future waits.
  pub IsPending : Request fl np → Type 0
  IsPending r = r.listening ≡ is_waiting r.future

  set_response_done :
      (d : Data fl np) (f : Future fl np) → is_waiting f ≡ false → set_response fl np d f ≡ f
  unfolding set_response is_waiting
  set_response_done d waiting h = cc
  set_response_done d (resolved e) h = refl
  set_response_done d (failed t) h = refl
  set_response_done d cancelled h = refl

  future_of-emit_reply :
      (z : ℤ) (d : Data fl np) (rs : List (Request fl np)) (n : ℕ)
      → All IsPending rs
      → future_of (map (emit_reply fl np z d) rs) n
        ≡ Option.map (λ f. if eq_ℤ (pos n) z then set_response fl np d f else f) (future_of rs n)
  unfolding future_of emit_reply IsPending
  future_of-emit_reply z d [] n h = refl
  future_of-emit_reply z d (r ∷ rs) n h =
      ground (arith, future_of-emit_reply z d rs n h.1, set_response_done d r.future)

  -- What an event does to the future of a request with a number.
  unfoldable pub effect : Event fl np → ℕ → Future fl np → Future fl np
  effect (reply z d) n f = if eq_ℤ (pos n) z then set_response fl np d f else f
  effect (property_change p d) n f = f
  effect (unrecognized c) n f = f

  map_id : {A : Type 0} (o : Option A) → o ≡ Option.map (λ x. x) o
  map_id none = refl
  map_id (some a) = refl

  future_of-handle :
      (e : Event fl np) (rs : List (Request fl np)) (n : ℕ)
      → All IsPending rs
      → future_of (handle fl np e rs) n ≡ Option.map (effect e n) (future_of rs n)
  unfolding handle effect
  future_of-handle (reply z d) rs n h = future_of-emit_reply z d rs n h
  future_of-handle (property_change p d) rs n h = map_id (future_of rs n)
  future_of-handle (unrecognized c) rs n h = map_id (future_of rs n)

  outcome_done : (d : Data fl np) → is_waiting (outcome fl np d) ≡ false
  unfolding is_waiting outcome
  outcome_done (Payload.array a) = refl
  outcome_done (Payload.text t) = refl
  outcome_done (Payload.num v) = refl
  outcome_done (Payload.assoc a) = refl
  outcome_done (Payload.error t) = refl
  outcome_done Payload.nothing = refl

  set_response-done :
      (d : Data fl np) (f : Future fl np) → is_waiting (set_response fl np d f) ≡ false
  unfolding is_waiting set_response
  set_response-done d waiting = outcome_done d
  set_response-done d (resolved e) = refl
  set_response-done d (failed t) = refl
  set_response-done d cancelled = refl

  -- A second reply to a request changes nothing.
  set_response_twice :
      (d e : Data fl np) (f : Future fl np)
      → set_response fl np e (set_response fl np d f) ≡ set_response fl np d f
  set_response_twice d e f = set_response_done e (set_response fl np d f) (set_response-done d f)

  emit_reply-IsPending :
      (z : ℤ) (d : Data fl np) (rs : List (Request fl np))
      → All IsPending rs
      → All IsPending (map (emit_reply fl np z d) rs)
  unfolding emit_reply IsPending
  emit_reply-IsPending z d [] h = tt
  emit_reply-IsPending z d (r ∷ rs) h =
      (ground (arith, set_response-done d r.future), emit_reply-IsPending z d rs h.1)

  cancelled_done : (f : Future fl np) → is_waiting (elim f [ waiting ↦ cancelled | g ↦ g ]) ≡ false
  unfolding is_waiting
  cancelled_done waiting = refl
  cancelled_done (resolved e) = refl
  cancelled_done (failed t) = refl
  cancelled_done cancelled = refl

  expire-IsPending :
      (n : ℕ) (rs : List (Request fl np))
      → All IsPending rs
      → All IsPending (map (expire fl np n) rs)
  unfolding expire IsPending
  expire-IsPending n [] h = tt
  expire-IsPending n (r ∷ rs) h =
      (ground (arith, cancelled_done r.future), expire-IsPending n rs h.1)

  append-IsPending :
      (rs : List (Request fl np)) (r : Request fl np)
      → All IsPending rs
      → IsPending r
      → All IsPending (rs ++ (r ∷ []))
  append-IsPending [] r h p = (p, tt)
  append-IsPending (q ∷ rs) r h p = (h.0, append-IsPending rs r h.1 p)

  -- What happens to a connection: a request is sent, a message comes in, a request times out, or
  -- another connection of the program takes a number, since the counter is a global of the module.
  pub data Step (native : Endian) : Connection fl np → Connection fl np → Type 0 where
    begins :
        {c : Connection fl np} (h : Header) (d : Data fl np) (now : Clock)
        → Step native c (begin fl np native h d now c).0
    receives : {c : Connection fl np} (m : Message fl np) → Step native c (on_message fl np m c)
    expires : {c : Connection fl np} (n : ℕ) → Step native c (on_timeout fl np n c)
    others :
        {c : Connection fl np} {n : ℕ}
        → next_number 2 c.last ≡ some n
        → Step native c (taken fl np n c)

  -- Whatever numbers other connections took before this one was made
  pub data Reachable (native : Endian) : Connection fl np → Type 0 where
    starts :
        {n : ℕ}
        → n < uint32_max
        → Reachable native (record { last = n; requests = []; peer = none })
    steps : {b c : Connection fl np} → Reachable native b → Step native b c → Reachable native c

  -- In every reachable state the counter is below 4294967295, and a request listens exactly while
  -- its future waits.
  pub record IsSound (c : Connection fl np) : Type 0 where
    pub last_bound : c.last < uint32_max
    pub pending : All IsPending c.requests

  sent-IsSound :
      (n : ℕ) (c : Connection fl np) (r : Result Packet)
      → n < uint32_max
      → IsSound c
      → IsSound (sent fl np n c r).0
  unfolding sent IsPending is_waiting
  sent-IsSound n c (ok p) h s = record {
    last_bound = h;
    pending =
        append-IsPending c.requests (record { number = n; future = waiting; listening = true })
          s.pending refl;
  }
  sent-IsSound n c (err e) h s = record { last_bound = h; pending = s.pending }

  sent-last : (n : ℕ) (c : Connection fl np) (r : Result Packet) → (sent fl np n c r).0.last ≡ n
  unfolding sent
  sent-last n c (ok p) = refl
  sent-last n c (err e) = refl

  sent-result : (n : ℕ) (c : Connection fl np) (r : Result Packet) → (sent fl np n c r).1 ≡ r
  unfolding sent
  sent-result n c (ok p) = refl
  sent-result n c (err e) = refl

  pub begin-sent :
      (native : Endian) (h : Header) (d : Data fl np) (now : Clock) (c : Connection fl np)
      → c.last < uint32_max
      → begin fl np native h d now c
        ≡ sent fl np
            (successor c.last)
            c
            (serialize fl np native (numbered fl np h (successor c.last)) d c.peer now)
  unfolding begin
  begin-sent native h d now c s = rw (next_number_total 0 c.last s, begin) refl

  handle-IsPending :
      (e : Event fl np) (rs : List (Request fl np))
      → All IsPending rs
      → All IsPending (handle fl np e rs)
  unfolding handle
  handle-IsPending (reply z d) rs h = emit_reply-IsPending z d rs h
  handle-IsPending (property_change p d) rs h = h
  handle-IsPending (unrecognized c) rs h = h

  some_eq : {m n : ℕ} → some m ≡ some n → m ≡ n
  some_eq e = cc

  successor_bound :
      (last : ℕ) {n : ℕ} → last < uint32_max → next_number 2 last ≡ some n → n < uint32_max
  successor_bound last {n = n} h e =
      let same : successor last ≡ n = some_eq (sym (next_number_total 0 last h) ∙ e) in omega arith

  Step-IsSound :
      {native : Endian} {b c : Connection fl np} → IsSound b → Step native b c → IsSound c
  unfolding on_message on_timeout taken
  Step-IsSound {native} {b} s (begins h d now) =
      subst (λ x. IsSound x.0) (sym (begin-sent native h d now b s.last_bound))
        (sent-IsSound (successor b.last) b
          (serialize fl np native (numbered fl np h (successor b.last)) d b.peer now) (omega arith)
          s)
  Step-IsSound {b = b} s (receives m) = record {
    last_bound = s.last_bound;
    pending = handle-IsPending (dispatch fl np m) b.requests s.pending;
  }
  Step-IsSound {b = b} s (others e) = record {
    last_bound = successor_bound b.last s.last_bound e;
    pending = s.pending;
  }
  Step-IsSound {b = b} s (expires n) = record {
    last_bound = s.last_bound;
    pending = expire-IsPending n b.requests s.pending;
  }

  pub Reachable-IsSound : {native : Endian} {c : Connection fl np} → Reachable native c → IsSound c
  Reachable-IsSound (starts h) = record { last_bound = h; pending = tt }
  Reachable-IsSound (steps r s) = Step-IsSound (Reachable-IsSound r) s

  -- In every reachable state a message acts on the request that has its sequence number, if it is
  -- a reply, and on no other; where its future waits it becomes the reply's outcome, and else it
  -- stays as it is.
  pub future_of-on_message :
      {native : Endian} {c : Connection fl np} (m : Message fl np) (n : ℕ)
      → Reachable native c
      → future_of (on_message fl np m c).requests n
        ≡ Option.map (effect (dispatch fl np m) n) (future_of c.requests n)
  unfolding on_message
  future_of-on_message {c = c} m n r =
      future_of-handle (dispatch fl np m) c.requests n (Reachable-IsSound r).pending

  -- In every reachable state a request gets the number that follows the last one, which is in the
  -- range of sequence numbers, and it is serialized with that number in the byte order of `peer`.
  pub begin-numbered :
      {native : Endian} {c : Connection fl np} (h : Header) (d : Data fl np) (now : Clock)
      → Reachable native c
      → ((begin fl np native h d now c).0.last ≡ successor c.last)
        × (0 < successor c.last)
        × (successor c.last < uint32_max)
        × ((begin fl np native h d now c).1
            ≡ serialize fl np native (numbered fl np h (successor c.last)) d c.peer now)
  begin-numbered {native} {c} h d now r =
      let e = begin-sent native h d now c (Reachable-IsSound r).last_bound in
      let made = serialize fl np native (numbered fl np h (successor c.last)) d c.peer now in
      (
        ap (λ x. x.0.last) e ∙ sent-last (successor c.last) c made,
        omega arith,
        omega arith,
        ap (λ x. x.1) e ∙ sent-result (successor c.last) c made,
      )
