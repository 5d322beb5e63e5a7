-- ===== src/Server/Counting.antt =====
-- Counting the requests and the replies of a server.
use chess_pyspec.Base.{
  Option-cases, ℕ, ◌+◌, ◌≡◌, refl, sym, Bool, true, false, Option, none, some, List, [], ◌∷◌, ◌++◌,
  map, ◌==◌, ◌&&◌, inl, inr, if◌then◌else◌, arith, Text,
}
use chess_pyspec.Base.Int.{ℤ, eq_ℤ}
use chess_pyspec.Base.Result.{
  Result, Error, Error, ok, err, >>=-eq-ok, value_error, or_raise, runtime_error,
}
use chess_pyspec.Platform.{Floats, Numpy}
use chess_pyspec.Payload.{Payload}
use chess_pyspec.Protocol.Command.{Command}
use chess_pyspec.Protocol.Messages.{Header, serialize}
use chess_pyspec.Protocol.Messages.Sending.{serialize-error}
use chess_pyspec.Protocol.Payloads.{Data}
use chess_pyspec.Server.Events.{Event, hello, property_get, remote_cmd, remote_func}
use chess_pyspec.Server.Handlers.{end_call, cancel_all}
use chess_pyspec.Server.State.{
  send_object, or_error, Python, Written, Task, handle, broadcast, deliver, Call, State, send,
  reply, reply_error, answer, reply_header,
}

-- Whether a reply to the number `n` of the connection `c` is a reply to this number of `d`.
unfoldable pub one : ℕ → ℤ → ℕ → Option ℤ → ℕ
one c n d none = 0
one c n d (some m) = if c == d && eq_ℤ m n then 1 else 0

unfoldable is_reply : Command → Bool
is_reply Command.reply = true
is_reply Command.hello_reply = true
is_reply _ = false

unfoldable pub executing : ℕ → ℤ → List Call → ℕ
executing c n [] = 0
executing c n (k ∷ ks) = one c n k.connection k.number + executing c n ks

pub executing-append :
    (c : ℕ) (n : ℤ) (ks : List Call) (k : Call)
    → executing c n (ks ++ (k ∷ [])) ≡ executing c n ks + one c n k.connection k.number
unfolding executing
executing-append c n [] k = omega arith
executing-append c n (j ∷ ks) k = omega (arith, executing-append c n ks k)

module _ {fl : Floats} {np : Numpy} where
  -- The number that a request asks a reply for
  unfoldable pub number_of : Event fl np → Option ℤ
  number_of (hello n) = some n
  number_of (property_get n p) = some n
  number_of (remote_cmd n t) = some n
  number_of (remote_func n t) = some n
  number_of _ = none

  unfoldable pub replied : ℕ → ℤ → List (Written fl np) → ℕ
  unfolding is_reply
  replied c n [] = 0
  replied c n (w ∷ ws) =
      (if is_reply w.header.command then one c n w.to (some w.header.sequence_number) else 0)
      + replied c n ws

  unfoldable pub waiting : ℕ → ℤ → List (Task fl np) → ℕ
  unfolding number_of
  waiting c n [] = 0
  waiting c n (handle d e ∷ ts) = one c n d (number_of e) + waiting c n ts
  waiting c n (broadcast p v ∷ ts) = waiting c n ts
  waiting c n (deliver d p v ∷ ts) = waiting c n ts

  pub replied-append :
      (c : ℕ) (n : ℤ) (ws us : List (Written fl np))
      → replied c n (ws ++ us) ≡ replied c n ws + replied c n us
  unfolding replied
  replied-append c n [] us = omega arith
  replied-append c n (w ∷ ws) us = omega (arith, replied-append c n ws us)

  pub waiting-append :
      (c : ℕ) (n : ℤ) (ts us : List (Task fl np))
      → waiting c n (ts ++ us) ≡ waiting c n ts + waiting c n us
  unfolding waiting
  waiting-append c n [] us = omega arith
  waiting-append c n (handle d e ∷ ts) us = omega (arith, waiting-append c n ts us)
  waiting-append c n (broadcast p v ∷ ts) us = waiting-append c n ts us
  waiting-append c n (deliver d p v ∷ ts) us = waiting-append c n ts us

  module _ (env : Python fl np) where
    open env use {py, explain}

    pub waiting-deliver :
        (c : ℕ) (n : ℤ) (p : Text) (v : Data fl np) (ds : List ℕ)
        → waiting c n (map (λ d. deliver d p v) ds) ≡ 0
    unfolding waiting
    waiting-deliver c n p v [] = refl
    waiting-deliver c n p v (d ∷ ds) = waiting-deliver c n p v ds

    -- A server that has written one more message
    abbrev pub wrote : State fl np env → ℕ → Header → Data fl np → State fl np env
    wrote s c h d = record s {
      written = s.written ++ (record { to = c; header = h; payload = d } ∷ []);
    }

    pub send-wrote :
        (c : ℕ) (h : Header) (d : Data fl np) (s : State fl np env) {t : State fl np env}
        → send fl np env c h d s ≡ ok t
        → wrote s c h d ≡ t
    unfolding send
    send-wrote c h d s e =
        let (pk, _, he) = >>=-eq-ok (serialize fl np env.native h d (s.peers c) s.now) _ e in cc

    pub reply_error-wrote :
        (c : ℕ) (n : ℤ) (x : Error) (s : State fl np env)
        → reply_error fl np env c n x s
          ≡ ok (wrote s c (reply_header fl np env Command.reply n) (Payload.error (explain x)))
    unfolding reply_error send
    reply_error-wrote c n x s =
        let (b, hb) = env.encode-explain x in
        let (pk, hp) =
          serialize-error fl np env.native (reply_header fl np env Command.reply n) (explain x)
            (s.peers c) s.now refl hb in
        rw hp refl

    pub or_error-wrote :
        (c : ℕ) (n : ℤ) (s : State fl np env) (r : Result (State fl np env))
        → ((t : State fl np env)
            → r ≡ ok t
            → (d : Data fl np) × (wrote s c (reply_header fl np env Command.reply n) d ≡ t))
        → (d : Data fl np) × (or_error fl np env c n s r
            ≡ wrote s c (reply_header fl np env Command.reply n) d)
    unfolding or_error
    or_error-wrote c n s (ok t) k = let (d, e) = k t refl in (d, sym e)
    or_error-wrote c n s (err x) k =
        (Payload.error (explain x), rw (reply_error-wrote c n x s) refl)

    -- Whatever is to be answered, exactly one reply is written.
    pub answer-wrote :
        (c : ℕ) (n : ℤ) (r : Result py.V) (s : State fl np env)
        → (d : Data fl np) × (answer fl np env c n r s
            ≡ wrote s c (reply_header fl np env Command.reply n) d)
    unfolding answer send_object reply
    answer-wrote c n r s = or_error-wrote c n s _ (λ t e.
        let (v, _, e₁) = >>=-eq-ok r (λ v. send_object fl np env c n v s) e in
        let (d, _, e₂) =
          >>=-eq-ok (or_raise (py.to_data v) value_error) (λ d. reply fl np env c n d s) e₁ in
        (d, send-wrote c (reply_header fl np env Command.reply n) d s e₂))

    -- What a server still owes, and has given, for the number `n` of the connection `c`
    unfoldable pub total : ℕ → ℤ → State fl np env → ℕ
    unfolding waiting executing replied
    total c n s = waiting c n s.queue + executing c n s.running + replied c n s.written

    pub total-answer :
        (c : ℕ) (n : ℤ) (d : ℕ) (m : ℤ) (r : Result py.V) (s : State fl np env)
        → total c n (answer fl np env d m r s) ≡ total c n s + one c n d (some m)
    unfolding total replied
    total-answer c n d m r s =
        let (v, e) = answer-wrote d m r s in
        let w : Written fl np = record {
          to = d;
          header = reply_header fl np env Command.reply m;
          payload = v;
        } in
        rw e (omega (arith, replied-append c n s.written (w ∷ [])))

    pub total-end_call :
        (c : ℕ) (n : ℤ) (k : Call) (r : Result py.V) (s : State fl np env)
        → total c n (end_call env k r s) ≡ total c n s + one c n k.connection k.number
    unfolding end_call one
    total-end_call c n k r s = elim (Option-cases k.number) [
      | inl q ↦ rw q (omega arith)
      | inr (m, q) ↦ rw q (total-answer c n k.connection m r s)
    ]

    pub total-cancel_all :
        (c : ℕ) (n : ℤ) (ks : List Call) (s : State fl np env)
        → total c n (cancel_all env ks s) ≡ total c n s + executing c n ks
    unfolding cancel_all executing
    total-cancel_all c n [] s = omega arith
    total-cancel_all c n (k ∷ ks) s = omega (
      arith,
      total-cancel_all c n ks (end_call env k (err runtime_error) s),
      total-end_call c n k (err runtime_error) s,
    )
