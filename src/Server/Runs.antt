-- ===== src/Server/Runs.antt =====
-- What happens to a server, one step after another.
use chess_pyspec.Base.{
  ℕ, ◌+◌, ◌≡◌, Option, none, some, List, [], ◌∷◌, inl, inr, Bool-cases, if◌then◌else◌, arith, Text,
}
use chess_pyspec.Base.Int.{ℤ}
use chess_pyspec.Base.Result.{Result, ok, err, Result-cases}
use chess_pyspec.Platform.{Floats, Numpy}
use chess_pyspec.Protocol.Messages.{Clock, Message}
use chess_pyspec.Protocol.Payloads.{Data}
use chess_pyspec.Server.Answers.{total-run_next, total-emit, total-finish, total-set_property}
use chess_pyspec.Server.Counting.{one, number_of, total}
use chess_pyspec.Server.Events.{Event, dispatch}
use chess_pyspec.Server.Handlers.{set_property, run_next, receive, finish}
use chess_pyspec.Server.State.{Python, member, State, after}

-- A message is read from a connection; the event loop runs a task; a coroutine ends; the program
-- assigns a property; time passes.
pub data Action (fl : Floats) (np : Numpy) (V : Type 0) : Type 0 where
  received : ℕ → Message fl np → Action fl np V
  turned : Action fl np V
  finished : ℕ → Result V → Action fl np V
  assigned : Text → Data fl np → Action fl np V
  ticked : Clock → Action fl np V

module _ {fl : Floats} {np : Numpy} (env : Python fl np) where
  open env use {py}

  unfoldable pub act : Action fl np py.V → State fl np env → State fl np env
  unfolding receive run_next finish set_property
  act (received c m) s = receive env c m s
  act turned s = run_next env s
  act (finished i r) s = finish env i r s
  act (assigned p v) s = after fl np env s (set_property env p v s)
  act (ticked t) s = record s { now = t }

  unfoldable pub run : List (Action fl np py.V) → State fl np env → State fl np env
  unfolding act
  run [] s = s
  run (a ∷ l) s = run l (act a s)

  -- The event of an action that is a message which the server accepts
  unfoldable pub accepted : Action fl np py.V → State fl np env → Option (ℕ × Event fl np)
  unfolding dispatch member
  accepted (received c m) s =
      if member c s.stopped
      then none
      else elim (dispatch fl np m) [ ok e ↦ some (c, e) | err x ↦ none ]
  accepted _ s = none

  requests : ℕ → ℤ → Option (ℕ × Event fl np) → ℕ
  unfolding one number_of
  requests c n none = 0
  requests c n (some (d, e)) = one c n d (number_of e)

  -- How many requests with the number `n` were accepted from the connection `c`
  unfoldable pub asked : ℕ → ℤ → List (Action fl np py.V) → State fl np env → ℕ
  unfolding requests run
  asked c n [] s = 0
  asked c n (a ∷ l) s = requests c n (accepted a s) + asked c n l (act a s)

  total-receive :
      (c : ℕ) (n : ℤ) (d : ℕ) (m : Message fl np) (s : State fl np env)
      → total env c n (receive env d m s)
        ≡ total env c n s + requests c n (accepted (received d m) s)
  unfolding receive accepted requests total
  total-receive c n d m s = elim (Bool-cases (member d s.stopped)) [
    | inl q ↦ rw (q, receive, accepted) (omega arith)
    | inr q ↦ elim (Result-cases (dispatch fl np m)) [
      | inl (e, h) ↦ rw (q, h, receive, accepted) (omega (arith, total-emit env c n d e _))
      | inr (x, h) ↦ rw (q, h, receive, accepted) (omega arith)
    ]
  ]

  total-act :
      (c : ℕ) (n : ℤ) (a : Action fl np py.V) (s : State fl np env)
      → total env c n (act a s) ≡ total env c n s + requests c n (accepted a s)
  unfolding act accepted requests total
  total-act c n (received d m) s = total-receive c n d m s
  total-act c n turned s = omega (arith, total-run_next env c n s)
  total-act c n (finished i r) s = omega (arith, total-finish env c n i r s)
  total-act c n (assigned p v) s = omega (arith, total-set_property env c n p v s)
  total-act c n (ticked t) s = omega arith

  -- Whatever happens to a server, the requests of a connection `c` with the number `n` that wait
  -- in the event loop, run as coroutines or are answered grow by as many as were accepted: no
  -- request is lost, and none is answered twice.
  pub total-run :
      (c : ℕ) (n : ℤ) (l : List (Action fl np py.V)) (s : State fl np env)
      → total env c n (run l s) ≡ total env c n s + asked c n l s
  unfolding run asked
  total-run c n [] s = omega arith
  total-run c n (a ∷ l) s = omega (arith, total-run c n l (act a s), total-act c n a s)
