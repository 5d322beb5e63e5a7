-- ===== src/Client/Motors.antt =====
-- Moves of motors (pyspec/client/_motor.py): a single one, and several at once by
-- `synchronized_motors`.
pub mod Synchronized
pub mod Prestart
pub mod Failure
use chess_pyspec.Base.{
  ◌≡◌, Bool, true, false, Option, none, some, List, [], ◌∷◌, ◌++◌, is_empty, ◌&&◌, if◌then◌else◌,
  Text, codes,
}
use chess_pyspec.Base.Result.{
  Result, Error, ok, err, runtime_error, assertion_error, cancelled_error, ◌>>=◌,
}
use chess_pyspec.Dict.{Dict, get, set}

-- What a move makes the connection do: to watch the property `motor/{mne}/move_done` and to stop
-- that, to wait until the motor has stopped, and to set a property.
pub data Operation (F : Type 0) : Type 0 where
  subscribe : Text → Operation F
  wait : Text → Operation F
  unsubscribe : Text → Operation F
  prop_set : Text → Option F → Operation F

abbrev pub prestart_all : Text
prestart_all = codes "motor/../prestart_all"

abbrev pub start_all : Text
start_all = codes "motor/../start_all"

abbrev pub abort_all : Text
abort_all = codes "motor/../abort_all"

abbrev pub start_one : Text → Text
start_one m = codes "motor/" ++ m ++ codes "/start_one"

-- `_SYNCHRONIZING_MOTORS` and `_PENDING_MOTIONS` at one connection; a missing key counts as False
-- and as an empty dict.
pub record Motors (F : Type 0) : Type 0 where
  pub synchronizing : Bool
  pub pending : Dict F

-- What was done so far, in order, and the variable `motion_started`
pub record Log (F : Type 0) : Type 0 where
  pub done : List (Operation F)
  pub motion_started : Bool

-- `except Exception` does not catch a cancellation.
unfoldable pub is_exception : Error → Bool
is_exception cancelled_error = false
is_exception _ = true

module _ {F : Type 0} where
  abbrev pub cleared : Motors F
  cleared = record { synchronizing = false; pending = [] }

  -- `Motor.prepare_move`
  unfoldable pub prepare_move : Text → F → Motors F → Result (Motors F)
  prepare_move m x s =
      if s.synchronizing
      then elim (get s.pending m) [
        | none ↦ ok (record s { pending = set s.pending m x })
        | some y ↦ err runtime_error
      ]
      else err runtime_error

  -- The exception of an operation, if it raises one; it can depend on what was done before.
  module _ (fails : List (Operation F) → Operation F → Option Error) where
    abbrev pub Run : Type 0
    Run = Log F × Result (Unit {0})

    unfoldable pub perform : Operation F → Log F → Run
    perform o w = (
      record w { done = w.done ++ (o ∷ []) },
      elim (fails w.done o) [ none ↦ ok tt | some e ↦ err e ],
    )

    unfoldable pub and_then : Run → (Log F → Run) → Run
    and_then (w, ok u) k = k w
    and_then (w, err e) k = (w, err e)

    -- `try: ... finally: ...`; an exception of the second part replaces that of the first.
    unfoldable pub replaced : Run → Result (Unit {0}) → Run
    replaced (w, ok u) r = (w, r)
    replaced (w, err e) r = (w, err e)

    unfoldable pub finally : Run → (Log F → Run) → Run
    unfolding replaced
    finally r k = replaced (k r.0) r.1

    -- `wait_for_move_done`: the wait ends the block whether or not the block raised.
    unfoldable pub wait_for_move_done : Text → (Log F → Run) → Log F → Run
    unfolding perform and_then finally
    wait_for_move_done m body w =
        finally (and_then (perform (subscribe m) w) (λ u. finally (body u) (perform (wait m))))
          (perform (unsubscribe m))

    unfoldable pub enter_all : Dict F → (Log F → Run) → Log F → Run
    unfolding wait_for_move_done
    enter_all [] body w = body w
    enter_all ((m, x) ∷ ps) body w = wait_for_move_done m (enter_all ps body) w

    unfoldable pub start_each : Dict F → Log F → Run
    unfolding perform and_then
    start_each [] w = (w, ok tt)
    start_each ((m, x) ∷ ps) w =
        and_then (perform (prop_set (start_one m) (some x)) w) (start_each ps)

    unfoldable pub start_motions : Dict F → Log F → Run
    unfolding start_each
    start_motions ps w =
        and_then (perform (prop_set prestart_all none) (record w { motion_started = true }))
          (λ u. and_then (start_each ps u) (perform (prop_set start_all none)))

    -- `except Exception`: once the motion was started it is aborted.
    unfoldable pub abort_if_started : Run → Run
    unfolding perform and_then is_exception
    abort_if_started (w, ok u) = (w, ok u)
    abort_if_started (w, err e) =
        if w.motion_started && is_exception e
        then and_then (perform (prop_set abort_all none) w) (λ u. (u, err e))
        else (w, err e)

    unfoldable pub moves : Log F → Motors F × Result (Unit {0}) → Run
    unfolding enter_all start_motions
    moves w (s, ok u) = enter_all s.pending (start_motions s.pending) w
    moves w (s, err e) = (w, err e)

    -- `synchronized_motors`; `body` is the block of the `async with` statement.
    unfoldable pub synchronized_motors :
        (Motors F → Motors F × Result (Unit {0})) → Motors F → List (Operation F) → Motors F × Run
    unfolding moves abort_if_started
    synchronized_motors body s done =
        let w : Log F = record { done = done; motion_started = false } in
        if s.synchronizing
        then (s, (w, err assertion_error))
        else if is_empty s.pending
        then (
          cleared,
          abort_if_started (moves w (body (record { synchronizing = true; pending = [] }))),
        )
        else (cleared, abort_if_started (w, err runtime_error))

    -- `Motor.move`
    unfoldable pub move : Text → F → Motors F → Log F → Run
    unfolding wait_for_move_done
    move m x s w =
        if s.synchronizing
        then (w, err runtime_error)
        else wait_for_move_done m (perform (prop_set (start_one m) (some x))) w
