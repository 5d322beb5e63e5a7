-- ===== src/Tests/MotorExamples.antt =====
-- The theorems on moves of motors at concrete inputs.
use chess_pyspec.Base.{
  ℕ, ◌≡◌, refl, true, false, Option, none, some, List, [], ◌∷◌, ◌++◌, if◌then◌else◌, codes, text_eq,
}
use chess_pyspec.Base.Result.{Error, err, ok, runtime_error}
use chess_pyspec.Dict.{Dict, IsDict}
use chess_pyspec.Client.Motors.{
  is_exception, is_exception, Operation, prop_set, prestart_all, start_all, abort_all, cleared,
  synchronized_motors,
}
use chess_pyspec.Client.Motors.Synchronized.{
  prepare_all, subscribes, starts, ends, IsCalm, synchronized_motors-prepare_all,
}
use chess_pyspec.Client.Motors.Prestart.{synchronized_motors-prestart}
use chess_pyspec.Client.Motors.Failure.{Settled, synchronized_motors-Settled}

abbrev two_moves : Dict ℕ
two_moves = (codes "th", 10) ∷ (codes "tth", 20) ∷ []

two_moves-IsDict : IsDict two_moves
unfolding text_eq
two_moves-IsDict = ((refl, tt), (tt, tt))

abbrev never : List (Operation ℕ) → Operation ℕ → Option Error
never h o = none

synchronized_motors-prepare_all_example :
    synchronized_motors never (prepare_all two_moves) cleared [] ≡ (
      cleared,
      (
        record {
          done =
              (([] ++ subscribes two_moves)
                ++ (prop_set prestart_all none ∷ starts two_moves
                    ++ (prop_set start_all none ∷ [])))
              ++ ends two_moves;
          motion_started = true;
        },
        ok tt,
      ),
    )
synchronized_motors-prepare_all_example =
    synchronized_motors-prepare_all never two_moves [] two_moves-IsDict (λ h o. refl)

unfoldable unless_prestart : List (Operation ℕ) → Operation ℕ → Option Error
unfolding text_eq
unless_prestart h (prop_set p x) = if text_eq p prestart_all then some runtime_error else none
unless_prestart h _ = none

unless_prestart-IsCalm : IsCalm unless_prestart
unfolding unless_prestart
unless_prestart-IsCalm = record {
  subscribe_calm = λ h m. refl;
  wait_calm = λ h m. refl;
  unsubscribe_calm = λ h m. refl;
}

exception_lem : is_exception runtime_error ≡ true
unfolding is_exception
exception_lem = refl

prestart_lem :
    (h : List (Operation ℕ)) → unless_prestart h (prop_set prestart_all none) ≡ some runtime_error
unfolding unless_prestart text_eq
prestart_lem h = refl

abort_lem : (h : List (Operation ℕ)) → unless_prestart h (prop_set abort_all none) ≡ none
unfolding unless_prestart text_eq
abort_lem h = refl

synchronized_motors-prestart_example :
    synchronized_motors unless_prestart (prepare_all two_moves) cleared [] ≡ (
      cleared,
      (
        record {
          done =
              ((([] ++ subscribes two_moves) ++ (prop_set prestart_all none ∷ []))
                ++ ends two_moves)
              ++ (prop_set abort_all none ∷ []);
          motion_started = true;
        },
        err runtime_error,
      ),
    )
synchronized_motors-prestart_example =
    synchronized_motors-prestart unless_prestart two_moves [] runtime_error two_moves-IsDict
      unless_prestart-IsCalm exception_lem prestart_lem abort_lem

synchronized_motors-Settled_example :
    Settled unless_prestart
      (record { done = []; motion_started = false })
      (synchronized_motors unless_prestart (prepare_all two_moves) cleared []).1
synchronized_motors-Settled_example =
    synchronized_motors-Settled unless_prestart (prepare_all two_moves) cleared []
