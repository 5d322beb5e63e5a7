-- ===== src/Client/Motors/Prestart.antt =====
-- What `synchronized_motors` does when its first command raises.
use chess_pyspec.Base.{◌≡◌, refl, ap, ◌∙◌, true, false, Option, none, some, List, [], ◌∷◌, ◌++◌}
use chess_pyspec.Base.Result.{Error, err}
use chess_pyspec.Dict.{Dict, IsDict}
use chess_pyspec.Client.Motors.{
  is_exception, Operation, prop_set, prestart_all, start_all, abort_all, Log, cleared, perform,
  and_then, start_each, start_motions, abort_if_started, moves, synchronized_motors,
}
use chess_pyspec.Client.Motors.Synchronized.{
  prepare_all, prepare_all-append, subscribes, ends, also, IsCalm, perform-none, and_then-ok,
  and_then-err, enter_all-calm,
}

module _ {F : Type 0} (fails : List (Operation F) → Operation F → Option Error) where
  perform-some :
      (o : Operation F) (w : Log F) {e : Error}
      → fails w.done o ≡ some e
      → perform fails o w ≡ (also w (o ∷ []), err e)
  unfolding perform
  perform-some o w h = rw h refl

  start_motions-err :
      (ps : Dict F) (w : Log F) {e : Error}
      → fails w.done (prop_set prestart_all none) ≡ some e
      → start_motions fails ps w ≡ (
        record { done = w.done ++ (prop_set prestart_all none ∷ []); motion_started = true },
        err e,
      )
  unfolding start_motions
  start_motions-err ps w h =
      let first = prop_set prestart_all none in
      let v = record w { motion_started = true } in
      and_then-err fails (also v (first ∷ []))
        (λ x. and_then fails (start_each fails ps x) (perform fails (prop_set start_all none)))
        (perform-some first v h)

  pub abort_exception :
      (t : Log F) (e : Error)
      → is_exception e ≡ true
      → t.motion_started ≡ true
      → abort_if_started fails (t, err e)
        ≡ and_then fails (perform fails (prop_set abort_all none) t) (λ x. (x, err e))
  unfolding abort_if_started
  abort_exception t e h k = rw (k, h) refl

  -- The block prepares the moves `ms` of different motors, setting prestart_all raises an `Exception`, and abort_all, the subscriptions and the
  -- waits do not: the motors are aborted only after each of them was waited for, although
  -- none was started.
  pub synchronized_motors-prestart :
      (ms : Dict F) (done : List (Operation F)) (e : Error)
      → IsDict ms
      → IsCalm fails
      → is_exception e ≡ true
      → ((h : List (Operation F)) → fails h (prop_set prestart_all none) ≡ some e)
      → ((h : List (Operation F)) → fails h (prop_set abort_all none) ≡ none)
      → synchronized_motors fails (prepare_all ms) cleared done ≡ (
        cleared,
        (
          record {
            done =
                (((done ++ subscribes ms) ++ (prop_set prestart_all none ∷ [])) ++ ends ms)
                ++ (prop_set abort_all none ∷ []);
            motion_started = true;
          },
          err e,
        ),
      )
  unfolding synchronized_motors moves abort_if_started
  synchronized_motors-prestart ms done e d c x p a =
      let w : Log F = record { done = done; motion_started = false } in
      let u : Log F = record { done = done ++ subscribes ms; motion_started = true } in
      let first = prop_set prestart_all none in
      let last = prop_set abort_all none in
      let t = also (also u (first ∷ [])) (ends ms) in
      ap (λ b. (cleared, abort_if_started fails (moves fails w b))) (prepare_all-append [] ms d)
      ∙ ap (λ r. (cleared, abort_if_started fails r))
          (enter_all-calm fails ms (start_motions fails ms) w (also u (first ∷ [])) (err e) c
            (start_motions-err ms (also w (subscribes ms)) (p u.done)))
      ∙ ap (λ r. (cleared, r))
          (abort_exception t e x refl
            ∙ and_then-ok fails (also t (last ∷ [])) (λ x. (x, err e))
                (perform-none fails last t (a t.done)))
