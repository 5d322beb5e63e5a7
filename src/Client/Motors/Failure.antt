-- ===== src/Client/Motors/Failure.antt =====
-- What `synchronized_motors` does when an operation raises.
use chess_pyspec.Base.{
  ◌≡◌, ◌⊎◌, inl, inr, Option-cases, refl, ap, ◌∙◌, Bool, true, false, Bool-cases, Option, none,
  some, List, [], ◌∷◌, ◌++◌, is_empty,
}
use chess_pyspec.Base.Result.{Result, Error, ok, err, cancelled_error, runtime_error}
use chess_pyspec.Dict.{Dict}
use chess_pyspec.Client.Motors.{
  is_exception, Operation, subscribe, wait, unsubscribe, prop_set, prestart_all, start_all,
  abort_all, start_one, Motors, Log, perform, and_then, finally, replaced, wait_for_move_done,
  enter_all, start_each, start_motions, abort_if_started, moves, synchronized_motors, Run,
}
use chess_pyspec.Client.Motors.Prestart.{abort_exception}

module _ {F : Type 0} where
  -- Whether a property was set
  unfoldable pub has_set : List (Operation F) → Bool
  has_set [] = false
  has_set (prop_set p x ∷ os) = true
  has_set (_ ∷ os) = has_set os

  -- After the second log the motion was started, or nothing was set since the first.
  data Calm (w u : Log F) : Type 0 where
    moving : u.motion_started ≡ true → Calm w u
    still : u.motion_started ≡ w.motion_started → has_set u.done ≡ has_set w.done → Calm w u

  module _ (fails : List (Operation F) → Operation F → Option Error) where
    Calm-trans : {w u v : Log F} → Calm w u → Calm u v → Calm w v
    Calm-trans h (moving b) = moving b
    Calm-trans (moving a) (still b c) = moving (b ∙ a)
    Calm-trans (still a d) (still b c) = still (b ∙ a) (c ∙ d)

    has_set-append :
        (os : List (Operation F)) (o : Operation F)
        → has_set (o ∷ []) ≡ false
        → has_set (os ++ (o ∷ [])) ≡ has_set os
    unfolding has_set
    has_set-append [] o h = h
    has_set-append (subscribe m ∷ os) o h = has_set-append os o h
    has_set-append (wait m ∷ os) o h = has_set-append os o h
    has_set-append (unsubscribe m ∷ os) o h = has_set-append os o h
    has_set-append (prop_set p x ∷ os) o h = refl

    perform-Calm :
        (o : Operation F) (w : Log F) → has_set (o ∷ []) ≡ false → Calm w (perform fails o w).0
    unfolding perform
    perform-Calm o w h = still refl (has_set-append w.done o h)

    and_then-Calm :
        {w : Log F} (r : Run fails) (k : Log F → Run fails)
        → Calm w r.0
        → ((u : Log F) → Calm u (k u).0)
        → Calm w (and_then fails r k).0
    unfolding and_then
    and_then-Calm (u, ok t) k h q = Calm-trans h (q u)
    and_then-Calm (u, err e) k h q = h

    replaced_log : (r : Run fails) (x : Result (Unit {0})) → (replaced fails r x).0 ≡ r.0
    unfolding replaced
    replaced_log (w, ok u) x = refl
    replaced_log (w, err e) x = refl

    finally-Calm :
        {w : Log F} (r : Run fails) (k : Log F → Run fails)
        → Calm w r.0
        → ((u : Log F) → Calm u (k u).0)
        → Calm w (finally fails r k).0
    unfolding finally
    finally-Calm r k h q = Calm-trans h (rw (replaced_log (k r.0) r.1) (q r.0))

    enter_all-Calm :
        (ps : Dict F) (body : Log F → Run fails) (w : Log F)
        → ((u : Log F) → Calm u (body u).0)
        → Calm w (enter_all fails ps body w).0
    unfolding enter_all wait_for_move_done has_set
    enter_all-Calm [] body w q = q w
    enter_all-Calm ((m, x) ∷ ps) body w q =
        finally-Calm
          (and_then fails (perform fails (subscribe m) w)
            (λ u. finally fails (enter_all fails ps body u) (perform fails (wait m))))
          (perform fails (unsubscribe m))
          (and_then-Calm (perform fails (subscribe m) w)
            (λ u. finally fails (enter_all fails ps body u) (perform fails (wait m)))
            (perform-Calm (subscribe m) w refl)
            (λ u.
              finally-Calm (enter_all fails ps body u) (perform fails (wait m))
                (enter_all-Calm ps body u q) (λ v. perform-Calm (wait m) v refl)))
          (λ u. perform-Calm (unsubscribe m) u refl)

    and_then-started :
        (r : Run fails) (k : Log F → Run fails)
        → r.0.motion_started ≡ true
        → ((u : Log F) → u.motion_started ≡ true → (k u).0.motion_started ≡ true)
        → (and_then fails r k).0.motion_started ≡ true
    unfolding and_then
    and_then-started (u, ok t) k h q = q u h
    and_then-started (u, err e) k h q = h

    perform-started :
        (o : Operation F) (w : Log F)
        → w.motion_started ≡ true
        → (perform fails o w).0.motion_started ≡ true
    unfolding perform
    perform-started o w h = h

    start_each-started :
        (ps : Dict F) (w : Log F)
        → w.motion_started ≡ true
        → (start_each fails ps w).0.motion_started ≡ true
    unfolding start_each
    start_each-started [] w h = h
    start_each-started ((m, x) ∷ ps) w h =
        and_then-started (perform fails (prop_set (start_one m) (some x)) w) (start_each fails ps)
          (perform-started (prop_set (start_one m) (some x)) w h) (start_each-started ps)

    start_motions-Calm : (ps : Dict F) (w : Log F) → Calm w (start_motions fails ps w).0
    unfolding start_motions
    start_motions-Calm ps w =
        let last = prop_set start_all none in
        moving (
          and_then-started
            (perform fails (prop_set prestart_all none) (record w { motion_started = true }))
            (λ u. and_then fails (start_each fails ps u) (perform fails last))
            (perform-started (prop_set prestart_all none) (record w { motion_started = true }) refl)
            (λ u h.
              and_then-started (start_each fails ps u) (perform fails last)
                (start_each-started ps u h) (perform-started last)))

    moves-Calm : (w : Log F) (b : Motors F × Result (Unit {0})) → Calm w (moves fails w b).0
    unfolding moves
    moves-Calm w (s, ok u) =
        enter_all-Calm s.pending (start_motions fails s.pending) w (start_motions-Calm s.pending)
    moves-Calm w (s, err e) = still refl refl

    -- A run that succeeds or is cancelled, or sets nothing, or sets abort_all in the end
    abbrev pub Settled : Log F → Run fails → Type 0
    Settled w r =
        ((r.1 ≡ ok tt) ⊎ (r.1 ≡ err cancelled_error))
        ⊎ ((has_set r.0.done ≡ has_set w.done)
            ⊎ ((os : List (Operation F)) × (r.0.done ≡ os ++ (prop_set abort_all none ∷ []))))

    and_then_done :
        (o : Operation F) (u : Log F) (e : Error)
        → (and_then fails (perform fails o u) (λ v. (v, err e))).0.done ≡ u.done ++ (o ∷ [])
    unfolding perform and_then
    and_then_done o u e = elim (Option-cases (fails u.done o)) [
      | inl h ↦ rw (h, and_then, perform) refl
      | inr (x, h) ↦ rw (h, and_then, perform) refl
    ]

    exception_cases :
        (e : Error) → (is_exception e ≡ true) ⊎ ((is_exception e ≡ false) × (e ≡ cancelled_error))
    unfolding is_exception
    exception_cases cancelled_error = inr (refl, refl)
    exception_cases _ = inl refl

    abort-Settled :
        (w : Log F) (r : Run fails)
        → w.motion_started ≡ false
        → Calm w r.0
        → Settled w (abort_if_started fails r)
    unfolding abort_if_started
    abort-Settled w (u, ok t) h c = inl (inl refl)
    abort-Settled w (u, err e) h (moving k) = elim (exception_cases e) [
      | inl x ↦
          rw (abort_exception fails u e x k)
            (inr (inr (u.done, and_then_done (prop_set abort_all none) u e)))
      | inr (x, y) ↦ rw (k, x, abort_if_started) (inl (inr (ap err y)))
    ]
    abort-Settled w (u, err e) h (still k q) = rw (k ∙ h, abort_if_started) (inr (inl q))

    -- Whatever the block does and whichever operations raise, `synchronized_motors` succeeds or is
    -- cancelled, or it sets no property, or the last thing that it does is to set abort_all.
    pub synchronized_motors-Settled :
        (body : Motors F → Motors F × Result (Unit {0})) (s : Motors F) (done : List (Operation F))
        → Settled
            (record { done = done; motion_started = false })
            (synchronized_motors fails body s done).1
    unfolding synchronized_motors
    synchronized_motors-Settled body s done =
        let w : Log F = record { done = done; motion_started = false } in
        elim (Bool-cases s.synchronizing) [
          | inl h ↦ rw (h, synchronized_motors) (inr (inl refl))
          | inr h ↦ elim (Bool-cases (is_empty s.pending)) [
            | inl k ↦
                rw (h, k, synchronized_motors)
                  (let b = body (record { synchronizing = true; pending = [] }) in
                    abort-Settled w (moves fails w b) refl (moves-Calm w b))
            | inr k ↦
                rw (h, k, synchronized_motors)
                  (abort-Settled w (w, err runtime_error) refl (still refl refl))
          ]
        ]
