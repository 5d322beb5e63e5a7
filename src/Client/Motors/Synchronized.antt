-- ===== src/Client/Motors/Synchronized.antt =====
-- What `synchronized_motors` does to motors whose moves were prepared.
use chess_pyspec.Base.{
  ◌≡◌, refl, sym, ap, subst, ◌∙◌, true, false, Option, none, some, List, [], ◌∷◌, ◌++◌,
  append_assoc, append-nil, Text,
}
use chess_pyspec.Base.Result.{Result, Error, ok, err}
use chess_pyspec.Dict.{Dict, IsDict, get-Fresh, set-Fresh, Fresh-append}
use chess_pyspec.Client.Motors.{
  replaced, moves, Operation, subscribe, wait, unsubscribe, prop_set, prestart_all, start_all,
  start_one, Motors, Log, cleared, prepare_move, perform, and_then, finally, wait_for_move_done,
  enter_all, start_each, start_motions, abort_if_started, synchronized_motors, Run,
}

module _ {F : Type 0} where
  -- The block that prepares these moves, one after another
  unfoldable pub prepare_all : List (Text × F) → Motors F → Motors F × Result (Unit {0})
  unfolding prepare_move
  prepare_all [] s = (s, ok tt)
  prepare_all ((m, x) ∷ ms) s = elim (prepare_move m x s) [
    | ok t ↦ prepare_all ms t
    | err e ↦ (s, err e)
  ]

  abbrev pub preparing : Dict F → Motors F
  preparing ps = record { synchronizing = true; pending = ps }

  pub prepare_all-append :
      (ps ms : Dict F)
      → IsDict (ps ++ ms)
      → prepare_all ms (preparing ps) ≡ (preparing (ps ++ ms), ok tt)
  unfolding prepare_all prepare_move
  prepare_all-append ps [] h = ap (λ x. (preparing x, ok tt)) (sym (append-nil ps))
  prepare_all-append ps ((m, x) ∷ ms) h =
      let again : (ps ++ ((m, x) ∷ [])) ++ ms ≡ ps ++ ((m, x) ∷ ms) =
        append_assoc ps ((m, x) ∷ []) ms in
      rw
        (
          get-Fresh ps m (Fresh-append ps ms m x h),
          set-Fresh ps m x (Fresh-append ps ms m x h),
          prepare_all,
          prepare_move,
        )
        (prepare_all-append (ps ++ ((m, x) ∷ [])) ms (subst IsDict (sym again) h)
          ∙ ap (λ q. (preparing q, ok tt)) again)

  unfoldable pub subscribes : Dict F → List (Operation F)
  subscribes [] = []
  subscribes ((m, x) ∷ ps) = subscribe m ∷ subscribes ps

  unfoldable pub starts : Dict F → List (Operation F)
  starts [] = []
  starts ((m, x) ∷ ps) = prop_set (start_one m) (some x) ∷ starts ps

  -- The waits, and the ends of the subscriptions, from the last motor to the first
  unfoldable pub ends : Dict F → List (Operation F)
  ends [] = []
  ends ((m, x) ∷ ps) = ends ps ++ (wait m ∷ unsubscribe m ∷ [])

  abbrev pub also : Log F → List (Operation F) → Log F
  also w os = record w { done = w.done ++ os }

  pub also-append :
      (w : Log F) (os ps : List (Operation F)) → also (also w os) ps ≡ also w (os ++ ps)
  also-append w os ps = ap (λ x. record w { done = x }) (append_assoc w.done os ps)

  module _ (fails : List (Operation F) → Operation F → Option Error) where
    -- No subscription, wait or end of a subscription raises.
    pub record IsCalm : Type 0 where
      pub subscribe_calm : (h : List (Operation F)) (m : Text) → fails h (subscribe m) ≡ none
      pub wait_calm : (h : List (Operation F)) (m : Text) → fails h (wait m) ≡ none
      pub unsubscribe_calm : (h : List (Operation F)) (m : Text) → fails h (unsubscribe m) ≡ none

    pub perform-none :
        (o : Operation F) (w : Log F)
        → fails w.done o ≡ none
        → perform fails o w ≡ (also w (o ∷ []), ok tt)
    unfolding perform
    perform-none o w h = rw h refl

    pub and_then-ok :
        {r : Run fails} (w : Log F) (k : Log F → Run fails)
        → r ≡ (w, ok tt)
        → and_then fails r k ≡ k w
    unfolding and_then
    and_then-ok w k e = ap (λ x. and_then fails x k) e

    pub and_then-err :
        {r : Run fails} (w : Log F) (k : Log F → Run fails) {e : Error}
        → r ≡ (w, err e)
        → and_then fails r k ≡ (w, err e)
    unfolding and_then
    and_then-err w k e = ap (λ x. and_then fails x k) e

    finally-ok :
        {r : Run fails} (w v : Log F) (x : Result (Unit {0})) (k : Log F → Run fails)
        → r ≡ (w, x)
        → k w ≡ (v, ok tt)
        → finally fails r k ≡ (v, x)
    unfolding finally replaced
    finally-ok w v x k e h = ap (λ y. finally fails y k) e ∙ ap (λ y. replaced fails y x) h

    wait_for_move_done-calm :
        (m : Text) (body : Log F → Run fails) (w u : Log F) (r : Result (Unit {0}))
        → IsCalm
        → body (also w (subscribe m ∷ [])) ≡ (u, r)
        → wait_for_move_done fails m body w ≡ (also u (wait m ∷ unsubscribe m ∷ []), r)
    unfolding wait_for_move_done
    wait_for_move_done-calm m body w u r c e =
        let v = also u (wait m ∷ []) in
        let waits = perform fails (wait m) in
        finally-ok v (also v (unsubscribe m ∷ [])) r (perform fails (unsubscribe m))
          (and_then-ok (also w (subscribe m ∷ [])) (λ x. finally fails (body x) waits)
              (perform-none (subscribe m) w (c.subscribe_calm w.done m))
            ∙ finally-ok u v r waits e (perform-none (wait m) u (c.wait_calm u.done m)))
          (perform-none (unsubscribe m) v (c.unsubscribe_calm v.done m))
        ∙ ap (λ x. (x, r)) (also-append u (wait m ∷ []) (unsubscribe m ∷ []))

    pub enter_all-calm :
        (ps : Dict F) (body : Log F → Run fails) (w u : Log F) (r : Result (Unit {0}))
        → IsCalm
        → body (also w (subscribes ps)) ≡ (u, r)
        → enter_all fails ps body w ≡ (also u (ends ps), r)
    unfolding enter_all subscribes ends
    enter_all-calm [] body w u r c e =
        ap body (ap (λ x. record w { done = x }) (sym (append-nil w.done)))
        ∙ e
        ∙ ap (λ x. (record u { done = x }, r)) (sym (append-nil u.done))
    enter_all-calm ((m, x) ∷ ps) body w u r c e =
        wait_for_move_done-calm m (enter_all fails ps body) w (also u (ends ps)) r c (
          enter_all-calm ps body (also w (subscribe m ∷ [])) u r c
            (ap body (also-append w (subscribe m ∷ []) (subscribes ps)) ∙ e))
        ∙ ap (λ x. (x, r)) (also-append u (ends ps) (wait m ∷ unsubscribe m ∷ []))

    start_each-none :
        (ps : Dict F) (w : Log F)
        → ((h : List (Operation F)) (p : Text) (x : Option F) → fails h (prop_set p x) ≡ none)
        → start_each fails ps w ≡ (also w (starts ps), ok tt)
    unfolding start_each starts
    start_each-none [] w n = ap (λ x. (record w { done = x }, ok tt)) (sym (append-nil w.done))
    start_each-none ((m, x) ∷ ps) w n =
        let o = prop_set (start_one m) (some x) in
        and_then-ok (also w (o ∷ [])) (start_each fails ps)
          (perform-none o w (n w.done (start_one m) (some x)))
        ∙ start_each-none ps (also w (o ∷ [])) n
        ∙ ap (λ x. (x, ok tt)) (also-append w (o ∷ []) (starts ps))

    start_motions-none :
        (ps : Dict F) (w : Log F)
        → ((h : List (Operation F)) (p : Text) (x : Option F) → fails h (prop_set p x) ≡ none)
        → start_motions fails ps w ≡ (
          record {
            done =
                w.done
                ++ (prop_set prestart_all none ∷ starts ps ++ (prop_set start_all none ∷ []));
            motion_started = true;
          },
          ok tt,
        )
    unfolding start_motions
    start_motions-none ps w n =
        let v = record w { motion_started = true } in
        let first = prop_set prestart_all none in
        let last = prop_set start_all none in
        let u = also v (first ∷ []) in
        let t = also u (starts ps) in
        and_then-ok u (λ x. and_then fails (start_each fails ps x) (perform fails last))
          (perform-none first v (n v.done prestart_all none))
        ∙ and_then-ok t (perform fails last) (start_each-none ps u n)
        ∙ perform-none last t (n t.done start_all none)
        ∙ ap (λ x. (x, ok tt))
            (also-append u (starts ps) (last ∷ [])
              ∙ also-append v (first ∷ []) (starts ps ++ (last ∷ [])))

    -- A block that prepares the moves `ms` of different motors, with no operation that raises: the motors are watched,
    -- one after another; then prestart_all, a start_one for each of them in the order in which
    -- they were prepared, and start_all are set; then, from the last motor to the first, it is
    -- waited for until it has stopped. In the end no move is pending.
    pub synchronized_motors-prepare_all :
        (ms : Dict F) (done : List (Operation F))
        → IsDict ms
        → ((h : List (Operation F)) (o : Operation F) → fails h o ≡ none)
        → synchronized_motors fails (prepare_all ms) cleared done ≡ (
          cleared,
          (
            record {
              done =
                  ((done ++ subscribes ms)
                    ++ (prop_set prestart_all none ∷ starts ms ++ (prop_set start_all none ∷ [])))
                  ++ ends ms;
              motion_started = true;
            },
            ok tt,
          ),
        )
    unfolding synchronized_motors moves abort_if_started
    synchronized_motors-prepare_all ms done d n =
        let w : Log F = record { done = done; motion_started = false } in
        let calm : IsCalm = record {
          subscribe_calm = λ h m. n h (subscribe m);
          wait_calm = λ h m. n h (wait m);
          unsubscribe_calm = λ h m. n h (unsubscribe m);
        } in
        ap (λ b. (cleared, abort_if_started fails (moves fails w b))) (prepare_all-append [] ms d)
        ∙ ap (λ r. (cleared, abort_if_started fails r))
            (enter_all-calm ms (start_motions fails ms) w _ (ok tt) calm
              (start_motions-none ms (also w (subscribes ms)) (λ h p x. n h (prop_set p x))))
