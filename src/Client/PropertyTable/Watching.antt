-- ===== src/Client/PropertyTable/Watching.antt =====
-- Which properties the server is asked to watch, over the life of a `RemotePropertyTable`.
use chess_pyspec.Base.{
  ℕ, ◌+◌, ◌-◌, ◌≡◌, refl, Bool, true, false, Option, none, some, List, [], ◌∷◌, ◌++◌, arith, ltb,
  if◌then◌else◌, Text, text_eq, text_eq_iff, subst,
}
use chess_pyspec.Base.Result.{Result, ok}
use chess_pyspec.Dict.{get, IsDict, get-set, get-remove, set-IsDict, remove-IsDict}
use chess_pyspec.Platform.{Floats, Numpy}
use chess_pyspec.Client.PropertyTable.{
  Request, prop_watch, prop_unwatch, Call, returned, increment_watcher, decrement_watcher, Data,
  Table, is_subscribed, subscribe, count, unsubscribe, on_property_update, write, read,
}

-- What is known of whether the server watches a property after these calls: the last one about it
-- counts, and where that raised, nothing is known.
pub known_from : Option Bool → List Call → Text → Option Bool
known_from b [] p = b
known_from b ((prop_watch q, done) ∷ l) p =
    known_from (if text_eq q p then if done then some true else none else b) l p
known_from b ((prop_unwatch q, done) ∷ l) p =
    known_from (if text_eq q p then if done then some false else none else b) l p

abbrev pub known : List Call → Text → Option Bool
unfolding known_from
known l p = known_from (some false) l p

-- Whether the last call about a property returned, where there was one
pub settled_from : Bool → List Call → Text → Bool
settled_from b [] p = b
settled_from b ((prop_watch q, done) ∷ l) p = settled_from (if text_eq q p then done else b) l p
settled_from b ((prop_unwatch q, done) ∷ l) p = settled_from (if text_eq q p then done else b) l p

abbrev pub settled : List Call → Text → Bool
unfolding settled_from
settled l p = settled_from true l p

abbrev known_then : Call → Option Bool → Text → Option Bool
known_then (prop_watch q, done) b p = if text_eq q p then if done then some true else none else b
known_then (prop_unwatch q, done) b p = if text_eq q p then if done then some false else none else b

abbrev named : Request → Text
named (prop_watch q) = q
named (prop_unwatch q) = q

known-append :
    (b : Option Bool) (l : List Call) (c : Call) (p : Text)
    → known_from b (l ++ (c ∷ [])) p ≡ known_then c (known_from b l p) p
unfolding known_from
known-append b [] (prop_watch q, done) p = refl
known-append b [] (prop_unwatch q, done) p = refl
known-append b ((prop_watch q, done) ∷ l) c p =
    known-append (if text_eq q p then if done then some true else none else b) l c p
known-append b ((prop_unwatch q, done) ∷ l) c p =
    known-append (if text_eq q p then if done then some false else none else b) l c p

settled-append :
    (b : Bool) (l : List Call) (c : Call) (p : Text)
    → settled_from b (l ++ (c ∷ [])) p ≡ (if text_eq (named c.0) p then c.1 else settled_from b l p)
unfolding settled_from
settled-append b [] (prop_watch q, done) p = refl
settled-append b [] (prop_unwatch q, done) p = refl
settled-append b ((prop_watch q, done) ∷ l) c p =
    settled-append (if text_eq q p then done else b) l c p
settled-append b ((prop_unwatch q, done) ∷ l) c p =
    settled-append (if text_eq q p then done else b) l c p

abbrev positive : Option ℕ → Bool
positive none = true
positive (some n) = ltb 0 n

module _ (fl : Floats) (np : Numpy) where
  -- The server watches exactly the subscribed properties, among those whose last request did not
  -- raise, and no count of 0 is kept.
  pub record IsConsistent (t : Table fl np) : Type 0 where
    pub counts-IsDict : IsDict t.watchers
    pub counts_positive : (p : Text) → positive (get t.watchers p) ≡ true
    pub watched :
        (p : Text)
        → known t.calls p ≡ (if settled t.calls p then some (is_subscribed fl np t p) else none)

  pub subscribe-IsConsistent :
      (t : Table fl np) (p : Text) (answer : Result (Unit {0}))
      → IsConsistent t
      → IsConsistent (subscribe fl np p answer t).0
  unfolding subscribe increment_watcher is_subscribed known settled
  subscribe-IsConsistent t p answer h = record {
    counts-IsDict = set-IsDict t.watchers p (count (get t.watchers p) + 1) h.counts-IsDict;
    counts_positive = λ q.
        ground (arith, get-set t.watchers p q (count (get t.watchers p) + 1), h.counts_positive q);
    watched = λ q. ground (
      arith,
      get-set t.watchers p q (count (get t.watchers p) + 1),
      h.watched q,
      h.counts_positive p,
      text_eq_iff p q,
      known-append (some false) t.calls (prop_watch p, returned answer) q,
      settled-append true t.calls (prop_watch p, returned answer) q,
    );
  }

  pub unsubscribe-IsConsistent :
      (t : Table fl np) (p : Text) (answer : Result (Unit {0}))
      → IsConsistent t
      → IsConsistent (unsubscribe fl np p answer t).0
  unfolding unsubscribe decrement_watcher is_subscribed known settled
  unsubscribe-IsConsistent t p answer h =
      let n = count (get t.watchers p) - 1 in
      record {
        counts-IsDict = ground (
          arith,
          h.counts-IsDict,
          remove-IsDict t.watchers p h.counts-IsDict,
          set-IsDict t.watchers p n h.counts-IsDict,
        );
        counts_positive = λ q. ground (
          arith,
          get-remove t.watchers p q h.counts-IsDict,
          get-set t.watchers p q n,
          h.counts_positive q,
        );
        watched = λ q. ground (
          arith,
          get-remove t.watchers p q h.counts-IsDict,
          get-set t.watchers p q n,
          h.watched q,
          h.counts_positive p,
          text_eq_iff p q,
          known-append (some false) t.calls (prop_unwatch p, returned answer) q,
          settled-append true t.calls (prop_unwatch p, returned answer) q,
        );
      }

  -- A step of a table: a call of one of its methods, or an event from the server.
  pub data Step : Table fl np → Table fl np → Type 0 where
    subscribes :
        {t : Table fl np} (p : Text) (answer : Result (Unit {0}))
        → Step t (subscribe fl np p answer t).0
    unsubscribes :
        {t : Table fl np} (p : Text) (answer : Result (Unit {0}))
        → Step t (unsubscribe fl np p answer t).0
    updates :
        {t u : Table fl np} {w : Data fl np} (p : Text) (v : Data fl np)
        → on_property_update fl np p v t ≡ ok (u, w)
        → Step t u
    writes :
        {t u : Table fl np} {w : Data fl np} (p : Text) (v : Data fl np)
        → write fl np p v t ≡ some (u, w)
        → Step t u
    reads :
        {t u : Table fl np} {w : Data fl np} (p : Text) (answer : Result (Data fl np))
        → read fl np p answer t ≡ ok (u, w)
        → Step t u

  pub data Reachable : Table fl np → Type 0 where
    starts : Reachable (record { watchers = []; cache = []; calls = [] })
    steps : {t u : Table fl np} → Reachable t → Step t u → Reachable u

  Keeps : Table fl np → Table fl np → Type 0
  Keeps t u = (t.watchers ≡ u.watchers) × (t.calls ≡ u.calls)

  Keeps-IsConsistent : {t u : Table fl np} → IsConsistent t → Keeps t u → IsConsistent u
  unfolding is_subscribed Keeps
  Keeps-IsConsistent h (a, b) = record {
    counts-IsDict = subst IsDict a h.counts-IsDict;
    counts_positive = λ p. subst (λ d. positive (get d p) ≡ true) a (h.counts_positive p);
    watched = λ p. rw (← a, ← b) (h.watched p);
  }

  on_property_update-Keeps :
      (t : Table fl np) {u : Table fl np} (p : Text) (v : Data fl np) {w : Data fl np}
      → on_property_update fl np p v t ≡ ok (u, w)
      → Keeps t u
  unfolding on_property_update Keeps
  on_property_update-Keeps t p v e = ground arith

  write-Keeps :
      (t : Table fl np) {u : Table fl np} (p : Text) (v : Data fl np) {w : Data fl np}
      → write fl np p v t ≡ some (u, w)
      → Keeps t u
  unfolding write Keeps
  write-Keeps t p v e = ground arith

  read-Keeps :
      (t : Table fl np) {u : Table fl np} (p : Text) (answer : Result (Data fl np)) {w : Data fl np}
      → read fl np p answer t ≡ ok (u, w)
      → Keeps t u
  unfolding read is_subscribed Keeps
  read-Keeps t p answer e = ground arith

  Step-IsConsistent : {t u : Table fl np} → IsConsistent t → Step t u → IsConsistent u
  Step-IsConsistent h (subscribes p answer) = subscribe-IsConsistent _ p answer h
  Step-IsConsistent h (unsubscribes p answer) = unsubscribe-IsConsistent _ p answer h
  Step-IsConsistent h (updates p v e) = Keeps-IsConsistent h (on_property_update-Keeps _ p v e)
  Step-IsConsistent h (writes p v e) = Keeps-IsConsistent h (write-Keeps _ p v e)
  Step-IsConsistent h (reads p answer e) = Keeps-IsConsistent h (read-Keeps _ p answer e)

  -- In every reachable state the server watches exactly the properties with a subscription, among
  -- those whose last request did not raise.
  pub Reachable-IsConsistent : {t : Table fl np} → Reachable t → IsConsistent t
  unfolding is_subscribed get known settled
  Reachable-IsConsistent starts = record {
    counts-IsDict = tt;
    counts_positive = λ p. refl;
    watched = λ p. refl;
  }
  Reachable-IsConsistent (steps r s) = Step-IsConsistent (Reachable-IsConsistent r) s
