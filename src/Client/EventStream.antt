-- ===== src/Client/EventStream.antt =====
-- `EventStream.subscribed` of pyspec/client/_remote_property_table.py, for one object: the scopes
-- that subscribe to it, and what its listeners get. A scope is entered or left in one
-- step: the requests of subscribe and unsubscribe, which the property table makes, succeed here.
pub mod Nested
pub mod Overlapping
use chess_pyspec.Base.{
  ℕ, zero, suc, ◌+◌, ◌-◌, Bool, true, false, Option, none, some, List, [], ◌∷◌, ◌++◌, ◌==◌,
  if◌then◌else◌,
}
use chess_pyspec.Base.Result.{Error, key_error}

-- What can happen to the property: a scope is entered or left, each with a name of its own, or a
-- value arrives.
pub data Step (V : Type 0) : Type 0 where
  enter leave : ℕ → Step V
  received : V → Step V

-- `_subscriber_depth`; the subscriptions that the property table counts; the functions
-- `skip_first_emit_change` that listen, each by its scope and with its `initialized`; whether
-- `_emit_event` listens; and the values that were emitted as updates and as events.
pub record Stream (V : Type 0) : Type 0 where
  pub depth : ℕ
  pub watchers : ℕ
  pub skipping : List (ℕ × Bool)
  pub listening : Bool
  pub updates : List V
  pub events : List V

-- `remove_listener`, with none where pyee raises KeyError
unfoldable pub without : ℕ → List (ℕ × Bool) → Option (List (ℕ × Bool))
without i [] = none
without i ((j, b) ∷ fs) =
    let rest = without i fs in
    if j == i then some fs else elim rest [ none ↦ none | some gs ↦ some ((j, b) ∷ gs) ]

abbrev pub initialized : List (ℕ × Bool) → List (ℕ × Bool)
initialized [] = []
initialized ((j, b) ∷ fs) = (j, true) ∷ initialized fs

module _ {V : Type 0} where
  unfoldable pub enter_scope : ℕ → Stream V → Stream V
  enter_scope i s = record s {
    depth = s.depth + 1;
    watchers = s.watchers + 1;
    skipping = if s.depth == 0 then s.skipping ++ ((i, false) ∷ []) else s.skipping;
    listening = if s.depth == 0 then true else s.listening;
  }

  -- The rest of `finally`, by what the first `remove_listener` gives
  abbrev pub removed : Option (List (ℕ × Bool)) → Stream V → Stream V × List Error
  removed none s = (s, key_error ∷ [])
  removed (some fs) s =
      (record s { skipping = fs; listening = false; watchers = s.watchers - 1 }, [])

  unfoldable pub leave_scope : ℕ → Stream V → Stream V × List Error
  unfolding without
  leave_scope i s =
      let t = record s { depth = s.depth - 1 } in
      if t.depth == 0
      then removed (without i t.skipping) t
      else (record t { watchers = t.watchers - 1 }, [])

-- `_cast_value`, with none where `coerce` raises
module _ {V : Type 0} (cast_value : V → Option V) where
  -- `_emit_update`
  unfoldable pub emit_update : V → List V
  emit_update v = elim (cast_value v) [ none ↦ [] | some u ↦ u ∷ [] ]

  -- What the functions `skip_first_emit_change` emit for a value
  unfoldable pub emitted : V → List (ℕ × Bool) → List V
  emitted v [] = []
  emitted v ((j, true) ∷ fs) = emit_update v ++ emitted v fs
  emitted v ((j, false) ∷ fs) = emitted v fs

  unfoldable pub receive : V → Stream V → Stream V
  unfolding emitted
  receive v s = record s {
    skipping = initialized s.skipping;
    updates = s.updates ++ emitted v s.skipping;
    events = if s.listening then s.events ++ (v ∷ []) else s.events;
  }

  unfoldable pub step : Step V → Stream V → Stream V × List Error
  unfolding enter_scope leave_scope receive
  step (enter i) s = (enter_scope i s, [])
  step (leave i) s = leave_scope i s
  step (received v) s = (receive v s, [])

  -- One step after another, with the exceptions that are raised
  unfoldable pub run : List (Step V) → Stream V → Stream V × List Error
  unfolding step
  run [] s = (s, [])
  run (x ∷ xs) s = let one = step x s in let rest = run xs one.0 in (rest.0, one.1 ++ rest.1)
