-- ===== src/Network/EventLoop.antt =====
-- headers/network/EventLoop.hpp and sources/network/EventLoop.cpp: the loop that a pool runs. What
-- the poller gives, and whether the loop still runs, are arguments: other threads decide it.
pub mod Batches
use fion.Prelude.{Bool, true, false, Option, none, some, List, [], ◌∷◌, if◌then◌else◌}
use fion.Prelude.Results.{Exception}

pub record EventLoop : Type 0 where
  pub running : Bool

abbrev pub new_event_loop : EventLoop
new_event_loop = record { running = false }

-- The result of `poll`: a batch of events, or an exception.
pub data Poll (Event : Type 0) : Type 0 where
  polled : List Event → Poll Event
  failed : Exception → Poll Event

-- A turn of the loop: what `_running` is before it, and what `poll` gives.
pub record LoopTurn (Event : Type 0) : Type 0 where
  pub goes_on : Bool
  pub poll : Poll Event

module _ {State Event : Type 0} (event_callback : State → Event → State × Option Exception) where
  -- The events of a batch: an exception of the callback leaves the rest of the batch out.
  unfoldable pub dispatch : List Event → State → State × Option Exception
  dispatch [] s = (s, none)
  dispatch (event ∷ rest) s =
      let (changed, thrown) = event_callback s event in
      let later = dispatch rest changed in elim thrown [ none ↦ later | some e ↦ (changed, some e) ]

  -- The body of the loop: an exception is logged only.
  unfoldable pub run_once : Poll Event → State → State
  run_once (polled events) s = (dispatch events s).0
  run_once (failed e) s = s

  unfoldable pub run_turns : List (LoopTurn Event) → State → State
  run_turns [] s = s
  run_turns (turn ∷ rest) s =
      let later = run_turns rest (run_once turn.poll s) in if turn.goes_on then later else s

  -- `run`: a loop that runs already is left alone.
  unfoldable pub run : EventLoop → List (LoopTurn Event) → State → EventLoop × State
  run loop turns s =
      let ran = run_turns turns s in
      if loop.running then (loop, s) else (record { running = true }, ran)

unfoldable pub stop : EventLoop → EventLoop
stop loop = record { running = false }
