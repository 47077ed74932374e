-- ===== src/Gateway/Socket/Gated.antt =====
-- What the loop of ws.rs does with all that its client sends.
use telepair.Base.{◌+◌, ◌≤◌, ◌≡◌, List, [], arith}
use telepair.Core.Role.{Role}
use telepair.Gateway.Socket.{Event, Connection, gate_for, run}
use telepair.Gateway.Socket.Refines.{transcript, run-transcript}
use telepair.Gateway.Socket.Notices.{notices, assignments, notices-run}

-- The loop, which caches its verdict on input and a latch, does what can be read off the events
-- alone. A frame of input goes to the terminal exactly if the role last assigned to the user
-- permits it: to an owner always, to an operator in a multiplexed session, to a viewer never. The
-- first refused frame since the role was assigned gives a notice with the reason, the others
-- nothing. Owners and operators may resize, and a chat message of more than 4096 bytes is dropped.
-- There are no more notices than assignments of a role and lags, and one.
pub loop_gated :
    (c : Connection) (joined_as : Role) (es : List Event)
    → (run c es (gate_for c.input_mode joined_as) ≡ transcript c joined_as [] es)
      × (notices (run c es (gate_for c.input_mode joined_as)) ≤ 1 + assignments c es)
unfolding gate_for
loop_gated c joined_as es = (
  run-transcript c joined_as es,
  omega (arith, notices-run c es (gate_for c.input_mode joined_as)),
)
