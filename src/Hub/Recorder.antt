-- ===== src/Hub/Recorder.antt =====
-- crates/telepair-gateway/src/recording_writer.rs: the slot through which the hub feeds a recording
-- (the events are those of crates/telepair-core/src/recording.rs). The channel is tokio's: what is
-- modelled is the room left in it, which `try_send` uses up and the writer gives back.
use telepair.Base.{
  Bool, not, ◌&&◌, ℕ, ◌+◌, ◌-◌, ◌%◌, ◌^◌, ◌<◌, ◌≤◌, ◌≡◌, String, List, [], ◌∷◌, ◌++◌, if◌then◌else◌,
  ltb, length, length-append, arith,
}
use telepair.Hub.Scrollback.{Bytes}
use telepair.Core.Role.{Role}

pub data RecordingEvent : Type 0 where
  output : Bytes → RecordingEvent
  resize : ℕ → ℕ → RecordingEvent
  participant_join : ℕ → String → Role → RecordingEvent
  participant_leave : ℕ → RecordingEvent
  chat : ℕ → String → String → RecordingEvent
  stop : RecordingEvent

pub record RecordingSlot : Type 0 where
  pub sent : List RecordingEvent
  pub room : ℕ
  pub closed : Bool
  pub dropped : ℕ

-- A channel that is full or closed loses the event, and the loss is counted in an `AtomicU64`.
unfoldable pub try_send : RecordingSlot → RecordingEvent → RecordingSlot
try_send slot event =
    if not slot.closed && ltb 0 slot.room
    then record slot { sent = slot.sent ++ event ∷ []; room = slot.room - 1 }
    else record slot { dropped = (slot.dropped + 1) % 2 ^ 64 }

-- The events offered one after the other.
unfoldable pub offer : RecordingSlot → List RecordingEvent → RecordingSlot
offer slot [] = slot
offer slot (e ∷ es) = offer (try_send slot e) es

try_send-accounts :
    (slot : RecordingSlot) (e : RecordingEvent)
    → slot.dropped + 1 < 2 ^ 64
    → (length (try_send slot e).sent + (try_send slot e).dropped
        ≡ length slot.sent + slot.dropped + 1)
      × ((try_send slot e).dropped ≤ slot.dropped + 1)
unfolding try_send
try_send-accounts slot e few = ground (arith, length-append slot.sent (e ∷ []))

-- Every event offered was sent or counted as dropped, as long as the counter
-- does not wrap.
pub offer-accounts :
    (slot : RecordingSlot) (es : List RecordingEvent)
    → slot.dropped + length es < 2 ^ 64
    → length (offer slot es).sent + (offer slot es).dropped
      ≡ length slot.sent + slot.dropped + length es
unfolding offer
offer-accounts slot [] few = omega arith
offer-accounts slot (e ∷ es) few =
    let (total, small) = try_send-accounts slot e (omega arith) in
    omega (arith, offer-accounts (try_send slot e) es (omega arith), total)
