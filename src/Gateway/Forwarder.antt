-- ===== src/Gateway/Forwarder.antt =====
-- crates/telepair-gateway/src/ws.rs: the task of handle_socket that writes to one client, and the end
-- of the connection. Each arrival says whether the first frame that it sends gets through, and
-- whether the one behind it does.
use telepair.Base.{
  ℕ, ◌≡◌, refl, Bool, true, false, Option, none, some, List, [], ◌∷◌, ◌++◌, String, if◌then◌else◌,
  ◌==◌, inl, inr, not, Option-cases, arith,
}
use telepair.Core.Protocol.{EvictReason, ServerMessage, close_code_terminal, close_code_transient}
use telepair.Hub.Scrollback.{Bytes}
use telepair.Hub.Sessions.{Sessions, change_live}
use telepair.Hub.Live.{remove_participant}

-- What `tokio::select!` hands to the task, of its two subscriptions, the private channel on which the
-- loop sends `InputDenied`, and the signal to stop.
pub data Arrival : Type 0 where
  output : Bytes → Arrival
  output_lagged output_closed : Arrival
  collab : ServerMessage → Arrival
  collab_lagged collab_closed : Arrival
  personal : (reason : String) → Arrival
  stopped : Arrival

pub data Sent : Type 0 where
  binary : Bytes → Sent
  text : ServerMessage → Sent
  close : (code : ℕ) (reason : String) → Sent

abbrev pub close_reason : EvictReason → String
close_reason EvictReason.account_disabled = "account disabled"
close_reason EvictReason.token_rotated = "token rotated"

-- `self_evict_reason`
unfoldable pub self_evict_reason : ℕ → ServerMessage → Option EvictReason
self_evict_reason uid (ServerMessage.peer_evicted user_id reason) =
    if user_id == uid then some reason else none
self_evict_reason uid _ = none

-- What one arrival does: the frames, whether the task goes on, and whether it set `was_evicted`.
pub record Reaction : Type 0 where
  pub frames : List Sent
  pub goes_on : Bool
  pub evicts : Bool

abbrev pub send : Sent → Reaction
send frame = record { frames = frame ∷ []; goes_on = true; evicts = false }

abbrev pub break_with : List Sent → Reaction
break_with frames = record { frames = frames; goes_on = false; evicts = false }

abbrev pub on_broadcast : ServerMessage → Option EvictReason → Reaction
on_broadcast message none = send (Sent.text message)
on_broadcast message (some reason) = record {
  frames = Sent.text message ∷ Sent.close close_code_terminal (close_reason reason) ∷ [];
  goes_on = false;
  evicts = true;
}

unfoldable pub react : ℕ → Arrival → Reaction
react uid (Arrival.output bytes) = send (Sent.binary bytes)
react uid Arrival.output_lagged = break_with (Sent.close close_code_transient "output lagged" ∷ [])
react uid Arrival.output_closed = break_with []
react uid (Arrival.collab message) = on_broadcast message (self_evict_reason uid message)
react uid Arrival.collab_lagged = break_with (Sent.close close_code_transient "collab lagged" ∷ [])
react uid Arrival.collab_closed = break_with []
react uid (Arrival.personal reason) = send (Sent.text (ServerMessage.input_denied reason))
react uid Arrival.stopped = break_with []

abbrev pub behind : Bool → List Sent → List Sent
behind second [] = []
behind true (frame ∷ frames) = frame ∷ frames
behind false (frame ∷ frames) = []

-- Of the frames, those that get through when the first does.
abbrev pub delivered : Bool → List Sent → List Sent
delivered second [] = []
delivered second (frame ∷ frames) = frame ∷ behind second frames

-- The frames that reach the client, and `was_evicted`. A first frame that fails ends the task; what
-- becomes of the close frame behind a notice of eviction is not looked at.
unfoldable pub forward : ℕ → List (Bool × Bool × Arrival) → List Sent × Bool
forward uid [] = ([], false)
forward uid ((first, second, a) ∷ arrivals) =
    let rest = forward uid arrivals in
    let r = react uid a in
    if not first
    then ([], false)
    else if r.goes_on
    then (delivered second r.frames ++ rest.0, rest.1)
    else (delivered second r.frames, r.evicts)

-- The end of handle_socket.
unfoldable pub disconnect : Bool → ℕ → ℕ → ℕ → Sessions → Sessions
disconnect was_evicted now session_id uid m =
    if not was_evicted then change_live (λ l. (remove_participant now uid l).1) session_id m else m

-- A notice that this user is evicted.
abbrev pub names_me : ℕ → ServerMessage → Bool
names_me uid (ServerMessage.peer_evicted user_id reason) = user_id == uid
names_me uid _ = false

-- How the frames after those that are known go on; `told` says whether the user's own eviction was
-- among these. A close frame is the last, and its code says whether it was; so does the flag.
abbrev pub ClosesRight : ℕ → (evicted told : Bool) → List Sent → Type 0
ClosesRight uid evicted told [] = evicted ≡ told
ClosesRight uid evicted told (Sent.binary bytes ∷ frames) =
    (told ≡ false) × ClosesRight uid evicted told frames
ClosesRight uid evicted told (Sent.text message ∷ frames) =
    (told ≡ false) × ClosesRight uid evicted (names_me uid message) frames
ClosesRight uid evicted told (Sent.close code reason ∷ frames) =
    (frames ≡ [])
    × (evicted ≡ told)
    × (code ≡ (if told then close_code_terminal else close_code_transient))

not_me :
    (uid : ℕ) (message : ServerMessage)
    → self_evict_reason uid message ≡ none
    → names_me uid message ≡ false
unfolding self_evict_reason
not_me uid message h = ground arith

me :
    (uid : ℕ) (message : ServerMessage) (reason : EvictReason)
    → self_evict_reason uid message ≡ some reason
    → names_me uid message ≡ true
unfolding self_evict_reason
me uid message reason h = ground arith

last_frame :
    (uid : ℕ) (reason : EvictReason) (second : Bool)
    → ClosesRight uid true true
        (behind second (Sent.close close_code_terminal (close_reason reason) ∷ []))
last_frame uid reason true = (refl, refl, refl)
last_frame uid reason false = refl

-- Whatever arrives, and whichever frames fail: the connection counts as evicted exactly if the
-- notice of the user's own eviction reached the client. Nothing follows that notice but a close
-- frame. A close frame is the last frame, and it has the terminal code exactly if that notice is
-- before it, and the transient code otherwise.
pub forward-ClosesRight :
    (uid : ℕ) (arrivals : List (Bool × Bool × Arrival))
    → ClosesRight uid (forward uid arrivals).1 false (forward uid arrivals).0
unfolding forward react
forward-ClosesRight uid [] = refl
forward-ClosesRight uid ((false, second, a) ∷ arrivals) = refl
forward-ClosesRight uid ((true, second, Arrival.output bytes) ∷ arrivals) =
    (refl, forward-ClosesRight uid arrivals)
forward-ClosesRight uid ((true, second, Arrival.output_lagged) ∷ arrivals) = (refl, refl, refl)
forward-ClosesRight uid ((true, second, Arrival.output_closed) ∷ arrivals) = refl
forward-ClosesRight uid ((true, second, Arrival.collab message) ∷ arrivals) =
    elim (Option-cases (self_evict_reason uid message)) [
      | inl other ↦ rw (other, not_me uid message other) (refl, forward-ClosesRight uid arrivals)
      | inr (reason, own) ↦ rw (own, me uid message reason own) (refl, last_frame uid reason second)
    ]
forward-ClosesRight uid ((true, second, Arrival.collab_lagged) ∷ arrivals) = (refl, refl, refl)
forward-ClosesRight uid ((true, second, Arrival.collab_closed) ∷ arrivals) = refl
forward-ClosesRight uid ((true, second, Arrival.personal reason) ∷ arrivals) =
    (refl, forward-ClosesRight uid arrivals)
forward-ClosesRight uid ((true, second, Arrival.stopped) ∷ arrivals) = refl
