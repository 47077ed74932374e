-- ===== src/Gateway/Socket/Notices.antt =====
-- A client of ws.rs that types without permission is not flooded with notices.
use telepair.Base.{
  ℕ, ◌+◌, ◌≤◌, ◌≡◌, refl, Option, none, some, List, [], ◌∷◌, ◌++◌, if◌then◌else◌, arith,
  Option-cases, inl, inr, is_some,
}
use telepair.Core.Protocol.{ClientMessage}
use telepair.Hub.Sessions.{get_participant_role}
use telepair.Gateway.Socket.{Frame, Event, Action, Connection, Gate, gate_for, step, run}
use telepair.Gateway.Socket.Refines.{assigns}

abbrev pub is_notice : Action → ℕ
is_notice (Action.notice reason) = 1
is_notice _ = 0

unfoldable pub notices : List Action → ℕ
notices [] = 0
notices (a ∷ actions) = is_notice a + notices actions

-- The events that set the user's role, a lag counted like a change.
unfoldable pub assignments : Connection → List Event → ℕ
assignments c [] = 0
assignments c (e ∷ es) = (if is_some (assigns c e) then 1 else 0) + assignments c es

abbrev latch : Gate → ℕ
latch g = if g.denial_notice_sent then 1 else 0

notices-append : (xs ys : List Action) → notices (xs ++ ys) ≡ notices xs + notices ys
unfolding notices
notices-append [] ys = omega arith
notices-append (a ∷ xs) ys = omega (arith, notices-append xs ys)

-- A step spends its notice from the latch, which a role assignment gives back.
abbrev Spent : Connection → Event → Gate → Option Gate × List Action → Type 0
Spent c e g (none, actions) = notices actions ≡ 0
Spent c e g (some g', actions) =
    notices actions + latch g ≤ latch g' + (if is_some (assigns c e) then 1 else 0)

step-Spent : (c : Connection) (e : Event) (g : Gate) → Spent c e g (step c e g)
unfolding step gate_for notices
step-Spent c (Event.received now (Frame.text none)) g = ground arith
step-Spent c (Event.received now (Frame.text (some (ClientMessage.term_resize cols rows)))) g =
    ground arith
step-Spent c (Event.received now (Frame.text (some (ClientMessage.chat_message said)))) g =
    ground arith
step-Spent c (Event.received now (Frame.text (some (ClientMessage.session_join s t x y)))) g =
    ground arith
step-Spent c (Event.received now (Frame.binary bytes)) g =
    elim (Option-cases g.input_denied_reason) [
      | inl allowed ↦ ground (arith, allowed)
      | inr (reason, denied) ↦ ground (arith, denied)
    ]
step-Spent c (Event.received now Frame.close) g = refl
step-Spent c (Event.received now Frame.ping_pong) g = ground arith
step-Spent c Event.gone g = refl
step-Spent c Event.shutdown g = refl
step-Spent c (Event.lagged m) g =
    elim (Option-cases (get_participant_role c.session_id c.user_id m)) [
      | inl absent ↦ ground (arith, absent)
      | inr (role, found) ↦ ground (arith, found)
    ]
step-Spent c (Event.collab message) g = ground arith

pub notices-run :
    (c : Connection) (es : List Event) (g : Gate)
    → notices (run c es g) + latch g ≤ 1 + assignments c es
unfolding run notices assignments
notices-run c [] g = ground arith
notices-run c (e ∷ es) g = go (step c e g) (step-Spent c e g) (λ g'. notices-run c es g')
  where
    go :
        (out : Option Gate × List Action)
        → Spent c e g out
        → ((g' : Gate) → notices (run c es g') + latch g' ≤ 1 + assignments c es)
        → notices (elim out.0 [ none ↦ out.1 | some g' ↦ out.1 ++ run c es g' ]) + latch g
          ≤ 1 + ((if is_some (assigns c e) then 1 else 0) + assignments c es)
    go (none, actions) spent rest = ground arith
    go (some g', actions) spent rest =
        omega (arith, notices-append actions (run c es g'), rest g', spent)
