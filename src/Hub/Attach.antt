-- ===== src/Hub/Attach.antt =====
-- What a subscriber of session_hub.rs sees of a session's output.
use telepair.Base.{ℕ, ◌≡◌, refl, sym, ap, ◌∙◌, List, [], ◌∷◌, ◌++◌, length, arith, some}
use mathlib.Core.List.{append_assoc, append-nil}
use telepair.Base.Dict.{get}
use telepair.Hub.Scrollback.{Bytes}
use telepair.Hub.Live.{LiveSession, attach_to, emit_output, received}
use telepair.Hub.Sessions.{SessionEntry, Sessions}
use telepair.Hub.Reachable.{Reach, Reach-IsSound}

-- The chunks that the steps from `l` on emit.
pub data Emits (l : LiveSession) : List Bytes → LiveSession → Type 0 where
  start : Emits l [] l
  chunk :
      {cs : List Bytes} {l' : LiveSession} (c : Bytes)
      → Emits l cs l'
      → Emits l (cs ++ c ∷ []) (emit_output c l')
  silent :
      {cs : List Bytes} {l' l'' : LiveSession}
      → Emits l cs l'
      → l''.output ≡ l'.output
      → Emits l cs l''

Emits-output : {l l' : LiveSession} {cs : List Bytes} → Emits l cs l' → l'.output ≡ l.output ++ cs
unfolding emit_output
Emits-output {l} start = sym (append-nil l.output)
Emits-output {l} (chunk {cs} c e) =
    ap (λ x. x ++ c ∷ []) (Emits-output e) ∙ append_assoc l.output cs (c ∷ [])
Emits-output {l} (silent e same) = same ∙ Emits-output e

received_lem : (xs ys : List Bytes) → received (length xs) (xs ++ ys) ≡ ys
unfolding received
received_lem [] [] = refl
received_lem [] (y ∷ ys) = refl
received_lem (x ∷ xs) ys = ground (arith, received_lem xs ys)

-- Whoever attaches to a live session of a reachable hub, and does not lag, sees every chunk once,
-- in order: the snapshot followed by what the receiver gets is the end of the session's output,
-- and what it gets is exactly what was emitted after the attach.
pub attach_once :
    (m : Sessions) (id : ℕ) (l l' : LiveSession) (cs : List Bytes)
    → Reach m
    → get id m ≡ some (SessionEntry.live l)
    → Emits l cs l'
    → let a = attach_to l in
      (received a.output_rx l'.output ≡ cs)
      × ((older : List Bytes) × (l'.output
            ≡ older ++ (a.scrollback ++ received a.output_rx l'.output)))
unfolding attach_to
attach_once m id l l' cs r here e =
    let (older, replay) = (Reach-IsSound m id l r here).replay in
    let got : received (length l.output) l'.output ≡ cs =
      ap (received (length l.output)) (Emits-output e) ∙ received_lem l.output cs in
    (
      got,
      (
        older,
        Emits-output e
            ∙ ap (λ x. x ++ cs) replay
            ∙ append_assoc older l.scrollback.chunks cs
            ∙ ap (λ x. older ++ (l.scrollback.chunks ++ x)) (sym got),
      ),
    )
