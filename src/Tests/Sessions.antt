-- ===== src/Tests/Sessions.antt =====
-- The theorems on the hub, at one session.
use telepair.Base.{is_some, ◌+◌, ◌≤◌, ◌≡◌, refl, arith, true, none, [], ◌∷◌, ◌++◌, List}
use telepair.Base.Dict.{get, insert}
use telepair.Core.Role.{Role}
use telepair.Hub.Scrollback.{
  Bytes, empty_scrollback, push_all, push_all-suffix, IsBounded, scrollback_cap_bytes,
}
use telepair.Hub.Live.{LiveSession, new_live, emit_output, add_participant, attach_to, received}
use telepair.Hub.Sound.{IsSound}
use telepair.Hub.Sessions.{overdue_at, SessionEntry, Sessions, start_or_join, get_live, sweep}
use telepair.Hub.Reachable.{LiveStep, Step, Reach, Reach-IsSound}
use telepair.Hub.Presence.{Visit, visit_all, tally, presence_tally}
use telepair.Hub.Attach.{Emits, attach_once}
use telepair.Hub.Reaping.{sweep_verdict}

abbrev fresh : LiveSession
fresh = new_live 5 "dev" 80 24

abbrev opened : Sessions
opened = (start_or_join 5 7 "dev" 80 24 true [] []).1

abbrev joined : LiveSession
joined = add_participant 1 "ada" Role.owner fresh

abbrev occupied : Sessions
occupied = insert 7 (SessionEntry.live joined) opened

occupied-Reach : Reach occupied
unfolding start_or_join get_live get insert
occupied-Reach =
    Reach.next (Reach.next Reach.empty (Step.start [] 5 7 "dev" 80 24 true))
      (Step.on_live 7 fresh joined refl (LiveStep.join 1 "ada" Role.owner))

Reach-IsSound_example : IsSound joined
unfolding start_or_join get_live get insert
Reach-IsSound_example = Reach-IsSound occupied 7 joined occupied-Reach refl

abbrev hello : Bytes
hello = 104 ∷ 105 ∷ []

attach_once_example :
    (received 0 (emit_output hello joined).output ≡ hello ∷ [])
    × ((older : List Bytes) × ((emit_output hello joined).output
          ≡ older ++ ([] ++ received 0 (emit_output hello joined).output)))
unfolding start_or_join get_live get insert attach_to add_participant new_live empty_scrollback
attach_once_example =
    attach_once occupied 7 joined (emit_output hello joined) (hello ∷ []) occupied-Reach refl
      (Emits.chunk hello Emits.start)

sweep_verdict_example : get 7 (sweep 200 201 120 60 opened opened).1 ≡ none
unfolding start_or_join get_live get insert overdue_at new_live
sweep_verdict_example = ((sweep_verdict 200 201 120 60 7 opened opened fresh refl).1 refl refl).0

push_all-suffix_example :
    (d : List Bytes) × (hello ∷ hello ∷ []
      ≡ d ++ (push_all empty_scrollback (hello ∷ hello ∷ [])).chunks)
    × (IsBounded (push_all empty_scrollback (hello ∷ hello ∷ [])))
    × (0 + 4 ≤ scrollback_cap_bytes → d ≡ [])
unfolding empty_scrollback
push_all-suffix_example =
    push_all-suffix empty_scrollback (hello ∷ hello ∷ [])
      (record { counted = refl; capped = omega arith }) (omega arith, (omega arith, tt))

abbrev tabs_opened : List Visit
tabs_opened =
    Visit.join 1 "ada" Role.owner
    ∷ Visit.join 2 "bob" Role.viewer
    ∷ Visit.part 9 1
    ∷ Visit.part 9 2
    ∷ []

presence_tally_example : is_some (get 1 (visit_all tabs_opened joined).participants) ≡ true
unfolding start_or_join get_live get insert tally add_participant new_live
presence_tally_example = presence_tally 1 tabs_opened joined Reach-IsSound_example
