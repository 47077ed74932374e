-- ===== src/Hub/Presence.antt =====
-- Several tabs of one user in a session of session_hub.rs.
use telepair.Base.{
  ℕ, ◌+◌, ◌-◌, ◌≡◌, refl, ◌∙◌, List, [], ◌∷◌, String, if◌then◌else◌, ◌==◌, ltb, arith, is_some,
  unwrap_or, Option-cases, inl, inr,
}
use telepair.Base.Dict.{get, get-insert, get-remove}
use telepair.Core.Role.{Role}
use telepair.Hub.Live.{LiveSession, add_participant, remove_participant, leave, next_count}
use telepair.Hub.Sound
use telepair.Hub.Sound.{IsSound}

-- A connection of a user opens or closes.
pub data Visit : Type 0 where
  join : (uid : ℕ) (name : String) (role : Role) → Visit
  part : (now uid : ℕ) → Visit

abbrev pub visit : Visit → LiveSession → LiveSession
visit (Visit.join uid name role) l = add_participant uid name role l
visit (Visit.part now uid) l = (remove_participant now uid l).1

unfoldable pub visit_all : List Visit → LiveSession → LiveSession
visit_all [] l = l
visit_all (v ∷ vs) l = visit_all vs (visit v l)

-- The open connections of a user, from the visits alone.
abbrev pub tally_one : ℕ → Visit → ℕ → ℕ
tally_one uid (Visit.join other name role) n = if other == uid then n + 1 else n
tally_one uid (Visit.part now other) n = if other == uid then n - 1 else n

unfoldable pub tally : ℕ → List Visit → ℕ → ℕ
tally uid [] n = n
tally uid (v ∷ vs) n = tally uid vs (tally_one uid v n)

abbrev pub tabs : ℕ → LiveSession → ℕ
tabs uid l = unwrap_or (get uid l.connections) 0

tabs-remove_participant :
    (uid now other : ℕ) (l : LiveSession)
    → IsSound l
    → tabs uid (remove_participant now other l).1
      ≡ (if other == uid then tabs uid l - 1 else tabs uid l)
unfolding remove_participant leave
tabs-remove_participant uid now other l s = elim (Option-cases (get other l.connections)) [
  | inl absent ↦ ground (arith, absent)
  | inr (count, present) ↦ ground (
    arith,
    present,
    s.counted other count present,
    get-insert other uid (count - 1) l.connections,
    get-remove other uid l.connections,
  )
]

tabs-visit :
    (uid : ℕ) (v : Visit) (l : LiveSession)
    → IsSound l
    → tabs uid (visit v l) ≡ tally_one uid v (tabs uid l)
unfolding add_participant
tabs-visit uid (Visit.join other name role) l s =
    ground (arith, get-insert other uid (next_count other l) l.connections)
tabs-visit uid (Visit.part now other) l s = tabs-remove_participant uid now other l s

visit-IsSound : (v : Visit) (l : LiveSession) → IsSound l → IsSound (visit v l)
visit-IsSound (Visit.join uid name role) l s = Sound.add_participant-IsSound l s uid name role
visit-IsSound (Visit.part now uid) l s = Sound.remove_participant-IsSound l s now uid

present-tabs :
    (uid : ℕ) (l : LiveSession) → IsSound l → is_some (get uid l.participants) ≡ ltb 0 (tabs uid l)
present-tabs uid l s = elim (Option-cases (get uid l.connections)) [
  | inl absent ↦ ground (arith, s.tied uid, absent)
  | inr (n, here) ↦ ground (arith, s.tied uid, here, s.counted uid n here)
]

-- From a sound session, whatever connections open and close, of whatever users: a user is shown as
-- present exactly while at least one of their connections is open, so that a second tab neither
-- adds nor removes them.
pub presence_tally :
    (uid : ℕ) (vs : List Visit) (l : LiveSession)
    → IsSound l
    → is_some (get uid (visit_all vs l).participants) ≡ ltb 0 (tally uid vs (tabs uid l))
unfolding visit_all tally
presence_tally uid [] l s = present-tabs uid l s
presence_tally uid (v ∷ vs) l s =
    presence_tally uid vs (visit v l) (visit-IsSound v l s) ∙ rw (tabs-visit uid v l s) refl
