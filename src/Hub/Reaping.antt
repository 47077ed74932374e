-- ===== src/Hub/Reaping.antt =====
-- The reaper and the reload guard of session_hub.rs.
use telepair.Base.{
  ℕ, ◌-◌, ◌≤◌, ◌<◌, ◌≡◌, refl, Bool, true, false, ◌&&◌, none, some, List, [], ◌∷◌, String,
  if◌then◌else◌, ◌==◌, arith, str_eq_refl,
}
use telepair.Base.Dict.{
  get-retain, get, insert, remove, retain, values, get-insert, get-remove, is_empty-get,
}
use telepair.Hub.Live.{LiveSession, new_live}
use telepair.Hub.Sound.{IsSound}
use telepair.Hub.Sessions.{
  SessionEntry, Sessions, target_of, get_live, start_or_join, unexpired_entry, gc_expired_pending,
  count_target, count_live_sessions_per_target, reserve_target, overdue, to_reap, reap, sweep,
  overdue_at,
}

abbrev pub member : ℕ → List ℕ → Bool
member k [] = false
member k (j ∷ js) = if j == k then true else member k js

overdue_at-remove :
    (now timeout id k : ℕ) (m : Sessions)
    → overdue_at now timeout k (remove id m)
      ≡ (if id == k then false else overdue_at now timeout k m)
unfolding overdue_at
overdue_at-remove now timeout id k m = ground (arith, get-remove id k m)

reap-verdict :
    (now timeout k : ℕ) (ids : List ℕ) (m : Sessions)
    → (member k (reap now timeout ids m).0 ≡ (member k ids && overdue_at now timeout k m))
      × (get k (reap now timeout ids m).1
          ≡ (if member k ids && overdue_at now timeout k m then none else get k m))
unfolding reap
reap-verdict now timeout k [] m = (refl, refl)
reap-verdict now timeout k (id ∷ ids) m =
    let (kept, kept') = reap-verdict now timeout k ids m in
    let (gone, gone') = reap-verdict now timeout k ids (remove id m) in
    ground
      (arith, kept, kept', gone, gone', get-remove id k m, overdue_at-remove now timeout id k m)

to_reap_complete :
    (now timeout k : ℕ) (m : Sessions)
    → overdue_at now timeout k m ≡ true
    → member k (to_reap now timeout m) ≡ true
unfolding to_reap overdue_at get
to_reap_complete now timeout k [] h = cc
to_reap_complete now timeout k ((id, e) ∷ m) h = ground (arith, to_reap_complete now timeout k m)

overdue_at-get :
    (now timeout k : ℕ) (e : SessionEntry) (m : Sessions)
    → get k m ≡ some e
    → overdue_at now timeout k m ≡ overdue now timeout e
unfolding overdue_at
overdue_at-get now timeout k e m h = ground (arith, h)

-- For a live session under the write lock of a tick of the reaper, whatever happened since the
-- scan: if it is not overdue then, it stays and is not reported as reaped; if it is overdue then
-- and was at the scan, it is gone and reported.
pub sweep_verdict :
    (scanned now timeout ttl k : ℕ) (m m' : Sessions) (l : LiveSession)
    → get k m' ≡ some (SessionEntry.live l)
    → let after = sweep scanned now timeout ttl m m' in
      (overdue now timeout (SessionEntry.live l) ≡ false
        → (get k after.1 ≡ some (SessionEntry.live l)) × (member k after.0 ≡ false))
      × (overdue now timeout (SessionEntry.live l) ≡ true
          → overdue_at scanned timeout k m ≡ true
          → (get k after.1 ≡ none) × (member k after.0 ≡ true))
unfolding sweep gc_expired_pending
sweep_verdict scanned now timeout ttl k m m' l h =
    let kept = gc_expired_pending now ttl m' in
    let here : get k kept ≡ some (SessionEntry.live l) =
      get-retain (unexpired_entry now ttl) k (SessionEntry.live l) m' h refl in
    let at = overdue_at-get now timeout k (SessionEntry.live l) kept here in
    let (reaped, left) = reap-verdict now timeout k (to_reap scanned timeout m) kept in
    (
      (λ fresh. ground (arith, reaped, left, at, here, fresh)),
      (λ late scan.
          ground (arith, reaped, left, at, late, to_reap_complete scanned timeout k m scan)),
    )

-- No tick of the reaper takes away a sound live session that some user is connected to.
pub sweep-connected :
    (scanned now timeout ttl k uid n : ℕ) (m m' : Sessions) (l : LiveSession)
    → IsSound l
    → get k m' ≡ some (SessionEntry.live l)
    → get uid l.connections ≡ some n
    → get k (sweep scanned now timeout ttl m m').1 ≡ some (SessionEntry.live l)
sweep-connected scanned now timeout ttl k uid n m m' l s h here =
    let awake : overdue now timeout (SessionEntry.live l) ≡ false =
      ground (arith, s.idle, is_empty-get uid n l.connections here) in
    ((sweep_verdict scanned now timeout ttl k m m' l h).0 awake).0

counted_here :
    (p : SessionEntry → Bool) (id : ℕ) (e : SessionEntry) (m : Sessions)
    → get id m ≡ some e
    → p e ≡ true
    → 1 ≤ count_target (target_of e) (values (retain p m))
unfolding get retain
counted_here p id e [] h t = cc
counted_here p id e ((j, f) ∷ m) h t =
    ground (arith, counted_here p id e m, str_eq_refl (target_of e))

start_or_join-insert :
    (now id cols rows : ℕ) (target : String) (m : Sessions)
    → get_live id m ≡ none
    → (start_or_join now id target cols rows true m m).1
      ≡ insert id (SessionEntry.live (new_live now target cols rows)) m
unfolding start_or_join
start_or_join-insert now id cols rows target m h = ground (arith, h)

-- The guard of a reload, for a session that the hub does not know: its reserved target counts
-- until the reservation expires, and once attached at any time from then on while the map stays as
-- it is; a reservation made twice changes nothing.
pub reload_guard :
    (now now' ttl id cols rows : ℕ) (target : String) (m : Sessions)
    → get id m ≡ none
    → (now' - now < ttl
        → 1 ≤ (count_live_sessions_per_target now' ttl (reserve_target now id target m)).0 target)
      × (1
          ≤ (count_live_sessions_per_target now' ttl
                (start_or_join now id target cols rows true
                  (reserve_target now id target m)
                  (reserve_target now id target m)).1).0
              target)
      × (reserve_target now' id target (reserve_target now id target m)
          ≡ reserve_target now id target m)
unfolding count_live_sessions_per_target reserve_target gc_expired_pending get_live new_live
reload_guard now now' ttl id cols rows target m h =
    let made : get id (reserve_target now id target m) ≡ some (SessionEntry.pending target now) =
      ground (arith, h, get-insert id id (SessionEntry.pending target now) m) in
    let reserved = reserve_target now id target m in
    let started = SessionEntry.live (new_live now target cols rows) in
    (
      (λ soon.
          counted_here (unexpired_entry now' ttl) id (SessionEntry.pending target now) reserved made
            (ground arith)),
      rw (start_or_join-insert now id cols rows target reserved (rw (made, get_live) refl)) (
          counted_here (unexpired_entry now' ttl) id started (insert id started reserved)
            (ground (arith, get-insert id id started reserved)) refl),
      ground (arith, made),
    )
