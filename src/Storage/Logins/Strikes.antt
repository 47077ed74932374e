-- ===== src/Storage/Logins/Strikes.antt =====
-- Five wrong passwords lock the account, for the time of the first lock and no longer.
use telepair.Base.{
  ℕ, ◌+◌, ◌≤◌, ◌<◌, true, ◌≡◌, ◌∙◌, Option, none, some, List, [], ◌∷◌, ap, arith, length, All,
  map_option, Option-cases, inl, inr,
}
use telepair.Base.Rows.{find, update_where, find-update_where}
use telepair.Core.Failure.{Result, ok, err}
use telepair.Core.Records.{LoginFailureOutcome}
use telepair.Storage.Db.{Database, Host, UserRow, user_id_is}
use telepair.Storage.Logins.{
  cleared, strike, struck, login_outcome, record_login_failure, check_login_lockout,
  clear_login_failures,
}

-- The row of an account.
abbrev pub row_of : ℕ → Database → Option UserRow
row_of id db = find (user_id_is id) db.users

strike-id :
    (now until id : ℕ) (u : UserRow)
    → user_id_is id u ≡ true
    → user_id_is id (strike now until u) ≡ true
unfolding struck
strike-id now until id u h = ground (arith, Option-cases u.login_locked_until)

module _ (host : Host) (id duration : ℕ) (db : Database) (u : UserRow)
    (found : row_of id db ≡ some u) where
  record_row :
      (r : LoginFailureOutcome) (db' : Database)
      → record_login_failure host id duration db ≡ ok (r, db')
      → (row_of id db' ≡ some (strike host.now (host.now + duration) u))
        × (r
            ≡ login_outcome host.now
                (strike host.now (host.now + duration) u).login_failed_count
                (strike host.now (host.now + duration) u).login_locked_until)
  unfolding record_login_failure
  record_row r db' h =
      let e =
        find-update_where (user_id_is id) (strike host.now (host.now + duration)) db.users
          (strike-id host.now (host.now + duration) id) in
      ground (arith, e)

-- A call that fails leaves the database as it was.
abbrev after_failure : Database → Result (LoginFailureOutcome × Database) → Database
after_failure db (ok (r, db')) = db'
after_failure db (err e) = db

-- Wrong passwords, at the times of the hosts.
unfoldable pub fail_all : ℕ → ℕ → List Host → Database → Database
fail_all id duration [] db = db
fail_all id duration (h ∷ hs) db =
    fail_all id duration hs (after_failure db (record_login_failure h id duration db))

module _ (now until : ℕ) (u : UserRow) where
  strike_open :
      u.login_locked_until ≡ none
      → u.login_failed_count < 4
      → ((strike now until u).login_locked_until ≡ none)
        × ((strike now until u).login_failed_count ≡ u.login_failed_count + 1)
  unfolding struck
  strike_open e few = ground arith

  strike_fifth :
      u.login_locked_until ≡ none
      → u.login_failed_count ≡ 4
      → (strike now until u).login_locked_until ≡ some until
  unfolding struck
  strike_fifth e four = ground arith

  strike_locked : (t : ℕ) → u.login_locked_until ≡ some t → now < t → strike now until u ≡ u
  unfolding struck
  strike_locked t e early = ground arith

  outcome_bounds :
      (r : ℕ)
      → now < until
      → login_outcome now
          (strike now until u).login_failed_count
          (strike now until u).login_locked_until
        ≡ LoginFailureOutcome.recorded r
      → (1 ≤ r) × (r ≤ 4)
  unfolding struck login_outcome
  outcome_bounds r later h = elim (Option-cases u.login_locked_until) [
    | inl e ↦ ground arith
    | inr (t, e) ↦ ground arith
  ]

module _ (id duration : ℕ) where
  record_step :
      (host : Host) (db : Database) (u : UserRow)
      → row_of id db ≡ some u
      → (db' : Database) × (record_login_failure host id duration db
          ≡ ok (
            login_outcome host.now
                (strike host.now (host.now + duration) u).login_failed_count
                (strike host.now (host.now + duration) u).login_locked_until,
            db',
          ))
        × (row_of id db' ≡ some (strike host.now (host.now + duration) u))
  unfolding record_login_failure
  record_step host db u found =
      let e =
        find-update_where (user_id_is id) (strike host.now (host.now + duration)) db.users
          (strike-id host.now (host.now + duration) id) in
      (
        record db {
          users = update_where (user_id_is id) (strike host.now (host.now + duration)) db.users;
        },
        ground (arith, e),
        ground (arith, e),
      )

  no_row :
      (host : Host) (db : Database) (r : ℕ) {db' : Database}
      → row_of id db ≡ none
      → record_login_failure host id duration db ≡ ok (LoginFailureOutcome.recorded r, db')
      → ⊥
  unfolding record_login_failure
  no_row host db r nobody h = ground (
    arith,
    find-update_where (user_id_is id) (strike host.now (host.now + duration)) db.users
        (strike-id host.now (host.now + duration) id),
  )

  -- For a positive duration of the lock, a failed login that is recorded without a lock names at
  -- least one and at most four attempts that are left.
  pub remaining_attempts :
      (host : Host) (db : Database) (r : ℕ) {db' : Database}
      → 0 < duration
      → record_login_failure host id duration db ≡ ok (LoginFailureOutcome.recorded r, db')
      → (1 ≤ r) × (r ≤ 4)
  remaining_attempts host db r pos h = elim (Option-cases (row_of id db)) [
    | inl nobody ↦ absurd (no_row host db r nobody h)
    | inr (u, found) ↦
        let (next, e, _) = record_step host db u found in
        outcome_bounds host.now (host.now + duration) u r (omega arith) (ground (arith, e))
  ]

  fail_all-cons :
      (h : Host) (hs : List Host) (db : Database) {r : LoginFailureOutcome} {db' : Database}
      → record_login_failure h id duration db ≡ ok (r, db')
      → fail_all id duration (h ∷ hs) db ≡ fail_all id duration hs db'
  unfolding fail_all
  fail_all-cons h hs db e = ap (λ x. fail_all id duration hs (after_failure db x)) e

  strikes_counted :
      (hosts : List Host) (db : Database) (u : UserRow)
      → row_of id db ≡ some u
      → u.login_locked_until ≡ none
      → u.login_failed_count + length hosts < 5
      → (v : UserRow) × (row_of id (fail_all id duration hosts db) ≡ some v)
        × (v.login_locked_until ≡ none)
        × (v.login_failed_count ≡ u.login_failed_count + length hosts)
  unfolding fail_all
  strikes_counted [] db u found unlocked few = (u, found, unlocked, omega arith)
  strikes_counted (h ∷ hs) db u found unlocked few =
      let (db', e, next) = record_step h db u found in
      let (open', count) = strike_open h.now (h.now + duration) u unlocked (omega arith) in
      let (v, at, free, total) =
        strikes_counted hs db' (strike h.now (h.now + duration) u) next open' (omega arith) in
      (v, ap (row_of id) (fail_all-cons h hs db e) ∙ at, free, omega arith)

  -- From a clear counter, and for a positive duration of the lock, four wrong passwords lock
  -- nothing and the fifth locks the account until that long after it, whatever the times of the
  -- five.
  pub fifth_failure_locks :
      (hosts : List Host) (last : Host) (db : Database) (u : UserRow)
      → 0 < duration
      → row_of id db ≡ some u
      → u.login_locked_until ≡ none
      → u.login_failed_count ≡ 0
      → length hosts ≡ 4
      → (db' : Database) × (record_login_failure last id duration (fail_all id duration hosts db)
          ≡ ok (LoginFailureOutcome.locked (last.now + duration), db'))
        × (map_option (λ (v : UserRow). v.login_locked_until) (row_of id db')
            ≡ some (some (last.now + duration)))
        × (map_option
              (λ (v : UserRow). v.login_locked_until)
              (row_of id (fail_all id duration hosts db))
            ≡ some none)
  unfolding login_outcome
  fifth_failure_locks hosts last db u pos found unlocked zero_count four =
      let (v, at, free, total) = strikes_counted hosts db u found unlocked (omega arith) in
      let (db', e, next) = record_step last (fail_all id duration hosts db) v at in
      let locked = strike_fifth last.now (last.now + duration) v free (omega arith) in
      (db', ground (arith, e, locked), ground (arith, next, locked), ground (arith, at, free))

  -- While a lock is live no number of further wrong passwords moves it; the account is reported
  -- locked until then, and from then on the counter and the lock are clear.
  pub lock_holds :
      (hosts : List Host) (db : Database) (u : UserRow) (until : ℕ)
      → row_of id db ≡ some u
      → u.login_locked_until ≡ some until
      → All (λ (h : Host). h.now < until) hosts
      → (row_of id (fail_all id duration hosts db) ≡ some u)
        × ((later : Host)
            → later.now < until
            → (check_login_lockout later id (fail_all id duration hosts db)).0 ≡ some until)
        × ((later : Host)
            → until ≤ later.now
            → ((check_login_lockout later id (fail_all id duration hosts db)).0 ≡ none)
              × (row_of id (check_login_lockout later id (fail_all id duration hosts db)).1
                  ≡ some (record u { login_failed_count = 0; login_locked_until = none })))
  unfolding fail_all check_login_lockout clear_login_failures
  lock_holds [] db u until found locked early =
      let e = find-update_where (user_id_is id) cleared db.users (λ r h. h) in
      (found, λ later h. ground arith, λ later h. ground (arith, e))
  lock_holds (h ∷ hs) db u until found locked early =
      let (db', e, next) = record_step h db u found in
      rw (fail_all-cons h hs db e) (
        lock_holds hs db' u until
          (next ∙ ap some (strike_locked h.now (h.now + duration) u until locked early.0)) locked
          early.1)
