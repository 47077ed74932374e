-- ===== src/Storage/Pending/Guessing.antt =====
-- What a one-time code withstands: five wrong guesses, and then nothing.
use telepair.Base.{
  ℕ, ◌+◌, ◌≤◌, ◌<◌, ◌&&◌, ◌≡◌, ◌≢◌, refl, ◌∙◌, ap, Option, some, List, [], ◌∷◌, if◌then◌else◌,
  arith, length, All,
}
use Prim.Native.Nat.{min}
use native.Mathlib.Decide.{dec_lt}
use telepair.Base.Rows.{find, update_where, delete_where}
use telepair.Base.Unique.{Unique, find-Unique, find-update_where_self, Unique-update_where}
use telepair.Core.Failure.{Result, ok, err}
use telepair.Core.Records.{PendingVerifyResult}
use telepair.Storage.Db.{Database, Host, PendingRow}
use telepair.Storage.Pending.{
  email_is, code_accepted, countable, count_failure, failure_verdict, uncounted_verdict,
  reject_code, materialize, verify_pending_registration,
}

abbrev pub email_key : PendingRow → ℕ
email_key p = p.email

abbrev pub UniqueEmails : Database → Type 0
UniqueEmails db = Unique email_key db.pending_registrations

abbrev pub pending_of : ℕ → Database → Option PendingRow
pending_of email db = find (email_is email) db.pending_registrations

module _ (token_sha256 : ℕ → ℕ) (host : Host) (email code : ℕ) (db : Database) (p : PendingRow)
    (unique : UniqueEmails db) (found : pending_of email db ≡ some p) where
  -- The verdict on a code, by the row of the address: a live and right code becomes a user, a
  -- wrong one is counted while the row lives, and a locked or expired row answers every code alike.
  pub verify_verdict : verify_pending_registration token_sha256 host email code db ≡ (
      if code_accepted host.now code p
      then materialize token_sha256 host email p (record db {
        pending_registrations =
            delete_where
              (λ r. email_is email r && code_accepted host.now code r)
              db.pending_registrations;
      })
      else if countable host.now p
      then ok (
        failure_verdict (p.otp_failure_count + 1),
        record db {
          pending_registrations =
              update_where
                (λ r. email_is email r && countable host.now r)
                count_failure
                db.pending_registrations;
        },
      )
      else ok (uncounted_verdict (some p), db))
  unfolding verify_pending_registration reject_code
  verify_verdict = ground (
    arith,
    find-Unique email_key email (code_accepted host.now code) db.pending_registrations p unique
        found,
    find-Unique email_key email (countable host.now) db.pending_registrations p unique found,
  )

  -- A wrong code in time is one strike, up to the fifth.
  wrong_code :
      code ≢ p.otp_code
      → host.now < p.otp_expires_at
      → p.otp_failure_count < 5
      → (r : PendingVerifyResult) × (db' : Database) × (verify_pending_registration token_sha256
            host email code db
          ≡ ok (r, db'))
        × (UniqueEmails db')
        × (pending_of email db' ≡ some (count_failure p))
  wrong_code wrong live few = (
    failure_verdict (p.otp_failure_count + 1),
    record db {
      pending_registrations =
          update_where (λ r. email_is email r && countable host.now r) count_failure
            db.pending_registrations;
    },
    ground (arith, verify_verdict),
    Unique-update_where email_key _ count_failure db.pending_registrations (λ r. refl) unique,
    find-update_where_self email_key email (countable host.now) count_failure
        db.pending_registrations p (λ x. refl) found (ground arith),
  )

  -- A locked row answers every code, the right one included, and nothing changes.
  locked_code :
      5 ≤ p.otp_failure_count
      → verify_pending_registration token_sha256 host email code db
        ≡ ok (PendingVerifyResult.locked, db)
  unfolding uncounted_verdict
  locked_code many = ground (arith, verify_verdict)

module _ (token_sha256 : ℕ → ℕ) (email : ℕ) where
  abbrev after_attempt : Database → Result (PendingVerifyResult × Database) → Database
  after_attempt db (ok (r, db')) = db'
  after_attempt db (err e) = db

  -- Codes tried one after the other, each at the time of its host.
  unfoldable pub attempt_all : List (Host × ℕ) → Database → Database
  attempt_all [] db = db
  attempt_all ((h, code) ∷ rest) db =
      attempt_all rest (after_attempt db (verify_pending_registration token_sha256 h email code db))

  attempt_all-cons :
      (h : Host) (code : ℕ) (rest : List (Host × ℕ)) (db : Database) {r : PendingVerifyResult}
      {db' : Database}
      → verify_pending_registration token_sha256 h email code db ≡ ok (r, db')
      → attempt_all ((h, code) ∷ rest) db ≡ attempt_all rest db'
  unfolding attempt_all
  attempt_all-cons h code rest db e = ap (λ x. attempt_all rest (after_attempt db x)) e

  -- A guess is wrong, and made while the code lives.
  abbrev pub WrongGuess : PendingRow → Host × ℕ → Type 0
  WrongGuess p g = (g.1 ≢ p.otp_code) × (g.0.now < p.otp_expires_at)

  strikes :
      (guesses : List (Host × ℕ)) (db : Database) (p : PendingRow)
      → UniqueEmails db
      → pending_of email db ≡ some p
      → p.otp_failure_count ≤ 5
      → All (WrongGuess p) guesses
      → (q : PendingRow) × (pending_of email (attempt_all guesses db) ≡ some q)
        × (UniqueEmails (attempt_all guesses db))
        × (q.otp_failure_count ≡ min 5 (p.otp_failure_count + length guesses))
  unfolding attempt_all
  strikes [] db p unique found few wrong = (p, found, unique, omega arith)
  strikes ((h, code) ∷ rest) db p unique found few wrong = elim (dec_lt p.otp_failure_count 5) [
    | yes below ↦
        let (r, db', e, u, next) =
          wrong_code token_sha256 h email code db p unique found wrong.0.0 wrong.0.1 below in
        let (q, at, v, count) = strikes rest db' (count_failure p) u next (omega arith) wrong.1 in
        let step = attempt_all-cons h code rest db e in
        (q, ap (pending_of email) step ∙ at, rw step v, omega arith)
    | no full ↦
        let e = locked_code token_sha256 h email code db p unique found (omega arith) in
        let (q, at, v, count) = strikes rest db p unique found few wrong.1 in
        let step = attempt_all-cons h code rest db e in
        (q, ap (pending_of email) step ∙ at, rw step v, omega arith)
  ]

  -- Where e-mail addresses are unique: once the strikes of a registration and further wrong
  -- guesses, made while its code lives, come to five, every later code at any time, the right one
  -- included, is answered `locked` and changes nothing.
  pub wrong_guesses_lock :
      (guesses : List (Host × ℕ)) (db : Database) (p : PendingRow)
      → UniqueEmails db
      → pending_of email db ≡ some p
      → p.otp_failure_count ≤ 5
      → All (WrongGuess p) guesses
      → 5 ≤ p.otp_failure_count + length guesses
      → (host : Host) (code : ℕ)
      → verify_pending_registration token_sha256 host email code (attempt_all guesses db)
        ≡ ok (PendingVerifyResult.locked, attempt_all guesses db)
  wrong_guesses_lock guesses db p unique found few wrong enough host code =
      let (q, at, v, count) = strikes guesses db p unique found few wrong in
      locked_code token_sha256 host email code (attempt_all guesses db) q v at (omega arith)
