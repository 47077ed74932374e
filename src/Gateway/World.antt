-- ===== src/Gateway/World.antt =====
-- crates/telepair-gateway/src/state.rs and http.rs: what the handlers share, their errors and their
-- guards. A handler runs here with no other task in between.
use telepair.Base.{
  ◌≡◌, refl, ℕ, ◌||◌, Option, none, some, List, [], ◌∷◌, ◌++◌, String, if◌then◌else◌,
}
use telepair.Core.Failure.{Error, Result, ok, err, http_status}
use telepair.Core.Records.{User, is_guest}
use telepair.Storage.{Database}
use telepair.Storage.Accounts.{validate_token}
use telepair.Hub.Sessions.{Sessions}
use telepair.Targets.{TargetEngine}
use telepair.Control.Audit.{AuditEntry, Outcome}

-- `AppState`, with the audit log.
pub record AppState : Type 0 where
  pub database : Database
  pub hub : Sessions
  pub targets : TargetEngine
  pub audit : List AuditEntry

pub data ApiError : Type 0 where
  bare : (code : ℕ) → ApiError
  with_message : (code : ℕ) (message : String) → ApiError
  from : Error → ApiError

unfoldable pub status : ApiError → ℕ
status (ApiError.bare code) = code
status (ApiError.with_message code message) = code
status (ApiError.from e) = http_status e

pub data ApiResult {ℓ} (A : Type ℓ) : Type ℓ where
  refused : ApiError → ApiResult A
  granted : A → ApiResult A

-- What a request is answered, and what it leaves.
pub record Reply {ℓ} (A : Type ℓ) : Type ℓ where
  pub answer : ApiResult A
  pub state : AppState

module _ {ℓ} {A : Type ℓ} where
  abbrev pub refuse : ApiError → AppState → Reply A
  refuse e w = record { answer = ApiResult.refused e; state = w }

  abbrev pub grant : A → AppState → Reply A
  grant a w = record { answer = ApiResult.granted a; state = w }

abbrev pub lift {ℓ} : {A : Type ℓ} → Result A → ApiResult A
lift (ok a) = ApiResult.granted a
lift (err e) = ApiResult.refused (ApiError.from e)

-- What a service leaves of the database and adds to the log.
abbrev pub absorb {ℓ} : {A : Type ℓ} → Outcome A → AppState → AppState
absorb out w = record w { database = out.database; audit = w.audit ++ out.audit }

abbrev pub log : AuditEntry → AppState → AppState
log entry w = record w { audit = w.audit ++ entry ∷ [] }

-- The bearer token of the request, if it has one.
unfoldable pub extract_user : (ℕ → ℕ) → Option ℕ → Database → ApiResult User
extract_user token_sha256 none db = ApiResult.refused (ApiError.bare 401)
extract_user token_sha256 (some token) db = lift (validate_token token_sha256 token db)

unfoldable pub require_unscoped : User → ApiResult (Unit {0})
require_unscoped user =
    if is_guest user then ApiResult.refused (ApiError.bare 403) else ApiResult.granted tt

unfoldable pub require_admin : User → ApiResult (Unit {0})
require_admin user =
    if user.is_admin then ApiResult.granted tt else ApiResult.refused (ApiError.bare 403)

unfoldable pub audit_session_access_denied : User → String → Option ℕ → AppState → AppState
audit_session_access_denied user path session_id w =
    log (AuditEntry.session_access_denied user.id path session_id) w

unfoldable pub require_session_enabled : User → String → Option ℕ → AppState → Reply (Unit {0})
require_session_enabled user path session_id w =
    if user.session_enabled || user.is_admin
    then record { answer = ApiResult.granted tt; state = w }
    else record {
      answer = ApiResult.refused (ApiError.bare 403);
      state = audit_session_access_denied user path session_id w;
    }

module _ {ℓ κ} {A : Type ℓ} {B : Type κ} where
  -- `?` on a guard.
  abbrev pub check : ApiResult A → AppState → (A → Reply B) → Reply B
  check (ApiResult.refused e) w next = refuse e w
  check (ApiResult.granted a) w next = next a

  -- `?` on a guard that leaves a trace.
  abbrev pub after : Reply A → (A → AppState → Reply B) → Reply B
  after r next = check r.answer r.state (λ a. next a r.state)

  abbrev pub serve_answer :
      Result A → (Error → ApiError) → AppState → (A → AppState → Reply B) → Reply B
  serve_answer (err e) answer_to w next = refuse (answer_to e) w
  serve_answer (ok a) answer_to w next = next a w

  serve_answer-rule {μ} :
      (P : ApiResult B → AppState → Type μ) (r : Result A) (answer_to : Error → ApiError)
      (w : AppState) (next : A → AppState → Reply B)
      → ((e : Error) → r ≡ err e → P (ApiResult.refused (answer_to e)) w)
      → ((a : A) → r ≡ ok a → P (next a w).answer (next a w).state)
      → P (serve_answer r answer_to w next).answer (serve_answer r answer_to w next).state
  serve_answer-rule P (err e) answer_to w next stop go_on = stop e refl
  serve_answer-rule P (ok a) answer_to w next stop go_on = go_on a refl

  -- What holds of a refusal and of whatever follows the guard holds of both together.
  pub check-rule {μ} :
      (P : ApiResult B → AppState → Type μ) (guard : ApiResult A) (w : AppState)
      (next : A → Reply B)
      → ((e : ApiError) → P (ApiResult.refused e) w)
      → ((a : A) → guard ≡ ApiResult.granted a → P (next a).answer (next a).state)
      → P (check guard w next).answer (check guard w next).state
  check-rule P (ApiResult.refused e) w next stop go_on = stop e
  check-rule P (ApiResult.granted a) w next stop go_on = go_on a refl

  -- `?` on a service, whose errors become answers by `answer_to`.
  abbrev pub serve : Outcome A → (Error → ApiError) → AppState → (A → AppState → Reply B) → Reply B
  serve out answer_to w next = serve_answer out.answer answer_to (absorb out w) next

  pub serve-rule {μ} :
      (P : ApiResult B → AppState → Type μ) (out : Outcome A) (answer_to : Error → ApiError)
      (w : AppState) (next : A → AppState → Reply B)
      → ((e : Error) → out.answer ≡ err e → P (ApiResult.refused (answer_to e)) (absorb out w))
      → ((a : A)
          → out.answer ≡ ok a
          → P (next a (absorb out w)).answer (next a (absorb out w)).state)
      → P (serve out answer_to w next).answer (serve out answer_to w next).state
  serve-rule P out answer_to w next stop go_on =
      serve_answer-rule P out.answer answer_to (absorb out w) next stop go_on
