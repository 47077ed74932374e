-- ===== src/Core/Failure.antt =====
-- crates/telepair-core/src/error.rs: the error type that every layer returns, and its HTTP status.
use telepair.Base.{◌⊎◌, inl, inr, ◌≡◌, refl, ℕ, String, Bool, true, false}

-- A message built by `format!`: a fixed text, one with an identifier or a name in
-- its middle, or two such in a row.
pub data Message : Type 0 where
  text : String → Message
  about : String → ℕ → String → Message
  quoting : String → String → String → Message
  join : Message → Message → Message

-- What `sqlx` reports, as far as the program asks: whether a UNIQUE constraint was violated.
pub data Fault : Type 0 where
  unique_violation other_fault : Fault

pub data Error : Type 0 where
  auth : Message → Error
  session_not_found : ℕ → Error
  session_closed : ℕ → Error
  target_not_found : Message → Error
  permission_denied : Message → Error
  invalid_input : Message → Error
  conflict : Message → Error
  rate_limited : Message → Error
  service_unavailable : Message → Error
  internal : Message → Error
  storage : Fault → Error
  io yaml json : Error

unfoldable pub http_status : Error → ℕ
http_status (Error.auth m) = 401
http_status (Error.permission_denied m) = 403
http_status (Error.session_not_found i) = 404
http_status (Error.target_not_found m) = 404
http_status (Error.session_closed i) = 410
http_status (Error.invalid_input m) = 400
http_status Error.json = 400
http_status (Error.conflict m) = 409
http_status (Error.rate_limited m) = 429
http_status (Error.service_unavailable m) = 503
http_status (Error.internal m) = 500
http_status (Error.storage f) = 500
http_status Error.io = 500
http_status Error.yaml = 500

-- auth.rs
unfoldable pub is_unique_violation : Error → Bool
is_unique_violation (Error.storage Fault.unique_violation) = true
is_unique_violation _ = false

pub data Result {ℓ} (T : Type ℓ) : Type ℓ where
  err : (failure : Error) → Result T
  ok : (value : T) → Result T

-- Rust's `?`.
module _ {ℓ κ} {T : Type ℓ} {U : Type κ} where
  infixl 5 ◌>>=◌
  abbrev pub ◌>>=◌ : Result T → (T → Result U) → Result U
  err failure >>= next = err failure
  ok value >>= next = next value

  -- Inversion of a successful `?`.
  pub >>=-eq-ok :
      (first : Result T) (next : T → Result U) {out : U}
      → (first >>= next) ≡ ok out
      → (value : T) × (first ≡ ok value) × (next value ≡ ok out)
  >>=-eq-ok (err failure) next h = cc
  >>=-eq-ok (ok value) next h = (value, refl, h)

pub Result-cases {ℓ} :
    {T : Type ℓ} (r : Result T) → ((e : Error) × (r ≡ err e)) ⊎ ((value : T) × (r ≡ ok value))
Result-cases (err e) = inl (e, refl)
Result-cases (ok value) = inr (value, refl)
