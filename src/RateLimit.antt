-- ===== src/RateLimit.antt =====
-- crates/telepair-gateway/src/rate_limit.rs: one registration attempt per address and interval.
use telepair.Base.{
  ℕ, ◌+◌, ◌-◌, ◌≤◌, ◌<◌, ◌≡◌, Option, none, some, List, [], ◌∷◌, if◌then◌else◌, ltb, arith, All,
  Option-cases,
}
use telepair.Base.Dict.{Dict, get, insert, retain, get-insert, get-retain}

pub record RegisterRateLimiter : Type 0 where
  pub min_interval : ℕ
  pub last_seen : Dict ℕ

pub data RateLimitDecision : Type 0 where
  allowed : RateLimitDecision
  throttled : (retry_after : ℕ) → RateLimitDecision

-- `check` by what is stored of the address; `duration_since` is zero for a later instant.
unfoldable pub check_seen :
    ℕ → ℕ → RegisterRateLimiter → Option ℕ → RateLimitDecision × RegisterRateLimiter
check_seen now ip limiter none =
    (RateLimitDecision.allowed, record limiter { last_seen = insert ip now limiter.last_seen })
check_seen now ip limiter (some prev) =
    if ltb (now - prev) limiter.min_interval
    then (RateLimitDecision.throttled (limiter.min_interval - (now - prev)), limiter)
    else (RateLimitDecision.allowed, record limiter { last_seen = insert ip now limiter.last_seen })

unfoldable pub check : ℕ → ℕ → RegisterRateLimiter → RateLimitDecision × RegisterRateLimiter
check now ip limiter = check_seen now ip limiter (get ip limiter.last_seen)

unfoldable pub purge_expired : ℕ → RegisterRateLimiter → RegisterRateLimiter
purge_expired now limiter = record limiter {
  last_seen = retain (λ last. ltb (now - last) limiter.min_interval) limiter.last_seen;
}

-- What else happens to the limiter.
pub data Event : Type 0 where
  attempt : (now ip : ℕ) → Event
  purge : (now : ℕ) → Event

abbrev pub time : Event → ℕ
time (Event.attempt now ip) = now
time (Event.purge now) = now

abbrev pub happen : Event → RegisterRateLimiter → RegisterRateLimiter
happen (Event.attempt now ip) limiter = (check now ip limiter).1
happen (Event.purge now) limiter = purge_expired now limiter

unfoldable pub run : List Event → RegisterRateLimiter → RegisterRateLimiter
run [] limiter = limiter
run (e ∷ es) limiter = run es (happen e limiter)

module _ (ip now : ℕ) where
  -- The address was let in at `now`, and the interval is `d`.
  abbrev Seen : ℕ → RegisterRateLimiter → Type 0
  Seen d limiter = (limiter.min_interval ≡ d) × (get ip limiter.last_seen ≡ some now)

  abbrev pub During : ℕ → Event → Type 0
  During d e = (now ≤ time e) × (time e < now + d)

  happen-Seen :
      (d : ℕ) (e : Event) (limiter : RegisterRateLimiter)
      → During d e
      → Seen d limiter
      → Seen d (happen e limiter)
  unfolding check check_seen purge_expired
  happen-Seen d (Event.attempt at other) limiter soon s = ground (
    arith,
    s,
    Option-cases (get other limiter.last_seen),
    get-insert other ip at limiter.last_seen,
  )
  happen-Seen d (Event.purge at) limiter soon s = (
    s.0,
    get-retain (λ last. ltb (at - last) limiter.min_interval) ip now limiter.last_seen s.1
        (ground (arith, s.0, soon)),
  )

  run-Seen :
      (d : ℕ) (es : List Event) (limiter : RegisterRateLimiter)
      → All (During d) es
      → Seen d limiter
      → Seen d (run es limiter)
  unfolding run
  run-Seen d [] limiter soon s = s
  run-Seen d (e ∷ es) limiter soon s =
      run-Seen d es (happen e limiter) soon.1 (happen-Seen d e limiter soon.0 s)

  admitted-Seen :
      (limiter : RegisterRateLimiter)
      → (check now ip limiter).0 ≡ RateLimitDecision.allowed
      → Seen limiter.min_interval (check now ip limiter).1
  unfolding check check_seen
  admitted-Seen limiter h =
      ground
        (arith, h, Option-cases (get ip limiter.last_seen), get-insert ip ip now limiter.last_seen)

  -- After an attempt that is let in, and whatever attempts and purges follow before the interval
  -- is over: until then a further attempt from that address is throttled, and told exactly how
  -- long to wait; from then on it is let in.
  pub admitted_once :
      (limiter : RegisterRateLimiter) (es : List Event) (later : ℕ)
      → (check now ip limiter).0 ≡ RateLimitDecision.allowed
      → All (During limiter.min_interval) es
      → now ≤ later
      → (check later ip (run es (check now ip limiter).1)).0 ≡ (
          if ltb later (now + limiter.min_interval)
          then RateLimitDecision.throttled ((now + limiter.min_interval) - later)
          else RateLimitDecision.allowed)
  unfolding check check_seen
  admitted_once limiter es later h soon after =
      let (same, at) =
        run-Seen limiter.min_interval es (check now ip limiter).1 soon (admitted-Seen limiter h) in
      rw (at, same) (ground arith)
