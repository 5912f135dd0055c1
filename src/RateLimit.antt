-- ===== src/RateLimit.antt =====
-- middlewares/rate-limit.middleware.ts: the limiter that `createRateLimiter` makes. Redis is a
-- parameter: its answers to INCR and TTL are arguments.
use multi_tenant_project_man.Base.{
  ℕ, zero, suc, Bool, true, false, Option, none, some, ◌≡◌, ◌-◌, arith, ltb, not, if◌then◌else◌,
  is_some,
}
use multi_tenant_project_man.Pagination.{min}

pub record RateLimiterOptions : Type 0 where
  pub window_seconds : ℕ
  pub max_requests : ℕ

-- What the pipeline answers: the count after INCR and the seconds to live, none for a key without
-- an end; or nothing, an error of one of the two, or an exception.
pub data Reply : Type 0 where
  counted : (count : ℕ) → (ttl : Option ℕ) → Reply
  failed : Reply

-- The outcome for a request: the next handler or the answer 429, whether the window is started
-- with EXPIRE, and the headers X-RateLimit-Remaining and X-RateLimit-Reset.
pub record Outcome : Type 0 where
  pub passes : Bool
  pub starts_window : Bool
  pub headers : Option (ℕ × ℕ)

abbrev pub bypass : Outcome
bypass = record { passes = true; starts_window = false; headers = none }

-- `currentTtl > 0 ? currentTtl : windowSeconds`
unfoldable pub reset_seconds : RateLimiterOptions → Option ℕ → ℕ
reset_seconds o none = o.window_seconds
reset_seconds o (some ttl) = if ltb 0 ttl then ttl else o.window_seconds

unfoldable pub limit_request : RateLimiterOptions → (skip : Bool) → Reply → Outcome
unfolding reset_seconds
limit_request o true reply = bypass
limit_request o false failed = bypass
limit_request o false (counted count ttl) = record {
  passes = not (ltb o.max_requests count);
  starts_window = not (is_some ttl);
  headers = some (o.max_requests - count, reset_seconds o ttl);
}

-- The requests that pass among so many, where the counter of the window stood at `start` before
-- them: INCR answers with the next number each time.
unfoldable pub passed : RateLimiterOptions → (ttls : ℕ → Option ℕ) → (start requests : ℕ) → ℕ
unfolding limit_request
passed o ttls start zero = 0
passed o ttls start (suc n) =
    let rest = passed o ttls (suc start) n in
    if (limit_request o false (counted (suc start) (ttls (suc start)))).passes
    then suc rest
    else rest

-- Of any number of requests in a window, whose counts are given one after the other, as many
-- pass as the limit leaves after those that were counted before, and no more.
pub passed_exact :
    (o : RateLimiterOptions) (ttls : ℕ → Option ℕ) (start requests : ℕ)
    → passed o ttls start requests ≡ min requests (o.max_requests - start)
unfolding passed limit_request
passed_exact o ttls start zero = ground arith
passed_exact o ttls start (suc n) = ground (arith, passed_exact o ttls (suc start) n)
