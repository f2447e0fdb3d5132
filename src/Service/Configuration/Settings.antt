-- ===== src/Service/Configuration/Settings.antt =====
-- What the numbers of the configuration can be.
use account_lookup_bc.Common.{
  ℕ, zero, suc, String, truthy, ◌≢◌, inl, inr, List, [], ◌∷◌, All, Number, int, pos, negsuc, nan,
  infinity, minus_infinity, parse_int, Option-cases, arith,
}
use account_lookup_bc.Service.Configuration.{
  Environment, Configuration, number_or, number_setting, configuration,
}

-- A number that the test of an `if` takes for true.
abbrev pub IsTruthy : Number → Type 0
IsTruthy x = (x ≢ int (pos 0)) × (x ≢ nan)

number_or-IsTruthy : (x : Number) (n : ℕ) → IsTruthy (number_or x (suc n))
number_or-IsTruthy (int (pos zero)) n = (λ e. ground arith, λ e. ground arith)
number_or-IsTruthy (int (pos (suc m))) n = (λ e. ground arith, λ e. ground arith)
number_or-IsTruthy (int (negsuc m)) n = (λ e. ground arith, λ e. ground arith)
number_or-IsTruthy infinity n = (λ e. ground arith, λ e. ground arith)
number_or-IsTruthy minus_infinity n = (λ e. ground arith, λ e. ground arith)
number_or-IsTruthy nan n = (λ e. ground arith, λ e. ground arith)

-- A setting is the number that the variable holds, if that is not 0 and not NaN.
number_setting-IsTruthy :
    (env : Environment) (name : String) (n : ℕ) → IsTruthy (number_setting env name (suc n))
unfolding number_setting
number_setting-IsTruthy env name n = elim (Option-cases (truthy (env name))) [
  | inl e ↦ rw (e, number_setting) (number_or-IsTruthy nan n)
  | inr (s, e) ↦ rw (e, number_setting) (number_or-IsTruthy (parse_int s) n)
]

abbrev pub numbers : Configuration → List Number
numbers c =
    c.redis_port ∷ c.redis_cache_duration_secs ∷ c.participants_cache_timeout_ms
    ∷ c.service_start_timeout_ms ∷ c.consumer_batch_size ∷ c.consumer_batch_timeout_ms ∷ []

-- Whatever the environment holds, no number of the configuration is 0 or NaN.
numbers-IsTruthy : (env : Environment) → All IsTruthy (numbers (configuration env))
unfolding configuration
numbers-IsTruthy env =
    let checked = number_setting-IsTruthy env in
    (
      checked "REDIS_PORT" 6378,
      (
        checked "REDIS_CACHE_DURATION_SECS" 29,
        (
          checked "PARTICIPANTS_CACHE_TIMEOUT_MS" 29999,
          (
            checked "SERVICE_START_TIMEOUT_MS" 59999,
            (checked "CONSUMER_BATCH_SIZE" 249, (checked "CONSUMER_BATCH_TIMEOUT_MS" 4, tt)),
          ),
        ),
      ),
    )
