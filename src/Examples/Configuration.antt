-- ===== src/Examples/Configuration.antt =====
-- The configuration in three environments.
use account_lookup_bc.Common.{
  String, undefined, str, ◌≡◌, refl, some, map, [], ◌∷◌, int, pos, ◌==◌, if◌then◌else◌,
}
use account_lookup_bc.Service.Configuration.{
  Environment, Authentication, configuration, kafka_clients,
}

abbrev setting : (name value : String) → Environment
setting name value asked = if asked == name then str value else undefined

-- An answer is kept for 30 seconds where none was to be kept.
keeps_thirty :
    (configuration (setting "REDIS_CACHE_DURATION_SECS" "0")).redis_cache_duration_secs
    ≡ int (pos 30)
unfolding configuration account_lookup_bc.Common.parse_int
keeps_thirty = refl

reads_batch_size :
    (configuration (setting "CONSUMER_BATCH_SIZE" "20")).consumer_batch_size ≡ int (pos 20)
unfolding configuration account_lookup_bc.Common.parse_int
reads_batch_size = refl

authenticates :
    let c = configuration (setting "KAFKA_AUTH_ENABLED" "True") in
    let a : Authentication = record {
      protocol = "sasl_plaintext";
      mechanism = "plain";
      username = "user";
      password = "password";
    } in
    map (λ o. o.authentication) (kafka_clients c "id")
    ≡ some a ∷ some a ∷ some a ∷ some a ∷ some a ∷ []
unfolding configuration kafka_clients
authenticates = refl
