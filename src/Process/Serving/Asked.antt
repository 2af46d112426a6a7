-- ===== src/Process/Serving/Asked.antt =====
-- The test that decides a start, as a statement on what answers.
use linkpulse_link.Base.{◌≡◌, ◌≢◌, ◌↔◌, refl, Bool, true, ◌||◌, List, [], ◌∷◌, arith}
use linkpulse_link.Base.Text.{Text}
use linkpulse_link.Net.Strings.{is_empty}
use linkpulse_link.Config.{Config}
use linkpulse_link.Process.{Outside}
use linkpulse_link.Process.Open.{ping}
use linkpulse_link.Process.Serving.{IsUp}
use linkpulse_link.Process.Serving.Deciding.{clicks_up, all_up}

asked_iff : (s : Text) (b : Bool) → (is_empty s || b ≡ true) ↔ (s ≢ [] → b ≡ true)
asked_iff [] b = (λ h is_set. absurd (is_set refl), λ h. refl)
asked_iff (c ∷ s) b = (λ h is_set. h, λ h. h λ e. cc)

module _ (o : Outside) (cfg : Config) where
  clicks_up_iff :
      (brokers : List Text)
      → (clicks_up o cfg brokers ≡ true) ↔ (
          (brokers ≢ [] → o.makes_kafka_client brokers cfg.kafka_topic ≡ true)
          × (brokers ≢ [] → o.pings_kafka brokers cfg.kafka_topic ≡ true)
          × (brokers ≢ [] → cfg.geoip_db_path ≢ [] → o.opens_geoip cfg.geoip_db_path ≡ true))
  clicks_up_iff [] = (
    λ h. (
      λ has_any. absurd (has_any refl),
      λ has_any. absurd (has_any refl),
      λ has_any. absurd (has_any refl),
    ),
    λ h. refl,
  )
  clicks_up_iff (broker ∷ brokers) =
      let geo = asked_iff cfg.geoip_db_path (o.opens_geoip cfg.geoip_db_path) in
      (
        λ h. (λ _. ground arith, λ _. ground arith, λ _. geo.0 (ground arith)),
        λ (client, ping, base).
            let is_some : broker ∷ brokers ≢ [] = λ e. cc in
            let c = client is_some in
            let p = ping is_some in let g = geo.1 (base is_some) in ground arith,
      )

  pub all_up_iff : (all_up o cfg ≡ true) ↔ IsUp o cfg
  all_up_iff =
      let clicks = clicks_up_iff cfg.kafka_brokers in
      let auth = asked_iff cfg.auth_addr (o.makes_auth_client cfg.auth_addr) in
      (
        λ h.
            let (client, ping, base) = clicks.0 (ground arith) in
            record {
              dsn = ground arith;
              pool = ground arith;
              postgres = ground arith;
              redis = ground arith;
              kafka_client = client;
              kafka = ping;
              geoip = base;
              auth = auth.0 (ground arith);
            },
        λ up.
            let c = clicks.1 (up.kafka_client, up.kafka, up.geoip) in
            let a = auth.1 up.auth in
            let d = up.dsn in
            let p = up.pool in let q = up.postgres in let r = up.redis in ground arith,
      )
