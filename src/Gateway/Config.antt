-- ===== src/Gateway/Config.antt =====
-- services/gateway/src/config.ts: the configuration that the request path reads.
use finlytic_ecosystem.Prelude.{ℕ, Option}
use finlytic_ecosystem.Prelude.Text.{Text}

pub record GatewayConfig : Type 0 where
  pub port : ℕ
  pub public_key : Text
  pub issuer : Text
  pub audience : Text
  pub user_management_url : Text
  pub email_ingestion_url : Text
  pub web_root : Option Text
