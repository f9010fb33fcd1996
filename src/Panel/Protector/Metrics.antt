-- ===== src/Panel/Protector/Metrics.antt =====
-- auth_protector.go: `Metrics`, the snapshot that the operators see.
use grok_search_mcp.Base.{ℕ, length}
use grok_search_mcp.Base.Keys.{string_key}
use grok_search_mcp.Base.Assoc.{lookup}
use grok_search_mcp.Panel.Endpoint.{AuthEndpointMetricsSnapshot, auth_endpoint_metrics_snapshot}
use grok_search_mcp.Panel.PasswordWork.{PasswordWork}
use grok_search_mcp.Panel.Protector.{AuthProtector}

-- `LoginFailureMetricsSnapshot`
pub record LoginFailureMetricsSnapshot : Type 0 where
  pub current_entries : ℕ
  pub maximum_entries : ℕ
  pub fallback_bucket_count : ℕ
  pub admissions : ℕ
  pub expired_entries_removed : ℕ
  pub capacity_rejections : ℕ
  pub fallback_attempts : ℕ
  pub fallback_rejections : ℕ

-- `PasswordWorkMetricsSnapshot`
pub record PasswordWorkMetricsSnapshot : Type 0 where
  pub current_work : ℕ
  pub capacity : ℕ
  pub admissions : ℕ
  pub rejections : ℕ

-- `AuthProtectorMetricsSnapshot`
pub record AuthProtectorMetricsSnapshot : Type 0 where
  pub login : AuthEndpointMetricsSnapshot
  pub register : AuthEndpointMetricsSnapshot
  pub registration_challenge : AuthEndpointMetricsSnapshot
  pub login_failures : LoginFailureMetricsSnapshot
  pub username_failures : LoginFailureMetricsSnapshot
  pub password_work : PasswordWorkMetricsSnapshot

module _ {B : Type 0} where
  -- `Metrics` of a protector that is not nil. The counters of its bound on password hashing are in `w`.
  unfoldable pub protector_metrics : AuthProtector B → PasswordWork → AuthProtectorMetricsSnapshot
  protector_metrics p w = record {
    login = auth_endpoint_metrics_snapshot (lookup "login" p.endpoint_states);
    register = auth_endpoint_metrics_snapshot (lookup "register" p.endpoint_states);
    registration_challenge =
        auth_endpoint_metrics_snapshot (lookup "registration-challenge" p.endpoint_states);
    login_failures = record {
      current_entries = p.failures.current_entries;
      maximum_entries = p.failures.maximum_entries;
      fallback_bucket_count = 0;
      admissions = p.failures.admissions;
      expired_entries_removed = p.failures.expired_entries_removed;
      capacity_rejections = p.failures.capacity_rejections;
      fallback_attempts = 0;
      fallback_rejections = 0;
    };
    username_failures = record {
      current_entries = p.username_failures.current_entries;
      maximum_entries = p.username_failures.maximum_entries;
      fallback_bucket_count = length p.username_failure_fallbacks;
      admissions = p.username_failures.admissions;
      expired_entries_removed = p.username_failures.expired_entries_removed;
      capacity_rejections = p.username_failures.capacity_rejections;
      fallback_attempts = p.username_failure_fallback_attempts;
      fallback_rejections = p.username_failure_fallback_rejections;
    };
    password_work = record {
      current_work = w.current;
      capacity = p.password_maximum_concurrent;
      admissions = w.admissions;
      rejections = w.rejections;
    };
  }
