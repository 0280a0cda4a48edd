-- ===== src/Config.antt =====
-- server/internal/config/config.go: the settings, from the environment. os.LookupEnv and strconv.Atoi,
-- whose error is none, are arguments.
use espmic.Common.{Option, none, some, String, not, same, if◌then◌else◌}
use espmic.Common.Int.{ℤ, pos}

pub record Config : Type 0 where
  pub http_addr : String
  pub control_addr : String
  pub tls_cert_file : String
  pub tls_key_file : String
  pub device_credential : String
  pub log_level : String
  pub jitter_target_ms : ℤ
  pub rtp_wait_timeout_s : ℤ
  pub db_path : String
  pub recordings_dir : String
  pub rtp_bind_port : ℤ
  pub advertise_host : String
  pub advertise_rtp_port : ℤ
  pub rtp_disappear_timeout_s : ℤ

module _ (lookup_env : String → Option String) (atoi : String → Option ℤ) where
  unfoldable pub env_str : String → String → String
  env_str key def = elim (lookup_env key) [
    | some v ↦ if not (same v "") then v else def
    | none ↦ def
  ]

  unfoldable pub env_int : String → ℤ → ℤ
  env_int key def = elim (lookup_env key) [
    | some v ↦ if not (same v "") then elim (atoi v) [ some i ↦ i | none ↦ def ] else def
    | none ↦ def
  ]

  unfoldable pub load : Config
  unfolding env_str env_int
  load = record {
    http_addr = env_str "ESPMIC_HTTP_ADDR" ":8080";
    control_addr = env_str "ESPMIC_CONTROL_ADDR" ":9000";
    tls_cert_file = env_str "ESPMIC_TLS_CERT" "";
    tls_key_file = env_str "ESPMIC_TLS_KEY" "";
    device_credential = env_str "ESPMIC_DEVICE_CREDENTIAL" "";
    log_level = env_str "ESPMIC_LOG_LEVEL" "info";
    jitter_target_ms = env_int "ESPMIC_JITTER_TARGET_MS" (pos 60);
    rtp_wait_timeout_s = env_int "ESPMIC_RTP_WAIT_TIMEOUT_S" (pos 5);
    db_path = env_str "ESPMIC_DB_PATH" "espmic.db";
    recordings_dir = env_str "ESPMIC_RECORDINGS_DIR" "/data/recordings";
    rtp_bind_port = env_int "ESPMIC_RTP_BIND_PORT" (pos 0);
    advertise_host = env_str "ESPMIC_ADVERTISE_HOST" "";
    advertise_rtp_port = env_int "ESPMIC_ADVERTISE_RTP_PORT" (pos 0);
    rtp_disappear_timeout_s = env_int "ESPMIC_RTP_DISAPPEAR_TIMEOUT_S" (pos 3);
  }
