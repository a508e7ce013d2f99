-- ===== src/Config.antt =====
-- The configuration: internal/bootstrap/config.go. What the libraries read (strconv.Atoi,
-- time.ParseDuration, strings.Split and strings.ToLower) is a parameter; `Env` is os.Getenv.
use Prim.Native.String
use code_base_ddd.Prelude.{
  ℕ, ◌*◌, ◌≡◌, ◌⊎◌, refl, String, Bool, false, ◌||◌, List, [], ◌∷◌, str_eq, if◌then◌else◌, arith,
  inl, inr, Bool-cases,
}
use code_base_ddd.Effect.{Result, ok, err, Result-cases}

-- An unset variable reads as the empty text.
abbrev pub Env : Type 0
Env = String → String

pub record Parsers : Type 0 where
  pub atoi : String → Result ℕ
  pub parse_duration : String → Result ℕ
  pub split_commas : String → List String
  pub to_lower : String → String
  -- `%d`
  pub print : ℕ → String

pub record HttpsConfig : Type 0 where
  pub enabled : Bool
  pub cert_file : String
  pub key_file : String

pub record ServerConfig : Type 0 where
  pub port : ℕ
  pub shutdown_timeout : ℕ
  pub https : HttpsConfig

pub record DatabaseConfig : Type 0 where
  pub host : String
  pub port : ℕ
  pub user : String
  pub password : String
  pub db_name : String
  pub ssl_mode : String

pub record OutboxConfig : Type 0 where
  pub batch_size : ℕ
  pub poll_interval : ℕ
  pub max_retries : ℕ

pub record KafkaConfig : Type 0 where
  pub brokers : List String
  pub topic : String
  pub consumer_group : String
  pub batch_size : ℕ
  pub batch_timeout : ℕ

pub record TracingConfig : Type 0 where
  pub otlp_endpoint : String
  pub service_name : String

pub record LogConfig : Type 0 where
  pub level : String
  pub file_path : String

pub record Config : Type 0 where
  pub server : ServerConfig
  pub database : DatabaseConfig
  pub outbox : OutboxConfig
  pub kafka : KafkaConfig
  pub tracing : TracingConfig
  pub log : LogConfig
  pub event_bus : String
  pub sig_noz : String

-- `time.Millisecond`, in nanoseconds
abbrev millisecond : ℕ
millisecond = 1_000_000

module _ (p : Parsers) where
  -- DatabaseConfig.DSN
  unfoldable pub dsn : DatabaseConfig → String
  dsn c =
      let put : String → String → String = λ key rest. String.◌++◌ key rest in
      put "host=" (
        put c.host (
          put " port=" (
            put (p.print c.port) (
              put " user=" (
                put c.user (
                  put " password=" (
                    put c.password
                      (put " dbname=" (put c.db_name (put " sslmode=" c.ssl_mode))))))))))

  module _ (env : Env) where
    unfoldable pub env_str : String → String → String
    env_str key default_val = if str_eq (env key) "" then default_val else env key

    unfoldable pub env_str_slice : String → List String → List String
    env_str_slice key default_val =
        if str_eq (env key) "" then default_val else p.split_commas (env key)

    -- A value if the text parses to one.
    abbrev pub parsed_or : {A : Type 0} → (String → Result A) → A → String → A
    parsed_or parse default_val v = elim (parse v) [ ok a ↦ a | err e ↦ default_val ]

    unfoldable pub env_int : String → ℕ → ℕ
    env_int key default_val =
        if str_eq (env key) "" then default_val else parsed_or p.atoi default_val (env key)

    unfoldable pub env_duration : String → ℕ → ℕ
    env_duration key default_val =
        if str_eq (env key) ""
        then default_val
        else parsed_or p.parse_duration default_val (env key)

    unfoldable pub env_bool : String → Bool → Bool
    env_bool key default_val =
        if str_eq (env key) ""
        then default_val
        else str_eq (p.to_lower (env key)) "true"
          || str_eq (env key) "1"
          || str_eq (p.to_lower (env key)) "yes"

    unfoldable pub load_config : Config
    unfolding env_str env_str_slice env_int env_duration env_bool
    load_config = record {
      server = record {
        port = env_int "SERVER_PORT" 8080;
        shutdown_timeout = env_duration "SERVER_SHUTDOWN_TIMEOUT" (15_000 * millisecond);
        https = record {
          enabled = env_bool "HTTPS_ENABLED" false;
          cert_file = env_str "HTTPS_CERT_FILE" "";
          key_file = env_str "HTTPS_KEY_FILE" "";
        };
      };
      database = record {
        host = env_str "DB_HOST" "localhost";
        port = env_int "DB_PORT" 5432;
        user = env_str "DB_USER" "order";
        password = env_str "DB_PASSWORD" "order123";
        db_name = env_str "DB_NAME" "orderdb";
        ssl_mode = env_str "DB_SSLMODE" "disable";
      };
      outbox = record {
        batch_size = env_int "OUTBOX_BATCH_SIZE" 50;
        poll_interval = env_duration "OUTBOX_POLL_INTERVAL" (1000 * millisecond);
        max_retries = env_int "OUTBOX_MAX_RETRIES" 10;
      };
      kafka = record {
        brokers = env_str_slice "KAFKA_BROKERS" ("localhost:9092" ∷ []);
        topic = env_str "KAFKA_TOPIC" "order-events";
        consumer_group = env_str "KAFKA_CONSUMER_GROUP" "order-projection";
        batch_size = env_int "KAFKA_BATCH_SIZE" 100;
        batch_timeout = env_duration "KAFKA_BATCH_TIMEOUT" (10 * millisecond);
      };
      tracing = record {
        otlp_endpoint = env_str "OTEL_EXPORTER_OTLP_ENDPOINT" "";
        service_name = env_str "OTEL_SERVICE_NAME" "order-service";
      };
      log = record { level = env_str "LOG_LEVEL" "info"; file_path = env_str "LOG_FILE_PATH" "" };
      event_bus = env_str "EVENT_BUS_TYPE" "inmemory";
      sig_noz = env_str "SIGNOZ_OTLP_ENDPOINT" "";
    }

    -- A number that is read from the environment is the default, or what a text that is not empty
    -- parses to.
    pub env_int-cases :
        (key : String) (d : ℕ)
        → (env_int key d ≡ d) ⊎ ((n : ℕ) × (p.atoi (env key) ≡ ok n) × (env_int key d ≡ n))
    unfolding env_int
    env_int-cases key d = elim (Bool-cases (str_eq (env key) "")) [
      | inl e ↦ inl (rw e refl)
      | inr n ↦ elim (Result-cases (p.atoi (env key))) [
        | inl (i, read) ↦ inr (i, read, ground arith)
        | inr (why, bad) ↦ inl (ground arith)
      ]
    ]
