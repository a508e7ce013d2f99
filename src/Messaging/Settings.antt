-- ===== src/Messaging/Settings.antt =====
-- The settings of Kafka: KafkaConfig, DefaultKafkaConfig, NewKafkaEventBus and NewKafkaReader of
-- internal/infrastructure/messaging/kafka_bus.go, and the two values of KafkaConfig that
-- internal/bootstrap/app.go makes of its own configuration. Times are in nanoseconds.
use code_base_ddd.Prelude.{ℕ, ◌*◌, ◌^◌, ◌≡◌, refl, String, Bool, false, List, [], ◌∷◌}
use code_base_ddd.Config as App

pub record KafkaConfig : Type 0 where
  pub brokers : List String
  pub topic : String
  pub consumer_group : String
  pub batch_size : ℕ
  pub batch_timeout : ℕ
  pub min_bytes : ℕ
  pub max_bytes : ℕ
  pub max_wait : ℕ

abbrev millisecond : ℕ
millisecond = 1_000_000

unfoldable pub default_kafka_config : KafkaConfig
default_kafka_config = record {
  brokers = "localhost:9092" ∷ [];
  topic = "order-events";
  consumer_group = "order-projection";
  batch_size = 100;
  batch_timeout = 10 * millisecond;
  min_bytes = 1;
  max_bytes = 10 * 2 ^ 20;
  max_wait = 500 * millisecond;
}

-- kafka.RequireAll is the one that the program uses.
pub data RequiredAcks : Type 0 where
  require_none : RequiredAcks
  require_one : RequiredAcks
  require_all : RequiredAcks

-- The fields of kafka.Writer that are set, its balancer by the key and its two loggers left out.
pub record WriterSettings : Type 0 where
  pub addr : List String
  pub topic : String
  pub batch_size : ℕ
  pub batch_timeout : ℕ
  pub required_acks : RequiredAcks
  pub is_async : Bool

-- The writer of NewKafkaEventBus.
unfoldable pub writer_settings : KafkaConfig → WriterSettings
writer_settings cfg = record {
  addr = cfg.brokers;
  topic = cfg.topic;
  batch_size = cfg.batch_size;
  batch_timeout = cfg.batch_timeout;
  required_acks = require_all;
  is_async = false;
}

-- kafka.ReaderConfig
pub record ReaderConfig : Type 0 where
  pub brokers : List String
  pub topic : String
  pub group_id : String
  pub min_bytes : ℕ
  pub max_bytes : ℕ
  pub max_wait : ℕ

-- NewKafkaReader
unfoldable pub reader_config : KafkaConfig → ReaderConfig
reader_config cfg = record {
  brokers = cfg.brokers;
  topic = cfg.topic;
  group_id = cfg.consumer_group;
  min_bytes = cfg.min_bytes;
  max_bytes = cfg.max_bytes;
  max_wait = cfg.max_wait;
}

-- The configuration that `Run` gives the bus, and the one that it gives the reader: the latter has
-- no settings of the writer.
unfoldable pub bus_config : App.KafkaConfig → KafkaConfig
bus_config cfg = record {
  brokers = cfg.brokers;
  topic = cfg.topic;
  consumer_group = cfg.consumer_group;
  batch_size = cfg.batch_size;
  batch_timeout = cfg.batch_timeout;
  min_bytes = 1;
  max_bytes = 10 * 2 ^ 20;
  max_wait = 500 * millisecond;
}

unfoldable pub consumer_config : App.KafkaConfig → KafkaConfig
consumer_config cfg = record {
  brokers = cfg.brokers;
  topic = cfg.topic;
  consumer_group = cfg.consumer_group;
  batch_size = 0;
  batch_timeout = 0;
  min_bytes = 1;
  max_bytes = 10 * 2 ^ 20;
  max_wait = 500 * millisecond;
}

-- Whatever the configuration, the consumer reads the topic that the bus writes to, from the same
-- brokers, and it fetches as a consumer with the bus's own configuration would.
pub consumer-bus :
    (cfg : App.KafkaConfig)
    → ((reader_config (consumer_config cfg)).topic ≡ (writer_settings (bus_config cfg)).topic)
      × ((reader_config (consumer_config cfg)).brokers ≡ (writer_settings (bus_config cfg)).addr)
      × (reader_config (consumer_config cfg) ≡ reader_config (bus_config cfg))
unfolding reader_config consumer_config writer_settings bus_config
consumer-bus cfg = (refl, refl, refl)
