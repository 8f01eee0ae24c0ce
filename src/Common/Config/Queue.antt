-- ===== src/Common/Config/Queue.antt =====
-- common/config.py: `SqsConfig`, `QueueConfig` and `EngineConfig`. `str` and `int` are Python's conversions.
use wholesale_project.Base.{ℕ, Option, some, codes}
use wholesale_project.Common.Message.{◌>>=◌}
use wholesale_project.Common.Config.Values.{
  Value, Entries, text_at, number_at, mapping_at, value_at,
}
use wholesale_project.Smpp.Pdu.Wire.{Text}

pub record SqsConfig : Type 0 where
  pub region : Text
  pub endpoint_url : Value
  pub max_batch : ℕ
  pub wait_time_seconds : ℕ
  pub visibility_timeout : ℕ
  pub max_number_of_messages : ℕ
  pub max_pool_connections : ℕ

unfoldable pub sqs_defaults : SqsConfig
sqs_defaults = record {
  region = codes "us-east-1";
  endpoint_url = Value.null;
  max_batch = 10;
  wait_time_seconds = 20;
  visibility_timeout = 30;
  max_number_of_messages = 10;
  max_pool_connections = 50;
}

pub record QueueConfig : Type 0 where
  pub backend : Text
  pub serializer : Text
  pub queues : Entries
  pub sqs : SqsConfig

unfoldable pub queue_defaults : QueueConfig
unfolding sqs_defaults
queue_defaults = record {
  backend = codes "sqs";
  serializer = codes "json";
  queues = Entries.empty;
  sqs = sqs_defaults;
}

pub record EngineConfig : Type 0 where
  pub metrics_port : ℕ
  pub log_level : Text
  pub in_queue : Text
  pub out_queue : Text
  pub workers : ℕ
  pub queue : QueueConfig

unfoldable pub engine_defaults : EngineConfig
unfolding queue_defaults
engine_defaults = record {
  metrics_port = 9102;
  log_level = codes "INFO";
  in_queue = codes "ingress";
  out_queue = codes "egress";
  workers = 16;
  queue = queue_defaults;
}

module _ (str : Value → Text) (int : Value → Option ℕ) where
  unfoldable pub sqs_from_dict : Entries → Option SqsConfig
  sqs_from_dict content = do
    max_batch ← number_at int (codes "max_batch") 10 content
    wait_time_seconds ← number_at int (codes "wait_time_seconds") 20 content
    visibility_timeout ← number_at int (codes "visibility_timeout") 30 content
    max_number_of_messages ← number_at int (codes "max_number_of_messages") 10 content
    max_pool_connections ← number_at int (codes "max_pool_connections") 50 content
    some (record {
      region = text_at str (codes "region") (codes "us-east-1") content;
      endpoint_url = value_at (codes "endpoint_url") content;
      max_batch = max_batch;
      wait_time_seconds = wait_time_seconds;
      visibility_timeout = visibility_timeout;
      max_number_of_messages = max_number_of_messages;
      max_pool_connections = max_pool_connections;
    })

  unfoldable pub queue_from_dict : Entries → Option QueueConfig
  queue_from_dict content = do
    queues ← mapping_at (codes "queues") content
    sqs_data ← mapping_at (codes "sqs") content
    sqs ← sqs_from_dict sqs_data
    some (record {
      backend = text_at str (codes "backend") (codes "sqs") content;
      serializer = text_at str (codes "serializer") (codes "json") content;
      queues = queues;
      sqs = sqs;
    })

  unfoldable pub engine_from_dict : Entries → Option EngineConfig
  engine_from_dict content = do
    svc ← mapping_at (codes "service") content
    metrics_port ← number_at int (codes "metrics_port") 9102 svc
    workers ← number_at int (codes "workers") 16 svc
    queue_data ← mapping_at (codes "queue") content
    queue ← queue_from_dict queue_data
    some (record {
      metrics_port = metrics_port;
      log_level = text_at str (codes "log_level") (codes "INFO") svc;
      in_queue = text_at str (codes "in_queue") (codes "ingress") svc;
      out_queue = text_at str (codes "out_queue") (codes "egress") svc;
      workers = workers;
      queue = queue;
    })
