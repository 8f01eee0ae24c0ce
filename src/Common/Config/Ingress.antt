-- ===== src/Common/Config/Ingress.antt =====
-- common/config.py: the configurations of the ingress. Rates are in thousandths.
use wholesale_project.Base.{ℕ, Option, some, List, [], ◌∷◌, codes}
use wholesale_project.Common.Message.{◌>>=◌}
use wholesale_project.Common.Config.Values.{
  Value, Entries, text_at, number_at, mapping_at, credentials_at, sequence_at, text_entries, texts,
}
use wholesale_project.Smpp.Pdu.Wire.{Text}
use wholesale_project.Common.Config.Queue.{QueueConfig, queue_defaults, queue_from_dict}

pub record HttpIngressConfig : Type 0 where
  pub http_host : Text
  pub http_port : ℕ
  pub metrics_port : ℕ
  pub log_level : Text
  pub auth_token : Text
  pub ingress_queue : Text
  pub internal_queue_maxsize : ℕ
  pub publisher_workers : ℕ
  pub max_batch_size : ℕ
  pub queue : QueueConfig

unfoldable pub http_ingress_defaults : HttpIngressConfig
unfolding queue_defaults
http_ingress_defaults = record {
  http_host = codes "0.0.0.0";
  http_port = 8080;
  metrics_port = 9101;
  log_level = codes "INFO";
  auth_token = codes "devtoken";
  ingress_queue = codes "ingress";
  internal_queue_maxsize = 20000;
  publisher_workers = 16;
  max_batch_size = 1000;
  queue = queue_defaults;
}

pub record SmppIngressConfig : Type 0 where
  pub host : Text
  pub port : ℕ
  pub metrics_port : ℕ
  pub log_level : Text
  pub ingress_queue : Text
  pub internal_queue_maxsize : ℕ
  pub publisher_workers : ℕ
  pub credentials : List (Text × Text)
  pub ip_allowlist : List Text
  pub max_binds_per_system : ℕ
  pub tps_per_system : ℕ
  pub smsc_system_id : Text
  pub queue : QueueConfig

unfoldable pub smpp_ingress_defaults : SmppIngressConfig
unfolding queue_defaults
smpp_ingress_defaults = record {
  host = codes "0.0.0.0";
  port = 2775;
  metrics_port = 9104;
  log_level = codes "INFO";
  ingress_queue = codes "ingress";
  internal_queue_maxsize = 20000;
  publisher_workers = 16;
  credentials = (codes "esme", codes "password") ∷ [];
  ip_allowlist = [];
  max_binds_per_system = 4;
  tps_per_system = 0;
  smsc_system_id = codes "relay-smsc";
  queue = queue_defaults;
}

pub record CsvIngressConfig : Type 0 where
  pub metrics_port : ℕ
  pub log_level : Text
  pub ingress_queue : Text
  pub path : Text
  pub rate : ℕ
  pub batch_size : ℕ
  pub progress_every : ℕ
  pub queue : QueueConfig

unfoldable pub csv_ingress_defaults : CsvIngressConfig
unfolding queue_defaults
csv_ingress_defaults = record {
  metrics_port = 9105;
  log_level = codes "INFO";
  ingress_queue = codes "ingress";
  path = codes "campaign.csv";
  rate = 0;
  batch_size = 10;
  progress_every = 100000;
  queue = queue_defaults;
}

module _ (str : Value → Text) (int : Value → Option ℕ) (float : Value → Option ℕ) where
  unfoldable pub http_ingress_from_dict : Entries → Option HttpIngressConfig
  http_ingress_from_dict content = do
    svc ← mapping_at (codes "service") content
    http_port ← number_at int (codes "http_port") 8080 svc
    metrics_port ← number_at int (codes "metrics_port") 9101 svc
    internal_queue_maxsize ← number_at int (codes "internal_queue_maxsize") 20000 svc
    publisher_workers ← number_at int (codes "publisher_workers") 16 svc
    max_batch_size ← number_at int (codes "max_batch_size") 1000 svc
    queue_data ← mapping_at (codes "queue") content
    queue ← queue_from_dict str int queue_data
    some (record {
      http_host = text_at str (codes "http_host") (codes "0.0.0.0") svc;
      http_port = http_port;
      metrics_port = metrics_port;
      log_level = text_at str (codes "log_level") (codes "INFO") svc;
      auth_token = text_at str (codes "auth_token") (codes "devtoken") svc;
      ingress_queue = text_at str (codes "ingress_queue") (codes "ingress") svc;
      internal_queue_maxsize = internal_queue_maxsize;
      publisher_workers = publisher_workers;
      max_batch_size = max_batch_size;
      queue = queue;
    })

  unfoldable pub smpp_ingress_from_dict : Entries → Option SmppIngressConfig
  smpp_ingress_from_dict content = do
    svc ← mapping_at (codes "service") content
    port ← number_at int (codes "port") 2775 svc
    metrics_port ← number_at int (codes "metrics_port") 9104 svc
    internal_queue_maxsize ← number_at int (codes "internal_queue_maxsize") 20000 svc
    publisher_workers ← number_at int (codes "publisher_workers") 16 svc
    creds ← credentials_at svc
    allowlist ← sequence_at (codes "ip_allowlist") svc
    max_binds_per_system ← number_at int (codes "max_binds_per_system") 4 svc
    tps_per_system ← number_at float (codes "tps_per_system") 0 svc
    queue_data ← mapping_at (codes "queue") content
    queue ← queue_from_dict str int queue_data
    some (record {
      host = text_at str (codes "host") (codes "0.0.0.0") svc;
      port = port;
      metrics_port = metrics_port;
      log_level = text_at str (codes "log_level") (codes "INFO") svc;
      ingress_queue = text_at str (codes "ingress_queue") (codes "ingress") svc;
      internal_queue_maxsize = internal_queue_maxsize;
      publisher_workers = publisher_workers;
      credentials = text_entries str creds;
      ip_allowlist = texts str allowlist;
      max_binds_per_system = max_binds_per_system;
      tps_per_system = tps_per_system;
      smsc_system_id = text_at str (codes "smsc_system_id") (codes "relay-smsc") svc;
      queue = queue;
    })

  unfoldable pub csv_ingress_from_dict : Entries → Option CsvIngressConfig
  csv_ingress_from_dict content = do
    svc ← mapping_at (codes "service") content
    metrics_port ← number_at int (codes "metrics_port") 9105 svc
    rate ← number_at float (codes "rate") 0 svc
    batch_size ← number_at int (codes "batch_size") 10 svc
    progress_every ← number_at int (codes "progress_every") 100000 svc
    queue_data ← mapping_at (codes "queue") content
    queue ← queue_from_dict str int queue_data
    some (record {
      metrics_port = metrics_port;
      log_level = text_at str (codes "log_level") (codes "INFO") svc;
      ingress_queue = text_at str (codes "ingress_queue") (codes "ingress") svc;
      path = text_at str (codes "path") (codes "campaign.csv") svc;
      rate = rate;
      batch_size = batch_size;
      progress_every = progress_every;
      queue = queue;
    })
