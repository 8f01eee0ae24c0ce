-- ===== src/Common/Config/Egress.antt =====
-- common/config.py: the configurations of the egress. Rates and times are in thousandths.
use wholesale_project.Base.{ℕ, Option, some, [], codes}
use wholesale_project.Common.Message.{◌>>=◌}
use wholesale_project.Common.Config.Values.{Value, Entries, text_at, number_at, mapping_at}
use wholesale_project.Smpp.Pdu.Wire.{Text}
use wholesale_project.Common.Config.Queue.{QueueConfig, queue_defaults, queue_from_dict}

pub record SmppEgressConfig : Type 0 where
  pub metrics_port : ℕ
  pub log_level : Text
  pub egress_queue : Text
  pub workers : ℕ
  pub connector_name : Text
  pub host : Text
  pub port : ℕ
  pub system_id : Text
  pub password : Text
  pub system_type : Text
  pub bind_count : ℕ
  pub window_size : ℕ
  pub tps_limit : ℕ
  pub submit_timeout_s : ℕ
  pub source_addr : Text
  pub source_ton : ℕ
  pub source_npi : ℕ
  pub dest_ton : ℕ
  pub dest_npi : ℕ
  pub registered_delivery : ℕ
  pub queue : QueueConfig

unfoldable pub smpp_egress_defaults : SmppEgressConfig
unfolding queue_defaults
smpp_egress_defaults = record {
  metrics_port = 9103;
  log_level = codes "INFO";
  egress_queue = codes "egress";
  workers = 8;
  connector_name = codes "smpp";
  host = codes "127.0.0.1";
  port = 2775;
  system_id = codes "esme";
  password = codes "password";
  system_type = [];
  bind_count = 2;
  window_size = 10;
  tps_limit = 0;
  submit_timeout_s = 30000;
  source_addr = codes "RELAY";
  source_ton = 5;
  source_npi = 0;
  dest_ton = 1;
  dest_npi = 1;
  registered_delivery = 0;
  queue = queue_defaults;
}

pub record HttpEgressConfig : Type 0 where
  pub metrics_port : ℕ
  pub log_level : Text
  pub egress_queue : Text
  pub workers : ℕ
  pub endpoint_url : Text
  pub connector_name : Text
  pub http_pool_limit : ℕ
  pub request_timeout_s : ℕ
  pub tps_limit : ℕ
  pub queue : QueueConfig

unfoldable pub http_egress_defaults : HttpEgressConfig
unfolding queue_defaults
http_egress_defaults = record {
  metrics_port = 9103;
  log_level = codes "INFO";
  egress_queue = codes "egress";
  workers = 16;
  endpoint_url = codes "http://localhost:8090/sink";
  connector_name = codes "http";
  http_pool_limit = 100;
  request_timeout_s = 30000;
  tps_limit = 0;
  queue = queue_defaults;
}

module _ (str : Value → Text) (int : Value → Option ℕ) (float : Value → Option ℕ) where
  unfoldable pub smpp_egress_from_dict : Entries → Option SmppEgressConfig
  smpp_egress_from_dict content = do
    svc ← mapping_at (codes "service") content
    metrics_port ← number_at int (codes "metrics_port") 9103 svc
    workers ← number_at int (codes "workers") 8 svc
    port ← number_at int (codes "port") 2775 svc
    bind_count ← number_at int (codes "bind_count") 2 svc
    window_size ← number_at int (codes "window_size") 10 svc
    tps_limit ← number_at float (codes "tps_limit") 0 svc
    submit_timeout_s ← number_at float (codes "submit_timeout_s") 30000 svc
    source_ton ← number_at int (codes "source_ton") 5 svc
    source_npi ← number_at int (codes "source_npi") 0 svc
    dest_ton ← number_at int (codes "dest_ton") 1 svc
    dest_npi ← number_at int (codes "dest_npi") 1 svc
    registered_delivery ← number_at int (codes "registered_delivery") 0 svc
    queue_data ← mapping_at (codes "queue") content
    queue ← queue_from_dict str int queue_data
    some (record {
      metrics_port = metrics_port;
      log_level = text_at str (codes "log_level") (codes "INFO") svc;
      egress_queue = text_at str (codes "egress_queue") (codes "egress") svc;
      workers = workers;
      connector_name = text_at str (codes "connector_name") (codes "smpp") svc;
      host = text_at str (codes "host") (codes "127.0.0.1") svc;
      port = port;
      system_id = text_at str (codes "system_id") (codes "esme") svc;
      password = text_at str (codes "password") (codes "password") svc;
      system_type = text_at str (codes "system_type") [] svc;
      bind_count = bind_count;
      window_size = window_size;
      tps_limit = tps_limit;
      submit_timeout_s = submit_timeout_s;
      source_addr = text_at str (codes "source_addr") (codes "RELAY") svc;
      source_ton = source_ton;
      source_npi = source_npi;
      dest_ton = dest_ton;
      dest_npi = dest_npi;
      registered_delivery = registered_delivery;
      queue = queue;
    })

  unfoldable pub http_egress_from_dict : Entries → Option HttpEgressConfig
  http_egress_from_dict content = do
    svc ← mapping_at (codes "service") content
    metrics_port ← number_at int (codes "metrics_port") 9103 svc
    workers ← number_at int (codes "workers") 16 svc
    http_pool_limit ← number_at int (codes "http_pool_limit") 100 svc
    request_timeout_s ← number_at float (codes "request_timeout_s") 30000 svc
    tps_limit ← number_at float (codes "tps_limit") 0 svc
    queue_data ← mapping_at (codes "queue") content
    queue ← queue_from_dict str int queue_data
    some (record {
      metrics_port = metrics_port;
      log_level = text_at str (codes "log_level") (codes "INFO") svc;
      egress_queue = text_at str (codes "egress_queue") (codes "egress") svc;
      workers = workers;
      endpoint_url = text_at str (codes "endpoint_url") (codes "http://localhost:8090/sink") svc;
      connector_name = text_at str (codes "connector_name") (codes "http") svc;
      http_pool_limit = http_pool_limit;
      request_timeout_s = request_timeout_s;
      tps_limit = tps_limit;
      queue = queue;
    })
