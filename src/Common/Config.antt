-- ===== src/Common/Config.antt =====
-- common/config.py: the configuration. Reading the file and YAML are libraries'; what is here is the
-- replacement of the placeholders, `load_config`, and the `from_dict` of each class.
pub mod Values
pub mod Queue
pub mod Ingress
pub mod Egress
pub mod Load
