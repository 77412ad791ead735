-- ===== src/Validator.antt =====
-- src/validator: fetching the certificates that a packet is checked with.
pub mod NdnsCert
pub mod AppCert
