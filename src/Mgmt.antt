-- ===== src/Mgmt.antt =====
-- src/util/cert-helper.cpp and src/mgmt: certificates of the local key chain, and the management tool.
pub mod CertHelper
pub mod Doe
pub mod Tool
