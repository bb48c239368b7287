-- ===== src/Fed.antt =====
-- qnm/fedmesh: the parts of the federation mesh that keep state of their own, and its gates.
pub mod Receipts
pub mod Runs
pub mod Guard
pub mod Spool
pub mod Quota
pub mod Objects
pub mod Outbound
pub mod Roles
