-- ===== src/ThreadInvariance.antt =====
-- ThreadInvariance.h and ThreadInvariance.cpp: on which local and group ids a value depends.
pub mod Kind
pub mod Scalar
pub mod Info
pub mod Impl
pub mod Visit
pub mod Build
