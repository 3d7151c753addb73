-- ===== src/Tests.antt =====
-- Concrete runs of the models, and the theorems applied to concrete data.
mod Sample
mod Laws
mod Parameters
mod Vgseer
mod Applied
mod Daemon
mod Expand
mod Telling
mod Shows
