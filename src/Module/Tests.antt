-- ===== src/Module/Tests.antt =====
-- Parameters at concrete inputs.
mod Notation
mod Witnesses
