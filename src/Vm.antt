-- ===== src/Vm.antt =====
-- internal/infrastructure/vm: the errors of the VictoriaMetrics client and their kinds.
pub mod Errors
pub mod Kinds
mod Examples
