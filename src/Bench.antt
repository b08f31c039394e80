-- ===== src/Bench.antt =====
-- bench/bench.js, the benchmark client.
pub mod Sampling
pub mod Probes
pub mod Report
pub mod Program
pub mod Args
mod Tests
