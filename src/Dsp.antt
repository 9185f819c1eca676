-- ===== src/Dsp.antt =====
-- The filters: TBiquad and the nodes that are built from it.
pub mod Numbers
pub mod Design
pub mod Biquad
pub mod Crossover
pub mod Equalizers
mod Runs
