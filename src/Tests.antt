-- ===== src/Tests.antt =====
-- Runs of the modelled code over a small scheme, and the theorems at concrete data.
mod Scheme
mod Samples
mod ChainRuns
mod ChainExamples
mod EscrowExamples
mod TextExamples
mod NodeExamples
mod SessionExamples
mod KeygenExamples
mod PcztExamples
mod CeremonyExamples
mod KeygenRuns
mod NetSamples
mod NetExamples
mod MeshExamples
mod CliExamples
mod DemoExamples
