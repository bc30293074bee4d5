-- ===== src/Examples.antt =====
-- Concrete inputs: the theorems applied, and runs of the definitions.
mod Fixtures
mod Coding
mod MemRuns
mod WalRuns
mod ContainerRuns
mod KeyRuns
mod RelationalRuns
mod GraphRuns
mod SstableRuns
mod CounterRuns
mod MergeRuns
mod EngineRuns
mod FailureRuns
mod RecoverRuns
mod KvRuns
