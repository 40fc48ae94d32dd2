-- ===== src/Tests.antt =====
-- Runs of the model at fixed inputs, those of the repository's own tests among them, and for each
-- theorem with hypotheses an instance where they hold.
mod Fixture
mod ParserRuns
mod Witnesses
mod QueueRuns
mod PoolRuns
mod SetupRuns
mod LifeRuns
mod SortRuns
mod LegacyRuns
