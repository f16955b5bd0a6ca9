-- ===== src/Tests.antt =====
-- Runs at concrete inputs: toy instances of the packages that the program calls, and an example of
-- each theorem that has hypotheses.
mod CrashRuns
mod SignRuns
mod ReloadRuns
mod CommandRuns
mod Toy
mod KeygenRuns
mod SessionRuns
mod LiveRuns
mod BoardRuns
mod ManifestRuns
mod ToyDisk
mod ToyEngine
mod ToyEngineLaws
mod CoordinatorRuns
mod StoreRuns
mod ChainRuns
mod DiskRuns
mod IdentityRuns
mod StoredRuns
mod ShareRuns
mod TextRuns
