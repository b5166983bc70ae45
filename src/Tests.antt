-- ===== src/Tests.antt =====
-- Concrete runs of the modelled code: the theorems at inputs where their hypotheses hold.
mod Fixtures
mod TokenRuns
mod LoginRuns
mod AdminRuns
mod CacheRuns
mod PolicyRuns
mod RetentionRuns
mod SnapshotRuns
mod EventBusRuns
mod ReplayRuns
mod DeviceRuns
mod SyncRuns
mod EncryptionRuns
mod InviteRuns
mod AdminSessionRuns
mod AdminLoginRuns
mod AdminPageRuns
