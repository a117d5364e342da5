-- ===== src/Tests.antt =====
-- Concrete inputs: each theorem of the results at one of them, and tests of the definitions.
mod Library
mod AccountsTests
mod QuotaTests
mod VaultTests
mod SummaryTests
mod UpdateTests
mod SettingsTests
mod SessionTests
mod RefreshTests
mod FetchTests
mod MigrateTests
mod FilesTests
mod StoreTests
mod DecodeTests
mod TuiTests
