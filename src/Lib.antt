-- ===== src/Lib.antt =====
-- agy-swap keeps several Google accounts for Antigravity, shows what is left of their quotas, and
-- switches between them. This development models the parts of internal/app that decide what happens to
-- accounts, tokens and quotas.
--
-- How the parts interact. accounts.json holds the accounts in an order (`Accounts`). The token of an
-- account lies in a vault, and the account holds a reference to it (`Vault`). A read of the quota goes
-- through the token (`Token`) to the service (`Quota.Service`), which remembers how long Google asked it
-- to wait; the schedule (`Quota.Schedule`) says when an account is read again, from its last snapshot,
-- whose pools the families of models share (`Quota.Pools`). A switch writes the token of an account into
-- the files and the credential store that Antigravity reads (`Session`), and the guard (`Session.Guard`)
-- keeps both sides in step: it saves what Antigravity has renewed. config.json holds the settings
-- (`Settings`).
--
-- Which file models what:
--   Value, Value.Numbers: internal/app/model.go, the values of encoding/json and their accessors
--     (getString, getMap, getSlice, firstString, getFloat, numberInt).
--   Clock: times as nanoseconds since Go's zero time; parseUTC and isoTime.
--   Email: cleanText and normalizeEmail; Email.Trimmed: what they leave at the ends of a text.
--   Accounts: the type Accounts of model.go with NewAccounts, Len, Get, Set and Delete.
--   Token: decodeToken, decodeJWTClaims, extractEmailHint and tokenExpiry of oauth.go, and
--     tokenRefreshToken, hasOAuthSession and shouldHarvestToken of session_guard.go.
--   Errors: the errors of oauth.go and eligibility.go as a chain that errors.As walks.
--   Quota.Pools: pools.go, and quotaGroups and quotaWait of display.go.
--   Quota.Schedule: quota_schedule.go. Quota.Service: the memo and the back-offs of quota.go.
--   Vault: vault.go. `AccountVault` is an interface over a state of its own, `IsLawful` and
--     `IsForgetting` its contract;
--     Vault.File is fileAccountVault with the file and every outcome of the file system as its state,
--     Vault.Hybrid is hybridVault, Vault.System is osAccountVault, Vault.Secret keeps the tokens of
--     accounts, and Vault.Migrate is migrateVaultAccounts.
--   Files.Atomic: AtomicWrite of internal/store/atomic.go step by step; the other parts take it as one step,
--     with a `WriteOutcome`, and Files.Atomic.Refined says why they may.
--   Store: store.go and decodeOrderedAccounts of model.go. Store.Limits and Store.Snapshot are
--     normalizeQuotaLimits and normalizeQuotaSnapshot, Store.Decode and Store.Validate read and check
--     accounts.json, Store.Expire is migrateAndExpire and reconcileLogLimits, Store.Disk is saveUnlocked
--     with what the file system answers as an argument, and Store.Restore is the restore journal of
--     backup_service.go as a list of actions on disk, of which a crash runs a part.
--   Tui: tui_scroll.go (Tui.Scroll), tui_layout.go (Tui.Layout) and tui_sync.go (Tui.Sync).
--   Update: assetCandidateURLs of updater.go and NormalizedReleaseTag of internal/client/updater.go.
--   Settings: settings.go. Settings.Entries, Settings.Normal and Settings.Stable are about
--     normalizeSettings, Settings.Saving is reading and saving of config.json with what the file system
--     answers as an argument.
--   Session: credentials.go, the session that Antigravity runs with. Session.Writing is writeOAuthFiles,
--     with SnapshotFiles and RestoreFiles of internal/store/atomic.go; Session.Switch is applyUnlocked and
--     clearUnlocked; Session.Owner is matchAccountByToken of session_guard.go and localActiveEmail of
--     cli.go; Session.Guard is reconcileActiveSession of session_guard.go.
--   Errors.Eligibility: what Google's answers say of an account that must be verified, eligibility.go.
--   Quota.Onboard: onboardProject of quota.go, with its polls in Quota.Onboard.Polled.
--   Quota.Refresh: refreshWhere of quota.go.
--   Quota.Summary: quotaGroupsFromSummary and geminiGroupFromModels of quota.go, the groups of an answer.
--   Update.Version: CompareVersions of internal/config/version.go.
--   Quota.Fetch: Fetch of quota.go, a read that puts the token, the project, the onboarding and the
--     groups together. Quota.Saved: the groups as saved values, and shiftQuotaResets.
--   Vault.Migrate.Saved: the migration over Store.Save of store.go.
--   Prelude: texts, lists, maps and integers; Tests: concrete inputs.
--
-- What stands for what. A Go map with string keys is `Map`, or `Fields` inside JSON; its order of
-- entries is not observable. A float64 is kept exactly, in units of 2^-1074. A duration or a time is a
-- natural number of nanoseconds; a time before year 1 does not occur. No recursion needs fuel: every
-- loop of the code goes through a list that is known before it starts, or is counted (the five polls of
-- onboardProject).
--
-- Not modelled. The standard library (JSON, base64, SHA-256, unicode tables, time layouts) is the record
-- `GoLib`, a parameter; the operating system's credential store is `Platform`, a parameter with the
-- hypotheses of `IsKeeping`. Locks make an operation one step. Networking, processes, terminals and the
-- drawing of frames are not modelled; the calls of Google's API are `CloudApi`, a parameter.
mod Prelude
pub mod Value
pub mod GoLib
pub mod Clock
pub mod Email
pub mod Token
pub mod Accounts
pub mod Errors
pub mod Quota
pub mod Files
pub mod Vault
pub mod Store
pub mod Settings
pub mod Session
pub mod Tui
pub mod Update
mod Tests
