-- ===== src/Mail.antt =====
-- services/email-ingestion: mailboxes and their messages.
pub mod OauthState
pub mod Store
pub mod Ingestion
pub mod Sync
pub mod AccountToken
pub mod Messages
pub mod MessageList
pub mod RawDownload
pub mod Events
pub mod Queue
pub mod Accounts
pub mod Http
pub mod Providers
pub mod Zoho
pub mod Gmail
pub mod Encryption
mod Tests
mod ProviderTests
