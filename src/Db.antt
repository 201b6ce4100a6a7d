-- ===== src/Db.antt =====
-- The database of internal/db: the tables (Models), and below it one module for each family of
-- statements of internal/db/auth.sql.go, and for those of the OIDC flow and the signing keys.
pub mod Models
pub mod Query
pub mod Users
pub mod Tokens
pub mod Recovery
pub mod Tenants
pub mod ApiKeys
pub mod Log
pub mod Projects
pub mod Roles
pub mod Permissions
pub mod Listings
pub mod Oauth
