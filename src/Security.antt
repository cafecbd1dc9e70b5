-- ===== src/Security.antt =====
-- security.go: the checks on names that reach a shell, a configuration file or a host name.
pub mod Slug
pub mod Tokens
pub mod Secrets
