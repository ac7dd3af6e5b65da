-- ===== src/Tests.antt =====
-- Runs on concrete inputs, and the theorems at inputs that meet their hypotheses.
mod Assets
mod Searches
mod Exports
mod Groups
mod Renders
mod Reconciled
mod Frontmatter
mod Props
mod Sample
mod Services
mod Texts
mod Vaults
