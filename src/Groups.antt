-- ===== src/Groups.antt =====
-- apps/web/src/services/offline/social-storage.ts: the groups of the local user, who may change
-- them, and how the manifests of two members are merged.
pub mod Types
pub mod Identity
pub mod Certificates
pub mod Revision
pub mod Resolve
pub mod Manage
