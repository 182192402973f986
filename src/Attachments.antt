-- ===== src/Attachments.antt =====
-- packages/protocol/src/attachments.ts: the validation of attachment manifests and of the control
-- messages of a transfer. A value received from a peer is a `Js.Value`. `toLowerCase` and
-- `Date.parse` are JavaScript's own and stand as the parameter `Host`.
pub mod Checks
pub mod Manifest
pub mod Control
pub mod WellFormed
