-- ===== src/Rtc.antt =====
-- packages/rtc/src: the policies of a call's transport (transport/selection.ts, video-encoding.ts,
-- diagnostics/quality.ts), the queue of ICE candidates (transport/ice.ts) and the classification of
-- the selected route (connection-path.ts).
pub mod Selection
pub mod Video
pub mod Address
pub mod Policy
pub mod Quality
pub mod Ice
