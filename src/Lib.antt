-- ===== src/Lib.antt =====
-- Risk P2P: the transfer of attachments, the policies of calls and invites, the groups, and the proofs of identity in a chat.
--
-- packages/protocol and packages/rtc hold the protocol and the transport. A file is described by
-- an attachment manifest (packages/protocol/src/attachments.ts, module Attachments), cut into
-- chunks (packages/rtc/src/file-transfer.ts, module Chunks), and each chunk travels as a binary
-- frame (packages/rtc/src/file-chunk-codec.ts, module Frames). Pieces and files
-- are hashed by packages/rtc/src/streaming-sha256.ts (module Sha256). The receiving side
-- (packages/rtc/src/file-receiver.ts, module Receiver) runs handlers that wait and interleave:
-- each is cut at its waits, and Receiver.Runs runs the pieces in any order.
-- packages/rtc/src/transport and diagnostics decide how a call is carried (module Rtc);
-- Rtc.Policy and Rtc.Address hold which candidates and addresses are told to a peer.
-- apps/web/src/call and components/call-layout.ts run and draw a call (module Call),
-- apps/web/src/services/invites limits attempts (module Invites).
-- apps/web/src/services/offline/social-storage.ts keeps the groups (module Groups): Groups.Manage
-- holds what the local user changes, Groups.Resolve merges the manifest of another member.
--
-- apps/web/src/chat/SyncService.ts lets two peers of a chat prove their identities (module Chat):
-- a handler that waits is cut there, and Chat.Handshake.Steps runs the pieces in any order.
-- apps/web/src/chat/HistoryService.ts exchanges the history of a channel page by page (Chat.History).
--
-- apps/web/src/services/signaling/validation.ts tells which values are signals (module Signaling).
--
-- The sending side of packages/rtc/src/file-transfer.ts (module Sender) is cut at its waits likewise:
-- Sender holds the calls and the pump, Sender.Transfer the pieces of a run, Sender.Runs any order of
-- them. The pump recurs on `maxConcurrentTransfers` rounds, since each round adds an active transfer.
--
-- Functions keep their names in snake case, and the fields of a TypeScript type become those of a
-- record. A JavaScript string is the list of its UTF-16 code units (Prelude.Text), a value of type
-- `unknown` is a `Value` (Prelude.Js), and a `Map` keeps its keys in insertion order
-- (Prelude.Map). What the runtime supplies is a parameter: the `crypto.subtle` hash of the bytes of a piece (a `Blob` is
-- hashed by Sha256), the parts in which the stream of a `Blob` comes, whether `addIceCandidate` fulfils its promise, `toLowerCase`, `Date.parse`,
-- `trim`, `localeCompare`, random ids, signatures, and the JSON text of a frame's metadata. Loops
-- over chunks recur on the rounds that are left, so they need no fuel; the loop of the hasher has a
-- round for each byte, which is enough since each round takes one byte at least.
--
-- Not modelled: the views and styles, the Electron shell, the Rust back ends, the storage drivers,
-- the media capture, and the calls of WebRTC, Supabase and IndexedDB themselves.
pub mod Prelude
pub mod Attachments
pub mod Frames
pub mod Chunks
pub mod Sha256
pub mod Rtc
pub mod Call
pub mod Invites
pub mod Groups
pub mod Signaling
pub mod Chat
pub mod Receiver
pub mod Sender
pub mod Tests
