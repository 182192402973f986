-- ===== src/Groups/Types.antt =====
-- apps/web/src/services/offline/social-storage.ts: the records. Versions, epochs and times are
-- natural numbers. An optional property is an `Option`; the source reads a missing list as empty and
-- a missing epoch or rendezvous version as 1.
use risk_p2p.Prelude.{ℕ, Option, none, some, List}
use risk_p2p.Prelude.Text.{Text}

-- The four properties of a `JsonWebKey` that the source compares.
pub record PublicKey : Type 0 where
  pub kty : Option Text
  pub crv : Option Text
  pub x : Option Text
  pub y : Option Text

pub record PublicPeerIdentity : Type 0 where
  pub peer_id : Text
  pub public_key : PublicKey
  pub display_name : Text
  pub avatar : Option Text

pub data ChannelKind : Type 0 where
  text voice : ChannelKind

pub record LocalGroupChannel : Type 0 where
  pub id : Text
  pub name : Text
  pub kind : ChannelKind
  pub voice_room_id : Option Text

pub record GroupAdministratorGrant : Type 0 where
  pub group_id : Text
  pub administrator_peer_id : Text
  pub administrator_public_key : PublicKey
  pub owner_peer_id : Text
  pub administrator_epoch : ℕ
  pub message_id : Text
  pub timestamp : ℕ
  pub signature : Text

pub record GroupRevocationCertificate : Type 0 where
  pub group_id : Text
  pub target_peer_id : Text
  pub target_public_key : PublicKey
  pub issuer_peer_id : Text
  pub membership_version : ℕ
  pub administrator_epoch : ℕ
  pub message_id : Text
  pub timestamp : ℕ
  pub administrator_grant : Option GroupAdministratorGrant
  pub rendezvous_version : Option ℕ
  pub rendezvous_secret : Option Text
  pub signature : Text

-- `PublicGroupMetadata` with the members and the time of joining.
pub record LocalGroup : Type 0 where
  pub group_id : Text
  pub name : Text
  pub avatar : Option Text
  pub channels : List LocalGroupChannel
  pub owner_peer_id : Text
  pub membership_version : ℕ
  pub manifest_version : ℕ
  pub administrator_peer_ids : List Text
  pub removed_peer_ids : List Text
  pub removed_members : List PublicPeerIdentity
  pub manifest_actor_peer_id : Option Text
  pub manifest_operation_id : Option Text
  pub administrator_epoch : Option ℕ
  pub administrator_grants : List GroupAdministratorGrant
  pub revocations : List GroupRevocationCertificate
  pub rendezvous_version : Option ℕ
  pub rendezvous_secret : Option Text
  pub members : List PublicPeerIdentity
  pub joined_at : ℕ

-- `localeCompare` below, at and above 0
pub data Sign : Type 0 where
  below same above : Sign

-- What JavaScript supplies: `trim`, `localeCompare`, and `legacy-${version}`.
pub record Runtime : Type 0 where
  pub trim : Text → Text
  pub locale_compare : Text → Text → Sign
  pub legacy_operation : ℕ → Text

abbrev pub or_else {ℓ} : {A : Type ℓ} → Option A → A → A
or_else none a = a
or_else (some b) a = b
