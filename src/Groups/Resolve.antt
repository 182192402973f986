-- ===== src/Groups/Resolve.antt =====
-- apps/web/src/services/offline/social-storage.ts: `resolveLocalGroupManifest`, the merge of the
-- local manifest of a group with one that a member sent.
pub mod Safety
use risk_p2p.Prelude.{
  ℕ, max, Bool, true, false, not, ◌&&◌, ◌||◌, Option, none, some, List, [], ◌∷◌, ◌++◌, ltb, leb,
  ◌==◌, any, find, keep, map, if◌then◌else◌,
}
use risk_p2p.Prelude.Text.{Text, text_eq}
use risk_p2p.Prelude.TextSet.{has, unique}
use risk_p2p.Groups.Types.{
  PublicPeerIdentity, GroupAdministratorGrant, GroupRevocationCertificate, LocalGroup, Runtime,
  Sign, below, same, above, or_else,
}
use risk_p2p.Groups.Identity.{
  same_public_key, same_peer_identity, valid_opaque_id, dedupe_peer_identities, has_peer,
}
use risk_p2p.Groups.Certificates.{
  merge_group_revocations, merge_administrator_grants, sort, locale_le, text_gt,
}
use risk_p2p.Groups.Revision.{compare_group_manifest_revisions}

abbrev pub epoch : LocalGroup → ℕ
epoch g = or_else g.administrator_epoch 1

abbrev pub rendezvous : LocalGroup → ℕ
rendezvous g = or_else g.rendezvous_version 1

-- The targets of the certificates.
unfoldable pub targets : List GroupRevocationCertificate → List Text
targets [] = []
targets (c ∷ cs) = c.target_peer_id ∷ targets cs

unfoldable pub find_peer : Text → List PublicPeerIdentity → Option PublicPeerIdentity
find_peer peer_id members = find (λ m. text_eq m.peer_id peer_id) members

-- The owner is known on both sides, under one key.
unfoldable pub owners_agree : LocalGroup → LocalGroup → Bool
owners_agree group incoming = elim (find_peer group.owner_peer_id group.members) [
  | none ↦ false
  | some known ↦ elim (find_peer incoming.owner_peer_id incoming.members) [
    | none ↦ false
    | some announced ↦ same_public_key known.public_key announced.public_key
  ]
]

-- `new Set([...removedPeerIds, ...revocations.map(targetPeerId)])`
unfoldable pub removed_of : LocalGroup → List Text
removed_of g = unique (g.removed_peer_ids ++ targets g.revocations)

-- What an administrator of an older epoch may not change is taken from the local manifest.
unfoldable pub without_metadata : LocalGroup → LocalGroup → LocalGroup
without_metadata group incoming = record incoming {
  name = group.name;
  avatar = group.avatar;
  channels = group.channels;
  administrator_peer_ids = group.administrator_peer_ids;
}

-- `[...xs].sort()` compares code units.
unfoldable pub sort_ids : List Text → List Text
sort_ids ids = sort (λ a b. not (text_gt a b)) ids

-- A peer that the message removes, that was not removed before, and that no certificate names.
unfoldable pub lacks_certificate : LocalGroup → LocalGroup → Text → Bool
lacks_certificate group incoming peer_id =
    not (has peer_id (removed_of group))
    && not (any (λ c. text_eq c.target_peer_id peer_id) (group.revocations ++ incoming.revocations))

-- The tests on the removals.
unfoldable pub refuses_removals : LocalGroup → LocalGroup → Text → Bool
refuses_removals group incoming sender =
    any (lacks_certificate group incoming) (removed_of incoming)
    || has group.owner_peer_id (removed_of incoming)
    || (not (text_eq sender group.owner_peer_id)
        && any (λ p. has p (removed_of incoming)) group.administrator_peer_ids)

-- The tests on the owner, the sender and the epochs.
unfoldable pub refuses_sender : LocalGroup → LocalGroup → Text → Bool
refuses_sender group incoming sender =
    not (text_eq incoming.owner_peer_id group.owner_peer_id)
    || (not (text_eq sender group.owner_peer_id) && not (has sender group.administrator_peer_ids))
    || not (owners_agree group incoming)
    || (ltb (epoch group) (epoch incoming) && not (text_eq sender group.owner_peer_id))

module _ (runtime : Runtime) where
  abbrev pub by_peer : PublicPeerIdentity → PublicPeerIdentity → Bool
  by_peer a b = locale_le runtime a.peer_id b.peer_id

  unfoldable pub incoming_wins : LocalGroup → LocalGroup → Bool
  incoming_wins group incoming =
      elim (compare_group_manifest_revisions runtime incoming group) [ above ↦ true | _ ↦ false ]
      || ltb (epoch group) (epoch incoming)

  -- A member that comes without an avatar keeps the one that is known.
  unfoldable pub with_cached_avatar : LocalGroup → PublicPeerIdentity → PublicPeerIdentity
  with_cached_avatar group member = elim member.avatar [
    | some a ↦ member
    | none ↦ elim (find (λ candidate. same_peer_identity candidate member) group.members) [
      | none ↦ member
      | some cached ↦ elim cached.avatar [
        | none ↦ member
        | some [] ↦ member
        | some (c ∷ cs) ↦ record member { avatar = some (c ∷ cs) }
      ]
    ]
  ]

  unfoldable pub merged_removed : LocalGroup → LocalGroup → List Text
  merged_removed group incoming = unique (
      group.removed_peer_ids
      ++ (incoming.removed_peer_ids
          ++ targets (merge_group_revocations runtime group.revocations incoming.revocations)))

  unfoldable pub ordered_members : LocalGroup → LocalGroup → List PublicPeerIdentity
  ordered_members group incoming =
      if ltb (epoch group) (epoch incoming)
      then incoming.members
      else if ltb (epoch incoming) (epoch group)
      then group.members
      else if incoming_wins group incoming
      then incoming.members ++ group.members
      else group.members ++ incoming.members

  unfoldable pub merged_members : LocalGroup → LocalGroup → List PublicPeerIdentity
  merged_members group incoming =
      let removed = merged_removed group incoming in
      sort by_peer (
        map (with_cached_avatar group) (
          keep (λ m. not (has m.peer_id removed))
            (dedupe_peer_identities runtime (ordered_members group incoming) none)))

  unfoldable pub merged_administrators : LocalGroup → LocalGroup → List Text
  merged_administrators group incoming =
      let chosen =
        if ltb (epoch group) (epoch incoming)
        then incoming.administrator_peer_ids
        else if ltb (epoch incoming) (epoch group)
        then group.administrator_peer_ids
        else if incoming_wins group incoming
        then incoming.administrator_peer_ids
        else group.administrator_peer_ids in
      sort_ids (
        keep
          (λ p.
            has_peer p (merged_members group incoming) && not (text_eq p incoming.owner_peer_id))
          chosen)

  unfoldable pub rendezvous_winner : LocalGroup → LocalGroup → LocalGroup
  rendezvous_winner group incoming =
      if ltb (rendezvous group) (rendezvous incoming)
      then incoming
      else if ltb (rendezvous incoming) (rendezvous group)
      then group
      else if incoming_wins group incoming
      then incoming
      else group

  -- The record `merged`.
  unfoldable pub merge_manifests : LocalGroup → LocalGroup → LocalGroup
  merge_manifests group incoming =
      let winner = if incoming_wins group incoming then incoming else group in
      let removed = merged_removed group incoming in
      let administrators = merged_administrators group incoming in
      let administrator_epoch = max (epoch group) (epoch incoming) in
      let secret = (rendezvous_winner group incoming).rendezvous_secret in
      record group {
        name = winner.name;
        avatar = winner.avatar;
        channels = winner.channels;
        members = merged_members group incoming;
        owner_peer_id = incoming.owner_peer_id;
        membership_version = max group.membership_version incoming.membership_version;
        manifest_version = winner.manifest_version;
        manifest_actor_peer_id = some (or_else winner.manifest_actor_peer_id winner.owner_peer_id);
        manifest_operation_id = some (
            or_else winner.manifest_operation_id
              (runtime.legacy_operation winner.manifest_version));
        administrator_epoch = some administrator_epoch;
        administrator_peer_ids = administrators;
        administrator_grants =
            keep
              (λ g.
                has g.administrator_peer_id administrators
                && g.administrator_epoch == administrator_epoch)
              (merge_administrator_grants runtime group.administrator_grants
                incoming.administrator_grants);
        removed_peer_ids = sort_ids removed;
        removed_members = sort by_peer (
            keep (λ m. has m.peer_id removed)
              (dedupe_peer_identities runtime (group.removed_members ++ incoming.removed_members)
                none));
        revocations = merge_group_revocations runtime group.revocations incoming.revocations;
        rendezvous_version = some (max (rendezvous group) (rendezvous incoming));
        rendezvous_secret = (if valid_opaque_id secret then secret else some group.group_id);
      }

  unfoldable pub resolve_local_group_manifest : LocalGroup → LocalGroup → Text → LocalGroup
  resolve_local_group_manifest group incoming_value sender =
      if refuses_sender group incoming_value sender
      then group
      else let incoming =
          if ltb (epoch incoming_value) (epoch group) && not (text_eq sender group.owner_peer_id)
          then without_metadata group incoming_value
          else incoming_value in
        if refuses_removals group incoming sender then group else merge_manifests group incoming
