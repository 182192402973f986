-- ===== src/Groups/Manage.antt =====
-- apps/web/src/services/offline/social-storage.ts: the changes that the local user makes to a group.
-- Each function takes the group that the store holds under the id (`none`: it holds none) and the
-- local identity, and gives the group that is saved, or the error that is thrown. `fits` is the
-- budget of `assertLocalGroupSyncBudget`, which measures the JSON text of the manifest.
pub mod Removal
use risk_p2p.Prelude.{
  ℕ, ◌+◌, max, Bool, true, false, not, ◌&&◌, ◌||◌, Option, none, some, List, [], ◌∷◌, ◌++◌, ltb,
  leb, ◌==◌, length, any, find, keep, map, if◌then◌else◌,
}
use risk_p2p.Prelude.Text.{Text, text_eq, codes}
use risk_p2p.Prelude.TextSet.{has, add, delete, unique}
use risk_p2p.Groups.Types.{
  PublicPeerIdentity, LocalGroupChannel, GroupAdministratorGrant, GroupRevocationCertificate,
  LocalGroup, Runtime, or_else,
}
use risk_p2p.Groups.Identity.{
  same_peer_identity, dedupe_peer_identities, upsert_group_member_identity, has_peer, option_eq,
}
use risk_p2p.Groups.Certificates.{merge_group_revocations, max_group_members, max_group_revocations}
use risk_p2p.Groups.Resolve.{epoch, rendezvous, find_peer}

pub data GroupError : Type 0 where
  group_not_found not_administrator not_owner is_owner member_not_found : GroupError
  bad_name bad_avatar identity_revoked members_full revocations_full : GroupError
  administrator_needs_owner unknown_administrator grant_missing over_budget : GroupError

pub data Result {ℓ} (A : Type ℓ) : Type ℓ where
  ok : A → Result A
  err : GroupError → Result A

infixl 5 ◌>>=◌ ◌>>◌
unfoldable pub ◌>>=◌ {ℓ κ} : {A : Type ℓ} {B : Type κ} → Result A → (A → Result B) → Result B
ok a >>= f = f a
err e >>= f = err e

unfoldable pub ◌>>◌ {ℓ} : {B : Type ℓ} → Result (Unit {0}) → Result B → Result B
unfolding ◌>>=◌
m >> k = m >>= λ _. k

-- `if (failed) throw error`
unfoldable pub throw_if : Bool → GroupError → Result (Unit {0})
throw_if true e = err e
throw_if false e = ok tt

unfoldable pub or_throw {ℓ} : {A : Type ℓ} → Option A → GroupError → Result A
or_throw none e = err e
or_throw (some a) e = ok a

-- The random ids and the time of one operation, the two signatures, and the tests that rest on other
-- files. The ids of grants and certificates may depend on whom they are for.
pub record Host : Type 0 where
  pub runtime : Runtime
  pub operation_id : Text
  pub message_id : Text → Text
  pub rendezvous_secret : Text
  pub now : ℕ
  pub sign_grant : GroupAdministratorGrant → Text
  pub sign_revocation : GroupRevocationCertificate → Text
  pub valid_avatar : Text → Bool
  pub fits : LocalGroup → Bool

unfoldable pub can_manage_local_group : LocalGroup → Text → Bool
can_manage_local_group group peer_id =
    text_eq group.owner_peer_id peer_id || has peer_id group.administrator_peer_ids

-- `...nextGroupManifestRevision(group, actor)`
unfoldable pub next_group_manifest_revision : Host → LocalGroup → Text → LocalGroup → LocalGroup
next_group_manifest_revision host group actor updated = record updated {
  manifest_version = max 1 group.manifest_version + 1;
  manifest_actor_peer_id = some actor;
  manifest_operation_id = some host.operation_id;
}

unfoldable pub save_local_group : Host → LocalGroup → Result LocalGroup
save_local_group host group = if host.fits group then ok group else err over_budget

-- A trimmed name of 2 to 80 characters
unfoldable pub checked_name : Host → Text → Result Text
checked_name host name =
    let trimmed = host.runtime.trim name in
    if ltb (length trimmed) 2 || ltb 80 (length trimmed) then err bad_name else ok trimmed

unfoldable pub create_group_administrator_grant :
    Host → LocalGroup → PublicPeerIdentity → Text → ℕ → Result GroupAdministratorGrant
create_group_administrator_grant host group administrator owner administrator_epoch =
    let unsigned : GroupAdministratorGrant = record {
      group_id = group.group_id;
      administrator_peer_id = administrator.peer_id;
      administrator_public_key = administrator.public_key;
      owner_peer_id = owner;
      administrator_epoch = administrator_epoch;
      message_id = host.message_id administrator.peer_id;
      timestamp = host.now;
      signature = [];
    } in
    if not (text_eq owner group.owner_peer_id)
    then err not_owner
    else ok (record unsigned { signature = host.sign_grant unsigned })

-- `Promise.all` over the administrators: a grant for each, or the first error.
unfoldable pub create_grants :
    Host → LocalGroup → Text → ℕ → List Text → Result (List GroupAdministratorGrant)
create_grants host group owner administrator_epoch [] = ok []
create_grants host group owner administrator_epoch (peer_id ∷ peer_ids) = do
  target ← or_throw (find_peer peer_id group.members) unknown_administrator
  grant ← create_group_administrator_grant host group target owner administrator_epoch
  grants ← create_grants host group owner administrator_epoch peer_ids
  ok (grant ∷ grants)

-- The grant that an administrator attaches; the owner needs none.
unfoldable pub own_grant : LocalGroup → Text → Result (Option GroupAdministratorGrant)
own_grant group issuer = if text_eq issuer group.owner_peer_id then ok none else do
  grant ←
      or_throw
        (find (λ g. text_eq g.administrator_peer_id issuer && g.administrator_epoch == epoch group)
          group.administrator_grants)
        grant_missing
  ok (some grant)

unfoldable pub create_group_revocation_certificate :
    Host → LocalGroup → PublicPeerIdentity → Text → ℕ → Result GroupRevocationCertificate
unfolding can_manage_local_group own_grant
create_group_revocation_certificate host group target issuer membership_version = do
  throw_if (not (can_manage_local_group group issuer)) not_administrator
  throw_if (text_eq target.peer_id group.owner_peer_id) is_owner
  throw_if
      (not (text_eq issuer group.owner_peer_id) && has target.peer_id group.administrator_peer_ids)
      administrator_needs_owner
  administrator_grant ← own_grant group issuer
  let unsigned : GroupRevocationCertificate = record {
    group_id = group.group_id;
    target_peer_id = target.peer_id;
    target_public_key = target.public_key;
    issuer_peer_id = issuer;
    membership_version = membership_version;
    administrator_epoch = epoch group;
    message_id = host.message_id target.peer_id;
    timestamp = host.now;
    administrator_grant = administrator_grant;
    rendezvous_version = group.rendezvous_version;
    rendezvous_secret = group.rendezvous_secret;
    signature = [];
  }
  ok (record unsigned { signature = host.sign_revocation unsigned })

module _ (host : Host) where
  pub add_local_group_channel :
      Option LocalGroup → Option Text → LocalGroupChannel → Result LocalGroup
  add_local_group_channel found identity channel = do
    group ← or_throw found group_not_found
    self ← or_throw identity not_administrator
    throw_if (not (can_manage_local_group group self)) not_administrator
    name ← checked_name host channel.name
    save_local_group host (
        if any (λ (c : LocalGroupChannel). text_eq c.id channel.id) group.channels
        then group
        else next_group_manifest_revision host group self
            (record group { channels = group.channels ++ record channel { name = name } ∷ [] }))

  -- `found` is the stored group under the id of `group`; without one, the member joins `group`.
  pub add_local_group_member :
      LocalGroup → Option LocalGroup → PublicPeerIdentity → PublicPeerIdentity → Result LocalGroup
  add_local_group_member group found member owner = do
    throw_if (not (can_manage_local_group group owner.peer_id)) not_administrator
    let base : LocalGroup =
        or_else found (record group { members = owner ∷ []; joined_at = host.now })
    throw_if
        (has member.peer_id base.removed_peer_ids
          || any (λ candidate. same_peer_identity candidate member) base.removed_members)
        identity_revoked
    throw_if
        (not (any (λ item. same_peer_identity item member) base.members)
          && leb max_group_members (length base.members))
        members_full
    save_local_group host (
        next_group_manifest_revision host
          (record base { manifest_version = max group.manifest_version base.manifest_version })
          owner.peer_id
          (record base {
            members = upsert_group_member_identity base.members member;
            membership_version = max group.membership_version base.membership_version + 1;
          }))

  pub update_local_group_profile :
      Option LocalGroup → Option Text → Text → Option Text → Result LocalGroup
  update_local_group_profile found identity name avatar = do
    group ← or_throw found group_not_found
    self ← or_throw identity not_administrator
    throw_if (not (can_manage_local_group group self)) not_administrator
    normalized ← checked_name host name
    throw_if (elim avatar [ none ↦ false | some a ↦ not (host.valid_avatar a) ]) bad_avatar
    if text_eq group.name normalized && option_eq group.avatar avatar
        then ok group
        else save_local_group host (
            next_group_manifest_revision host group self
              (record group { name = normalized; avatar = avatar }))

  pub set_local_group_administrator :
      Option LocalGroup → Option Text → Text → Bool → Result LocalGroup
  set_local_group_administrator found identity target administrator = do
    group ← or_throw found group_not_found
    self ← or_throw identity not_owner
    throw_if (not (text_eq self group.owner_peer_id)) not_owner
    throw_if (text_eq target group.owner_peer_id) is_owner
    throw_if (not (has_peer target group.members)) member_not_found
    let known = unique group.administrator_peer_ids
    let administrators = if administrator then add target known else delete target known
    let administrator_epoch = epoch group + 1
    grants ← create_grants host group self administrator_epoch administrators
    save_local_group host (
        next_group_manifest_revision host group self (record group {
          administrator_peer_ids = administrators;
          administrator_grants = grants;
          administrator_epoch = some administrator_epoch;
        }))

  -- The grants after a removal: all anew if an administrator goes, else those of the others.
  unfoldable pub grants_after_removal :
      LocalGroup → Text → Text → Bool → ℕ → List Text → Result (List GroupAdministratorGrant)
  grants_after_removal group self target was_administrator administrator_epoch remaining =
      if was_administrator
      then create_grants host group self administrator_epoch remaining
      else ok (keep (λ g. not (text_eq g.administrator_peer_id target)) group.administrator_grants)

  -- The group that a removal saves.
  unfoldable pub without_member :
      LocalGroup
      → Text
      → PublicPeerIdentity
      → Text
      → ℕ
      → GroupRevocationCertificate
      → List GroupAdministratorGrant
      → LocalGroup
  without_member group self target target_id administrator_epoch certificate grants =
      next_group_manifest_revision host group self (record group {
        members = keep (λ m. not (same_peer_identity m target)) group.members;
        administrator_peer_ids = keep (λ p. not (text_eq p target_id)) group.administrator_peer_ids;
        removed_peer_ids = unique (group.removed_peer_ids ++ target_id ∷ []);
        removed_members =
            dedupe_peer_identities host.runtime (group.removed_members ++ target ∷ []) none;
        revocations = merge_group_revocations host.runtime group.revocations (certificate ∷ []);
        membership_version = group.membership_version + 1;
        administrator_epoch = some administrator_epoch;
        administrator_grants = grants;
        rendezvous_version = some (rendezvous group + 1);
        rendezvous_secret = some host.rendezvous_secret;
      })

  unfoldable pub remove_local_group_member :
      Option LocalGroup → Option Text → Text → Result LocalGroup
  remove_local_group_member found identity target_id = do
    group ← or_throw found group_not_found
    self ← or_throw identity not_administrator
    throw_if (not (can_manage_local_group group self)) not_administrator
    throw_if (text_eq target_id group.owner_peer_id) is_owner
    throw_if (has target_id group.administrator_peer_ids && not (text_eq self group.owner_peer_id))
        administrator_needs_owner
    target ← or_throw (find_peer target_id group.members) member_not_found
    throw_if
        (not (any (λ c. text_eq c.target_peer_id target_id) group.revocations)
          && leb max_group_revocations (length group.revocations))
        revocations_full
    let membership_version = group.membership_version + 1
    let was_administrator = has target_id group.administrator_peer_ids
    let administrator_epoch = epoch group + (if was_administrator then 1 else 0)
    let rendezvous_version = rendezvous group + 1
    certificate ←
        create_group_revocation_certificate host
          (record group {
            administrator_epoch = some administrator_epoch;
            rendezvous_version = some rendezvous_version;
            rendezvous_secret = some host.rendezvous_secret;
          })
          target self membership_version
    let remaining = keep (λ p. not (text_eq p target_id)) group.administrator_peer_ids
    grants ←
        grants_after_removal group self target_id was_administrator administrator_epoch remaining
    save_local_group host
        (without_member group self target target_id administrator_epoch certificate grants)
