-- ===== src/Groups/Resolve/Safety.antt =====
-- What a merge of manifests (`resolveLocalGroupManifest` of
-- apps/web/src/services/offline/social-storage.ts) cannot do, whatever the incoming manifest says.
mod Lemmas
use risk_p2p.Prelude.{
  ℕ, suc, max, ◌≤◌, ◌≡◌, ◌≢◌, refl, sym, ap, ◌∙◌, Bool, true, false, not, ◌&&◌, ◌||◌, Option, none,
  some, List, [], ◌∷◌, ◌++◌, ltb, leb, ◌==◌, arith, any, find, keep, map, if◌then◌else◌, ◌⊎◌, inl,
  inr, Bool-cases, subst,
}
use risk_p2p.Prelude.Text.{Text, text_eq, text_eq_iff, text_eq_self}
use risk_p2p.Prelude.TextSet.{has, unique, has-append, has-unique, has-keep}
use risk_p2p.Groups.Types.{
  PublicPeerIdentity, GroupAdministratorGrant, GroupRevocationCertificate, LocalGroup, Runtime,
  or_else,
}
use risk_p2p.Groups.Identity.{dedupe_peer_identities, has_peer}
use risk_p2p.Groups.Certificates.{merge_group_revocations, sort}
use risk_p2p.Groups.Resolve.{
  epoch, targets, removed_of, without_metadata, lacks_certificate, merged_removed, merged_members,
  merged_administrators, merge_manifests, refuses_removals, refuses_sender,
  resolve_local_group_manifest, sort_ids, ordered_members, with_cached_avatar, by_peer,
}
use Lemmas.{
  has-sort_ids, has-targets_merge, has_peer-merged_members, has-merged_administrators, any-has,
  any_certificate, targets-append,
}

-- Nobody who was removed is a member, neither a removal nor a certificate names the owner, and every administrator is a member
-- other than the owner.
pub record IsConsistent (g : LocalGroup) : Type 0 where
  pub apart : (p : Text) → has p g.removed_peer_ids ≡ true → has_peer p g.members ≡ false
  pub owner_stays : has g.owner_peer_id (removed_of g) ≡ false
  pub administrators :
      (p : Text)
      → has p g.administrator_peer_ids ≡ true
      → (has_peer p g.members ≡ true) × (p ≢ g.owner_peer_id)

absurd_bool {ℓ} : {A : Type ℓ} → false ≡ true → A
absurd_bool e = cc

not_revoked :
    (g : LocalGroup) (p : Text)
    → has p (removed_of g) ≡ false
    → has p (targets g.revocations) ≡ false
unfolding removed_of
not_revoked g p h = ground (
  arith,
  has-unique p (g.removed_peer_ids ++ targets g.revocations),
  has-append p g.removed_peer_ids (targets g.revocations),
)

module _ (runtime : Runtime) (group incoming_value : LocalGroup) (sender : Text) where
  abbrev resolved : LocalGroup
  resolved = resolve_local_group_manifest runtime group incoming_value sender

  -- The manifest that is merged, if one is.
  abbrev incoming : LocalGroup
  incoming =
      if ltb (epoch incoming_value) (epoch group) && not (text_eq sender group.owner_peer_id)
      then without_metadata group incoming_value
      else incoming_value

  -- Either nothing changes, or all tests have passed.
  record Accepted : Type 0 where
    sender_passes : refuses_sender group incoming_value sender ≡ false
    removals_pass : refuses_removals group incoming sender ≡ false
    result : resolved ≡ merge_manifests runtime group incoming

  resolve_cases : (resolved ≡ group) ⊎ Accepted
  unfolding resolve_local_group_manifest
  resolve_cases = elim (Bool-cases (refuses_sender group incoming_value sender)) [
    | inl refused ↦ inl (rw refused)
    | inr passes ↦ elim (Bool-cases (refuses_removals group incoming sender)) [
      | inl refused ↦ inl (rw passes (rw refused))
      | inr removals ↦ inr (record {
        sender_passes = passes;
        removals_pass = removals;
        result = rw passes (rw removals);
      })
    ]
  ]

  -- What a removal list of the merge holds was removed before, or is named by the incoming manifest.
  removed_from :
      (p : Text)
      → has p (merged_removed runtime group incoming) ≡ true
      → (has p (removed_of group) || has p (removed_of incoming)) ≡ true
  unfolding merged_removed removed_of
  removed_from p h = ground (
    arith,
    has-unique p (
        group.removed_peer_ids
        ++ (incoming.removed_peer_ids
            ++ targets (merge_group_revocations runtime group.revocations incoming.revocations))),
    has-append p group.removed_peer_ids (
        incoming.removed_peer_ids
        ++ targets (merge_group_revocations runtime group.revocations incoming.revocations)),
    has-append p incoming.removed_peer_ids
        (targets (merge_group_revocations runtime group.revocations incoming.revocations)),
    has-targets_merge runtime p group.revocations incoming.revocations,
    has-unique p (group.removed_peer_ids ++ targets group.revocations),
    has-append p group.removed_peer_ids (targets group.revocations),
    has-unique p (incoming.removed_peer_ids ++ targets incoming.revocations),
    has-append p incoming.removed_peer_ids (targets incoming.revocations),
  )

  has_removed :
      (p : Text)
      → (a : Accepted)
      → has p resolved.removed_peer_ids ≡ has p (merged_removed runtime group incoming)
  unfolding merge_manifests
  has_removed p a = ap (λ (g : LocalGroup). has p g.removed_peer_ids) a.result ∙ has-sort_ids p _

  incoming_revocations : incoming.revocations ≡ incoming_value.revocations
  unfolding without_metadata
  incoming_revocations = ground arith

  same_owner : Accepted → incoming.owner_peer_id ≡ group.owner_peer_id
  unfolding refuses_sender without_metadata
  same_owner a =
      ground (arith, a.sender_passes, text_eq_iff incoming_value.owner_peer_id group.owner_peer_id)

  -- The owner is not in the removal list of the merge, nor named by one of its certificates.
  owner_kept :
      IsConsistent group
      → Accepted
      → has incoming.owner_peer_id (merged_removed runtime group incoming) ≡ false
  unfolding refuses_removals
  owner_kept c a =
      rw (same_owner a)
        (ground (arith, removed_from group.owner_peer_id, a.removals_pass, c.owner_stays))

  merged_removed_all :
      (p : Text)
      → has p (merged_removed runtime group incoming) ≡ false
      → has p (removed_of (merge_manifests runtime group incoming)) ≡ false
  unfolding removed_of merge_manifests merged_removed
  merged_removed_all p h =
      let revoked =
        targets (merge_group_revocations runtime group.revocations incoming.revocations) in
      ground (
        arith,
        has-unique p (sort_ids (merged_removed runtime group incoming) ++ revoked),
        has-append p (sort_ids (merged_removed runtime group incoming)) revoked,
        has-sort_ids p (merged_removed runtime group incoming),
        has-unique p (group.removed_peer_ids ++ (incoming.removed_peer_ids ++ revoked)),
        has-append p group.removed_peer_ids (incoming.removed_peer_ids ++ revoked),
        has-append p incoming.removed_peer_ids revoked,
      )

  removed_of_merge :
      (p : Text)
      → has p (removed_of (merge_manifests runtime group incoming))
        ≡ has p (merged_removed runtime group incoming)
  unfolding removed_of merge_manifests
  removed_of_merge p =
      let revoked =
        targets (merge_group_revocations runtime group.revocations incoming.revocations) in
      ground (
        arith,
        merged_removed_all p,
        has-unique p (sort_ids (merged_removed runtime group incoming) ++ revoked),
        has-append p (sort_ids (merged_removed runtime group incoming)) revoked,
        has-sort_ids p (merged_removed runtime group incoming),
      )

  owner_removed :
      IsConsistent group
      → Accepted
      → has incoming.owner_peer_id (removed_of (merge_manifests runtime group incoming)) ≡ false
  owner_removed c a = merged_removed_all incoming.owner_peer_id (owner_kept c a)

  merge-IsConsistent :
      IsConsistent group → Accepted → IsConsistent (merge_manifests runtime group incoming)
  unfolding merge_manifests
  merge-IsConsistent c a = record {
    apart = λ p h. has_peer-merged_members runtime group incoming p (sym (has-sort_ids p _) ∙ h);
    owner_stays = owner_removed c a;
    administrators = λ p h.
        let admin = has-merged_administrators runtime group incoming p h in
        (admin.0, λ e. absurd_bool (sym admin.1 ∙ (text_eq_iff p incoming.owner_peer_id).1 e));
  }

  -- Both ways in which the merged manifest knows a removal say what `merged_removed` says.
  removed_of_merged :
      (p : Text)
      → (a : Accepted) → has p (removed_of resolved) ≡ has p (merged_removed runtime group incoming)
  removed_of_merged p a =
      ap (λ (g : LocalGroup). has p (removed_of g)) a.result ∙ removed_of_merge p

  -- A merge by someone other than the owner puts neither the owner nor a local administrator who was
  -- not removed before on the removal list, and takes over no revocation certificate that names one.
  pub resolve_protects :
      (p : Text)
      → sender ≢ group.owner_peer_id
      → ((p ≡ group.owner_peer_id) ⊎ (has p group.administrator_peer_ids ≡ true))
      → has p (removed_of group) ≡ false
      → has p (removed_of resolved) ≡ false
  unfolding refuses_removals
  resolve_protects p ne protected absent = elim resolve_cases [
    | inl same ↦ ap (λ (g : LocalGroup). has p (removed_of g)) same ∙ absent
    | inr a ↦
        removed_of_merged p a
        ∙ ground (
          arith,
          removed_from p,
          a.removals_pass,
          protected,
          text_eq_iff sender group.owner_peer_id,
          any-has (λ q. has q (removed_of incoming)) p group.administrator_peer_ids,
        )
  ]

  -- Whoever stands on the removal list or in a revocation certificate behind the merge and did in
  -- neither before it is named by a revocation certificate of the incoming manifest.
  pub resolve_certified :
      (p : Text)
      → has p (removed_of resolved) ≡ true
      → has p (removed_of group) ≡ false
      → has p (targets incoming_value.revocations) ≡ true
  unfolding refuses_removals lacks_certificate
  resolve_certified p h absent = elim resolve_cases [
    | inl same ↦
        absurd_bool (sym absent ∙ sym (ap (λ (g : LocalGroup). has p (removed_of g)) same) ∙ h)
    | inr a ↦ ground (
      arith,
      removed_from p (sym (removed_of_merged p a) ∙ h),
      a.removals_pass,
      not_revoked group p absent,
      any-has (lacks_certificate group incoming) p (removed_of incoming),
      any_certificate p (group.revocations ++ incoming.revocations),
      targets-append p group.revocations incoming.revocations,
      incoming_revocations,
    )
  ]

  keeps_removed :
      (p : Text) → has p group.removed_peer_ids ≡ true → has p resolved.removed_peer_ids ≡ true
  unfolding merged_removed
  keeps_removed p h = elim resolve_cases [
    | inl same ↦ ap (λ (g : LocalGroup). has p g.removed_peer_ids) same ∙ h
    | inr a ↦
        has_removed p a
        ∙ has-unique p _
        ∙ has-append p group.removed_peer_ids _
        ∙ ap
            (λ b.
              b
              || has p (
                  incoming.removed_peer_ids
                  ++ targets
                      (merge_group_revocations runtime group.revocations incoming.revocations)))
            h
  ]

  -- The merge of a consistent group is consistent: nobody removed is a member, the owner is not
  -- removed, and the administrators are members other than the owner.
  pub resolve-IsConsistent : IsConsistent group → IsConsistent resolved
  resolve-IsConsistent c = elim resolve_cases [
    | inl same ↦ subst IsConsistent (sym same) c
    | inr a ↦ subst IsConsistent (sym a.result) (merge-IsConsistent c a)
  ]

-- The merges of some manifests with their senders, one after the other.
abbrev pub resolve_all : Runtime → LocalGroup → List (LocalGroup × Text) → LocalGroup
resolve_all runtime group [] = group
resolve_all runtime group ((incoming, sender) ∷ rest) =
    resolve_all runtime (resolve_local_group_manifest runtime group incoming sender) rest

-- Whoever stands on the removal list of a consistent group is on the list and no member behind any
-- number of merges, whatever manifests come and whoever sends them.
pub resolve_keeps_removed :
    (runtime : Runtime) (group : LocalGroup) (merges : List (LocalGroup × Text)) (p : Text)
    → IsConsistent group
    → has p group.removed_peer_ids ≡ true
    → (has p (resolve_all runtime group merges).removed_peer_ids ≡ true)
      × (has_peer p (resolve_all runtime group merges).members ≡ false)
resolve_keeps_removed runtime group [] p c h = (h, c.apart p h)
resolve_keeps_removed runtime group ((incoming, sender) ∷ rest) p c h =
    resolve_keeps_removed runtime (resolve_local_group_manifest runtime group incoming sender) rest
      p (resolve-IsConsistent runtime group incoming sender c)
      (keeps_removed runtime group incoming sender p h)
