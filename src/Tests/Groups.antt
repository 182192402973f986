-- ===== src/Tests/Groups.antt =====
-- Runs of the group manifests on a group of four.
use risk_p2p.Prelude.{◌≡◌, ◌≢◌, refl, sym, subst, true, false, none, some, [], ◌∷◌, arith, inr}
use risk_p2p.Prelude.Text.{Text, codes, text_eq, text_eq_iff, ne_of_text_eq}
use risk_p2p.Prelude.TextSet.{has, add, add_all, unique}
use risk_p2p.Prelude.Map.{lookup, insert}
use risk_p2p.Groups.Certificates.{
  merge_group_revocations, put_all, put_newer, valid_group_revocation_certificate, absent_or,
  values, sort, insert_sorted, text_gt,
}
use risk_p2p.Groups.Types.{
  PublicPeerIdentity, GroupRevocationCertificate, LocalGroup, Runtime, Sign, below, same, above,
}
use risk_p2p.Groups.Identity.{has_peer, same_public_key, option_eq, is_identifier}
use risk_p2p.Groups.Revision.{
  compare_numbers, compare_group_manifest_revisions, opposite, then_by, compare-opposite,
}
use risk_p2p.Groups.Resolve.{
  resolve_local_group_manifest, removed_of, targets, merge_manifests, refuses_sender,
  refuses_removals, owners_agree, find_peer, lacks_certificate, merged_removed, sort_ids,
}
use risk_p2p.Groups.Resolve.Safety.{
  IsConsistent, resolve_protects, resolve_certified, resolve_keeps_removed, resolve_all,
  resolve-IsConsistent,
}
use risk_p2p.Groups.Manage.{
  ◌>>=◌, ◌>>◌, throw_if, or_throw, can_manage_local_group, create_group_revocation_certificate,
  own_grant, grants_after_removal, save_local_group, Host, Result, ok, err, identity_revoked,
  remove_local_group_member, add_local_group_member,
}
use risk_p2p.Groups.Manage.Removal.{Removed, remove-Removed, add-remove}

-- A comparison by code units in the place of `localeCompare`.
unfoldable compare_texts : Text → Text → Sign
compare_texts [] [] = same
compare_texts [] (y ∷ t) = below
compare_texts (x ∷ s) [] = above
compare_texts (x ∷ s) (y ∷ t) = then_by (compare_numbers x y) (compare_texts s t)

texts_opposite : (a b : Text) → compare_texts a b ≡ opposite (compare_texts b a)
unfolding compare_texts compare_numbers
texts_opposite [] [] = refl
texts_opposite [] (y ∷ t) = refl
texts_opposite (x ∷ s) [] = refl
texts_opposite (x ∷ s) (y ∷ t) = ground (arith, texts_opposite s t)

abbrev sample_runtime : Runtime
sample_runtime = record {
  trim = λ s. s;
  locale_compare = compare_texts;
  legacy_operation = λ n. codes "legacy-";
}

abbrev sample_host : Host
sample_host = record {
  runtime = sample_runtime;
  operation_id = codes "operation-1";
  message_id = λ t. codes "message-1";
  rendezvous_secret = codes "rendezvous-2";
  now = 7;
  sign_grant = λ g. codes "signed-with-the-owner-key";
  sign_revocation = λ c. codes "signed-with-the-owner-key";
  valid_avatar = λ a. true;
  fits = λ g. true;
}

abbrev person : Text → Text → PublicPeerIdentity
person id x = record {
  peer_id = id;
  public_key = record {
    kty = some (codes "EC");
    crv = some (codes "P-256");
    x = some x;
    y = some x;
  };
  display_name = id;
  avatar = none;
}

abbrev owner : Text
owner = codes "owner-000"

abbrev admin : Text
admin = codes "admin-000"

abbrev guest : Text
guest = codes "guest-000"

abbrev former : Text
former = codes "former-00"

abbrev sample_group : LocalGroup
sample_group = record {
  group_id = codes "group-000";
  name = codes "Team";
  avatar = none;
  channels = [];
  owner_peer_id = owner;
  membership_version = 4;
  manifest_version = 9;
  administrator_peer_ids = admin ∷ [];
  removed_peer_ids = former ∷ [];
  removed_members = [];
  manifest_actor_peer_id = none;
  manifest_operation_id = none;
  administrator_epoch = none;
  administrator_grants = [];
  revocations = [];
  rendezvous_version = none;
  rendezvous_secret = none;
  members = person owner (codes "o") ∷ person admin (codes "a") ∷ person guest (codes "g") ∷ [];
  joined_at = 1;
}

abbrev guest_revoked : GroupRevocationCertificate
guest_revoked = record {
  group_id = codes "group-000";
  target_peer_id = guest;
  target_public_key = record {
    kty = some (codes "EC");
    crv = some (codes "P-256");
    x = none;
    y = none;
  };
  issuer_peer_id = admin;
  membership_version = 5;
  administrator_epoch = 1;
  message_id = codes "message-5";
  timestamp = 3;
  administrator_grant = none;
  rendezvous_version = none;
  rendezvous_secret = none;
  signature = codes "signed-by-the-administrator";
}

-- The manifest that the administrator sends after the removal of the guest.
abbrev from_admin : LocalGroup
from_admin = record sample_group {
  membership_version = 5;
  manifest_version = 10;
  manifest_actor_peer_id = some admin;
  removed_peer_ids = former ∷ guest ∷ [];
  revocations = guest_revoked ∷ [];
  members = person owner (codes "o") ∷ person admin (codes "a") ∷ [];
}

abbrev after_removal : LocalGroup
after_removal = resolve_local_group_manifest sample_runtime sample_group from_admin admin

admin_removes_guest : has guest (removed_of after_removal) ≡ true
unfolding has removed_of targets resolve_local_group_manifest merge_manifests refuses_sender
    refuses_removals owners_agree find_peer same_public_key option_eq text_eq lacks_certificate
    unique add_all add merged_removed merge_group_revocations put_all put_newer
    valid_group_revocation_certificate is_identifier absent_or values lookup insert sort
    insert_sorted sort_ids text_gt
admin_removes_guest = refl

guest_not_removed : has guest (removed_of sample_group) ≡ false
unfolding has removed_of targets unique add_all add text_eq
guest_not_removed = refl

resolve_certified_example : has guest (targets from_admin.revocations) ≡ true
resolve_certified_example =
    resolve_certified sample_runtime sample_group from_admin admin guest admin_removes_guest
      guest_not_removed

former_removed : has former sample_group.removed_peer_ids ≡ true
unfolding has text_eq
former_removed = refl

admin_is_admin : has admin sample_group.administrator_peer_ids ≡ true
unfolding has text_eq
admin_is_admin = refl

admin_not_removed : has admin (removed_of sample_group) ≡ false
unfolding has removed_of targets unique add_all add text_eq
admin_not_removed = refl

admin_is_not_owner : admin ≢ sample_group.owner_peer_id
unfolding text_eq
admin_is_not_owner = ne_of_text_eq admin owner refl

resolve_protects_example : has admin (removed_of after_removal) ≡ false
resolve_protects_example =
    resolve_protects sample_runtime sample_group from_admin admin admin admin_is_not_owner
      (inr admin_is_admin) admin_not_removed

compare-opposite_example :
    compare_group_manifest_revisions sample_runtime sample_group from_admin
    ≡ opposite (compare_group_manifest_revisions sample_runtime from_admin sample_group)
compare-opposite_example = compare-opposite sample_runtime sample_group from_admin texts_opposite

only_former : (p : Text) → has p sample_group.removed_peer_ids ≡ true → p ≡ former
unfolding has
only_former p h = ground (arith, text_eq_iff former p)

only_admin : (p : Text) → has p sample_group.administrator_peer_ids ≡ true → p ≡ admin
unfolding has
only_admin p h = ground (arith, text_eq_iff admin p)

former_is_no_member : has_peer former sample_group.members ≡ false
unfolding has_peer text_eq
former_is_no_member = refl

admin_is_member : has_peer admin sample_group.members ≡ true
unfolding has_peer text_eq
admin_is_member = refl

owner_not_removed : has owner (removed_of sample_group) ≡ false
unfolding has removed_of targets unique add_all add text_eq
owner_not_removed = refl

sample_group-IsConsistent : IsConsistent sample_group
sample_group-IsConsistent = record {
  apart = λ p h.
      subst (λ q. has_peer q sample_group.members ≡ false) (sym (only_former p h))
        former_is_no_member;
  owner_stays = owner_not_removed;
  administrators = λ p h.
      subst (λ q. (has_peer q sample_group.members ≡ true) × (q ≢ sample_group.owner_peer_id))
        (sym (only_admin p h)) (admin_is_member, admin_is_not_owner);
}

resolve-IsConsistent_example : IsConsistent after_removal
resolve-IsConsistent_example =
    resolve-IsConsistent sample_runtime sample_group from_admin admin sample_group-IsConsistent

resolve_keeps_removed_example :
    (has former
        (resolve_all sample_runtime sample_group ((from_admin, admin) ∷ [])).removed_peer_ids
      ≡ true)
    × (has_peer former (resolve_all sample_runtime sample_group ((from_admin, admin) ∷ [])).members
        ≡ false)
resolve_keeps_removed_example =
    resolve_keeps_removed sample_runtime sample_group ((from_admin, admin) ∷ []) former
      sample_group-IsConsistent former_removed

abbrev saved_or : Result LocalGroup → LocalGroup → LocalGroup
saved_or (ok g) d = g
saved_or (err e) d = d

-- The group after the owner has removed the guest.
abbrev without_guest : LocalGroup
without_guest =
    saved_or (remove_local_group_member sample_host (some sample_group) (some owner) guest)
      sample_group

owner_removes_guest :
    remove_local_group_member sample_host (some sample_group) (some owner) guest ≡ ok without_guest
unfolding remove_local_group_member ◌>>=◌ ◌>>◌ throw_if or_throw can_manage_local_group has text_eq
    find_peer create_group_revocation_certificate own_grant grants_after_removal save_local_group
owner_removes_guest = refl

remove-Removed_example : Removed sample_group without_guest owner guest
remove-Removed_example =
    remove-Removed sample_host sample_group without_guest owner guest owner_removes_guest

abbrev new_key : PublicPeerIdentity
new_key = person guest (codes "another-key")

owner_is_owner : can_manage_local_group sample_group owner ≡ true
unfolding can_manage_local_group has text_eq
owner_is_owner = refl

add-remove_example :
    add_local_group_member sample_host sample_group
      (some without_guest)
      new_key
      (person owner (codes "o"))
    ≡ err identity_revoked
add-remove_example =
    add-remove sample_host sample_host sample_group without_guest sample_group owner new_key
      (person owner (codes "o")) owner_removes_guest owner_is_owner
