-- ===== src/Groups/Certificates.antt =====
-- apps/web/src/services/offline/social-storage.ts: the form of grants and revocation certificates,
-- and their merges. What the type checker grants (a string is a string) is not checked again here.
use risk_p2p.Prelude.{
  ℕ, Bool, true, false, ◌&&◌, ◌||◌, Option, none, some, List, [], ◌∷◌, ◌++◌, ltb, leb, ◌==◌, take,
  if◌then◌else◌,
}
use risk_p2p.Prelude.Text.{Text}
use risk_p2p.Prelude.Map.{Map, lookup, insert}
use risk_p2p.Groups.Types.{GroupAdministratorGrant, GroupRevocationCertificate, Runtime, above}
use risk_p2p.Groups.Identity.{is_identifier, valid_p256_public_key}

abbrev pub max_group_members : ℕ
max_group_members = 48

abbrev pub max_group_revocations : ℕ
max_group_revocations = 48

unfoldable pub valid_group_administrator_grant : GroupAdministratorGrant → Bool
valid_group_administrator_grant grant =
    is_identifier 8 128 grant.group_id
    && is_identifier 8 128 grant.administrator_peer_id
    && is_identifier 8 128 grant.owner_peer_id
    && valid_p256_public_key grant.administrator_public_key
    && leb 1 grant.administrator_epoch
    && is_identifier 8 128 grant.message_id
    && ltb 0 grant.timestamp
    && is_identifier 16 256 grant.signature

-- `value === undefined || p(value)`
unfoldable pub absent_or {ℓ} : {A : Type ℓ} → (A → Bool) → Option A → Bool
absent_or p none = true
absent_or p (some a) = p a

unfoldable pub valid_group_revocation_certificate : GroupRevocationCertificate → Bool
valid_group_revocation_certificate certificate =
    is_identifier 8 128 certificate.group_id
    && is_identifier 8 128 certificate.target_peer_id
    && is_identifier 8 128 certificate.issuer_peer_id
    && leb 1 certificate.membership_version
    && leb 1 certificate.administrator_epoch
    && is_identifier 8 128 certificate.message_id
    && ltb 0 certificate.timestamp
    && absent_or valid_group_administrator_grant certificate.administrator_grant
    && absent_or (leb 1) certificate.rendezvous_version
    && absent_or (is_identifier 8 128) certificate.rendezvous_secret
    && is_identifier 16 256 certificate.signature

-- `a > b` on strings compares code units.
unfoldable pub text_gt : Text → Text → Bool
text_gt [] t = false
text_gt (x ∷ s) [] = true
text_gt (x ∷ s) (y ∷ t) = ltb y x || (x == y && text_gt s t)

-- The later of two versions, by its message id at a tie.
unfoldable pub newer : ℕ → Text → ℕ → Text → Bool
newer version message_id than than_id =
    ltb than version || (version == than && text_gt message_id than_id)

unfoldable pub newer_certificate : GroupRevocationCertificate → GroupRevocationCertificate → Bool
unfolding newer
newer_certificate certificate current =
    newer certificate.membership_version certificate.message_id current.membership_version
      current.message_id

unfoldable pub newer_grant : GroupAdministratorGrant → GroupAdministratorGrant → Bool
unfolding newer
newer_grant grant current =
    newer grant.administrator_epoch grant.message_id current.administrator_epoch current.message_id

-- One round of either loop: a valid entry takes its key where it is new or newer.
module _ {ℓ} {A : Type ℓ} (valid : A → Bool) (key : A → Text) (newer_than : A → A → Bool) where
  unfoldable pub put_newer : Map A → A → Map A
  put_newer m a =
      if valid a
      then elim (lookup (key a) m) [
        | none ↦ insert (key a) a m
        | some current ↦ if newer_than a current then insert (key a) a m else m
      ]
      else m

  unfoldable pub put_all : Map A → List A → Map A
  put_all m [] = m
  put_all m (a ∷ as') = put_all (put_newer m a) as'

-- `[...map.values()]`
unfoldable pub values {ℓ} : {A : Type ℓ} → Map A → List A
values [] = []
values ((k, a) ∷ m) = a ∷ values m

-- `sort` with a comparison, which keeps the order of equals: `le a b` says that `a` may stand first.
module _ {ℓ} {A : Type ℓ} (le : A → A → Bool) where
  unfoldable pub insert_sorted : A → List A → List A
  insert_sorted a [] = a ∷ []
  insert_sorted a (b ∷ bs) =
      let rest = insert_sorted a bs in if le a b then a ∷ b ∷ bs else b ∷ rest

  unfoldable pub sort : List A → List A
  sort [] = []
  sort (a ∷ rest) = insert_sorted a (sort rest)

-- `a.localeCompare(b) <= 0`
unfoldable pub locale_le : Runtime → Text → Text → Bool
locale_le runtime a b = elim (runtime.locale_compare a b) [ above ↦ false | _ ↦ true ]

module _ (runtime : Runtime) where
  unfoldable pub merge_group_revocations :
      List GroupRevocationCertificate
      → List GroupRevocationCertificate
      → List GroupRevocationCertificate
  merge_group_revocations left right =
      let by_target =
        put_all valid_group_revocation_certificate (λ c. c.target_peer_id) newer_certificate []
          (left ++ right) in
      take max_group_revocations
        (sort (λ a b. locale_le runtime a.target_peer_id b.target_peer_id) (values by_target))

  unfoldable pub merge_administrator_grants :
      List GroupAdministratorGrant → List GroupAdministratorGrant → List GroupAdministratorGrant
  merge_administrator_grants left right =
      let by_administrator =
        put_all valid_group_administrator_grant (λ g. g.administrator_peer_id) newer_grant []
          (left ++ right) in
      take max_group_members (
        sort (λ a b. locale_le runtime a.administrator_peer_id b.administrator_peer_id)
          (values by_administrator))
