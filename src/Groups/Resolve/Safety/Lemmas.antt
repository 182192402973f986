-- ===== src/Groups/Resolve/Safety/Lemmas.antt =====
-- Membership under the list functions of apps/web/src/services/offline/social-storage.ts.
use risk_p2p.Prelude.{
  ℕ, zero, suc, ◌≡◌, refl, sym, ap, ◌∙◌, Bool, true, false, not, ◌&&◌, ◌||◌, List, [], ◌∷◌, ◌++◌,
  arith, any, keep, map, take,
}
use risk_p2p.Prelude.Text.{Text, text_eq, text_eq_iff}
use risk_p2p.Prelude.TextSet.{has, has-keep}
use risk_p2p.Prelude.Map.{Map, insert}
use risk_p2p.Groups.Types.{PublicPeerIdentity, GroupRevocationCertificate, LocalGroup, Runtime}
use risk_p2p.Groups.Identity.{has_peer}
use risk_p2p.Groups.Certificates.{
  merge_group_revocations, sort, insert_sorted, put_newer, put_all, values, max_group_revocations,
  valid_group_revocation_certificate, newer_certificate,
}
use risk_p2p.Groups.Resolve.{
  targets, with_cached_avatar, merged_members, merged_administrators, merged_removed, sort_ids,
}

module _ (le : Text → Text → Bool) (p : Text) where
  has-insert_sorted :
      (x : Text) (xs : List Text) → has p (insert_sorted le x xs) ≡ (text_eq x p || has p xs)
  unfolding insert_sorted has
  has-insert_sorted x [] = refl
  has-insert_sorted x (y ∷ ys) = ground (arith, has-insert_sorted x ys)

  has-sort : (xs : List Text) → has p (sort le xs) ≡ has p xs
  unfolding sort has
  has-sort [] = refl
  has-sort (x ∷ xs) = has-insert_sorted x (sort le xs) ∙ ap (λ b. text_eq x p || b) (has-sort xs)

pub has-sort_ids : (p : Text) (xs : List Text) → has p (sort_ids xs) ≡ has p xs
unfolding sort_ids
has-sort_ids p xs = has-sort _ p xs

module _ (le : PublicPeerIdentity → PublicPeerIdentity → Bool) (p : Text) where
  has_peer-insert_sorted :
      (x : PublicPeerIdentity) (xs : List PublicPeerIdentity)
      → has_peer p (insert_sorted le x xs) ≡ (text_eq x.peer_id p || has_peer p xs)
  unfolding insert_sorted has_peer
  has_peer-insert_sorted x [] = refl
  has_peer-insert_sorted x (y ∷ ys) = ground (arith, has_peer-insert_sorted x ys)

  has_peer-sort : (xs : List PublicPeerIdentity) → has_peer p (sort le xs) ≡ has_peer p xs
  unfolding sort has_peer
  has_peer-sort [] = refl
  has_peer-sort (x ∷ xs) =
      has_peer-insert_sorted x (sort le xs) ∙ ap (λ b. text_eq x.peer_id p || b) (has_peer-sort xs)

has_peer-keep :
    (p : Text) (q : Text → Bool) (xs : List PublicPeerIdentity)
    → has_peer p (keep (λ m. q m.peer_id) xs) ≡ (has_peer p xs && q p)
unfolding has_peer
has_peer-keep p q [] = refl
has_peer-keep p q (x ∷ xs) = ground (arith, has_peer-keep p q xs, text_eq_iff x.peer_id p)

peer_id-cached :
    (runtime : Runtime) (group : LocalGroup) (m : PublicPeerIdentity)
    → (with_cached_avatar runtime group m).peer_id ≡ m.peer_id
unfolding with_cached_avatar
peer_id-cached runtime group m = ground arith

has_peer-map :
    (p : Text) (f : PublicPeerIdentity → PublicPeerIdentity) (xs : List PublicPeerIdentity)
    → ((m : PublicPeerIdentity) → (f m).peer_id ≡ m.peer_id)
    → has_peer p (map f xs) ≡ has_peer p xs
unfolding has_peer
has_peer-map p f [] h = refl
has_peer-map p f (x ∷ xs) h = rw (h x) (ap (λ b. text_eq x.peer_id p || b) (has_peer-map p f xs h))

-- No member of the merge has been removed.
pub has_peer-merged_members :
    (runtime : Runtime) (group incoming : LocalGroup) (p : Text)
    → has p (merged_removed runtime group incoming) ≡ true
    → has_peer p (merged_members runtime group incoming) ≡ false
unfolding merged_members
has_peer-merged_members runtime group incoming p h =
    let removed = merged_removed runtime group incoming in
    has_peer-sort _ p _
    ∙ has_peer-map p (with_cached_avatar runtime group) _ (peer_id-cached runtime group)
    ∙ has_peer-keep p (λ q. not (has q removed)) _
    ∙ ground arith

-- An administrator of the merge is a member of it and not the owner.
pub has-merged_administrators :
    (runtime : Runtime) (group incoming : LocalGroup) (p : Text)
    → has p (merged_administrators runtime group incoming) ≡ true
    → (has_peer p (merged_members runtime group incoming) ≡ true)
      × (text_eq p incoming.owner_peer_id ≡ false)
unfolding merged_administrators
has-merged_administrators runtime group incoming p h =
    let passes = λ (q : Text).
      has_peer q (merged_members runtime group incoming)
      && not (text_eq q incoming.owner_peer_id) in
    let kept = sym (has-sort_ids p _ ∙ has-keep p passes _) ∙ h in (ground arith, ground arith)

has-targets-take :
    (p : Text) (n : ℕ) (cs : List GroupRevocationCertificate)
    → has p (targets (take n cs)) ≡ true
    → has p (targets cs) ≡ true
unfolding targets has
has-targets-take p zero cs h = cc
has-targets-take p (suc n) [] h = h
has-targets-take p (suc n) (c ∷ cs) h = ground (arith, has-targets-take p n cs)

module _ (le : GroupRevocationCertificate → GroupRevocationCertificate → Bool) (p : Text) where
  targets-insert_sorted :
      (x : GroupRevocationCertificate) (xs : List GroupRevocationCertificate)
      → has p (targets (insert_sorted le x xs)) ≡ (text_eq x.target_peer_id p || has p (targets xs))
  unfolding insert_sorted targets has
  targets-insert_sorted x [] = refl
  targets-insert_sorted x (y ∷ ys) = ground (arith, targets-insert_sorted x ys)

  targets-sort :
      (xs : List GroupRevocationCertificate) → has p (targets (sort le xs)) ≡ has p (targets xs)
  unfolding sort targets has
  targets-sort [] = refl
  targets-sort (x ∷ xs) =
      targets-insert_sorted x (sort le xs)
      ∙ ap (λ b. text_eq x.target_peer_id p || b) (targets-sort xs)

targets-insert :
    (p k : Text) (c : GroupRevocationCertificate) (m : Map GroupRevocationCertificate)
    → has p (targets (values (insert k c m))) ≡ true
    → (text_eq c.target_peer_id p || has p (targets (values m))) ≡ true
unfolding insert values targets has
targets-insert p k c [] h = h
targets-insert p k c ((j, d) ∷ m) h = ground (arith, targets-insert p k c m)

targets-put_all :
    (p : Text) (m : Map GroupRevocationCertificate) (cs : List GroupRevocationCertificate)
    → has p (
        targets (
          values (
            put_all valid_group_revocation_certificate
              (λ c. c.target_peer_id)
              newer_certificate
              m
              cs)))
      ≡ true
    → (has p (targets (values m)) || has p (targets cs)) ≡ true
unfolding put_all put_newer targets has
targets-put_all p m [] h = ground arith
targets-put_all p m (c ∷ cs) h = ground (
  arith,
  targets-put_all p
      (put_newer valid_group_revocation_certificate (λ d. d.target_peer_id) newer_certificate m c)
      cs h,
  targets-insert p c.target_peer_id c m,
)

pub targets-append :
    (p : Text) (l r : List GroupRevocationCertificate)
    → has p (targets (l ++ r)) ≡ (has p (targets l) || has p (targets r))
unfolding targets has
targets-append p [] r = refl
targets-append p (c ∷ l) r = ground (arith, targets-append p l r)

-- The merge of certificates names no new target.
pub has-targets_merge :
    (runtime : Runtime) (p : Text) (l r : List GroupRevocationCertificate)
    → has p (targets (merge_group_revocations runtime l r)) ≡ true
    → (has p (targets l) || has p (targets r)) ≡ true
unfolding merge_group_revocations has targets values
has-targets_merge runtime p l r h =
    let all =
      targets-put_all p [] (l ++ r)
        (sym (targets-sort _ p _) ∙ has-targets-take p max_group_revocations _ h) in
    sym (targets-append p l r) ∙ all

-- A test that some element passes holds of the elements.
pub any-has :
    (q : Text → Bool) (p : Text) (xs : List Text) → has p xs ≡ true → any q xs ≡ false → q p ≡ false
unfolding has
any-has q p [] h none_passes = cc
any-has q p (x ∷ xs) h none_passes = ground (arith, any-has q p xs, text_eq_iff x p)

pub any_certificate :
    (p : Text) (cs : List GroupRevocationCertificate)
    → any (λ c. text_eq c.target_peer_id p) cs ≡ has p (targets cs)
unfolding targets has
any_certificate p [] = refl
any_certificate p (c ∷ cs) = ap (λ b. text_eq c.target_peer_id p || b) (any_certificate p cs)
