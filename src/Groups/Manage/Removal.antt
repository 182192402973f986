-- ===== src/Groups/Manage/Removal.antt =====
-- What a successful removal means (`removeLocalGroupMember` and `addLocalGroupMember` of
-- apps/web/src/services/offline/social-storage.ts).
use risk_p2p.Prelude.{
  ℕ, ◌+◌, ◌≡◌, ◌≢◌, refl, ◌∙◌, Bool, true, false, not, ◌&&◌, ◌||◌, Option, none, some, List, [],
  ◌∷◌, arith, keep, if◌then◌else◌, subst,
}
use risk_p2p.Prelude.Text.{Text, text_eq, text_eq_iff, text_eq_self}
use risk_p2p.Prelude.TextSet.{has, has-append, has-unique, has-keep}
use risk_p2p.Groups.Types.{
  PublicPeerIdentity, GroupAdministratorGrant, GroupRevocationCertificate, LocalGroup,
}
use risk_p2p.Groups.Identity.{same_peer_identity, has_peer}
use risk_p2p.Groups.Resolve.{epoch, rendezvous, find_peer}
use risk_p2p.Groups.Manage.{
  Host, Result, ok, err, GroupError, identity_revoked, ◌>>=◌, ◌>>◌, throw_if, or_throw,
  can_manage_local_group, add_local_group_member, remove_local_group_member, save_local_group,
  next_group_manifest_revision, without_member,
}

find_peer_lem :
    (p : Text) (members : List PublicPeerIdentity) (m : PublicPeerIdentity)
    → find_peer p members ≡ some m
    → text_eq m.peer_id p ≡ true
unfolding find_peer
find_peer_lem p [] m h = cc
find_peer_lem p (x ∷ xs) m h = ground (arith, find_peer_lem p xs m)

-- Whoever has the id of the target is the same identity as the target.
has_peer-without :
    (p : Text) (target : PublicPeerIdentity) (members : List PublicPeerIdentity)
    → text_eq target.peer_id p ≡ true
    → has_peer p (keep (λ m. not (same_peer_identity m target)) members) ≡ false
unfolding has_peer same_peer_identity
has_peer-without p target [] h = refl
has_peer-without p target (m ∷ members) h = ground (
  arith,
  has_peer-without p target members h,
  text_eq_iff target.peer_id p,
  text_eq_iff m.peer_id p,
  text_eq_iff m.peer_id target.peer_id,
)

-- What a removal that succeeds has checked and written.
pub record Removed (group group' : LocalGroup) (self target : Text) : Type 0 where
  pub allowed :
      (text_eq self group.owner_peer_id
        || (has self group.administrator_peer_ids && not (has target group.administrator_peer_ids)))
      ≡ true
  pub not_owner : target ≢ group.owner_peer_id
  pub was_member : has_peer target group.members ≡ true
  pub no_member : has_peer target group'.members ≡ false
  pub no_administrator : has target group'.administrator_peer_ids ≡ false
  pub recorded : has target group'.removed_peer_ids ≡ true
  pub version : group'.membership_version ≡ group.membership_version + 1
  pub epoch_moves :
      epoch group' ≡ epoch group + (if has target group.administrator_peer_ids then 1 else 0)
  pub secret_moves : rendezvous group' ≡ rendezvous group + 1
  pub same_owner : group'.owner_peer_id ≡ group.owner_peer_id

find_peer-has :
    (p : Text) (members : List PublicPeerIdentity) (m : PublicPeerIdentity)
    → find_peer p members ≡ some m
    → has_peer p members ≡ true
unfolding find_peer has_peer
find_peer-has p [] m h = cc
find_peer-has p (x ∷ xs) m h = ground (arith, find_peer-has p xs m)

throw_ok {ℓ} :
    {B : Type ℓ} (failed : Bool) (e : GroupError) (k : Result B) (b : B)
    → (throw_if failed e >> k) ≡ ok b
    → (failed ≡ false) × (k ≡ ok b)
unfolding ◌>>◌ throw_if ◌>>=◌
throw_ok true e k b h = cc
throw_ok false e k b h = (refl, h)

or_throw_ok {ℓ κ} :
    {A : Type ℓ} {B : Type κ} (o : Option A) (e : GroupError) (f : A → Result B) (b : B)
    → (or_throw o e >>= f) ≡ ok b
    → (a : A) × (o ≡ some a) × (f a ≡ ok b)
unfolding or_throw ◌>>=◌
or_throw_ok none e f b h = cc
or_throw_ok (some a) e f b h = (a, refl, h)

some_ok {ℓ κ} :
    {A : Type ℓ} {B : Type κ} (a : A) (e : GroupError) (f : A → Result B) (b : B)
    → (or_throw (some a) e >>= f) ≡ ok b
    → f a ≡ ok b
unfolding or_throw ◌>>=◌
some_ok a e f b h = h

bind_ok {ℓ κ} :
    {A : Type ℓ} {B : Type κ} (m : Result A) (f : A → Result B) (b : B)
    → (m >>= f) ≡ ok b
    → (a : A) × (m ≡ ok a) × (f a ≡ ok b)
unfolding ◌>>=◌
bind_ok (ok a) f b h = (a, refl, h)
bind_ok (err e) f b h = cc

save_ok :
    (host : Host) (group saved : LocalGroup)
    → save_local_group host group ≡ ok saved
    → group ≡ saved
unfolding save_local_group
save_ok host group saved h = ground (arith, h)

has_one : (p : Text) → has p (p ∷ []) ≡ true
unfolding has
has_one p = ground (arith, text_eq_self p)

module _ (host : Host) where
  abbrev new_epoch : LocalGroup → Text → ℕ
  new_epoch group target = epoch group + (if has target group.administrator_peer_ids then 1 else 0)

  without-Removed :
      (group : LocalGroup) (self : Text) (m : PublicPeerIdentity) (target : Text)
      (certificate : GroupRevocationCertificate) (grants : List GroupAdministratorGrant)
      → find_peer target group.members ≡ some m
      → not (can_manage_local_group group self) ≡ false
      → text_eq target group.owner_peer_id ≡ false
      → (has target group.administrator_peer_ids && not (text_eq self group.owner_peer_id)) ≡ false
      → Removed group
          (without_member host group self m target (new_epoch group target) certificate grants)
          self
          target
  unfolding without_member next_group_manifest_revision can_manage_local_group
  without-Removed group self m target certificate grants found manages ne by_owner = record {
    allowed =
        ground (arith, text_eq_iff self group.owner_peer_id, text_eq_iff group.owner_peer_id self);
    not_owner = λ e. ground (arith, text_eq_iff target group.owner_peer_id);
    was_member = find_peer-has target group.members m found;
    no_member =
        has_peer-without target m group.members (find_peer_lem target group.members m found);
    no_administrator =
        has-keep target (λ p. not (text_eq p target)) group.administrator_peer_ids
        ∙ ground (arith, text_eq_self target);
    recorded =
        has-unique target _
        ∙ has-append target group.removed_peer_ids (target ∷ [])
        ∙ ground (arith, has_one target);
    version = refl;
    epoch_moves = refl;
    secret_moves = refl;
    same_owner = refl;
  }

  -- A removal that succeeds was made by the owner, or by an administrator of someone who is none, and
  -- never of the owner. The target was a member; it is no member and no administrator any more, and
  -- its removal is recorded. The membership version and the rendezvous version grow by one, and the
  -- administrators' epoch does exactly if the target was one of them.
  pub remove-Removed :
      (group group' : LocalGroup) (self target : Text)
      → remove_local_group_member host (some group) (some self) target ≡ ok group'
      → Removed group group' self target
  unfolding remove_local_group_member
  remove-Removed group group' self target h =
      let manages = throw_ok _ _ _ _ (some_ok _ _ _ _ (some_ok _ _ _ _ h)) in
      let not_owner = throw_ok _ _ _ _ manages.1 in
      let by_owner = throw_ok _ _ _ _ not_owner.1 in
      let (m, found, rest) = or_throw_ok _ _ _ _ by_owner.1 in
      let room = throw_ok _ _ _ _ rest in
      let (certificate, _, certified) = bind_ok _ _ _ room.1 in
      let (grants, _, saved) = bind_ok _ _ _ certified in
      subst (λ g. Removed group g self target) (save_ok host _ _ saved)
        (without-Removed group self m target certificate grants found manages.0 not_owner.0
          by_owner.0)

  -- While the store holds the manifest that a removal has returned, the id that was removed cannot be
  -- added, whatever metadata, which may be older, an administrator by that metadata comes with.
  pub add-remove :
      (later : Host) (group group' metadata : LocalGroup) (self : Text)
      (member owner : PublicPeerIdentity)
      → remove_local_group_member host (some group) (some self) member.peer_id ≡ ok group'
      → can_manage_local_group metadata owner.peer_id ≡ true
      → add_local_group_member later metadata (some group') member owner ≡ err identity_revoked
  unfolding add_local_group_member ◌>>◌ ◌>>=◌ throw_if or_throw
  add-remove later group group' metadata self member owner h manages =
      let r = remove-Removed group group' self member.peer_id h in ground (arith, r.recorded)
