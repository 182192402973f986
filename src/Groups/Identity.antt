-- ===== src/Groups/Identity.antt =====
-- apps/web/src/services/offline/social-storage.ts: when two identities are the same, and lists of
-- members without doubles.
use risk_p2p.Prelude.{
  ℕ, Bool, true, false, ◌&&◌, ◌||◌, Option, none, some, List, [], ◌∷◌, leb, length, all,
  if◌then◌else◌,
}
use risk_p2p.Prelude.Text.{Text, text_eq, codes, is_word_dash}
use risk_p2p.Groups.Types.{PublicKey, PublicPeerIdentity, Runtime}

-- `a === b` for optional strings
unfoldable pub option_eq : Option Text → Option Text → Bool
option_eq none none = true
option_eq (some a) (some b) = text_eq a b
option_eq _ _ = false

unfoldable pub same_public_key : PublicKey → PublicKey → Bool
unfolding option_eq
same_public_key l r =
    option_eq l.kty r.kty && option_eq l.crv r.crv && option_eq l.x r.x && option_eq l.y r.y

unfoldable pub same_peer_identity : PublicPeerIdentity → PublicPeerIdentity → Bool
same_peer_identity l r = text_eq l.peer_id r.peer_id || same_public_key l.public_key r.public_key

-- /^[A-Za-z0-9_-]{low,high}$/
unfoldable pub is_identifier : ℕ → ℕ → Text → Bool
is_identifier low high s = leb low (length s) && leb (length s) high && all is_word_dash s

unfoldable pub valid_opaque_id : Option Text → Bool
unfolding is_identifier
valid_opaque_id none = false
valid_opaque_id (some s) = is_identifier 8 128 s

coordinate : Option Text → Bool
coordinate none = false
coordinate (some s) = is_identifier 1 128 s

unfoldable pub valid_p256_public_key : PublicKey → Bool
unfolding option_eq is_identifier coordinate
valid_p256_public_key key =
    option_eq key.kty (some (codes "EC"))
    && option_eq key.crv (some (codes "P-256"))
    && coordinate key.x
    && coordinate key.y

module _ (runtime : Runtime) where
  unfoldable pub valid_public_peer_identity : PublicPeerIdentity → Bool
  valid_public_peer_identity identity =
      is_identifier 8 128 identity.peer_id
      && leb 2 (length (runtime.trim identity.display_name))
      && leb (length identity.display_name) 80
      && valid_p256_public_key identity.public_key

  -- The `else` branches of the loop body, at the first element that is the same identity.
  unfoldable pub merge_member :
      Option PublicPeerIdentity
      → PublicPeerIdentity
      → List PublicPeerIdentity
      → List PublicPeerIdentity
  merge_member preferred member [] = member ∷ []
  merge_member preferred member (existing ∷ unique) =
      let rest = merge_member preferred member unique in
      let profile = record existing {
        display_name = member.display_name;
        avatar = member.avatar;
      } in
      let renewed =
        if same_public_key existing.public_key member.public_key
        then profile ∷ unique
        else existing ∷ unique in
      if same_peer_identity existing member
      then elim preferred [
        | none ↦ renewed
        | some p ↦ if same_peer_identity member p then p ∷ unique else renewed
      ]
      else existing ∷ rest

  unfoldable pub dedupe_from :
      Option PublicPeerIdentity
      → List PublicPeerIdentity
      → List PublicPeerIdentity
      → List PublicPeerIdentity
  dedupe_from preferred unique [] = unique
  dedupe_from preferred unique (member ∷ members) =
      dedupe_from preferred
        (if valid_public_peer_identity member then merge_member preferred member unique else unique)
        members

  unfoldable pub dedupe_peer_identities :
      List PublicPeerIdentity → Option PublicPeerIdentity → List PublicPeerIdentity
  dedupe_peer_identities members preferred = dedupe_from preferred [] members

-- The first member that is the same identity is replaced; else the member is appended.
unfoldable pub upsert_group_member_identity :
    List PublicPeerIdentity → PublicPeerIdentity → List PublicPeerIdentity
upsert_group_member_identity [] member = member ∷ []
upsert_group_member_identity (candidate ∷ members) member =
    let rest = upsert_group_member_identity members member in
    if same_peer_identity candidate member then member ∷ members else candidate ∷ rest

-- `members.some((member) => member.peerId === peerId)`
unfoldable pub has_peer : Text → List PublicPeerIdentity → Bool
has_peer peer_id [] = false
has_peer peer_id (member ∷ members) = text_eq member.peer_id peer_id || has_peer peer_id members
