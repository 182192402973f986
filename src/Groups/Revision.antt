-- ===== src/Groups/Revision.antt =====
-- apps/web/src/services/offline/social-storage.ts: which of two manifests is the later revision.
use risk_p2p.Prelude.{ℕ, ◌≡◌, arith, ltb, if◌then◌else◌}
use risk_p2p.Prelude.Text.{Text, text_eq}
use risk_p2p.Groups.Types.{LocalGroup, Runtime, Sign, below, same, above, or_else}

-- The sign of `a - b`
unfoldable pub compare_numbers : ℕ → ℕ → Sign
compare_numbers a b = if ltb a b then below else if ltb b a then above else same

abbrev pub actor : LocalGroup → Text
actor g = or_else g.manifest_actor_peer_id g.owner_peer_id

unfoldable pub owner_priority : LocalGroup → ℕ
owner_priority g = if text_eq (actor g) g.owner_peer_id then 1 else 0

abbrev pub operation : Runtime → LocalGroup → Text
operation runtime g = or_else g.manifest_operation_id (runtime.legacy_operation g.manifest_version)

-- `a` where it is not 0, else `b`
abbrev pub then_by : Sign → Sign → Sign
then_by same s = s
then_by below s = below
then_by above s = above

unfoldable pub compare_group_manifest_revisions : Runtime → LocalGroup → LocalGroup → Sign
unfolding compare_numbers owner_priority
compare_group_manifest_revisions runtime left right =
    then_by (compare_numbers left.manifest_version right.manifest_version) (
      then_by (compare_numbers (owner_priority left) (owner_priority right)) (
        then_by (runtime.locale_compare (actor left) (actor right))
          (runtime.locale_compare (operation runtime left) (operation runtime right))))

abbrev pub opposite : Sign → Sign
opposite below = above
opposite same = same
opposite above = below

numbers_opposite : (a b : ℕ) → compare_numbers a b ≡ opposite (compare_numbers b a)
unfolding compare_numbers
numbers_opposite a b = ground arith

then_opposite :
    (s t s' t' : Sign) → s ≡ opposite s' → t ≡ opposite t' → then_by s t ≡ opposite (then_by s' t')
then_opposite s t s' t' p q = ground arith

-- Two members that compare the same two revisions from either side agree on which is later, given
-- that `localeCompare` changes its sign with the order of its arguments.
pub compare-opposite :
    (runtime : Runtime) (left right : LocalGroup)
    → ((a b : Text) → runtime.locale_compare a b ≡ opposite (runtime.locale_compare b a))
    → compare_group_manifest_revisions runtime left right
      ≡ opposite (compare_group_manifest_revisions runtime right left)
unfolding compare_group_manifest_revisions
compare-opposite runtime left right h =
    then_opposite _ _ _ _ (numbers_opposite left.manifest_version right.manifest_version) (
      then_opposite _ _ _ _ (numbers_opposite (owner_priority left) (owner_priority right)) (
        then_opposite _ _ _ _ (h (actor left) (actor right))
          (h (operation runtime left) (operation runtime right))))
