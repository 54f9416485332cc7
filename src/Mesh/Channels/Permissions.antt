-- ===== src/Mesh/Channels/Permissions.antt =====
-- What the access lists grant, and the two tables between artifact kinds and channels
-- (mesh/channels.py).
use autonomous_procurement_s.Prelude.{
  String, ◌≡◌, refl, Bool, true, false, some, [], ◌∷◌, arith, contains, All, string_eq, eq_iff,
}
use autonomous_procurement_s.Prelude.Exec.{Result, ok}
use autonomous_procurement_s.Mesh.Channels.{
  ChannelType, requirement, discovery, score, risk, deal, decision, ChannelAcl, get_acl,
  check_read_permission, check_write_permission, channel_for_artifact_kind,
  artifact_kinds_for_channel, AclError, lookup, acls_by_channel, channel_acls, channel_eq,
}

-- Every channel has an access list, and it is the one that names the channel.
pub get_acl_total : (c : ChannelType) → (a : ChannelAcl) × (get_acl c ≡ ok a) × (a.channel ≡ c)
unfolding get_acl
get_acl_total requirement = (_, refl, refl)
get_acl_total discovery = (_, refl, refl)
get_acl_total score = (_, refl, refl)
get_acl_total risk = (_, refl, refl)
get_acl_total deal = (_, refl, refl)
get_acl_total decision = (_, refl, refl)

pub lookup_acl_total :
    (c : ChannelType) → (a : ChannelAcl) × (lookup c (acls_by_channel channel_acls) ≡ some a)
unfolding acls_by_channel
lookup_acl_total requirement = (_, refl)
lookup_acl_total discovery = (_, refl)
lookup_acl_total score = (_, refl)
lookup_acl_total risk = (_, refl)
lookup_acl_total deal = (_, refl)
lookup_acl_total decision = (_, refl)

-- The check for reading answers for every channel.
pub check_read_permission_total :
    (archetype : String) (c : ChannelType)
    → (allowed : Bool) × (check_read_permission archetype c ≡ ok allowed)
unfolding check_read_permission
check_read_permission_total archetype requirement = (_, refl)
check_read_permission_total archetype discovery = (_, refl)
check_read_permission_total archetype score = (_, refl)
check_read_permission_total archetype risk = (_, refl)
check_read_permission_total archetype deal = (_, refl)
check_read_permission_total archetype decision = (_, refl)

-- Reading back the kinds of a channel leads to that channel.
pub channel_for_artifact_kind-artifact_kinds_for_channel :
    (c : ChannelType)
    → All (λ k. channel_for_artifact_kind k ≡ some c) (artifact_kinds_for_channel c)
unfolding channel_for_artifact_kind artifact_kinds_for_channel
channel_for_artifact_kind-artifact_kinds_for_channel requirement = (refl, tt)
channel_for_artifact_kind-artifact_kinds_for_channel discovery = (refl, tt)
channel_for_artifact_kind-artifact_kinds_for_channel score = (refl, tt)
channel_for_artifact_kind-artifact_kinds_for_channel risk = (refl, tt)
channel_for_artifact_kind-artifact_kinds_for_channel deal = (refl, tt)
channel_for_artifact_kind-artifact_kinds_for_channel decision = (refl, tt)

module _ (c : ChannelType) (archetype : String) (a : ChannelAcl) where
  -- The two checks read the access list that the blackboard starts from.
  pub check_write_permission_lem :
      lookup c (acls_by_channel channel_acls) ≡ some a
      → check_write_permission archetype c ≡ ok (contains a.write archetype)
  unfolding check_write_permission
  check_write_permission_lem e = ground arith

  pub check_read_permission_lem :
      lookup c (acls_by_channel channel_acls) ≡ some a
      → check_read_permission archetype c ≡ ok (contains a.read archetype)
  unfolding check_read_permission
  check_read_permission_lem e = ground arith

-- An archetype that equals one without the permission does not read.
not_reader :
    (c : ChannelType) (name archetype : String)
    → check_read_permission name c ≡ ok false
    → archetype ≡ name
    → check_read_permission archetype c ≡ ok true
    → ⊥
not_reader c name archetype no_read e r = cc

only_writer :
    (name archetype : String)
    → ◌≡◌ {A = Result AclError Bool} (ok (contains (name ∷ []) archetype)) (ok true)
    → archetype ≡ name
only_writer name archetype h = ground (arith, eq_iff name archetype)

-- Whoever may both write and read a channel is the kernel: no other archetype can read back what
-- it wrote.
pub writer_and_reader-eq-kernel :
    (c : ChannelType) (archetype : String)
    → check_write_permission archetype c ≡ ok true
    → check_read_permission archetype c ≡ ok true
    → archetype ≡ "kernel"
unfolding check_write_permission check_read_permission
writer_and_reader-eq-kernel requirement a w r = only_writer "kernel" a w
writer_and_reader-eq-kernel discovery a w r =
    absurd (not_reader discovery "scout" a refl (only_writer "scout" a w) r)
writer_and_reader-eq-kernel score a w r =
    absurd (not_reader score "evaluator" a refl (only_writer "evaluator" a w) r)
writer_and_reader-eq-kernel risk a w r =
    absurd (not_reader risk "evaluator" a refl (only_writer "evaluator" a w) r)
writer_and_reader-eq-kernel deal a w r =
    absurd (not_reader deal "negotiator" a refl (only_writer "negotiator" a w) r)
writer_and_reader-eq-kernel decision a w r =
    absurd (not_reader decision "buyer" a refl (only_writer "buyer" a w) r)
