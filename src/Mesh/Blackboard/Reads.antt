-- ===== src/Mesh/Blackboard/Reads.antt =====
-- The branches of a read (mesh/blackboard.py).
use autonomous_procurement_s.Prelude.{
  String, ◌≡◌, true, false, some, List, reverse, arith, contains, ◌+◌, string_eq, suc, take,
}
use autonomous_procurement_s.Prelude.Int.{ℤ, pos}
use autonomous_procurement_s.Prelude.Slices.{reverse-drop}
use autonomous_procurement_s.Prelude.Dict.{lookup}
use autonomous_procurement_s.Prelude.Exec.{ok, err}
use autonomous_procurement_s.Mesh.Channels.{ChannelType, ChannelAcl, channel_eq}
use autonomous_procurement_s.Mesh.Blackboard.{permission_error, ChannelTrace, Blackboard, read, ℕ}

module _ {N : Type 0} where
  -- A read with a positive limit, by an archetype that the access list names, returns the newest
  -- traces of the channel, newest first and at most `limit` of them, and changes nothing but the
  -- count of reads.
  pub read_lem :
      (archetype : String) (c : ChannelType) (n : ℕ) (b : Blackboard N) {ts : List (ChannelTrace N)}
      {acl : ChannelAcl}
      → lookup c b.channels ≡ some ts
      → lookup c b.acls ≡ some acl
      → contains acl.read archetype ≡ true
      → read archetype c (pos (suc n)) b
        ≡ (ok (take (suc n) (reverse ts)), record b { read_count = b.read_count + 1 })
  unfolding read
  read_lem archetype c n b {ts} found acl_found listed = ground (arith, reverse-drop (suc n) ts)

  -- A read with the limit 0, by an archetype that the access list names, is not empty: it returns
  -- every trace of the channel, newest first.
  pub read_zero :
      (archetype : String) (c : ChannelType) (b : Blackboard N) {ts : List (ChannelTrace N)}
      {acl : ChannelAcl}
      → lookup c b.channels ≡ some ts
      → lookup c b.acls ≡ some acl
      → contains acl.read archetype ≡ true
      → (read archetype c (pos 0) b).0 ≡ ok (reverse ts)
  unfolding read
  read_zero archetype c b found acl_found listed = ground arith

  -- A read by an archetype that the access list does not name is refused and changes nothing.
  pub read_denied :
      (archetype : String) (c : ChannelType) (limit : ℤ) (b : Blackboard N)
      {ts : List (ChannelTrace N)} {acl : ChannelAcl}
      → lookup c b.channels ≡ some ts
      → lookup c b.acls ≡ some acl
      → contains acl.read archetype ≡ false
      → read archetype c limit b ≡ (err permission_error, b)
  unfolding read
  read_denied archetype c limit b found acl_found unlisted = ground arith

  module _ (archetype : String) (c : ChannelType) (limit : ℤ) (b : Blackboard N) where
    -- Whatever a read returns, the traces and the access lists are as before.
    pub channels-read : (read archetype c limit b).1.channels ≡ b.channels
    unfolding read
    channels-read = ground arith

    pub acls-read : (read archetype c limit b).1.acls ≡ b.acls
    unfolding read
    acls-read = ground arith
