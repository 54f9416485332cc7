-- ===== src/Mesh/Blackboard/Newest.antt =====
-- What a write does to the reads that follow (mesh/blackboard.py).
use mathlib.Core.List.{reverse-append}
use autonomous_procurement_s.Prelude.{
  ℕ, suc, ◌+◌, String, ◌≡◌, sym, ap, ◌∙◌, true, Option, some, List, [], ◌∷◌, ◌++◌, reverse, take,
  arith, contains, string_eq,
}
use autonomous_procurement_s.Prelude.Int.{pos}
use autonomous_procurement_s.Prelude.Dict.{lookup, insert, lookup-insert}
use autonomous_procurement_s.Prelude.Exec.{ok}
use autonomous_procurement_s.Prelude.Json.{Fields}
use autonomous_procurement_s.Mesh.Channels.{
  ChannelType, ChannelAcl, channel_eq, channel_beq_iff, check_read_permission,
}
use autonomous_procurement_s.Mesh.Channels.Permissions.{check_read_permission_lem, lookup_acl_total}
use autonomous_procurement_s.Mesh.Blackboard.{ChannelTrace, Blackboard, init, read, write}
use autonomous_procurement_s.Mesh.Blackboard.Reads.{read_lem, read_zero}
use autonomous_procurement_s.Mesh.Blackboard.Writes.{write_lem}
use autonomous_procurement_s.Mesh.Blackboard.Reachable.{Call, performs, performs-init-IsValid}

module _ {N : Type 0} (reader : String) where
  -- From the first blackboard to the second, the channel has one more trace, which every read of
  -- it gives first; all the older ones follow, as far as the limit goes, and a limit of 0 is none.
  pub record Newest (c : ChannelType) (b b' : Blackboard N) (trace : ChannelTrace N) : Type 0 where
    pub older : List (ChannelTrace N)
    pub before : (read reader c (pos 0) b).0 ≡ ok older
    pub unlimited : (read reader c (pos 0) b').0 ≡ ok (trace ∷ older)
    pub limited : (n : ℕ) → (read reader c (pos (suc n)) b').0 ≡ ok (trace ∷ take n older)

  appended-Newest :
      (c : ChannelType) (b : Blackboard N) (ts : List (ChannelTrace N)) (t : ChannelTrace N)
      (acl : ChannelAcl) (writes : ℕ)
      → lookup c b.channels ≡ some ts
      → lookup c b.acls ≡ some acl
      → contains acl.read reader ≡ true
      → Newest c b
          (record b { channels = insert c (ts ++ t ∷ []) b.channels; write_count = writes })
          t
  appended-Newest c b ts t acl writes found acl_found listed =
      let b' : Blackboard N = record b {
        channels = insert c (ts ++ t ∷ []) b.channels;
        write_count = writes;
      } in
      let now : lookup c b'.channels ≡ some (ts ++ t ∷ []) =
        ground (arith, lookup-insert c c (ts ++ t ∷ []) b.channels, channel_beq_iff c c) in
      let turned : reverse (ts ++ t ∷ []) ≡ t ∷ reverse ts = reverse-append ts (t ∷ []) in
      record {
        older = reverse ts;
        before = read_zero reader c b found acl_found listed;
        unlimited = read_zero reader c b' now acl_found listed ∙ ap ok turned;
        limited = λ n.
            ap (λ x. x.0) (read_lem reader c n b' now acl_found listed)
            ∙ ap (λ x. ok (take (suc n) x)) turned;
      }

  -- After any sequence of calls on a new blackboard, if a write returns an id and the reader may
  -- read the channel, then a trace with this id, with the writer's archetype and with the payload
  -- is the first that a read of the channel gives. A read with the limit n + 1 gives the n newest
  -- of the older traces behind it, newest first, and a read with the limit 0 gives them all.
  pub read-write :
      (xs : List (Call N)) (trace_id : String) (now : N) (archetype : String) (c : ChannelType)
      (payload : Fields N) (parents : Option (List String)) (id : String)
      → (write trace_id now archetype c payload parents (performs xs init)).0 ≡ ok id
      → check_read_permission reader c ≡ ok true
      → (trace : ChannelTrace N) × (trace.id ≡ id)
        × (trace.archetype ≡ archetype)
        × (trace.payload ≡ payload)
        × Newest c
            (performs xs init)
            (write trace_id now archetype c payload parents (performs xs init)).1
            trace
  read-write xs trace_id now archetype c payload parents id done may_read =
      let b = performs xs init in
      let v = performs-init-IsValid xs in
      let (same, w) = write_lem trace_id now archetype c payload parents b done in
      let (acl, configured) = lookup_acl_total c in
      let acl_found : lookup c b.acls ≡ some acl = rw v.same_acls configured in
      let check = check_read_permission_lem c reader acl configured in
      let listed : contains acl.read reader ≡ true = ground arith in
      (
        w.trace,
        w.named ∙ sym same,
        w.by,
        w.content,
        rw w.after
            (appended-Newest c b w.traces w.trace acl (b.write_count + 1) w.found acl_found listed),
      )
