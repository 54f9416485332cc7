-- ===== src/Mesh/Blackboard/Privacy.antt =====
-- What an archetype learns of the channels that it may not read (mesh/blackboard.py).
use autonomous_procurement_s.Prelude.{
  String, ◌≡◌, refl, true, false, Option, some, List, [], ◌∷◌, ◌++◌, arith, contains, is_some,
  string_eq, inl, inr, Option-cases,
}
use autonomous_procurement_s.Prelude.Int.{ℤ}
use autonomous_procurement_s.Prelude.Dict.{Dict, lookup, insert, lookup-insert}
use autonomous_procurement_s.Prelude.Exec.{Result-cases}
use autonomous_procurement_s.Prelude.Json.{Fields}
use autonomous_procurement_s.Mesh.Channels.{
  ChannelType, channel_types, ChannelAcl, channel_eq, channel_beq_iff,
}
use autonomous_procurement_s.Mesh.Blackboard.{
  ChannelTrace, Blackboard, read, write, read_each, read_multi, read_all, accessible,
}
use autonomous_procurement_s.Mesh.Blackboard.Reads.{channels-read, acls-read}
use autonomous_procurement_s.Mesh.Blackboard.Writes.{write_lem, write_error_unchanged}

module _ {N : Type 0} where
  -- The blackboards have the same access lists, the same channels, and the same traces wherever
  -- the archetype is a reader.
  pub record Agree (archetype : String) (b b' : Blackboard N) : Type 0 where
    pub same_acls : (c : ChannelType) → lookup c b.acls ≡ lookup c b'.acls
    pub same_keys :
        (c : ChannelType) → is_some (lookup c b.channels) ≡ is_some (lookup c b'.channels)
    pub same_traces :
        (c : ChannelType) (acl : ChannelAcl)
        → lookup c b.acls ≡ some acl
        → contains acl.read archetype ≡ true
        → lookup c b.channels ≡ lookup c b'.channels

  module _ (archetype : String) (c : ChannelType) (limit : ℤ) (b b' : Blackboard N) where
    read-Agree : Agree archetype b b' → (read archetype c limit b).0 ≡ (read archetype c limit b').0
    unfolding read
    read-Agree h = elim (Option-cases (lookup c b.acls)) [
      | inl no_acl ↦ ground (arith, h.same_acls c, h.same_keys c)
      | inr (acl, e) ↦ ground (arith, h.same_acls c, h.same_keys c, h.same_traces c acl)
    ]

    Agree-read :
        Agree archetype b b'
        → Agree archetype (read archetype c limit b).1 (read archetype c limit b').1
    Agree-read h = record {
      same_acls =
          λ d. rw (acls-read archetype c limit b, acls-read archetype c limit b') (h.same_acls d);
      same_keys = λ d.
          rw (channels-read archetype c limit b, channels-read archetype c limit b')
            (h.same_keys d);
      same_traces = λ d acl e r.
          rw (channels-read archetype c limit b, channels-read archetype c limit b')
            (h.same_traces d acl (rw (acls-read archetype c limit b) at e) r);
    }

  read_each-Agree :
      (archetype : String) (limit : ℤ) (cs : List ChannelType)
      (result : Dict ChannelType (List (ChannelTrace N))) (b b' : Blackboard N)
      → Agree archetype b b'
      → (read_each archetype limit cs result b).0 ≡ (read_each archetype limit cs result b').0
  unfolding read_each
  read_each-Agree archetype limit [] result b b' h = refl
  read_each-Agree archetype limit (c ∷ cs) result b b' h =
      let same = read-Agree archetype c limit b b' h in
      elim (Result-cases (read archetype c limit b).0) [
        | inl (ts, e) ↦
            let rest =
              read_each-Agree archetype limit cs (insert c ts result) (read archetype c limit b).1
                (read archetype c limit b').1 (Agree-read archetype c limit b b' h) in
            ground arith
        | inr (x, e) ↦ ground arith
      ]

  -- What an archetype gets from reading several channels, an error included, depends only on the
  -- channels that it may read.
  pub read_multi-Agree :
      (archetype : String) (cs : List ChannelType) (limit : ℤ) (b b' : Blackboard N)
      → Agree archetype b b'
      → (read_multi archetype cs limit b).0 ≡ (read_multi archetype cs limit b').0
  unfolding read_multi
  read_multi-Agree archetype cs limit b b' h = read_each-Agree archetype limit cs [] b b' h

  -- A write into a channel that the archetype may not read leaves its view as it was.
  pub write-Agree :
      (reader trace_id : String) (now : N) (writer : String) (c : ChannelType) (payload : Fields N)
      (parents : Option (List String)) (b : Blackboard N) {acl : ChannelAcl}
      → lookup c b.acls ≡ some acl
      → contains acl.read reader ≡ false
      → Agree reader b (write trace_id now writer c payload parents b).1
  write-Agree reader trace_id now writer c payload parents b {acl} e hidden =
      elim (Result-cases (write trace_id now writer c payload parents b).0) [
        | inr (x, failed) ↦
            rw (write_error_unchanged trace_id now writer c payload parents b failed) (record {
              same_acls = λ d. refl;
              same_keys = λ d. refl;
              same_traces = λ d a p r. refl;
            })
        | inl (id, done) ↦
            let w = (write_lem trace_id now writer c payload parents b done).1 in
            rw w.after (record {
              same_acls = λ d. refl;
              same_keys = λ d. ground (
                arith,
                lookup-insert c d (w.traces ++ w.trace ∷ []) b.channels,
                channel_beq_iff c d,
              );
              same_traces = λ d a' p r. ground (
                arith,
                lookup-insert c d (w.traces ++ w.trace ∷ []) b.channels,
                channel_beq_iff c d,
              );
            })
      ]

  -- Whatever is written into a channel that an archetype may not read, by whomever, its
  -- `read_all` answers as if nothing had been written.
  pub read_all-write :
      (reader trace_id : String) (now : N) (writer : String) (c : ChannelType) (payload : Fields N)
      (parents : Option (List String)) (limit : ℤ) (b : Blackboard N) {acl : ChannelAcl}
      → lookup c b.acls ≡ some acl
      → contains acl.read reader ≡ false
      → (read_all reader limit (write trace_id now writer c payload parents b).1).0
        ≡ (read_all reader limit b).0
  unfolding read_all
  read_all-write reader trace_id now writer c payload parents limit b e hidden =
      elim (Result-cases (accessible reader channel_types)) [
        | inl (cs, found) ↦
            let same =
              read_multi-Agree reader cs limit b (write trace_id now writer c payload parents b).1
                (write-Agree reader trace_id now writer c payload parents b e hidden) in
            ground arith
        | inr (x, failed) ↦ ground arith
      ]
