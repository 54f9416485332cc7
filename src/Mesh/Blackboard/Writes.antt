-- ===== src/Mesh/Blackboard/Writes.antt =====
-- The branches of a write (mesh/blackboard.py).
use autonomous_procurement_s.Prelude.{
  String, ◌≡◌, refl, true, false, Option, some, List, [], ◌∷◌, ◌++◌, arith, contains, ◌+◌,
  string_eq, inl, inr, Option-cases,
}
use autonomous_procurement_s.Prelude.Dict.{lookup, insert}
use autonomous_procurement_s.Prelude.Exec.{ok, err, Result-cases}
use autonomous_procurement_s.Prelude.Json.{Fields, get_field}
use autonomous_procurement_s.Mesh.Channels.{ChannelType, ChannelAcl, channel_eq}
use autonomous_procurement_s.Mesh.Blackboard.{
  BoardError, permission_error, ChannelTrace, Blackboard, write, correlation_of, or_empty,
}

module _ {N : Type 0} where
  -- A write that raises leaves the blackboard as it was.
  pub write_error_unchanged :
      (trace_id : String) (now : N) (archetype : String) (c : ChannelType) (payload : Fields N)
      (parents : Option (List String)) (b : Blackboard N) {e : BoardError}
      → (write trace_id now archetype c payload parents b).0 ≡ err e
      → (write trace_id now archetype c payload parents b).1 ≡ b
  unfolding write
  write_error_unchanged trace_id now archetype c payload parents b h = ground arith

  -- A write by an archetype that the access list of the channel does not name is refused.
  pub write_denied :
      (trace_id : String) (now : N) (archetype : String) (c : ChannelType) (payload : Fields N)
      (parents : Option (List String)) (b : Blackboard N) {ts : List (ChannelTrace N)}
      {acl : ChannelAcl}
      → lookup c b.channels ≡ some ts
      → lookup c b.acls ≡ some acl
      → contains acl.write archetype ≡ false
      → write trace_id now archetype c payload parents b ≡ (err permission_error, b)
  unfolding write
  write_denied trace_id now archetype c payload parents b found acl_found no_entry = ground arith

  -- The second blackboard is the first with one more trace in the channel and one more write
  -- counted; the trace carries the call's id, archetype and payload, and the access list of the
  -- channel names the archetype as a writer.
  pub record Appended (trace_id archetype : String) (c : ChannelType) (payload : Fields N)
      (b b' : Blackboard N) : Type 0 where
    pub acl : ChannelAcl
    pub traces : List (ChannelTrace N)
    pub trace : ChannelTrace N
    pub acl_found : lookup c b.acls ≡ some acl
    pub listed : contains acl.write archetype ≡ true
    pub found : lookup c b.channels ≡ some traces
    pub named : trace.id ≡ trace_id
    pub by : trace.archetype ≡ archetype
    pub content : trace.payload ≡ payload
    pub after : b' ≡ record b {
      channels = insert c (traces ++ trace ∷ []) b.channels;
      write_count = b.write_count + 1;
    }

  -- A write that returns gives the id of its trace and has appended one trace, by an archetype
  -- that the access list of the channel names as a writer; every other channel is as before.
  pub write_lem :
      (trace_id : String) (now : N) (archetype : String) (c : ChannelType) (payload : Fields N)
      (parents : Option (List String)) (b : Blackboard N) {id : String}
      → (write trace_id now archetype c payload parents b).0 ≡ ok id
      → (id ≡ trace_id)
        × Appended trace_id archetype c payload b
            (write trace_id now archetype c payload parents b).1
  unfolding write
  write_lem trace_id now archetype c payload parents b {id} h =
      elim (Option-cases (lookup c b.channels)) [
        | inl no_channel ↦ absurd (ground arith)
        | inr (ts, found) ↦ elim (Option-cases (lookup c b.acls)) [
          | inl no_acl ↦ absurd (ground arith)
          | inr (acl, acl_found) ↦
              elim (Result-cases (correlation_of (get_field "correlation_id" payload))) [
                | inr (e, bad) ↦ absurd (ground arith)
                | inl (cid, valid) ↦ (
                  ground arith,
                  record {
                    acl = acl;
                    traces = ts;
                    trace = record {
                      id = trace_id;
                      timestamp = now;
                      archetype = archetype;
                      payload = payload;
                      parent_ids = or_empty parents;
                      correlation_id = cid;
                    };
                    acl_found = acl_found;
                    listed = ground arith;
                    found = found;
                    named = refl;
                    by = refl;
                    content = refl;
                    after = ground arith;
                  },
                )
              ]
        ]
      ]
