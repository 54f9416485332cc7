-- ===== src/Mesh/Blackboard/Reachable.antt =====
-- The blackboard after any sequence of calls (mesh/blackboard.py). The actor serialises the calls,
-- so a run is a list of them.
use mathlib.Core.Path.{subst₂}
use autonomous_procurement_s.Prelude.{
  ◌+◌, if◌then◌else◌, ℕ, String, ◌≡◌, refl, true, Option, none, some, List, [], ◌∷◌, ◌++◌, arith,
  contains, is_some, string_eq, inl, inr, Option-cases, Bool-cases, ap, ◌∙◌, All, All-append,
}
use autonomous_procurement_s.Prelude.Int.{ℤ}
use autonomous_procurement_s.Prelude.Dict.{Dict, lookup, insert, lookup-insert}
use autonomous_procurement_s.Prelude.Exec.{◌>>=◌, ok, Result-cases}
use autonomous_procurement_s.Prelude.Json.{Fields}
use autonomous_procurement_s.Mesh.Channels.{
  ChannelType, channel_types, requirement, discovery, score, risk, deal, decision, ChannelAcl,
  channel_acls, acls_by_channel, channel_eq, channel_beq_iff, check_write_permission,
}
use autonomous_procurement_s.Mesh.Blackboard.{
  ChannelTrace, Blackboard, init, read, write, read_each, read_multi, read_all, accessible,
  clear_channel, clear_all, emptied,
}
use autonomous_procurement_s.Mesh.Blackboard.Reads.{channels-read, acls-read}
use autonomous_procurement_s.Mesh.Channels.Permissions.{check_write_permission_lem}
use autonomous_procurement_s.Mesh.Blackboard.Writes.{write_lem, write_error_unchanged}

module _ (N : Type 0) where
  -- A call of one of the actor's methods that change its state.
  pub data Call : Type 0 where
    write_call : String → N → String → ChannelType → Fields N → Option (List String) → Call
    read_call : String → ChannelType → ℤ → Call
    read_multi_call : String → List ChannelType → ℤ → Call
    read_all_call : String → ℤ → Call
    clear_channel_call : ChannelType → Call
    clear_all_call : Call

module _ {N : Type 0} where
  unfoldable pub perform : Call N → Blackboard N → Blackboard N
  perform (write_call i t a c p ps) b = (write i t a c p ps b).1
  perform (read_call a c l) b = (read a c l b).1
  perform (read_multi_call a cs l) b = (read_multi a cs l b).1
  perform (read_all_call a l) b = (read_all a l b).1
  perform (clear_channel_call c) b = (clear_channel c b).1
  perform clear_all_call b = (clear_all b).1

  unfoldable pub performs : List (Call N) → Blackboard N → Blackboard N
  performs [] b = b
  performs (x ∷ xs) b = performs xs (perform x b)

  -- The trace was written by an archetype that the access list of the channel names.
  abbrev pub MayHaveWritten : ChannelType → ChannelTrace N → Type 0
  MayHaveWritten c t = check_write_permission t.archetype c ≡ ok true

  pub record IsValid (b : Blackboard N) : Type 0 where
    pub same_acls : b.acls ≡ acls_by_channel channel_acls
    pub present : (c : ChannelType) → is_some (lookup c b.channels) ≡ true
    pub authored :
        (c : ChannelType) (ts : List (ChannelTrace N))
        → lookup c b.channels ≡ some ts
        → All (MayHaveWritten c) ts

  some_nil :
      {ts : List (ChannelTrace N)} (c : ChannelType) → some [] ≡ some ts → All (MayHaveWritten c) ts
  some_nil {ts = []} c e = tt
  some_nil {ts = t ∷ ts} c e = cc

  init-authored :
      (c : ChannelType) (ts : List (ChannelTrace N))
      → lookup c init.channels ≡ some ts
      → All (MayHaveWritten c) ts
  unfolding init
  init-authored requirement ts e = some_nil requirement e
  init-authored discovery ts e = some_nil discovery e
  init-authored score ts e = some_nil score e
  init-authored risk ts e = some_nil risk e
  init-authored deal ts e = some_nil deal e
  init-authored decision ts e = some_nil decision e

  pub init-IsValid : IsValid init
  unfolding init
  init-IsValid = record {
    same_acls = refl;
    present = elim [
      | requirement ↦ refl
      | discovery ↦ refl
      | score ↦ refl
      | risk ↦ refl
      | deal ↦ refl
      | decision ↦ refl
    ];
    authored = init-authored;
  }

  -- The invariant speaks of the traces and the access lists alone.
  IsValid-same :
      (b b' : Blackboard N) → b'.channels ≡ b.channels → b'.acls ≡ b.acls → IsValid b → IsValid b'
  IsValid-same b b' same_channels same_acls v = record {
    same_acls = same_acls ∙ v.same_acls;
    present = λ c. rw same_channels (v.present c);
    authored = λ c ts e. v.authored c ts (rw same_channels at e);
  }

  authored-insert :
      (c d : ChannelType) (new ts : List (ChannelTrace N)) (b : Blackboard N)
      → IsValid b
      → All (MayHaveWritten c) new
      → lookup d (insert c new b.channels) ≡ some ts
      → All (MayHaveWritten d) ts
  authored-insert c d new ts b v allowed e = elim (Bool-cases (channel_eq.test c d)) [
    | inl same ↦
        let c_is_d = (channel_beq_iff c d).0 same in
        let new_is_ts : new ≡ ts = ground (arith, lookup-insert c d new b.channels) in
        subst₂ (λ x y. All (MayHaveWritten x) y) c_is_d new_is_ts allowed
    | inr other ↦ v.authored d ts (ground (arith, lookup-insert c d new b.channels))
  ]

  replaced-IsValid :
      (c : ChannelType) (new : List (ChannelTrace N)) (writes : ℕ) (b : Blackboard N)
      → IsValid b
      → All (MayHaveWritten c) new
      → IsValid (record b { channels = insert c new b.channels; write_count = writes })
  replaced-IsValid c new writes b v allowed = record {
    same_acls = v.same_acls;
    present = λ d. ground (arith, lookup-insert c d new b.channels, v.present d);
    authored = λ d ts e. authored-insert c d new ts b v allowed e;
  }

  -- A write that the access list lets through was checked against the channel's writers.
  write_permitted :
      (archetype : String) (c : ChannelType) (b : Blackboard N) (acl : ChannelAcl)
      → IsValid b
      → lookup c b.acls ≡ some acl
      → contains acl.write archetype ≡ true
      → check_write_permission archetype c ≡ ok true
  write_permitted archetype c b acl v e listed =
      check_write_permission_lem c archetype acl (rw v.same_acls at e) ∙ ap ok listed

  write-IsValid :
      (trace_id : String) (now : N) (archetype : String) (c : ChannelType) (payload : Fields N)
      (parents : Option (List String)) (b : Blackboard N)
      → IsValid b
      → IsValid (write trace_id now archetype c payload parents b).1
  write-IsValid trace_id now archetype c payload parents b v =
      elim (Result-cases (write trace_id now archetype c payload parents b).0) [
        | inr (x, failed) ↦
            rw (write_error_unchanged trace_id now archetype c payload parents b failed) v
        | inl (id, done) ↦
            let w = (write_lem trace_id now archetype c payload parents b done).1 in
            let allowed : MayHaveWritten c w.trace =
              rw w.by (write_permitted archetype c b w.acl v w.acl_found w.listed) in
            rw w.after (
              replaced-IsValid c (w.traces ++ w.trace ∷ []) (b.write_count + 1) b v (
                All-append (MayHaveWritten c) w.traces (w.trace ∷ [])
                  (v.authored c w.traces w.found) (allowed, tt)))
      ]

  pub read-IsValid :
      (archetype : String) (c : ChannelType) (limit : ℤ) (b : Blackboard N)
      → IsValid b
      → IsValid (read archetype c limit b).1
  read-IsValid archetype c limit b =
      IsValid-same b (read archetype c limit b).1 (channels-read archetype c limit b)
        (acls-read archetype c limit b)

  read_each-IsValid :
      (archetype : String) (limit : ℤ) (cs : List ChannelType)
      (result : Dict ChannelType (List (ChannelTrace N))) (b : Blackboard N)
      → IsValid b
      → IsValid (read_each archetype limit cs result b).1
  unfolding read_each
  read_each-IsValid archetype limit [] result b v = v
  read_each-IsValid archetype limit (c ∷ cs) result b v =
      let v' = read-IsValid archetype c limit b v in
      elim (Result-cases (read archetype c limit b).0) [
        | inl (ts, e) ↦
            rw (e, ◌>>=◌)
              (read_each-IsValid archetype limit cs (insert c ts result)
                (read archetype c limit b).1 v')
        | inr (x, e) ↦ rw (e, ◌>>=◌) v'
      ]

  read_all-IsValid :
      (archetype : String) (limit : ℤ) (b : Blackboard N)
      → IsValid b
      → IsValid (read_all archetype limit b).1
  unfolding read_all read_multi
  read_all-IsValid archetype limit b v = elim (Result-cases (accessible archetype channel_types)) [
    | inl (cs, e) ↦ rw (e, ◌>>=◌) (read_each-IsValid archetype limit cs [] b v)
    | inr (x, e) ↦ rw (e, ◌>>=◌) v
  ]

  clear_channel-IsValid :
      (c : ChannelType) (b : Blackboard N) → IsValid b → IsValid (clear_channel c b).1
  unfolding clear_channel
  clear_channel-IsValid c b v = elim (Option-cases (lookup c b.channels)) [
    | inl missing ↦ absurd (cc (v.present c))
    | inr (ts, e) ↦
        let after : (clear_channel c b).1 ≡ record b { channels = insert c [] b.channels } =
          ground arith in
        rw after (replaced-IsValid c [] b.write_count b v tt)
  ]

  lookup-emptied :
      (c : ChannelType) (d : Dict ChannelType (List (ChannelTrace N)))
      → lookup c (emptied d) ≡ (if is_some (lookup c d) then some [] else none)
  unfolding emptied
  lookup-emptied c [] = refl
  lookup-emptied c ((k, ts) ∷ d) = ground (arith, lookup-emptied c d, channel_beq_iff k c)

  clear_all-IsValid : (b : Blackboard N) → IsValid b → IsValid (clear_all b).1
  unfolding clear_all
  clear_all-IsValid b v = record {
    same_acls = v.same_acls;
    present = λ c. ground (arith, lookup-emptied c b.channels, v.present c);
    authored = λ c ts e. some_nil c (ground (arith, lookup-emptied c b.channels, v.present c));
  }

  perform-IsValid : (x : Call N) (b : Blackboard N) → IsValid b → IsValid (perform x b)
  unfolding perform read_multi
  perform-IsValid (write_call i t a c p ps) b v = write-IsValid i t a c p ps b v
  perform-IsValid (read_call a c l) b v = read-IsValid a c l b v
  perform-IsValid (read_multi_call a cs l) b v = read_each-IsValid a l cs [] b v
  perform-IsValid (read_all_call a l) b v = read_all-IsValid a l b v
  perform-IsValid (clear_channel_call c) b v = clear_channel-IsValid c b v
  perform-IsValid clear_all_call b v = clear_all-IsValid b v

  performs-IsValid : (xs : List (Call N)) (b : Blackboard N) → IsValid b → IsValid (performs xs b)
  unfolding performs
  performs-IsValid [] b v = v
  performs-IsValid (x ∷ xs) b v = performs-IsValid xs (perform x b) (perform-IsValid x b v)

  -- After any sequence of calls on a new blackboard, the access lists are those of the
  -- configuration, no channel is missing, and every stored trace was written by an archetype that
  -- the access list of its channel names as a writer.
  pub performs-init-IsValid : (xs : List (Call N)) → IsValid (performs xs init)
  performs-init-IsValid xs = performs-IsValid xs init init-IsValid
