-- ===== src/Mesh/Blackboard.antt =====
-- The distributed blackboard (mesh/blackboard.py). The actor handles its calls one at a time, so a
-- method is a function from the state to its result and the next state. The trace id of
-- `uuid.uuid4()` and the time of `time.time()` are arguments; a stored trace stands for its
-- `model_dump()` and `model_copy()`.
pub mod Writes
pub mod Reads
pub mod Privacy
pub mod Reachable
pub mod Total
pub mod Newest
use Prim.Native.Nat.{ℕ, suc, ◌+◌, ◌-◌}
use autonomous_procurement_s.Prelude.{
  String, Bool, true, false, Option, none, some, List, [], ◌∷◌, ◌++◌, reverse, contains, drop,
  length, zero, if◌then◌else◌, string_eq,
}
use autonomous_procurement_s.Prelude.Int.{ℤ, pos, negsuc}
use autonomous_procurement_s.Prelude.Dict.{Dict, lookup, insert}
use autonomous_procurement_s.Prelude.Exec.{Result, ok, err, Exec, pure, lift, ◌>>=◌, ◌>>◌}
use autonomous_procurement_s.Prelude.Json.{
  Value, null, bool, number, text, arr, obj, Fields, get_field,
}
use autonomous_procurement_s.Mesh.Channels.{
  ChannelType, channel_types, ChannelAcl, channel_acls, acls_by_channel, check_read_permission,
  channel_eq, AclError,
}

pub data BoardError : Type 0 where
  value_error permission_error key_error validation_error : BoardError

-- `traces[-limit:]`: a limit of zero takes the whole list, and a negative limit drops from the front.
pub last_traces : {A : Type 0} → ℤ → List A → List A
last_traces (pos zero) xs = xs
last_traces (pos (suc n)) xs = drop (length xs - suc n) xs
last_traces (negsuc n) xs = drop (suc n) xs

or_empty : {A : Type 0} → Option (List A) → List A
or_empty none = []
or_empty (some xs) = xs

module _ (N : Type 0) where
  pub record ChannelTrace : Type 0 where
    pub id : String
    pub timestamp : N
    pub archetype : String
    pub payload : Fields N
    pub parent_ids : List String
    pub correlation_id : Option String

  pub record Blackboard : Type 0 where
    pub channels : Dict ChannelType (List ChannelTrace)
    pub acls : Dict ChannelType ChannelAcl
    pub write_count : ℕ
    pub read_count : ℕ

  pub record ChannelSnapshot : Type 0 where
    pub channels : Dict ChannelType (List ChannelTrace)
    pub timestamp : N

  abbrev pub Method : Type 0 → Type 0
  Method A = Exec Blackboard BoardError A

permission_result : Result AclError Bool → Result BoardError Bool
permission_result (ok b) = ok b
permission_result (err _) = err key_error

-- `[ct for ct in ChannelType if check_read_permission(archetype, ct)]`
accessible : String → List ChannelType → Result BoardError (List ChannelType)
unfolding permission_result
accessible archetype [] = ok []
accessible archetype (c ∷ cs) =
    let rest = accessible archetype cs in
    elim (permission_result (check_read_permission archetype c)) [
      | err e ↦ err e
      | ok allowed ↦ elim rest [
        | err e ↦ err e
        | ok found ↦ ok (if allowed then c ∷ found else found)
      ]
    ]

module _ {N : Type 0} where
  -- `payload.get("correlation_id")`, validated as `str | None` by the trace's model
  correlation_of : Option (Value N) → Result BoardError (Option String)
  correlation_of none = ok none
  correlation_of (some null) = ok none
  correlation_of (some (text s)) = ok (some s)
  correlation_of (some (bool _)) = err validation_error
  correlation_of (some (number _)) = err validation_error
  correlation_of (some (arr _)) = err validation_error
  correlation_of (some (obj _)) = err validation_error

  empty_channels : List ChannelType → Dict ChannelType (List (ChannelTrace N))
  empty_channels [] = []
  empty_channels (c ∷ cs) = (c, []) ∷ empty_channels cs

  -- `__init__`
  unfoldable pub init : Blackboard N
  unfolding empty_channels
  init = record {
    channels = empty_channels channel_types;
    acls = acls_by_channel channel_acls;
    write_count = 0;
    read_count = 0;
  }

  -- `if channel not in self._channels: raise ValueError`, and the list found
  traces_of : ChannelType → Method N (List (ChannelTrace N))
  traces_of c b = elim (lookup c b.channels) [ none ↦ (err value_error, b) | some ts ↦ (ok ts, b) ]

  -- `self._acls[channel]`
  acl_of : ChannelType → Method N ChannelAcl
  acl_of c b = elim (lookup c b.acls) [ none ↦ (err key_error, b) | some a ↦ (ok a, b) ]

  require : Bool → Method N (Unit {0})
  require true b = (ok tt, b)
  require false b = (err permission_error, b)

  -- `self._channels[channel].append(trace); self._write_count += 1`
  append_trace : ChannelType → List (ChannelTrace N) → ChannelTrace N → Method N (Unit {0})
  append_trace c ts t b = (
    ok tt,
    record b { channels = insert c (ts ++ t ∷ []) b.channels; write_count = b.write_count + 1 },
  )

  count_read : Method N (Unit {0})
  count_read b = (ok tt, record b { read_count = b.read_count + 1 })

  unfoldable pub write :
      String → N → String → ChannelType → Fields N → Option (List String) → Method N String
  unfolding traces_of acl_of require append_trace correlation_of or_empty
  write trace_id now archetype channel payload parent_ids = do
    ts ← traces_of channel
    acl ← acl_of channel
    require (contains acl.write archetype)
    correlation_id ← lift (correlation_of (get_field "correlation_id" payload))
    append_trace channel ts (record {
      id = trace_id;
      timestamp = now;
      archetype = archetype;
      payload = payload;
      parent_ids = or_empty parent_ids;
      correlation_id = correlation_id;
    })
    pure trace_id

  unfoldable pub read : String → ChannelType → ℤ → Method N (List (ChannelTrace N))
  unfolding traces_of acl_of require count_read last_traces
  read archetype channel limit = do
    traces ← traces_of channel
    acl ← acl_of channel
    require (contains acl.read archetype)
    count_read
    pure (reverse (last_traces limit traces))

  -- the loop of `read_multi`, on the result so far
  read_each :
      String
      → ℤ
      → List ChannelType
      → Dict ChannelType (List (ChannelTrace N))
      → Method N (Dict ChannelType (List (ChannelTrace N)))
  read_each archetype limit [] result = pure result
  read_each archetype limit (c ∷ cs) result =
      read archetype c limit >>= λ ts. read_each archetype limit cs (insert c ts result)

  unfoldable pub read_multi :
      String → List ChannelType → ℤ → Method N (Dict ChannelType (List (ChannelTrace N)))
  unfolding read_each
  read_multi archetype channels limit = read_each archetype limit channels []

  unfoldable pub read_all : String → ℤ → Method N (Dict ChannelType (List (ChannelTrace N)))
  unfolding accessible
  read_all archetype limit = do
    found ← lift (accessible archetype channel_types)
    read_multi archetype found limit

  pub snapshot : N → Method N (ChannelSnapshot N)
  snapshot now b = (ok (record { channels = b.channels; timestamp = now }), b)

  pub get_channel_traces : ChannelType → Method N (List (ChannelTrace N))
  unfolding traces_of
  get_channel_traces channel = traces_of channel

  set_traces : ChannelType → List (ChannelTrace N) → Method N (Unit {0})
  set_traces c ts b = (ok tt, record b { channels = insert c ts b.channels })

  pub clear_channel : ChannelType → Method N ℕ
  unfolding traces_of set_traces
  clear_channel channel = do ts ← traces_of channel; set_traces channel []; pure (length ts)

  total_traces : Dict ChannelType (List (ChannelTrace N)) → ℕ
  total_traces [] = 0
  total_traces ((_, ts) ∷ d) = length ts + total_traces d

  emptied : Dict ChannelType (List (ChannelTrace N)) → Dict ChannelType (List (ChannelTrace N))
  emptied [] = []
  emptied ((c, _) ∷ d) = (c, []) ∷ emptied d

  pub clear_all : Method N ℕ
  unfolding total_traces emptied
  clear_all b = (
    ok (total_traces b.channels),
    record b { channels = emptied b.channels; write_count = 0; read_count = 0 },
  )
