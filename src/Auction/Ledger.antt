-- ===== src/Auction/Ledger.antt =====
-- The hash-chained ledger (core/ledger/repository.py). The table is the list of its rows in the
-- order of their ids. `json`, `hashlib` and `str` are the parameters `Runtime`.
pub mod Chain
pub mod Race
pub mod Tampering
mod Tests
use Prim.Native.String.{◌++◌ as append_text}
use autonomous_procurement_s.Prelude.Int.{ℤ}
use autonomous_procurement_s.Prelude.Exec.{Result, ok, err}
use autonomous_procurement_s.Prelude.{
  ℕ, zero, suc, ◌+◌, ◌-◌, ◌≤◌, ◌<◌, String, ◌≡◌, refl, sym, ap, ◌∙◌, ◌≢◌, ◌↔◌, ◌⊎◌, inl, inr, Bool,
  true, false, not, ◌&&◌, ◌||◌, Option, none, some, List, [], ◌∷◌, ◌++◌, map, reverse, arith,
  eq_iff, Bool-cases, Option-cases, if◌then◌else◌, is_some, contains, Eq, ◌==◌, string_eq, nat_eq,
  nat_beq, All, length, filter, any, all, take, drop, ltb, leb, eq_refl,
}

-- What the ledger takes from Python's standard library and from the database's clock.
pub record Runtime : Type 1 where
  pub Payload : Type 0
  pub Time : Type 0
  -- `json.dumps(payload, sort_keys=True, default=str)` and `json.loads`
  pub dumps : Payload → String
  pub loads : String → Payload
  -- `hashlib.sha256(raw.encode("utf-8")).hexdigest()`
  pub sha256 : String → String
  -- `str` of an integer, as in an f-string
  pub show : ℤ → String

pub data LedgerError : Type 0 where
  integrity_error : LedgerError

-- `"0" * 64`
abbrev pub zero_hash : String
zero_hash = "0000000000000000000000000000000000000000000000000000000000000000"

infixr 65 ◌<>◌
abbrev pub ◌<>◌ : String → String → String
a <> b = append_text a b

module _ (r : Runtime) where
  open r use {Payload, Time, dumps, loads, sha256, show}

  pub record LedgerEvent : Type 0 where
    pub id : ℕ
    pub session_id : String
    pub turn_number : ℤ
    pub sender_id : String
    pub message_type : String
    pub payload_json : String
    pub prev_hash : String
    pub current_hash : String
    pub timestamp : Time

  abbrev pub Table : Type 0
  Table = List LedgerEvent

  abbrev pub of_session : String → LedgerEvent → Bool
  of_session session_id e = e.session_id == session_id

  -- `... ORDER BY id DESC LIMIT 1`
  pub newest : Table → Option LedgerEvent
  newest [] = none
  newest (e ∷ es) = elim (newest es) [ none ↦ some e | some x ↦ some x ]

  -- `row if row else "0" * 64`
  pub hash_or_zero : Option LedgerEvent → String
  hash_or_zero none = zero_hash
  hash_or_zero (some e) = if e.current_hash == "" then zero_hash else e.current_hash

  unfoldable pub get_last_hash : String → Table → String
  unfolding newest hash_or_zero
  get_last_hash session_id t = hash_or_zero (newest (filter (of_session session_id) t))

  -- The f-string that is hashed.
  pub raw : String → ℤ → String → String → String → String → String
  raw session_id turn sender message_type payload_str last_hash =
      session_id
      <> ":"
      <> show turn
      <> ":"
      <> sender
      <> ":"
      <> message_type
      <> ":"
      <> payload_str
      <> ":"
      <> last_hash

  pub new_event : String → ℤ → String → String → String → String → Time → Table → LedgerEvent
  unfolding raw
  new_event session_id turn sender message_type payload_str last_hash now t = record {
    id = length t + 1;
    session_id = session_id;
    turn_number = turn;
    sender_id = sender;
    message_type = message_type;
    payload_json = payload_str;
    prev_hash = last_hash;
    current_hash = sha256 (raw session_id turn sender message_type payload_str last_hash);
    timestamp = now;
  }

  -- `session.add(event)`: the row is added unless its hash, a unique column, is there already.
  pub add_event : LedgerEvent → Table → Result LedgerError String × Table
  add_event e t =
      if any (λ x. x.current_hash == e.current_hash) t
      then (err integrity_error, t)
      else (ok e.current_hash, t ++ e ∷ [])

  -- The second transaction of `append_event`.
  unfoldable pub insert_event :
      String
      → ℤ
      → String
      → String
      → String
      → String
      → Time
      → Table
      → Result LedgerError String × Table
  unfolding new_event add_event
  insert_event session_id turn sender message_type payload_str last_hash now t =
      add_event (new_event session_id turn sender message_type payload_str last_hash now t) t

  unfoldable pub append_event :
      String → ℤ → String → String → Payload → Time → Table → Result LedgerError String × Table
  unfolding insert_event get_last_hash
  append_event session_id turn sender message_type payload now t =
      insert_event session_id turn sender message_type (dumps payload) (get_last_hash session_id t)
        now t

  unfoldable pub get_events : String → Table → Table
  get_events session_id t = filter (of_session session_id) t

  -- One round of the loop of `verify_chain`: the link to the hash before, and the hash recomputed.
  pub verify_event : String → LedgerEvent → Bool
  unfolding raw
  verify_event before e =
      if e.prev_hash == before
      then e.current_hash
        == sha256 (
            raw e.session_id e.turn_number e.sender_id e.message_type (dumps (loads e.payload_json))
              e.prev_hash)
      else false

  pub verify_events : String → Table → Bool
  unfolding verify_event
  verify_events before [] = true
  verify_events before (e ∷ es) = elim (verify_event before e) [
    | true ↦ verify_events e.current_hash es
    | false ↦ false
  ]

  pub verify_chain : String → Table → Bool
  unfolding verify_events get_events
  verify_chain session_id t = verify_events zero_hash (get_events session_id t)
