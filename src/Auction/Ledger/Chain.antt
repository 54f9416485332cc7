-- ===== src/Auction/Ledger/Chain.antt =====
-- The chain that `append_event` builds and `verify_chain` reads (core/ledger/repository.py).
use mathlib.Core.List.{append-nil}
use autonomous_procurement_s.Prelude.Int.{ℤ}
use autonomous_procurement_s.Auction.Ledger.{
  Runtime, zero_hash, LedgerEvent, Table, of_session, newest, hash_or_zero, get_last_hash, raw,
  insert_event, append_event, get_events, verify_event, verify_events, verify_chain, new_event,
  add_event,
}
use autonomous_procurement_s.Prelude.{
  String, ◌≡◌, refl, ◌≢◌, inl, inr, true, ◌&&◌, Option, none, some, List, [], ◌∷◌, ◌++◌, arith,
  eq_iff, Bool-cases, Option-cases, ◌==◌, string_eq, nat_eq, filter, any, all, filter-append,
}

module _ (r : Runtime) where
  open r use {Payload, Time, dumps, loads, sha256, show}

  -- The current hash of the last row, or the given hash if there is none.
  unfoldable pub last_hash : String → Table r → String
  last_hash before [] = before
  last_hash before (e ∷ es) = last_hash e.current_hash es

  pub verify_events-append :
      (before : String) (t : Table r) (e : LedgerEvent r)
      → verify_events r before (t ++ e ∷ [])
        ≡ (verify_events r before t && verify_event r (last_hash before t) e)
  unfolding verify_events last_hash
  verify_events-append before [] e = ground arith
  verify_events-append before (x ∷ t) e = ground (arith, verify_events-append x.current_hash t e)

  pub last_hash-append :
      (before : String) (t : Table r) (e : LedgerEvent r)
      → last_hash before (t ++ e ∷ []) ≡ e.current_hash
  unfolding last_hash
  last_hash-append before [] e = refl
  last_hash-append before (x ∷ t) e = last_hash-append x.current_hash t e

  pub current_or : String → Option (LedgerEvent r) → String
  current_or before none = before
  current_or before (some e) = e.current_hash

  pub last_hash-newest :
      (before : String) (t : Table r) → last_hash before t ≡ current_or before (newest r t)
  unfolding last_hash newest current_or
  last_hash-newest before [] = refl
  last_hash-newest before (e ∷ t) = ground (arith, last_hash-newest e.current_hash t)

  -- The text of a row that is hashed again.
  abbrev pub text_of : LedgerEvent r → String
  text_of e =
      raw r e.session_id e.turn_number e.sender_id e.message_type (dumps (loads e.payload_json))
        e.prev_hash

  pub verify_event-true :
      (before : String) (e : LedgerEvent r)
      → verify_event r before e ≡ true
      → (e.prev_hash ≡ before) × (e.current_hash ≡ sha256 (text_of e))
  unfolding verify_event
  verify_event-true before e h =
      ground (arith, eq_iff e.prev_hash before, eq_iff e.current_hash (sha256 (text_of e)))

  -- A row whose links and hash are right.
  pub verify_event_of :
      (before : String) (e : LedgerEvent r)
      → e.prev_hash ≡ before
      → e.current_hash ≡ sha256 (text_of e)
      → verify_event r before e ≡ true
  unfolding verify_event
  verify_event_of before e p q =
      ground (arith, eq_iff e.prev_hash before, eq_iff e.current_hash (sha256 (text_of e)))

  -- A call of `append_event`.
  pub record Append : Type 0 where
    pub session_id : String
    pub turn : ℤ
    pub sender : String
    pub message_type : String
    pub payload : Payload
    pub now : Time

  unfoldable pub append_all : List Append → Table r → Table r
  append_all [] t = t
  append_all (a ∷ as') t =
      append_all as'
        (append_event r a.session_id a.turn a.sender a.message_type a.payload a.now t).1

  module _ (hash_nonempty : (s : String) → sha256 s ≢ "") where
    verified-nonempty :
        (before : String) (t : Table r) (e : LedgerEvent r)
        → verify_events r before t ≡ true
        → newest r t ≡ some e
        → e.current_hash ≢ ""
    unfolding verify_events newest
    verified-nonempty before [] e h n = λ q. cc
    verified-nonempty before (x ∷ t) e h n = elim (Option-cases (newest r t)) [
      | inl last ↦ λ q. hash_nonempty (text_of x) (ground (arith, verify_event-true before x))
      | inr (y, more) ↦ verified-nonempty x.current_hash t e (ground arith) (ground arith)
    ]

    -- On a verified session the next event is linked to the last one.
    get_last_hash-eq-last_hash :
        (session_id : String) (t : Table r)
        → verify_chain r session_id t ≡ true
        → get_last_hash r session_id t ≡ last_hash zero_hash (get_events r session_id t)
    unfolding get_last_hash hash_or_zero verify_chain get_events current_or
    get_last_hash-eq-last_hash session_id t h =
        let rows = filter (of_session r session_id) t in
        elim (Option-cases (newest r rows)) [
          | inl nothing ↦ ground (arith, last_hash-newest zero_hash rows)
          | inr (e, found) ↦
              let nonempty = verified-nonempty zero_hash rows e h found in
              ground (arith, last_hash-newest zero_hash rows, eq_iff e.current_hash "")
        ]

    module _ (round_trip : (p : Payload) → dumps (loads (dumps p)) ≡ dumps p) where
      -- Adding a row that continues a session's chain keeps every session verified.
      add_event-verified :
          (e : LedgerEvent r) (t : Table r) (s : String)
          → ((s' : String) → verify_chain r s' t ≡ true)
          → verify_event r (get_last_hash r e.session_id t) e ≡ true
          → verify_chain r s (add_event r e t).1 ≡ true
      unfolding add_event verify_chain get_events
      add_event-verified e t s all linked =
          elim (Bool-cases (any (λ x. x.current_hash == e.current_hash) t)) [
            | inl clash ↦ rw clash (all s)
            | inr fresh ↦
                rw (fresh, filter-append (of_session r s) t (e ∷ []))
                  (elim (Bool-cases (e.session_id == s)) [
                    | inl own ↦
                        let same = (eq_iff e.session_id s).0 own in
                        ground (
                          arith,
                          verify_events-append zero_hash (filter (of_session r s) t) e,
                          get_last_hash-eq-last_hash s t (all s),
                          all s,
                        )
                    | inr other ↦ rw (other, append-nil) (all s)
                  ])
          ]

      pub append_event-verified :
          (a : Append) (t : Table r)
          → ((s : String) → verify_chain r s t ≡ true)
          → (s : String)
          → verify_chain r s
              (append_event r a.session_id a.turn a.sender a.message_type a.payload a.now t).1
            ≡ true
      unfolding append_event insert_event new_event
      append_event-verified a t all s =
          add_event-verified
            (new_event r a.session_id a.turn a.sender a.message_type (dumps a.payload)
              (get_last_hash r a.session_id t) a.now t)
            t s all
            (verify_event_of (get_last_hash r a.session_id t)
              (new_event r a.session_id a.turn a.sender a.message_type (dumps a.payload)
                (get_last_hash r a.session_id t) a.now t)
              refl (rw round_trip refl))

      append_all-verified :
          (calls : List Append) (t : Table r)
          → ((s : String) → verify_chain r s t ≡ true)
          → (s : String) → verify_chain r s (append_all calls t) ≡ true
      unfolding append_all
      append_all-verified [] t all s = all s
      append_all-verified (a ∷ as') t all s =
          append_all-verified as'
            (append_event r a.session_id a.turn a.sender a.message_type a.payload a.now t).1
            (append_event-verified a t all) s

      -- If no hash is the empty text, and a payload that is dumped, loaded and dumped again gives the
      -- same text, then a ledger that is filled by complete calls of `append_event`, one after the
      -- other and for any sessions, verifies for every session.
      pub append_all-nil-verified :
          (calls : List Append) (s : String) → verify_chain r s (append_all calls []) ≡ true
      unfolding verify_chain get_events
      append_all-nil-verified calls s = append_all-verified calls [] (λ s'. refl) s
