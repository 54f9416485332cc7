-- ===== src/Auction/Ledger/Race.antt =====
-- Two calls of `append_event` for one session that interleave between its two transactions
-- (core/ledger/repository.py).
use autonomous_procurement_s.Prelude.Int.{ℤ}
use autonomous_procurement_s.Prelude.Exec.{ok}
use autonomous_procurement_s.Auction.Ledger.{
  Runtime, zero_hash, LedgerEvent, Table, of_session, get_last_hash, insert_event, get_events,
  verify_chain, new_event, add_event,
}
use autonomous_procurement_s.Auction.Ledger.Chain.{
  verify_events-append, last_hash-append, verify_event-true,
}
use autonomous_procurement_s.Prelude.{
  ◌≡◌, refl, ◌∙◌, ◌≢◌, false, [], ◌∷◌, ◌++◌, arith, eq_iff, string_eq, nat_eq, filter-append,
  String,
}

module _ (r : Runtime) where
  open r use {Payload, Time, dumps, loads, sha256, show}

  add_event_ok :
      (e : LedgerEvent r) (t : Table r) {h : String}
      → (add_event r e t).0 ≡ ok h
      → ((add_event r e t).1 ≡ t ++ e ∷ []) × (h ≡ e.current_hash)
  unfolding add_event
  add_event_ok e t h = ground arith

  -- The events of a session after a row of it was added.
  get_events-append :
      (s : String) (t : Table r) (e : LedgerEvent r)
      → e.session_id ≡ s
      → get_events r s (t ++ e ∷ []) ≡ get_events r s t ++ e ∷ []
  unfolding get_events
  get_events-append s t e own =
      filter-append (of_session r s) t (e ∷ []) ∙ ground (arith, eq_iff e.session_id s)

  module _ (s : String) (t : Table r) where
    -- If two calls for one session have both read its last hash before either adds its row, and
    -- then both add one, the session does not verify, unless the first row's hash is that old hash.
    pub interleaved_appends_fail :
        (turn turn' : ℤ) (sender sender' type type' : String) (payload payload' : Payload)
        (now now' : Time) {h h' : String}
        → let old = get_last_hash r s t in
          let first = insert_event r s turn sender type (dumps payload) old now t in
          let second = insert_event r s turn' sender' type' (dumps payload') old now' first.1 in
          first.0 ≡ ok h → second.0 ≡ ok h' → h ≢ old → verify_chain r s second.1 ≡ false
    unfolding insert_event new_event verify_chain
    interleaved_appends_fail turn turn' sender sender' type type' payload payload' now now' a b ne =
        let old = get_last_hash r s t in
        let e = new_event r s turn sender type (dumps payload) old now t in
        let (added, is_h) = add_event_ok e t a in
        let t' = (add_event r e t).1 in
        let e' = new_event r s turn' sender' type' (dumps payload') old now' t' in
        let (added', _) = add_event_ok e' t' b in
        rw (added', get_events-append s t' e' refl, added, get_events-append s t e refl)
          (ground (
            arith,
            verify_events-append r zero_hash (get_events r s t ++ e ∷ []) e',
            last_hash-append r zero_hash (get_events r s t) e,
            verify_event-true r e.current_hash e',
          ))
