-- ===== src/Auction/Ledger/Tampering.antt =====
-- What a session that verifies commits to (core/ledger/repository.py).
use Prim.Native.String.{count}
use text.Mathlib.TextLemmas.{append_inj, length-append as count-append, append_assoc as text_assoc}
use autonomous_procurement_s.Prelude.Int.{ℤ}
use autonomous_procurement_s.Auction.Ledger.{
  Runtime, zero_hash, ◌<>◌, LedgerEvent, Table, raw, verify_events, verify_chain, get_events,
}
use autonomous_procurement_s.Auction.Ledger.Chain.{last_hash, text_of, verify_event-true}
use autonomous_procurement_s.Prelude.{
  ◌≡◌, refl, sym, ap, ◌∙◌, true, [], ◌∷◌, arith, string_eq, nat_eq, length, String,
}

-- Texts that end in parts of one length have one end.
suffix_inj : (x y p q : String) → x <> p ≡ y <> q → count p ≡ count q → p ≡ q
suffix_inj x y p q e n =
    (append_inj e (omega (arith, ap count e, count-append x p, count-append y q, n))).1

module _ (r : Runtime) where
  open r use {Payload, Time, dumps, loads, sha256, show}

  -- The hashed text ends in the hash before.
  raw-suffix :
      (s : String) (turn : ℤ) (sender type payload last : String)
      → (head : String) × (raw r s turn sender type payload last ≡ head <> last)
  unfolding raw
  raw-suffix s turn sender type payload last = (
    s <> ":" <> show turn <> ":" <> sender <> ":" <> type <> ":" <> payload <> ":",
    simp text_assoc,
  )

  -- Position by position, the hashed texts of the rows are the same.
  abbrev pub SameTexts : Table r → Table r → Type 0
  SameTexts [] [] = Unit
  SameTexts (e ∷ t) (e' ∷ t') = (text_of r e ≡ text_of r e') × SameTexts t t'
  SameTexts _ _ = ⊥

  -- Position by position, the hash tells the texts of the rows apart.
  abbrev pub NoCollision : Table r → Table r → Type 0
  NoCollision (e ∷ t) (e' ∷ t') =
      (sha256 (text_of r e) ≡ sha256 (text_of r e') → text_of r e ≡ text_of r e') × NoCollision t t'
  NoCollision _ _ = Unit

  same_prev :
      (e e' : LedgerEvent r)
      → text_of r e ≡ text_of r e'
      → count e.prev_hash ≡ count e'.prev_hash
      → e.prev_hash ≡ e'.prev_hash
  same_prev e e' same n =
      let (x, p) =
        raw-suffix e.session_id e.turn_number e.sender_id e.message_type
          (dumps (loads e.payload_json)) e.prev_hash in
      let (y, q) =
        raw-suffix e'.session_id e'.turn_number e'.sender_id e'.message_type
          (dumps (loads e'.payload_json)) e'.prev_hash in
      suffix_inj x y e.prev_hash e'.prev_hash (sym p ∙ same ∙ q) n

  module _ (hash_length : (s : String) → count (sha256 s) ≡ 64) where
    same_chain :
        (before before' : String) (t t' : Table r)
        → verify_events r before t ≡ true
        → verify_events r before' t' ≡ true
        → length t ≡ length t'
        → last_hash r before t ≡ last_hash r before' t'
        → count before ≡ count before'
        → NoCollision t t'
        → (before ≡ before') × SameTexts t t'
    unfolding verify_events last_hash
    same_chain before before' [] [] v v' n last c apart = (last, tt)
    same_chain before before' [] (e' ∷ t') v v' n last c apart = absurd (omega arith)
    same_chain before before' (e ∷ t) [] v v' n last c apart = absurd (omega arith)
    same_chain before before' (e ∷ t) (e' ∷ t') v v' n last c apart =
        let ok_e = verify_event-true r before e (ground arith) in
        let ok_e' = verify_event-true r before' e' (ground arith) in
        let counts : count e.current_hash ≡ count e'.current_hash =
          rw (ok_e.1, ok_e'.1) (hash_length (text_of r e) ∙ sym (hash_length (text_of r e'))) in
        let rest =
          same_chain e.current_hash e'.current_hash t t' (ground arith) (ground arith) (omega arith)
            last counts apart.1 in
        let text : text_of r e ≡ text_of r e' = apart.0 (sym ok_e.1 ∙ rest.0 ∙ ok_e'.1) in
        let prev = same_prev e e' text (rw (ok_e.0, ok_e'.0) c) in
        (sym ok_e.0 ∙ prev ∙ ok_e'.0, (text, rest.1))

    -- If every hash has 64 bytes, two tables in which a session verifies, with as many events of
    -- the session and with the same last hash, hold the same hashed text at every position, unless
    -- the hash collides on the two texts of a position.
    pub same_last_hash-SameTexts :
        (s : String) (t t' : Table r)
        → verify_chain r s t ≡ true
        → verify_chain r s t' ≡ true
        → length (get_events r s t) ≡ length (get_events r s t')
        → last_hash r zero_hash (get_events r s t) ≡ last_hash r zero_hash (get_events r s t')
        → NoCollision (get_events r s t) (get_events r s t')
        → SameTexts (get_events r s t) (get_events r s t')
    unfolding verify_chain
    same_last_hash-SameTexts s t t' v v' n last apart =
        (same_chain zero_hash zero_hash (get_events r s t) (get_events r s t') v v' n last refl
          apart).1
