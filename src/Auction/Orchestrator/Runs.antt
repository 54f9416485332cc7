-- ===== src/Auction/Orchestrator/Runs.antt =====
-- Actions of the orchestrator that stop only at the ledger (core/protocol/auction_orchestrator.py).
use autonomous_procurement_s.Prelude.{
  ℕ, suc, String, ◌≡◌, refl, sym, ap, ◌∙◌, ◌⊎◌, inl, inr, true, Option, none, some, List, [], ◌∷◌,
  Bool-cases, is_some, ◌==◌, string_eq, nat_eq, length,
}
use autonomous_procurement_s.Prelude.Int.{ℤ, pos}
use autonomous_procurement_s.Prelude.Exec.{Result, ok, err, Result-cases, ◌>>=◌, pure}
use autonomous_procurement_s.Domain.Risk.{Floats}
use autonomous_procurement_s.Auction.Numbers.{Numbers}
use autonomous_procurement_s.Auction.Message.{bid, message_eq}
use autonomous_procurement_s.Auction.Fsm.{state_eq}
use autonomous_procurement_s.Auction.Ledger.{Runtime, integrity_error, append_event, Table}
use autonomous_procurement_s.Auction.Policy.{get_or}
use autonomous_procurement_s.Auction.Bids.{CnpMessage}
use autonomous_procurement_s.Auction.Orchestrator.{
  AuctionError, Action, ledger_failed, Failure, Wiring, Orchestrator, Response, append, append_to,
  record_bid, collect,
}

module _ {r : Floats} {n : Numbers r} {rt : Runtime} (w : Wiring r n rt) where
  -- The call returns `a`, or it stops at the ledger, if there is one. The evaluator stays the same.
  abbrev pub Runs :
      {A : Type 0} → A → Orchestrator r n rt → Result AuctionError A × Orchestrator r n rt → Type 0
  Runs a o x =
      ((o' : Orchestrator r n rt) × (x ≡ (ok a, o'))
        × (is_some o'.ledger ≡ is_some o.ledger)
        × (o'.evaluator ≡ o.evaluator))
      ⊎ ((o' : Orchestrator r n rt) × (x ≡ (err (ledger_failed integrity_error), o'))
          × (is_some o.ledger ≡ true))

  -- The rule for one action after another.
  Runs-from :
      {A : Type 0} (a : A) (o o' : Orchestrator r n rt)
      (x : Result AuctionError A × Orchestrator r n rt)
      → is_some o'.ledger ≡ is_some o.ledger
      → o'.evaluator ≡ o.evaluator
      → Runs a o' x
      → Runs a o x
  Runs-from a o o' x kept same (inl (o'', p, kept', same')) =
      inl (o'', p, kept' ∙ kept, same' ∙ same)
  Runs-from a o o' x kept same (inr (o'', p, ledger)) = inr (o'', p, sym kept ∙ ledger)

  Runs-of :
      {A B : Type 0} (f : A → Action r n rt B) (a : A) (b : B) (o : Orchestrator r n rt)
      (x : Result AuctionError A × Orchestrator r n rt)
      → Runs a o x
      → ((o' : Orchestrator r n rt)
          → is_some o'.ledger ≡ is_some o.ledger
          → o'.evaluator ≡ o.evaluator
          → Runs b o' (f a o'))
      → Runs b o (elim x.0 [ ok a ↦ f a x.1 | err e ↦ (err e, x.1) ])
  Runs-of f a b o x (inl (o', p, kept, same)) next =
      let first : x.0 ≡ ok a = ap (λ y. y.0) p in
      let second : x.1 ≡ o' = ap (λ y. y.1) p in
      rw (first, second) (Runs-from b o o' (f a o') kept same (next o' kept same))
  Runs-of f a b o x (inr (o', p, ledger)) next =
      let first : x.0 ≡ err (ledger_failed integrity_error) = ap (λ y. y.0) p in
      rw first (inr (x.1, refl, ledger))

  pub Runs-bind :
      {A B : Type 0} (m : Action r n rt A) (f : A → Action r n rt B) (a : A) (b : B)
      (o : Orchestrator r n rt)
      → Runs a o (m o)
      → ((o' : Orchestrator r n rt)
          → is_some o'.ledger ≡ is_some o.ledger
          → o'.evaluator ≡ o.evaluator
          → Runs b o' (f a o'))
      → Runs b o ((m >>= f) o)
  Runs-bind m f a b o done next = Runs-of f a b o (m o) done next

  append_to-Runs :
      (ledger : Option (Table rt)) (session_id : String) (turn : ℤ) (sender message_type : String)
      (payload : rt.Payload) (o : Orchestrator r n rt)
      → o.ledger ≡ ledger
      → Runs tt o (append_to w ledger session_id turn sender message_type payload o)
  unfolding append_to
  append_to-Runs none session_id turn sender message_type payload o same = inl (o, refl, refl, refl)
  append_to-Runs (some t) session_id turn sender message_type payload o same =
      let written =
        append_event rt session_id turn sender message_type payload (w.clock (length t)) t in
      let o' : Orchestrator r n rt = record o { ledger = some written.1 } in
      let there : is_some o.ledger ≡ true = ap is_some same in
      elim (Result-cases written.0) [
        | inl (h, q) ↦ rw (append_to, q) (inl (o', refl, sym there, refl))
        | inr (integrity_error, q) ↦ rw (append_to, q) (inr (o', refl, there))
      ]

  pub append-Runs :
      (session_id : String) (turn : ℤ) (sender message_type : String) (payload : rt.Payload)
      (o : Orchestrator r n rt)
      → Runs tt o (append w session_id turn sender message_type payload o)
  unfolding append
  append-Runs session_id turn sender message_type payload o =
      append_to-Runs o.ledger session_id turn sender message_type payload o refl

  record_bid-Runs :
      (session_id : String) (turn : ℕ) (m : CnpMessage r n) (o : Orchestrator r n rt)
      → Runs tt o (record_bid w session_id turn m o)
  unfolding record_bid
  record_bid-Runs session_id turn m o = elim (Bool-cases (m.type == bid)) [
    | inl e ↦ rw e (
        append-Runs session_id (pos turn) (get_or m.payload.supplier_id "unknown") "bid"
          (w.dump_payload m.payload) o)
    | inr e ↦ rw e (inl (o, refl, refl, refl))
  ]

  -- The failures and the messages among the answers.
  abbrev pub failures_of : List (Response r n rt) → List Failure
  failures_of [] = []
  failures_of (x ∷ xs) = elim x.result [
    | err e ↦ record { supplier_id = x.supplier.supplier_id; error = e } ∷ failures_of xs
    | ok m ↦ failures_of xs
  ]

  abbrev pub messages_of : List (Response r n rt) → List (CnpMessage r n)
  messages_of [] = []
  messages_of (x ∷ xs) = elim x.result [ err e ↦ messages_of xs | ok m ↦ m ∷ messages_of xs ]

  pub collect-Runs :
      (session_id : String) (turn : ℕ) (xs : List (Response r n rt)) (o : Orchestrator r n rt)
      → Runs (failures_of xs, messages_of xs) o (collect w session_id turn xs o)
  unfolding collect
  collect-Runs session_id turn [] o = inl (o, refl, refl, refl)
  collect-Runs session_id turn (x ∷ xs) o = elim (Result-cases x.result) [
    | inr (e, q) ↦ rw q (
        Runs-bind (collect w session_id (suc turn) xs)
          (λ rest.
            pure (record { supplier_id = x.supplier.supplier_id; error = e } ∷ rest.0, rest.1))
          (failures_of xs, messages_of xs)
          (
            record { supplier_id = x.supplier.supplier_id; error = e } ∷ failures_of xs,
            messages_of xs,
          )
          o (collect-Runs session_id (suc turn) xs o) (λ o' kept same. inl (o', refl, refl, refl)))
    | inl (m, q) ↦ rw q (
        Runs-bind (record_bid w session_id turn m)
          (λ done. collect w session_id (suc turn) xs >>= λ rest. pure (rest.0, m ∷ rest.1)) tt
          (failures_of xs, m ∷ messages_of xs) o (record_bid-Runs session_id turn m o)
          (λ o' kept same.
            Runs-bind (collect w session_id (suc turn) xs) (λ rest. pure (rest.0, m ∷ rest.1))
              (failures_of xs, messages_of xs) (failures_of xs, m ∷ messages_of xs) o'
              (collect-Runs session_id (suc turn) xs o')
              (λ o'' kept' same'. inl (o'', refl, refl, refl))))
  ]
