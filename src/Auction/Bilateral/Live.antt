-- ===== src/Auction/Bilateral/Live.antt =====
-- A bargaining that is still open (BilateralFSM in core/protocol/fsm.py).
use autonomous_procurement_s.Prelude.Int.{pos}
use autonomous_procurement_s.Prelude.Json.{Fields}
use autonomous_procurement_s.Auction.Message.{MessageType, message_eq, offer}
use autonomous_procurement_s.Auction.Bilateral.{
  Entry, BilateralFsm, new, closes, validate_message, add_message, record_message,
}
use autonomous_procurement_s.Auction.Bilateral.History.{is_closed}
use autonomous_procurement_s.Prelude.{
  ℕ, suc, ◌<◌, String, ◌≡◌, Bool, true, false, ◌||◌, List, [], ◌∷◌, ◌++◌, arith, string_eq, nat_eq,
  any,
}

module _ {N : Type 0} where
  any_append :
      (p : Entry N → Bool) (h : List (Entry N)) (e : Entry N)
      → any p (h ++ e ∷ []) ≡ (any p h || p e)
  any_append p [] e = ground arith
  any_append p (x ∷ h) e = ground (arith, any_append p h e)

  -- The machine has taken `turn` messages of at most `max_turns`, and an offer is on the table.
  pub record IsLive (max_turns turn : ℕ) (f : BilateralFsm N) : Type 0 where
    pub budget : f.max_turns ≡ pos max_turns
    pub taken : f.turn_count ≡ turn
    pub offered : f.has_offer ≡ true
    pub unclosed : f.is_terminal ≡ false

  -- What a message with a turn left does.
  pub record Recorded (max_turns turn : ℕ) (m : MessageType) (result : BilateralFsm N × Bool)
      : Type 0 where
    pub accepted : result.1 ≡ true
    pub taken : result.0.turn_count ≡ suc turn
    pub closing : closes m ≡ true → is_closed result.0.history ≡ true
    pub open_still : closes m ≡ false → IsLive max_turns (suc turn) result.0

  pub record_message-Recorded :
      (m : MessageType) (sender : String) (payload : Fields N) (f : BilateralFsm N)
      (max_turns turn : ℕ)
      → IsLive max_turns turn f
      → turn < max_turns
      → Recorded max_turns turn m (record_message m sender payload f)
  unfolding record_message validate_message add_message
  record_message-Recorded m sender payload f max_turns turn live room =
      let e : Entry N = record {
        turn = f.turn_count;
        sender = sender;
        type = m;
        payload = payload;
      } in
      let last = any_append (λ x. closes x.type) f.history e in
      record {
        accepted = ground (arith, live.budget, live.taken, live.offered, live.unclosed);
        taken = ground (arith, live.budget, live.taken, live.offered, live.unclosed);
        closing = λ c. ground (arith, last, live.budget, live.taken, live.offered, live.unclosed);
        open_still = λ c. record {
          budget = ground (arith, live.budget, live.taken, live.offered, live.unclosed);
          taken = ground (arith, live.budget, live.taken, live.offered, live.unclosed);
          offered = ground (arith, live.budget, live.taken, live.offered, live.unclosed);
          unclosed = ground (arith, live.budget, live.taken, live.offered, live.unclosed);
        };
      }

  pub new-offer-IsLive :
      (max_turns : ℕ) (sender : String) (payload : Fields N)
      → 0 < max_turns
      → IsLive max_turns 1 (record_message offer sender payload (new (pos max_turns))).0
  unfolding record_message validate_message add_message new
  new-offer-IsLive max_turns sender payload room = record {
    budget = ground arith;
    taken = ground arith;
    offered = ground arith;
    unclosed = ground arith;
  }
