-- ===== src/Auction/Bilateral/History.antt =====
-- The history of a bargaining (BilateralFSM in core/protocol/fsm.py).
use autonomous_procurement_s.Prelude.Int.{ℤ, pos, pos_part, leb_ℤ}
use autonomous_procurement_s.Prelude.Json.{Fields}
use autonomous_procurement_s.Auction.Message.{MessageType, message_eq}
use autonomous_procurement_s.Auction.Bilateral.{
  Entry, BilateralFsm, new, needs_offer, makes_offer, closes, validate_message, add_message,
  record_message,
}
use autonomous_procurement_s.Prelude.{
  ℕ, suc, ◌+◌, ◌≤◌, String, ◌≡◌, refl, ◌↔◌, inl, inr, Bool, true, false, ◌||◌, List, [], ◌∷◌, ◌++◌,
  arith, Bool-cases, string_eq, nat_eq, length, any, length-append,
}

module _ {N : Type 0} where
  abbrev pub is_offered : List (Entry N) → Bool
  is_offered h = any (λ e. makes_offer e.type) h

  abbrev pub is_closed : List (Entry N) → Bool
  is_closed h = any (λ e. closes e.type) h

  -- A history that begins with turn `n`, with an offer on the table or not: the turns count up,
  -- an accept or a counter answers an offer, and an accept or a reject stands last.
  abbrev pub Legal : Bool → ℕ → List (Entry N) → Type 0
  Legal o n [] = Unit
  Legal o n (e ∷ h) =
      (e.turn ≡ n)
      × (needs_offer e.type ≡ true → o ≡ true)
      × (closes e.type ≡ true → h ≡ [])
      × Legal (makes_offer e.type || o) (suc n) h

  Legal-append :
      (o : Bool) (n : ℕ) (h : List (Entry N)) (e : Entry N)
      → Legal o n h
      → is_closed h ≡ false
      → (needs_offer e.type ≡ true → (is_offered h || o) ≡ true)
      → e.turn ≡ length h + n
      → Legal o n (h ++ e ∷ [])
  Legal-append o n [] e l unclosed needs t = (omega arith, needs, (λ c. refl), tt)
  Legal-append o n (x ∷ h) e l unclosed needs t = (
    l.0,
    l.1,
    λ c. ground arith,
    Legal-append (makes_offer x.type || o) (suc n) h e l.3 (ground arith)
        (λ q. ground (arith, needs q)) (omega arith),
  )

  pub record IsValid (f : BilateralFsm N) : Type 0 where
    pub counted : f.turn_count ≡ length f.history
    pub bounded : f.turn_count ≤ pos_part f.max_turns
    pub offered : f.has_offer ≡ is_offered f.history
    pub closed : is_closed f.history ≡ true → f.is_terminal ≡ true
    pub legal : Legal false 0 f.history

  new-IsValid : (max_turns : ℤ) → IsValid (new {N = N} max_turns)
  unfolding new
  new-IsValid max_turns = record {
    counted = refl;
    bounded = omega arith;
    offered = refl;
    closed = λ c. cc;
    legal = tt;
  }

  any-append :
      (p : Entry N → Bool) (h : List (Entry N)) (e : Entry N)
      → any p (h ++ e ∷ []) ≡ (any p h || p e)
  any-append p [] e = ground arith
  any-append p (x ∷ h) e = ground (arith, any-append p h e)

  validate_message-IsValid :
      (m : MessageType) (f : BilateralFsm N) → IsValid f → IsValid (validate_message m f).0
  unfolding validate_message
  validate_message-IsValid m f v = ground arith

  -- What is known of a machine that has let a message through.
  validate_message-true :
      (m : MessageType) (f : BilateralFsm N)
      → (validate_message m f).1 ≡ true
      → ((validate_message m f).0 ≡ f)
        × (f.is_terminal ≡ false)
        × (needs_offer m ≡ true → f.has_offer ≡ true)
        × (suc f.turn_count ≤ pos_part f.max_turns)
  unfolding validate_message
  validate_message-true m f h = (ground arith, ground arith, λ q. ground arith, ground arith)

  add_message-IsValid :
      (m : MessageType) (sender : String) (payload : Fields N) (f : BilateralFsm N)
      → IsValid f
      → f.is_terminal ≡ false
      → (needs_offer m ≡ true → f.has_offer ≡ true)
      → suc f.turn_count ≤ pos_part f.max_turns
      → IsValid (add_message m sender payload f)
  unfolding add_message
  add_message-IsValid m sender payload f v unclosed needs room =
      let e : Entry N = record {
        turn = f.turn_count;
        sender = sender;
        type = m;
        payload = payload;
      } in
      record {
        counted = omega (arith, v.counted, length-append f.history (e ∷ []));
        bounded = omega arith;
        offered = ground (arith, v.offered, any-append (λ x. makes_offer x.type) f.history e);
        closed = λ c. ground (arith, v.closed, any-append (λ x. closes x.type) f.history e);
        legal =
            Legal-append false 0 f.history e v.legal (ground (arith, v.closed))
              (λ q. ground (arith, v.offered, needs q)) (omega (arith, v.counted));
      }

  record_message-IsValid :
      (m : MessageType) (sender : String) (payload : Fields N) (f : BilateralFsm N)
      → IsValid f
      → IsValid (record_message m sender payload f).0
  unfolding record_message
  record_message-IsValid m sender payload f v = elim (Bool-cases (validate_message m f).1) [
    | inl valid ↦
        let (same, live, needs, room) = validate_message-true m f valid in
        rw (valid, same) (add_message-IsValid m sender payload f v live needs room)
    | inr invalid ↦ rw invalid (validate_message-IsValid m f v)
  ]

  -- The calls of a bargaining, one after the other.
  pub record_all : List (MessageType × String × Fields N) → BilateralFsm N → BilateralFsm N
  record_all [] f = f
  record_all ((m, sender, payload) ∷ calls) f =
      record_all calls (record_message m sender payload f).0

  record_all-IsValid :
      (calls : List (MessageType × String × Fields N)) (f : BilateralFsm N)
      → IsValid f
      → IsValid (record_all calls f)
  unfolding record_all
  record_all-IsValid [] f v = v
  record_all-IsValid ((m, sender, payload) ∷ calls) f v =
      record_all-IsValid calls (record_message m sender payload f).0
        (record_message-IsValid m sender payload f v)

  -- Whatever messages are recorded, the history is legal: its turns count up from 0, every accept
  -- and every counter comes after an offer, and nothing follows an accept or a reject. The turn
  -- count is its length and stays within `max_turns`; once it is closed, the machine is terminal.
  pub record_all-new-IsValid :
      (max_turns : ℤ) (calls : List (MessageType × String × Fields N))
      → IsValid (record_all calls (new max_turns))
  record_all-new-IsValid max_turns calls =
      record_all-IsValid calls (new max_turns) (new-IsValid max_turns)

  -- A terminal machine refuses every message and does not change.
  pub record_message_terminal :
      (m : MessageType) (sender : String) (payload : Fields N) (f : BilateralFsm N)
      → f.is_terminal ≡ true
      → record_message m sender payload f ≡ (f, false)
  unfolding record_message validate_message
  record_message_terminal m sender payload f h = ground arith

  -- A message is recorded exactly if the machine is live, an accept or a counter answers an offer,
  -- and there is a turn left.
  pub record_message_iff :
      (m : MessageType) (sender : String) (payload : Fields N) (f : BilateralFsm N)
      → ((record_message m sender payload f).1 ≡ true) ↔ (
          (f.is_terminal ≡ false)
          × (needs_offer m ≡ true → f.has_offer ≡ true)
          × (leb_ℤ f.max_turns (pos f.turn_count) ≡ false))
  unfolding record_message validate_message
  record_message_iff m sender payload f = (
    λ h. (ground arith, λ q. ground arith, ground arith),
    λ (live, needs, room). elim (Bool-cases (needs_offer m)) [
      | inl asks ↦ let e = needs asks in ground arith
      | inr free ↦ ground arith
    ],
  )
