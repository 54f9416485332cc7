-- ===== src/Auction/Ledger/Tests.antt =====
-- The ledger's theorems at small tables. The stand-in for the hash has two values, of the length
-- of a real one.
use Prim.Native.String.{count}
use autonomous_procurement_s.Prelude.Int.{ℤ, pos}
use autonomous_procurement_s.Auction.Ledger.{
  Runtime, get_last_hash, insert_event, get_events, verify_chain, append_event,
}
use autonomous_procurement_s.Auction.Ledger.Chain.{
  Append, append_all, append_all-nil-verified, last_hash,
}
use autonomous_procurement_s.Auction.Ledger.Race.{interleaved_appends_fail}
use autonomous_procurement_s.Auction.Ledger.Tampering.{SameTexts, same_last_hash-SameTexts}
use autonomous_procurement_s.Prelude.{
  ℕ, String, ◌≡◌, refl, ◌≢◌, inl, inr, true, false, List, [], ◌∷◌, Bool-cases, if◌then◌else◌, ◌==◌,
  string_eq, nat_eq, nat_beq,
}

abbrev hash_a : String
hash_a = "aaaaaaaaaaaaaaaaaaaaaaaaaaaaaaaaaaaaaaaaaaaaaaaaaaaaaaaaaaaaaaaa"

abbrev hash_b : String
hash_b = "bbbbbbbbbbbbbbbbbbbbbbbbbbbbbbbbbbbbbbbbbbbbbbbbbbbbbbbbbbbbbbbb"

abbrev digest : String → String
digest s =
    if s == "s:1:buyer:rfq:p:0000000000000000000000000000000000000000000000000000000000000000"
    then hash_a
    else hash_b

digest-nonempty : (s : String) → digest s ≢ ""
digest-nonempty s =
    elim (Bool-cases
      (s == "s:1:buyer:rfq:p:0000000000000000000000000000000000000000000000000000000000000000")) [
        | inl e ↦ rw e (λ q. cc)
        | inr e ↦ rw e (λ q. cc)
      ]

digest-length : (s : String) → count (digest s) ≡ 64
digest-length s =
    elim (Bool-cases
      (s == "s:1:buyer:rfq:p:0000000000000000000000000000000000000000000000000000000000000000")) [
        | inl e ↦ rw e refl
        | inr e ↦ rw e refl
      ]

abbrev show_digit : ℤ → String
show_digit (pos n) = if nat_beq n 1 then "1" else "2"
show_digit _ = "-"

abbrev plain : Runtime
plain = record {
  Payload = String;
  Time = ℕ;
  dumps = λ p. p;
  loads = λ p. p;
  sha256 = digest;
  show = show_digit;
}

abbrev calls : List (Append plain)
calls =
    record {
      session_id = "s";
      turn = pos 1;
      sender = "buyer";
      message_type = "rfq";
      payload = "p";
      now = 3;
    }
    ∷ record {
      session_id = "s";
      turn = pos 2;
      sender = "acme";
      message_type = "bid";
      payload = "q";
      now = 4;
    }
    ∷ []

append_all-nil-verified_example : verify_chain plain "s" (append_all plain calls []) ≡ true
append_all-nil-verified_example =
    append_all-nil-verified plain digest-nonempty (λ p. refl) calls "s"

interleaved_appends_fail_example :
    let old = get_last_hash plain "s" [] in
    let first = insert_event plain "s" (pos 1) "buyer" "rfq" "p" old 3 [] in
    let second = insert_event plain "s" (pos 2) "acme" "bid" "q" old 4 first.1 in
    verify_chain plain "s" second.1 ≡ false
unfolding insert_event get_last_hash
interleaved_appends_fail_example =
    interleaved_appends_fail plain "s" [] (pos 1) (pos 2) "buyer" "acme" "rfq" "bid" "p" "q" 3 4
      {h = hash_a} {h' = hash_b} refl refl (λ e. cc e)

-- The same events, stored at other times.
abbrev later_calls : List (Append plain)
later_calls =
    record {
      session_id = "s";
      turn = pos 1;
      sender = "buyer";
      message_type = "rfq";
      payload = "p";
      now = 30;
    }
    ∷ record {
      session_id = "s";
      turn = pos 2;
      sender = "acme";
      message_type = "bid";
      payload = "q";
      now = 40;
    }
    ∷ []

same_last_hash-SameTexts_example :
    SameTexts plain
      (get_events plain "s" (append_all plain calls []))
      (get_events plain "s" (append_all plain later_calls []))
unfolding append_all append_event get_events last_hash
same_last_hash-SameTexts_example =
    same_last_hash-SameTexts plain digest-length "s" (append_all plain calls [])
      (append_all plain later_calls [])
      (append_all-nil-verified plain digest-nonempty (λ p. refl) calls "s")
      (append_all-nil-verified plain digest-nonempty (λ p. refl) later_calls "s") refl refl
      ((λ e. refl), ((λ e. refl), tt))
