-- ===== src/Execution/Guard.antt =====
-- The guard of external calls (swarm/utils/idempotency.py).
use autonomous_procurement_s.Prelude.{
  String, ◌≡◌, refl, Bool, true, ◌||◌, List, [], ◌∷◌, arith, contains, string_eq, nat_eq, pair_eq,
  pair_beq,
}
use autonomous_procurement_s.Prelude.Dict.{Dict, has_key, insert, lookup-insert}

pub record IdempotencyKey : Type 0 where
  pub decision_id : String
  pub action : String

-- `_seen`, by the key's two texts.
pub record IdempotencyGuard : Type 0 where
  pub seen : Dict (String × String) Bool

unfoldable pub fresh : IdempotencyGuard
fresh = record { seen = [] }

unfoldable pub check : String → String → IdempotencyGuard → Bool
check decision_id action g = has_key (decision_id, action) g.seen

unfoldable pub mark : String → String → IdempotencyGuard → IdempotencyGuard × IdempotencyKey
mark decision_id action g = (
  record { seen = insert (decision_id, action) true g.seen },
  record { decision_id = decision_id; action = action },
)

unfoldable pub reset : IdempotencyGuard → IdempotencyGuard
reset g = record { seen = [] }

unfoldable pub mark_all : List (String × String) → IdempotencyGuard → IdempotencyGuard
unfolding mark
mark_all [] g = g
mark_all ((d, a) ∷ calls) g = mark_all calls (mark d a g).0

pub check-mark :
    (d a d' a' : String) (g : IdempotencyGuard)
    → check d' a' (mark d a g).0 ≡ (pair_beq (d, a) (d', a') || check d' a' g)
unfolding check mark
check-mark d a d' a' g = ground (arith, lookup-insert (d, a) (d', a') true g.seen)

check-mark_all-from :
    (calls : List (String × String)) (d a : String) (g : IdempotencyGuard)
    → check d a (mark_all calls g) ≡ (contains calls (d, a) || check d a g)
unfolding mark_all
check-mark_all-from [] d a g = refl
check-mark_all-from ((d', a') ∷ calls) d a g =
    ground (arith, check-mark_all-from calls d a (mark d' a' g).0, check-mark d' a' d a g)

-- After any marks on a new guard, an operation is seen exactly if it was marked: no other decision
-- and no other action of the same decision is.
pub check-mark_all :
    (calls : List (String × String)) (d a : String)
    → check d a (mark_all calls fresh) ≡ contains calls (d, a)
unfolding fresh check
check-mark_all calls d a = ground (arith, check-mark_all-from calls d a fresh)
