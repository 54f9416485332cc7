-- ===== src/Store/Tests.antt =====
-- The theorems of the store at a small database whose JSON values are the two Booleans.
use mathlib.Core.Option
use autonomous_procurement_s.Prelude.{
  ℕ, String, ◌≡◌, refl, ◌≢◌, Bool, true, false, not, ◌&&◌, none, some, List, [], ◌∷◌, map, arith,
  eq_iff, if◌then◌else◌, ◌==◌, string_eq, nat_eq, leb,
}
use autonomous_procurement_s.Store.Tables.{Runtime, Db, RoundTrip, init_db}
use autonomous_procurement_s.Store.Policies.{
  NewPolicy, store_policy, load_policy, has_version, has_active, new_row, conflicts,
  set_policy_active, load_active_policy,
}
use autonomous_procurement_s.Store.Policies.Active.{
  IsValid, Op, storing, performs, performs-init_db-policies-IsValid,
}
use autonomous_procurement_s.Store.Policies.Reads.{
  as_given, promoted, load_policy-store_policy, load_active_policy-set_policy_active,
}

abbrev runtime : Runtime
runtime = record {
  Json = Bool;
  Float = ℕ;
  Time = ℕ;
  no_later = leb;
  dumps = λ b. if b then "true" else "false";
  loads = λ s. s == "true";
  null = false;
  empty = false;
  default_strategy = true;
}

loads-dumps : (j : Bool) → runtime.loads (runtime.dumps j) ≡ j
loads-dumps true = refl
loads-dumps false = refl

dumps-nonempty : (j : Bool) → runtime.dumps j ≢ ""
dumps-nonempty true e = ground (arith, eq_iff "true" "")
dumps-nonempty false e = ground (arith, eq_iff "false" "")

round_trip : RoundTrip runtime
round_trip = record { loads-dumps = loads-dumps; dumps-nonempty = dumps-nonempty }

abbrev given : String → Bool → NewPolicy runtime
given version active = record {
  version = version;
  signature = version;
  thresholds = true;
  weights = false;
  strategy = none;
  metric = some 1;
  success_rate = none;
  avg_score = none;
  feedback_success_rate = none;
  feedback_outcome_score = none;
  decision_stability = none;
  active = active;
}

abbrev script : List (Op runtime)
script =
    storing (given "v1" true) 1
    ∷ storing (given "v2" true) 2
    ∷ storing (given "v2" false) 3
    ∷ storing (given "v1" false) 4
    ∷ []

abbrev db : Db runtime
db = performs runtime script (init_db runtime)

-- The second policy was given as active and is not stored: the first one is active.
two_policies :
    map {B = String × Bool} (λ p. (p.version, p.active)) db.policies
    ≡ ("v1", true) ∷ ("v2", false) ∷ []
unfolding store_policy init_db conflicts has_version has_active new_row
two_policies = refl

performs-init_db-policies-IsValid_example :
    IsValid runtime (performs runtime script (init_db runtime)).policies
performs-init_db-policies-IsValid_example = performs-init_db-policies-IsValid runtime script

abbrev v2 : String
v2 = "v2"

abbrev v3 : String
v3 = "v3"

load_policy-store_policy_example :
    load_policy runtime v3 (store_policy runtime (given v3 false) 9 db) ≡ (
      if not (has_version runtime v3 db.policies)
        && not (false && has_active runtime db.policies)
        && v3 == v3
      then some (as_given runtime (given v3 false) 9)
      else load_policy runtime v3 db)
load_policy-store_policy_example =
    load_policy-store_policy runtime round_trip v3 (given v3 false) 9 db

load_active_policy-set_policy_active_example :
    load_active_policy runtime (set_policy_active runtime v2 db).1
    ≡ Option.map (promoted runtime) (load_policy runtime v2 db)
unfolding store_policy init_db conflicts has_version has_active new_row
load_active_policy-set_policy_active_example =
    load_active_policy-set_policy_active runtime v2 db
      (performs-init_db-policies-IsValid runtime script) refl

abbrev t1 : String
t1 = "t1"
