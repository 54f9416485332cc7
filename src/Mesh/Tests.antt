-- ===== src/Mesh/Tests.antt =====
-- Runs of the blackboard on small inputs, and the theorems at inputs that meet their hypotheses.
use autonomous_procurement_s.Prelude.Int.{pos}
use autonomous_procurement_s.Prelude.Exec.{ok, err, Returns}
use autonomous_procurement_s.Prelude.Json.{Fields, end, field, text}
use autonomous_procurement_s.Mesh.Channels.{
  discovery, ChannelAcl, channel_eq, check_read_permission,
}
use autonomous_procurement_s.Mesh.Blackboard.{
  permission_error, ChannelTrace, Blackboard, init, read, write, read_all,
}
use autonomous_procurement_s.Mesh.Blackboard.Writes.{write_denied}
use autonomous_procurement_s.Mesh.Blackboard.Newest.{Newest, read-write}
use autonomous_procurement_s.Mesh.Blackboard.Privacy.{read_all-write}
use autonomous_procurement_s.Mesh.Blackboard.Reachable.{
  Call, write_call, read_call, clear_channel_call, perform, performs, IsValid,
  performs-init-IsValid,
}
use autonomous_procurement_s.Mesh.Blackboard.Total.{read_by_check, read_all-Returns}
use autonomous_procurement_s.Prelude.{
  ℕ, String, ◌≡◌, refl, ◌⊎◌, true, false, none, some, List, [], ◌∷◌, string_eq, nat_eq,
}

abbrev found : Fields ℕ
found = field "supplier" (text "acme") (field "correlation_id" (text "r1") end)

abbrev trace : String → ChannelTrace ℕ
trace id = record {
  id = id;
  timestamp = 7;
  archetype = "scout";
  payload = found;
  parent_ids = [];
  correlation_id = some "r1";
}

abbrev scout_acl : ChannelAcl
scout_acl = record {
  channel = discovery;
  read = "evaluator" ∷ "negotiator" ∷ "kernel" ∷ [];
  write = "scout" ∷ [];
}

-- A blackboard with two traces in one channel.
abbrev board : Blackboard ℕ
board = record {
  channels = (discovery, trace "t1" ∷ trace "t2" ∷ []) ∷ [];
  acls = (discovery, scout_acl) ∷ [];
  write_count = 2;
  read_count = 0;
}

abbrev script : List (Call ℕ)
script =
    write_call "t1" 7 "scout" discovery found none
    ∷ write_call "t2" 8 "buyer" discovery found none
    ∷ read_call "evaluator" discovery (pos 5)
    ∷ clear_channel_call discovery
    ∷ []

performs-init-IsValid_example : IsValid (performs script init)
performs-init-IsValid_example = performs-init-IsValid script

read_all-Returns_example : Returns (read_all "buyer" (pos 10) (performs script init)).0
read_all-Returns_example = read_all-Returns "buyer" (pos 10) script

read_all-write_example :
    (read_all "buyer" (pos 9) (write "t3" 9 "scout" discovery found none board).1).0
    ≡ (read_all "buyer" (pos 9) board).0
read_all-write_example =
    read_all-write "buyer" "t3" 9 "scout" discovery found none (pos 9) board {acl = scout_acl} refl
      refl

read_by_check_example :
    ((check_read_permission "buyer" discovery ≡ ok true)
      × Returns (read "buyer" discovery (pos 3) (performs script init)).0)
    ⊎ ((check_read_permission "buyer" discovery ≡ ok false)
        × (read "buyer" discovery (pos 3) (performs script init)
            ≡ (err permission_error, performs script init)))
read_by_check_example =
    read_by_check "buyer" (pos 3) discovery (performs script init) (performs-init-IsValid script)

abbrev two_writes : List (Call ℕ)
two_writes =
    write_call "t1" 7 "scout" discovery found none
    ∷ write_call "t2" 8 "scout" discovery found none
    ∷ []

-- A third trace is written, and the evaluator reads it.
read-write_example :
    (t : ChannelTrace ℕ) × (t.id ≡ "t3")
    × (t.archetype ≡ "scout")
    × (t.payload ≡ found)
    × Newest "evaluator" discovery
        (performs two_writes init)
        (write "t3" 9 "scout" discovery found none (performs two_writes init)).1
        t
unfolding write performs perform init check_read_permission
read-write_example =
    read-write "evaluator" two_writes "t3" 9 "scout" discovery found none "t3" refl refl

write_denied_example :
    write "t3" 9 "buyer" discovery found none board ≡ (err permission_error, board)
write_denied_example = write_denied "t3" 9 "buyer" discovery found none board refl refl refl
