-- ===== src/Mesh/Channels.antt =====
-- The typed channels and their access lists (mesh/channels.py).
pub mod Permissions
use autonomous_procurement_s.Prelude.{
  String, ◌≡◌, ◌↔◌, Bool, true, Option, none, some, List, [], ◌∷◌, arith, contains, Eq, nat_beq,
  string_eq,
}
use autonomous_procurement_s.Prelude.Dict.{Dict, lookup, insert}
use autonomous_procurement_s.Prelude.Exec.{Result, ok, err}
use Prim.Native.Nat.{ℕ}

pub data ChannelType : Type 0 where
  requirement discovery score risk deal decision : ChannelType

-- The declaration order of the enumeration, which `for ct in ChannelType` follows.
abbrev pub channel_types : List ChannelType
channel_types = requirement ∷ discovery ∷ score ∷ risk ∷ deal ∷ decision ∷ []

abbrev rank : ChannelType → ℕ
rank requirement = 0
rank discovery = 1
rank score = 2
rank risk = 3
rank deal = 4
rank decision = 5

abbrev pub channel_beq : ChannelType → ChannelType → Bool
channel_beq a b = nat_beq (rank a) (rank b)

pub channel_beq_iff : (a b : ChannelType) → (channel_beq a b ≡ true) ↔ (a ≡ b)
channel_beq_iff a b = ground arith

instance abbrev pub channel_eq : Eq ChannelType
channel_eq = record { test = channel_beq; test_iff = channel_beq_iff }

pub record ChannelAcl : Type 0 where
  pub channel : ChannelType
  pub read : List String
  pub write : List String

abbrev pub channel_acls : List ChannelAcl
channel_acls =
    record {
      channel = requirement;
      read = "scout" ∷ "evaluator" ∷ "negotiator" ∷ "buyer" ∷ "kernel" ∷ [];
      write = "kernel" ∷ [];
    }
    ∷ record {
      channel = discovery;
      read = "evaluator" ∷ "negotiator" ∷ "kernel" ∷ [];
      write = "scout" ∷ [];
    }
    ∷ record {
      channel = score;
      read = "negotiator" ∷ "buyer" ∷ "kernel" ∷ [];
      write = "evaluator" ∷ [];
    }
    ∷ record { channel = risk; read = "buyer" ∷ "kernel" ∷ []; write = "evaluator" ∷ [] }
    ∷ record { channel = deal; read = "buyer" ∷ "kernel" ∷ []; write = "negotiator" ∷ [] }
    ∷ record { channel = decision; read = "kernel" ∷ []; write = "buyer" ∷ [] }
    ∷ []

add_acls : List ChannelAcl → Dict ChannelType ChannelAcl → Dict ChannelType ChannelAcl
add_acls [] d = d
add_acls (a ∷ rest) d = add_acls rest (insert a.channel a d)

-- `{acl.channel: acl for acl in acls}`
pub acls_by_channel : List ChannelAcl → Dict ChannelType ChannelAcl
unfolding add_acls
acls_by_channel acls = add_acls acls []

pub data AclError : Type 0 where
  key_error : AclError

found_acl : Option ChannelAcl → Result AclError ChannelAcl
found_acl none = err key_error
found_acl (some a) = ok a

unfoldable pub get_acl : ChannelType → Result AclError ChannelAcl
unfolding acls_by_channel found_acl
get_acl c = found_acl (lookup c (acls_by_channel channel_acls))

is_reader : String → Result AclError ChannelAcl → Result AclError Bool
is_reader archetype (ok a) = ok (contains a.read archetype)
is_reader archetype (err e) = err e

is_writer : String → Result AclError ChannelAcl → Result AclError Bool
is_writer archetype (ok a) = ok (contains a.write archetype)
is_writer archetype (err e) = err e

unfoldable pub check_read_permission : String → ChannelType → Result AclError Bool
unfolding get_acl is_reader
check_read_permission archetype c = is_reader archetype (get_acl c)

unfoldable pub check_write_permission : String → ChannelType → Result AclError Bool
unfolding get_acl is_writer
check_write_permission archetype c = is_writer archetype (get_acl c)

abbrev artifact_kind_to_channel : Dict String ChannelType
artifact_kind_to_channel =
    ("requirement", requirement)
    ∷ ("supplier_list", discovery)
    ∷ ("evaluation", score)
    ∷ ("risk_assessment", risk)
    ∷ ("quote", deal)
    ∷ ("decision", decision)
    ∷ ("governance_decision", decision)
    ∷ ("execution_authorization", decision)
    ∷ []

abbrev channel_to_artifact_kinds : Dict ChannelType (List String)
channel_to_artifact_kinds =
    (requirement, "requirement" ∷ [])
    ∷ (discovery, "supplier_list" ∷ [])
    ∷ (score, "evaluation" ∷ [])
    ∷ (risk, "risk_assessment" ∷ [])
    ∷ (deal, "quote" ∷ [])
    ∷ (decision, "decision" ∷ [])
    ∷ []

pub channel_for_artifact_kind : String → Option ChannelType
channel_for_artifact_kind kind = lookup kind artifact_kind_to_channel

-- `.get(channel, [])`
abbrev kinds_or_empty : Option (List String) → List String
kinds_or_empty none = []
kinds_or_empty (some ks) = ks

pub artifact_kinds_for_channel : ChannelType → List String
artifact_kinds_for_channel c = kinds_or_empty (lookup c channel_to_artifact_kinds)
