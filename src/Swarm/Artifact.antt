-- ===== src/Swarm/Artifact.antt =====
-- Artifacts and their versions (swarm/core/artifact.py). `N` is the type of the numbers in a
-- payload. The generated id and the time of creation are fields that the caller fills.
use autonomous_procurement_s.Prelude.Dict.{Dict}
use autonomous_procurement_s.Prelude.Int.{ℤ, pos, negsuc}
use autonomous_procurement_s.Prelude.Json.{Fields}
use autonomous_procurement_s.Prelude.{zero, suc, ◌+◌, String, Option, some, List, string_eq, nat_eq}

-- `n + 1`
pub next_version : ℤ → ℤ
next_version (pos n) = pos (n + 1)
next_version (negsuc zero) = pos 0
next_version (negsuc (suc n)) = negsuc n

pub record Artifact (N : Type 0) : Type 0 where
  pub id : String
  pub kind : String
  pub name : String
  pub content : Fields N  -- `data`
  pub tags : Dict String String
  pub parent_ids : List String
  pub version : ℤ
  pub created_by : String
  pub created_at : String
  pub updated_by : Option String
  pub updated_at : Option String
  pub correlation_id : Option String

-- `Artifact.update`; `now` is the time that it reads.
unfoldable pub update : {N : Type 0} → Fields N → Option String → String → Artifact N → Artifact N
unfolding next_version
update content by now a = record a {
  content = content;
  version = next_version a.version;
  updated_by = by;
  updated_at = some now;
}
