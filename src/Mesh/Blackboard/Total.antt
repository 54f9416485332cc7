-- ===== src/Mesh/Blackboard/Total.antt =====
-- Reads on a reachable blackboard: who gets an answer (mesh/blackboard.py).
use autonomous_procurement_s.Prelude.{
  String, ◌≡◌, refl, true, false, some, List, [], ◌∷◌, arith, contains, string_eq, inl, inr,
  Bool-cases, ap, ◌∙◌, All, ◌⊎◌,
}
use autonomous_procurement_s.Prelude.Int.{ℤ}
use autonomous_procurement_s.Prelude.Dict.{Dict, lookup, insert}
use autonomous_procurement_s.Prelude.Exec.{ok, err, Result-cases, Returns, ◌>>=◌}
use autonomous_procurement_s.Mesh.Channels.{
  ChannelType, channel_types, channel_eq, check_read_permission,
}
use autonomous_procurement_s.Mesh.Channels.Permissions.{
  check_read_permission_lem, check_read_permission_total, lookup_acl_total,
}
use autonomous_procurement_s.Mesh.Blackboard.{
  permission_error, ChannelTrace, Blackboard, init, read, read_each, read_multi, read_all,
  accessible,
}
use autonomous_procurement_s.Mesh.Blackboard.Reachable.{
  Call, performs, IsValid, performs-init-IsValid, read-IsValid,
}

-- The comprehension of `read_all` finds only channels that the archetype may read.
accessible_lem :
    (archetype : String) (cs : List ChannelType)
    → (found : List ChannelType) × (accessible archetype cs ≡ ok found)
      × All (λ c. check_read_permission archetype c ≡ ok true) found
unfolding accessible
accessible_lem archetype [] = ([], refl, tt)
accessible_lem archetype (c ∷ cs) =
    let (found, e, allowed) = accessible_lem archetype cs in
    let (granted, check) = check_read_permission_total archetype c in
    elim (Bool-cases granted) [
      | inl g ↦ (c ∷ found, ground arith, (check ∙ ap ok g, allowed))
      | inr g ↦ (found, ground arith, allowed)
    ]

module _ {N : Type 0} (archetype : String) (limit : ℤ) where
  -- On a valid blackboard a read returns if the channel's check allows it, and otherwise raises
  -- the permission error and changes nothing; no other error is possible.
  pub read_by_check :
      (c : ChannelType) (b : Blackboard N)
      → IsValid b
      → ((check_read_permission archetype c ≡ ok true) × Returns (read archetype c limit b).0)
        ⊎ ((check_read_permission archetype c ≡ ok false)
            × (read archetype c limit b ≡ (err permission_error, b)))
  unfolding read
  read_by_check c b v =
      let (acl, configured) = lookup_acl_total c in
      let found : lookup c b.acls ≡ some acl = rw v.same_acls configured in
      let check = check_read_permission_lem c archetype acl configured in
      let here = v.present c in
      elim (Bool-cases (contains acl.read archetype)) [
        | inl listed ↦ inl (check ∙ ap ok listed, ground arith)
        | inr unlisted ↦ inr (check ∙ ap ok unlisted, ground arith)
      ]

  read_each-Returns :
      (cs : List ChannelType) (result : Dict ChannelType (List (ChannelTrace N))) (b : Blackboard N)
      → IsValid b
      → All (λ c. check_read_permission archetype c ≡ ok true) cs
      → Returns (read_each archetype limit cs result b).0
  unfolding read_each
  read_each-Returns [] result b v allowed = tt
  read_each-Returns (c ∷ cs) result b v allowed = elim (Result-cases (read archetype c limit b).0) [
    | inl (ts, e) ↦
        rw (e, ◌>>=◌)
          (read_each-Returns cs (insert c ts result) (read archetype c limit b).1
            (read-IsValid archetype c limit b v) allowed.1)
    | inr (x, e) ↦ ground (arith, read_by_check c b v)
  ]

  -- After any sequence of calls on a new blackboard, `read_all` returns for every archetype, known
  -- or not: it asks only for the channels that the archetype may read.
  pub read_all-Returns :
      (xs : List (Call N)) → Returns (read_all archetype limit (performs xs init)).0
  unfolding read_all read_multi
  read_all-Returns xs =
      let (found, e, allowed) = accessible_lem archetype channel_types in
      rw (e, ◌>>=◌)
        (read_each-Returns found [] (performs xs init) (performs-init-IsValid xs) allowed)
