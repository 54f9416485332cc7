-- ===== src/Store/Policies/Active.antt =====
-- The table of the policies under stores and promotions (swarm/storage/event_store.py).
use autonomous_procurement_s.Prelude.{
  String, ◌≡◌, refl, inl, inr, true, false, ◌||◌, List, [], ◌∷◌, ◌++◌, map, arith, eq_iff,
  Bool-cases, string_eq, nat_eq,
}
use autonomous_procurement_s.Store.Tables.{Runtime, Db, PolicyRow, init_db}
use autonomous_procurement_s.Store.Policies.{
  NewPolicy, new_row, has_version, has_active, conflicts, store_policy, set_policy_active,
  deactivate, activate,
}

module _ (r : Runtime) where
  open r use {Json, Time}

  -- No two rows have one version, and no two rows are active.
  abbrev pub IsValid : List (PolicyRow r) → Type 0
  IsValid [] = Unit
  IsValid (p ∷ ps) =
      (has_version r p.version ps ≡ false)
      × (p.active ≡ true → has_active r ps ≡ false)
      × IsValid ps

  pub data Op : Type 0 where
    storing : NewPolicy r → Time → Op
    promoting : String → Op

  abbrev pub perform : Op → Db r → Db r
  perform (storing p now) db = store_policy r p now db
  perform (promoting v) db = (set_policy_active r v db).1

  abbrev pub performs : List Op → Db r → Db r
  performs [] db = db
  performs (o ∷ os) db = performs os (perform o db)

  has_version-append :
      (v : String) (xs ys : List (PolicyRow r))
      → has_version r v (xs ++ ys) ≡ has_version r v xs || has_version r v ys
  unfolding has_version
  has_version-append v [] ys = ground arith
  has_version-append v (x ∷ xs) ys = ground (arith, has_version-append v xs ys)

  has_active-append :
      (xs ys : List (PolicyRow r)) → has_active r (xs ++ ys) ≡ has_active r xs || has_active r ys
  unfolding has_active
  has_active-append [] ys = ground arith
  has_active-append (x ∷ xs) ys = ground (arith, has_active-append xs ys)

  append-IsValid :
      (p : PolicyRow r) (xs : List (PolicyRow r))
      → conflicts r p xs ≡ false
      → IsValid xs
      → IsValid (xs ++ p ∷ [])
  unfolding conflicts has_version has_active
  append-IsValid p [] c h = ground arith
  append-IsValid p (x ∷ xs) c h = ground (
    arith,
    append-IsValid p xs,
    has_version-append x.version xs (p ∷ []),
    has_active-append xs (p ∷ []),
    eq_iff x.version p.version,
    eq_iff p.version x.version,
  )

  store_policy-IsValid :
      (p : NewPolicy r) (now : Time) (db : Db r)
      → IsValid db.policies
      → IsValid (store_policy r p now db).policies
  unfolding store_policy
  store_policy-IsValid p now db h = elim (Bool-cases (conflicts r (new_row r p now) db.policies)) [
    | inl e ↦ rw e h
    | inr e ↦ rw e (append-IsValid (new_row r p now) db.policies e h)
  ]

  -- The rows after the two updates.
  updated : String → List (PolicyRow r) → List (PolicyRow r)
  updated v rows = map (activate r v) (map (deactivate r) rows)

  has_version-updated :
      (u v : String) (rows : List (PolicyRow r))
      → has_version r u (updated v rows) ≡ has_version r u rows
  unfolding has_version updated activate deactivate
  has_version-updated u v [] = refl
  has_version-updated u v (p ∷ ps) = ground (arith, has_version-updated u v ps)

  has_active-updated :
      (v : String) (rows : List (PolicyRow r))
      → has_active r (updated v rows) ≡ has_version r v rows
  unfolding has_version has_active updated activate deactivate
  has_active-updated v [] = refl
  has_active-updated v (p ∷ ps) = ground (arith, has_active-updated v ps)

  updated-IsValid :
      (v : String) (rows : List (PolicyRow r)) → IsValid rows → IsValid (updated v rows)
  unfolding updated activate deactivate
  updated-IsValid v [] h = tt
  updated-IsValid v (p ∷ ps) h = ground (
    arith,
    updated-IsValid v ps,
    has_version-updated p.version v ps,
    has_active-updated v ps,
    eq_iff p.version v,
  )

  set_policy_active-IsValid :
      (v : String) (db : Db r) → IsValid db.policies → IsValid (set_policy_active r v db).1.policies
  unfolding set_policy_active updated
  set_policy_active-IsValid v db h = elim (Bool-cases (has_version r v db.policies)) [
    | inl e ↦ rw e (updated-IsValid v db.policies h)
    | inr e ↦ rw e h
  ]

  performs-IsValid :
      (os : List Op) (db : Db r) → IsValid db.policies → IsValid (performs os db).policies
  performs-IsValid [] db h = h
  performs-IsValid (storing p now ∷ os) db h =
      performs-IsValid os (store_policy r p now db) (store_policy-IsValid p now db h)
  performs-IsValid (promoting v ∷ os) db h =
      performs-IsValid os (set_policy_active r v db).1 (set_policy_active-IsValid v db h)

  -- After any calls of store_policy and set_policy_active on a new database, in any order, no two
  -- rows of policies have one version and no two rows are active.
  pub performs-init_db-policies-IsValid :
      (os : List Op) → IsValid (performs os (init_db r)).policies
  unfolding init_db
  performs-init_db-policies-IsValid os = performs-IsValid os (init_db r) tt
