-- ===== src/Swarm/Timeline/Merge.antt =====
-- How artifacts and events are merged into the timeline (swarm/core/timeline.py).
use mathlib.Core.List.{Perm}
use mathlib.Core.List.Perm
use autonomous_procurement_s.Prelude.{
  ℕ, suc, get_elem?, ◌+◌, some, ◌++◌, map, refl, ap, sym, ◌∙◌, All-append, ◌≤◌, ◌<◌, String, ◌≡◌,
  inl, inr, Bool, true, false, List, [], ◌∷◌, arith, eq_iff, Bool-cases, ◌==◌, string_eq, nat_eq,
  nat_beq, All, All-imp,
}
use autonomous_procurement_s.Swarm.Timeline.{
  Entry, Node, artifact_node, event_node, artifact_entries, event_entries, entry_le, merged, raw,
}
use autonomous_procurement_s.Prelude.Sort.{sort, All-sort, sort-perm, sort-IsSorted, IsSorted}
use autonomous_procurement_s.Swarm.Artifact.{Artifact}
use autonomous_procurement_s.Swarm.Event.{Event}
use autonomous_procurement_s.Swarm.State.{SwarmState}

-- `<` of texts is a strict total order.
pub record Ordered (earlier : String → String → Bool) : Type 0 where
  pub total : (a b : String) → earlier a b ≡ false → earlier b a ≡ false → a ≡ b
  pub trans : (a b c : String) → earlier a b ≡ true → earlier b c ≡ true → earlier a c ≡ true
  pub irrefl : (a : String) → earlier a a ≡ false

module _ {N : Type 0} where
  -- Of two entries the first is not later: its time is earlier, or the times are the same and it is
  -- of the lower rank, or also the ranks are the same and its index is not larger.
  pub data NotLater (earlier : String → String → Bool) (a b : Entry N) : Type 0 where
    by_time : earlier a.time b.time ≡ true → NotLater earlier a b
    by_rank : a.time ≡ b.time → a.rank < b.rank → NotLater earlier a b
    by_index : a.time ≡ b.time → a.rank ≡ b.rank → a.index ≤ b.index → NotLater earlier a b

  -- Every entry is not later than all that follow.
  abbrev pub Chronological : (String → String → Bool) → List (Entry N) → Type 0
  Chronological earlier [] = Unit
  Chronological earlier (x ∷ xs) = All (NotLater earlier x) xs × Chronological earlier xs

  module _ (earlier : String → String → Bool) (o : Ordered earlier) where
    entry_le-NotLater : (a b : Entry N) → entry_le earlier a b ≡ true → NotLater earlier a b
    unfolding entry_le
    entry_le-NotLater a b h = elim (Bool-cases (a.time == b.time)) [
      | inr e ↦ by_time (ground arith)
      | inl e ↦
          let same = (eq_iff a.time b.time).0 e in
          elim (Bool-cases (nat_beq a.rank b.rank)) [
            | inl f ↦ by_index same (ground arith) (ground arith)
            | inr f ↦ by_rank same (ground arith)
          ]
    ]

    entry_le-total : (a b : Entry N) → entry_le earlier a b ≡ false → entry_le earlier b a ≡ true
    unfolding entry_le
    entry_le-total a b h =
        ground (arith, eq_iff a.time b.time, eq_iff b.time a.time, o.total a.time b.time)

    entry_le_trans :
        (a b c : Entry N)
        → entry_le earlier a b ≡ true
        → entry_le earlier b c ≡ true
        → entry_le earlier a c ≡ true
    unfolding entry_le
    entry_le_trans a b c h k = ground (
      arith,
      eq_iff a.time b.time,
      eq_iff b.time c.time,
      eq_iff a.time c.time,
      o.trans a.time b.time c.time,
      o.trans b.time c.time b.time,
      o.irrefl b.time,
    )

    Chronological-IsSorted :
        (xs : List (Entry N)) → IsSorted (entry_le earlier) xs → Chronological earlier xs
    Chronological-IsSorted [] s = tt
    Chronological-IsSorted (x ∷ xs) s = (
      All-imp (λ y. entry_le earlier x y ≡ true) (NotLater earlier x) xs (entry_le-NotLater x) s.0,
      Chronological-IsSorted xs s.1,
    )

  -- An entry stands for the artifact or the event of the state at its index, with that one's time,
  -- and artifacts have the lower rank.
  pub data Placed (s : SwarmState N) (x : Entry N) : Type 0 where
    artifact_at :
        (a : Artifact N)
        → x.node ≡ artifact_node a
        → get_elem? s.artifacts x.index ≡ some a
        → x.time ≡ a.created_at
        → x.rank ≡ 0
        → Placed s x
    event_at :
        (e : Event N)
        → x.node ≡ event_node e
        → get_elem? s.events x.index ≡ some e
        → x.time ≡ e.timestamp
        → x.rank ≡ 1
        → Placed s x

  artifact_entries-Placed :
      (s : SwarmState N) (n : ℕ) (xs : List (Artifact N))
      → ((k : ℕ) → get_elem? s.artifacts (k + n) ≡ get_elem? xs k)
      → All (Placed s) (artifact_entries n xs)
  unfolding artifact_entries
  artifact_entries-Placed s n [] f = tt
  artifact_entries-Placed s n (a ∷ xs) f = (
    artifact_at a refl (ap (get_elem? s.artifacts) (omega arith) ∙ f 0) refl refl,
    artifact_entries-Placed s (n + 1) xs
        (λ k. ap (get_elem? s.artifacts) (omega arith) ∙ f (suc k)),
  )

  event_entries-Placed :
      (s : SwarmState N) (n : ℕ) (xs : List (Event N))
      → ((k : ℕ) → get_elem? s.events (k + n) ≡ get_elem? xs k)
      → All (Placed s) (event_entries n xs)
  unfolding event_entries
  event_entries-Placed s n [] f = tt
  event_entries-Placed s n (e ∷ xs) f = (
    event_at e refl (ap (get_elem? s.events) (omega arith) ∙ f 0) refl refl,
    event_entries-Placed s (n + 1) xs (λ k. ap (get_elem? s.events) (omega arith) ∙ f (suc k)),
  )

  raw-Placed : (s : SwarmState N) → All (Placed s) (raw s)
  unfolding raw
  raw-Placed s =
      All-append (Placed s) (artifact_entries 0 s.artifacts) (event_entries 0 s.events)
        (artifact_entries-Placed s 0 s.artifacts (λ k. ap (get_elem? s.artifacts) (omega arith)))
        (event_entries-Placed s 0 s.events (λ k. ap (get_elem? s.events) (omega arith)))

  -- The artifacts of a state and then its events.
  abbrev pub nodes : SwarmState N → List (Node N)
  nodes s = map artifact_node s.artifacts ++ map event_node s.events

  artifact_entries-nodes :
      (n : ℕ) (xs : List (Artifact N)) (ys : List (Entry N))
      → map (λ x. x.node) (artifact_entries n xs ++ ys)
        ≡ map artifact_node xs ++ map (λ x. x.node) ys
  unfolding artifact_entries
  artifact_entries-nodes n [] ys = refl
  artifact_entries-nodes n (a ∷ xs) ys =
      ap (λ zs. artifact_node a ∷ zs) (artifact_entries-nodes (n + 1) xs ys)

  event_entries-nodes :
      (n : ℕ) (xs : List (Event N)) → map (λ x. x.node) (event_entries n xs) ≡ map event_node xs
  unfolding event_entries
  event_entries-nodes n [] = refl
  event_entries-nodes n (e ∷ xs) = ap (λ zs. event_node e ∷ zs) (event_entries-nodes (n + 1) xs)

  raw-nodes : (s : SwarmState N) → map (λ x. x.node) (raw s) ≡ nodes s
  unfolding raw
  raw-nodes s =
      artifact_entries-nodes 0 s.artifacts (event_entries 0 s.events)
      ∙ ap (λ zs. map artifact_node s.artifacts ++ zs) (event_entries-nodes 0 s.events)

  -- If `<` of texts is a strict total order, the merged entries are every artifact and every event
  -- of the state exactly once, each with its own time and its index in the state, and no entry is
  -- later than one that follows: at the same time artifacts come before events, and each kind in
  -- the order of the state.
  pub merged_lem :
      (earlier : String → String → Bool)
      → Ordered earlier
      → (s : SwarmState N)
      → Perm (map (λ x. x.node) (merged earlier s)) (nodes s)
        × All (Placed s) (merged earlier s)
        × Chronological earlier (merged earlier s)
  unfolding merged
  merged_lem earlier o s = (
    rw (sym (raw-nodes s)) (Perm.map (λ x. x.node) (sort-perm (entry_le earlier) (raw s))),
    All-sort (entry_le earlier) (Placed s) (raw s) (raw-Placed s),
    Chronological-IsSorted earlier o (sort (entry_le earlier) (raw s)) (
        sort-IsSorted (entry_le earlier) (entry_le-total earlier o) (entry_le_trans earlier o)
          (raw s)),
  )
