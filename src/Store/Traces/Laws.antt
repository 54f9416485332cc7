-- ===== src/Store/Traces/Laws.antt =====
-- What a reader of a trace sees after a row was written (swarm/storage/event_store.py).
use autonomous_procurement_s.Prelude.{
  String, ◌≡◌, refl, ap, inl, inr, Bool, Option, some, List, [], ◌∷◌, ◌++◌, map, arith, Bool-cases,
  if◌then◌else◌, ◌==◌, string_eq, nat_eq, filter-append, append_nil,
}
use autonomous_procurement_s.Store.Tables.{
  Runtime, Db, FeedbackRow, RoundTrip, deserialize-serialize,
}
use autonomous_procurement_s.Store.Traces.{
  store_event, store_artifact, load_state, load_feedback, store_feedback, newest, read_event,
  read_artifact, read_feedback,
}

module _ (r : Runtime) where
  open r use {Json, Float, Time, no_later}

  newest-append : (fs : List (FeedbackRow r)) (f : FeedbackRow r) → newest r (fs ++ f ∷ []) ≡ some f
  unfolding newest
  newest-append [] f = refl
  newest-append (x ∷ xs) f = rw (newest-append xs f) refl

  map-append : {A B : Type 0} (f : A → B) (xs ys : List A) → map f (xs ++ ys) ≡ map f xs ++ map f ys
  map-append f [] ys = refl
  map-append f (x ∷ xs) ys = ap (◌∷◌ (f x)) (map-append f xs ys)

  -- If what is written as JSON is read back as it was, then after store_event the state of that
  -- trace has the event at the end of its events, with the payload given, and the state of another
  -- trace is unchanged.
  pub load_state-store_event :
      RoundTrip r
      → (t u kind : String) (payload : Json) (now : Time) (db : Db r)
      → load_state r u (store_event r t kind payload now db) ≡ (
          if t == u
          then record (load_state r u db) {
            events =
                (load_state r u db).events
                ++ record { event_type = kind; payload = payload; created_at = now } ∷ [];
          }
          else load_state r u db)
  unfolding load_state store_event read_event
  load_state-store_event j t u kind payload now db = elim (Bool-cases (t == u)) [
    | inl e ↦ rw (e, filter-append, e, map-append, deserialize-serialize r j payload) refl
    | inr e ↦ rw (e, filter-append, e, append_nil) refl
  ]

  -- If what is written as JSON is read back as it was, then after store_artifact the state of that
  -- trace has the artifact at the end of its artifacts, with the data given, and the state of
  -- another trace is unchanged.
  pub load_state-store_artifact :
      RoundTrip r
      → (t u kind : String) (content : Json) (now : Time) (db : Db r)
      → load_state r u (store_artifact r t kind content now db) ≡ (
          if t == u
          then record (load_state r u db) {
            artifacts =
                (load_state r u db).artifacts
                ++ record { artifact_type = kind; content = content; created_at = now } ∷ [];
          }
          else load_state r u db)
  unfolding load_state store_artifact read_artifact
  load_state-store_artifact j t u kind content now db = elim (Bool-cases (t == u)) [
    | inl e ↦ rw (e, filter-append, e, map-append, deserialize-serialize r j content) refl
    | inr e ↦ rw (e, filter-append, e, append_nil) refl
  ]

  -- After store_feedback the feedback of that trace is the one given, whatever was stored before,
  -- and the feedback of another trace is unchanged.
  pub load_feedback-store_feedback :
      (t u : String) (score : Float) (success : Bool) (latency : Float) (text : Option String)
      (now : Time) (db : Db r)
      → load_feedback r u (store_feedback r t score success latency text now db) ≡ (
          if t == u
          then some (record {
            outcome_score = score;
            success = success;
            latency_ms = latency;
            user_feedback = text;
          })
          else load_feedback r u db)
  unfolding load_feedback store_feedback read_feedback
  load_feedback-store_feedback t u score success latency text now db = elim (Bool-cases (t == u)) [
    | inl e ↦ rw (e, filter-append, e, newest-append) (ground arith)
    | inr e ↦ rw (e, filter-append, e, append_nil) refl
  ]
