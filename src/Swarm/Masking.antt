-- ===== src/Swarm/Masking.antt =====
-- The masking of secrets in the timeline (swarm/core/timeline.py). `lower` is `str.lower`.
pub mod Safe
use autonomous_procurement_s.Prelude.{
  ℕ, zero, suc, ◌+◌, ◌-◌, ◌≤◌, ◌<◌, String, ◌≡◌, refl, sym, ap, ◌∙◌, ◌≢◌, ◌↔◌, ◌⊎◌, inl, inr, Bool,
  true, false, not, ◌&&◌, ◌||◌, Option, none, some, List, [], ◌∷◌, ◌++◌, map, reverse, arith,
  eq_iff, Bool-cases, Option-cases, if◌then◌else◌, is_some, contains, Eq, ◌==◌, string_eq, nat_eq,
  nat_beq, All, length, filter, any, all, take, drop, ltb, leb, eq_refl,
}
use autonomous_procurement_s.Prelude.Json.{
  Value, Items, Fields, null, bool, number, text, arr, obj, nil, cons, end, field,
}

abbrev pub sensitive_keys : List String
sensitive_keys =
    "password" ∷ "secret" ∷ "token" ∷ "api_key" ∷ "apikey" ∷ "client_secret" ∷ "private_key"
    ∷ "access_token" ∷ "refresh_token" ∷ []

abbrev pub redacted : String
redacted = "***REDACTED***"

-- `key is not None and key.lower() in _SENSITIVE_KEYS`
unfoldable pub is_sensitive : (String → String) → Option String → Bool
is_sensitive lower none = false
is_sensitive lower (some key) = contains sensitive_keys (lower key)

module _ (lower : String → String) {N : Type 0} where
  unfoldable pub mask_scalar : Option String → Value N → Value N
  unfolding is_sensitive
  mask_scalar key v = if is_sensitive lower key then text redacted else v

  unfoldable mutual
    unfolding mask_scalar

    pub mask_secrets : Option String → Value N → Value N
    mask_secrets key null = mask_scalar key null
    mask_secrets key (bool b) = mask_scalar key (bool b)
    mask_secrets key (number n) = mask_scalar key (number n)
    mask_secrets key (text s) = mask_scalar key (text s)
    mask_secrets key (arr xs) = arr (mask_items xs)
    mask_secrets key (obj fs) = obj (mask_fields fs)

    pub mask_items : Items N → Items N
    mask_items nil = nil
    mask_items (cons x xs) = cons (mask_secrets none x) (mask_items xs)

    pub mask_fields : Fields N → Fields N
    mask_fields end = end
    mask_fields (field key v fs) = field key (mask_secrets (some key) v) (mask_fields fs)
