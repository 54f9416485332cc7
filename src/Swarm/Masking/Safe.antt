-- ===== src/Swarm/Masking/Safe.antt =====
-- What a masked payload shows (swarm/core/timeline.py).
use autonomous_procurement_s.Prelude.{
  String, ◌≡◌, refl, ap, inl, inr, Bool, true, false, Option, none, some, Bool-cases, string_eq,
  nat_eq,
}
use autonomous_procurement_s.Prelude.Json.{
  Value, Items, Fields, null, bool, number, text, arr, obj, nil, cons, end, field,
}
use autonomous_procurement_s.Swarm.Masking.{
  redacted, is_sensitive, mask_secrets, mask_items, mask_fields, mask_scalar,
}

abbrev pub is_scalar : {N : Type 0} → Value N → Bool
is_scalar (arr xs) = false
is_scalar (obj fs) = false
is_scalar _ = true

module _ (lower : String → String) {N : Type 0} where
  -- Under a sensitive key stands no scalar but the mask, however deep.
  mutual
    pub SafeValue : Value N → Type 0
    SafeValue (arr xs) = SafeItems xs
    SafeValue (obj fs) = SafeFields fs
    SafeValue _ = Unit

    pub SafeItems : Items N → Type 0
    SafeItems nil = Unit
    SafeItems (cons x xs) = SafeValue x × SafeItems xs

    pub SafeFields : Fields N → Type 0
    SafeFields end = Unit
    SafeFields (field key v fs) =
        (is_sensitive lower (some key) ≡ true → is_scalar v ≡ true → v ≡ text redacted)
        × SafeValue v
        × SafeFields fs

  SafeValue-scalar : (v : Value N) → is_scalar v ≡ true → SafeValue v
  unfolding SafeValue
  SafeValue-scalar null h = tt
  SafeValue-scalar (bool b) h = tt
  SafeValue-scalar (number n) h = tt
  SafeValue-scalar (text s) h = tt
  SafeValue-scalar (arr xs) h = cc
  SafeValue-scalar (obj fs) h = cc

  SafeValue-mask_scalar :
      (key : Option String) (v : Value N) → is_scalar v ≡ true → SafeValue (mask_scalar lower key v)
  unfolding mask_scalar SafeValue
  SafeValue-mask_scalar key v h = elim (Bool-cases (is_sensitive lower key)) [
    | inl e ↦ rw e tt
    | inr e ↦ rw e (SafeValue-scalar v h)
  ]

  masked_lem :
      (key : String) (v : Value N)
      → is_sensitive lower (some key) ≡ true
      → is_scalar (mask_secrets lower (some key) v) ≡ true
      → mask_secrets lower (some key) v ≡ text redacted
  unfolding mask_secrets mask_scalar
  masked_lem key null e h = rw e refl
  masked_lem key (bool b) e h = rw e refl
  masked_lem key (number n) e h = rw e refl
  masked_lem key (text s) e h = rw e refl
  masked_lem key (arr xs) e h = cc
  masked_lem key (obj fs) e h = cc

  mutual
    unfolding mask_secrets mask_items mask_fields SafeValue SafeItems SafeFields

    SafeValue-mask_secrets :
        (key : Option String) (v : Value N) → SafeValue (mask_secrets lower key v)
    SafeValue-mask_secrets key null = SafeValue-mask_scalar key null refl
    SafeValue-mask_secrets key (bool b) = SafeValue-mask_scalar key (bool b) refl
    SafeValue-mask_secrets key (number n) = SafeValue-mask_scalar key (number n) refl
    SafeValue-mask_secrets key (text s) = SafeValue-mask_scalar key (text s) refl
    SafeValue-mask_secrets key (arr xs) = SafeItems-mask_items xs
    SafeValue-mask_secrets key (obj fs) = SafeFields-mask_fields fs

    SafeItems-mask_items : (xs : Items N) → SafeItems (mask_items lower xs)
    SafeItems-mask_items nil = tt
    SafeItems-mask_items (cons x xs) = (SafeValue-mask_secrets none x, SafeItems-mask_items xs)

    SafeFields-mask_fields : (fs : Fields N) → SafeFields (mask_fields lower fs)
    SafeFields-mask_fields end = tt
    SafeFields-mask_fields (field key v fs) =
        (masked_lem key v, SafeValue-mask_secrets (some key) v, SafeFields-mask_fields fs)

  -- In a masked payload, at every depth, a value that is no list and no dict and that stands under
  -- a sensitive key is the mask.
  pub mask_fields-Safe : (fs : Fields N) → SafeFields (mask_fields lower fs)
  mask_fields-Safe fs = SafeFields-mask_fields fs

  abbrev pub Scalars : Items N → Type 0
  Scalars nil = Unit
  Scalars (cons x xs) = (is_scalar x ≡ true) × Scalars xs

  mask_secrets-none : (v : Value N) → is_scalar v ≡ true → mask_secrets lower none v ≡ v
  unfolding mask_secrets mask_scalar is_sensitive
  mask_secrets-none null h = refl
  mask_secrets-none (bool b) h = refl
  mask_secrets-none (number n) h = refl
  mask_secrets-none (text s) h = refl
  mask_secrets-none (arr xs) h = cc
  mask_secrets-none (obj fs) h = cc

  mask_items-Scalars : (xs : Items N) → Scalars xs → mask_items lower xs ≡ xs
  unfolding mask_items
  mask_items-Scalars nil h = refl
  mask_items-Scalars (cons x xs) h = rw (mask_secrets-none x h.0, mask_items-Scalars xs h.1) refl

  -- A list of values that are no lists and no dicts is left as it is under every key, also under a
  -- sensitive one.
  pub list_is_not_masked :
      (key : String) (xs : Items N) → Scalars xs → mask_secrets lower (some key) (arr xs) ≡ arr xs
  unfolding mask_secrets
  list_is_not_masked key xs h = ap arr (mask_items-Scalars xs h)
