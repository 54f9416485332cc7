-- ===== src/Execution/Host.antt =====
-- What the agents use of Python on the values in a payload, and dicts of such values.
use autonomous_procurement_s.Prelude.{
  String, ◌≡◌, Bool, true, false, not, Option, none, some, arith, eq_iff, if◌then◌else◌, ◌==◌,
  string_eq, nat_eq,
}
use autonomous_procurement_s.Prelude.Json.{
  Value, Items, Fields, null, bool, number, text, arr, obj, nil, cons, end, field, get_field,
}

-- `str(x)`, `int(x)` and `float(x)`, which may raise, on the values of a payload, and on numbers.
pub record Host (N : Type 0) : Type 0 where
  pub str : Value N → String
  pub to_int : Value N → Option N
  pub to_float : Value N → Option N
  pub mul : N → N → N
  pub add : N → N → N
  pub zero : N
  pub is_zero : N → Bool
  pub lower : String → String

module _ {N : Type 0} where
  pub is_empty : Fields N → Bool
  is_empty end = true
  is_empty (field _ _ _) = false

  pub is_nil : Items N → Bool
  is_nil nil = true
  is_nil (cons _ _) = false

  -- `bool(x)`
  unfoldable pub truthy : Host N → Value N → Bool
  unfolding is_empty is_nil
  truthy h null = false
  truthy h (bool b) = b
  truthy h (number x) = not (h.is_zero x)
  truthy h (text s) = not (s == "")
  truthy h (arr xs) = not (is_nil xs)
  truthy h (obj d) = not (is_empty d)

  -- `str(d.get(k) or default)`
  unfoldable pub text_or : Host N → String → Option (Value N) → String
  unfolding truthy
  text_or h default none = default
  text_or h default (some v) = if truthy h v then h.str v else default

  -- `str(d.get(k, default))`
  unfoldable pub text_get : Host N → String → Option (Value N) → String
  text_get h default none = default
  text_get h default (some v) = h.str v

  -- `d.get(k) == "..."`
  abbrev pub is_text : String → Option (Value N) → Bool
  is_text s none = false
  is_text s (some null) = false
  is_text s (some (bool _)) = false
  is_text s (some (number _)) = false
  is_text s (some (text t)) = t == s
  is_text s (some (arr _)) = false
  is_text s (some (obj _)) = false

  -- `d[k] = v`
  abbrev pub set_field : String → Value N → Fields N → Fields N
  set_field k v end = field k v end
  set_field k v (field j u fs) = elim (j == k) [
    | true ↦ field j v fs
    | false ↦ field j u (set_field k v fs)
  ]

  pub get_field-set_field :
      (k j : String) (v : Value N) (fs : Fields N)
      → get_field j (set_field k v fs) ≡ (if k == j then some v else get_field j fs)
  get_field-set_field k j v end = ground arith
  get_field-set_field k j v (field i u fs) =
      ground (arith, eq_iff k j, eq_iff i k, eq_iff i j, get_field-set_field k j v fs)

  unfoldable pub text_or_null : Option String → Value N
  text_or_null none = null
  text_or_null (some s) = text s
