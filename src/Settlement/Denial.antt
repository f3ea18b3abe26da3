-- ===== src/Settlement/Denial.antt =====
-- agent/control/settlement.py: `parse_402_denial`. What Python's `float`, `int` and `str` make of a
-- JSON value of another type is a parameter.
use agent_life_space.Prelude.{
  ℕ, String, Bool, true, false, Option, none, some, List, [], ◌∷◌, ◌==◌, ◌&&◌, if◌then◌else◌, not,
  leb,
}
use agent_life_space.Prelude.Float.{Float}
use agent_life_space.Prelude.Result.{ok, err, ◌>>=◌}
use agent_life_space.Json.{
  Json, Fields, end, field, null, str, int, float, bool, arr, nil, cons, obj, Decoded, value_error,
  read_str, read_obj, get_default, get_field,
}
use agent_life_space.Settlement.Record.{PaymentRequired}

-- `float(s)` of a text, `int(x)` of a value that is no int, `str(x)` of a value that is no text;
-- `none` where Python raises ValueError or TypeError.
pub record Readings (F : Type 0) : Type 0 where
  pub float_text : String → Option F
  pub int_value : Json F → Option ℕ
  pub text : Json F → String

module _ (ops : Float) where
  open ops use {Num, decimal, le}

  -- `x == 0.0`, which is false at a NaN.
  unfoldable pub is_zero : Num → Bool
  is_zero x = le x (decimal 0 1) && le (decimal 0 1) x

  -- `bool(v)`
  unfoldable pub is_truthy : Json Num → Bool
  unfolding is_zero ◌==◌
  is_truthy null = false
  is_truthy (bool b) = b
  is_truthy (int n) = not (leb n 0)
  is_truthy (float x) = not (is_zero x)
  is_truthy (str s) = not (s == "")
  is_truthy (arr nil) = false
  is_truthy (arr (cons v l)) = true
  is_truthy (obj end) = false
  is_truthy (obj (field k v d)) = true

  abbrev is_truthy_opt : Option (Json Num) → Bool
  is_truthy_opt none = false
  is_truthy_opt (some v) = is_truthy v

  -- `d.get(first) or d.get(second, {})`, taken to be a dict.
  unfoldable pub first_dict : String → String → Fields Num → Decoded (Fields Num)
  unfolding get_field get_default read_obj is_truthy
  first_dict first second d =
      if is_truthy_opt (get_field first d)
      then get_default read_obj first end d
      else get_default read_obj second end d

  -- `float(v)`; `none` where it raises.
  unfoldable pub float_of : Readings Num → Json Num → Option Num
  float_of r (float x) = some x
  float_of r (int n) = some (decimal n 0)
  float_of r (bool true) = some (decimal 1 0)
  float_of r (bool false) = some (decimal 0 0)
  float_of r (str s) = r.float_text s
  float_of r _ = none

  abbrev float_at : Readings Num → Option (Json Num) → Option Num
  float_at r none = none
  float_at r (some v) = float_of r v

  -- The loop over the keys of a price: the first value that is a number.
  unfoldable pub amount_from : Readings Num → List String → Fields Num → Num
  unfolding float_of get_field
  amount_from r [] d = decimal 0 1
  amount_from r (k ∷ ks) d =
      let rest = amount_from r ks d in
      elim (float_at r (get_field k d)) [ none ↦ rest | some x ↦ x ]

  abbrev text_of : Readings Num → Option (Json Num) → String
  text_of r none = ""
  text_of r (some (str s)) = s
  text_of r (some v) = r.text v

  abbrev int_of : Readings Num → String → Option (Json Num) → Decoded ℕ
  int_of r k none = ok 0
  int_of r k (some (int n)) = ok n
  int_of r k (some v) = elim (r.int_value v) [ none ↦ err (value_error k) | some n ↦ ok n ]

  abbrev has_code : Option (Json Num) → String → Bool
  has_code (some (str s)) code = s == code
  has_code _ code = false

  -- With the new request id and the clock's text. `none` where the denial has another code.
  unfoldable pub parse_402_denial :
      Readings Num → String → String → Fields Num → Decoded (Option (PaymentRequired Num))
  unfolding first_dict amount_from get_default read_str read_obj get_field
  parse_402_denial r id now denial =
      if not (has_code (get_field "code" denial) "external_api_payment_required")
      then ok none
      else do
        meta ← get_default read_obj "metadata" end denial
        payment_meta ← first_dict "payment_metadata" "payment" meta
        provider_id ← get_default read_str "provider_id" "" meta
        capability_id ← get_default read_str "capability_id" "" meta
        target_url ← get_default read_str "target_url" "" meta
        retry_after ← int_of r "retry_after" (get_field "retry_after" payment_meta)
        ok (
            some (record {
              request_id = id;
              provider_id = provider_id;
              capability_id = capability_id;
              target_url = target_url;
              amount_required =
                  amount_from r ("price" ∷ "cost" ∷ "amount" ∷ "credits_required" ∷ [])
                    payment_meta;
              currency = "USD";
              payment_url = text_of r (get_field "payment_url" payment_meta);
              payment_address = text_of r (get_field "payment_address" payment_meta);
              retry_after_seconds = retry_after;
              raw_metadata = payment_meta;
              created_at = now;
            }))
