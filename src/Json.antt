-- ===== src/Json.antt =====
-- JSON values as the `to_dict` and `from_dict` methods of the program build and read them, and the
-- readers that `from_dict` is made of. `F` is the type of Python's floats; a dict is `Fields`, in
-- insertion order. The annotations of the dataclasses are taken as types: where the JSON value has
-- another type than the field that it is read for, the reader answers `untyped` (Python would
-- store the value as it is).
use agent_life_space.Prelude.{
  ℕ, String, Bool, Option, none, some, ◌==◌, if◌then◌else◌, List, [], ◌∷◌, ◌≡◌, refl, arith,
  ==_refl,
}
use agent_life_space.Prelude.Result.{Result, ok, err, ◌>>=◌}

mutual
  pub data Json (F : Type 0) : Type 0 where
    null : Json F
    bool : Bool → Json F
    int : ℕ → Json F
    float : F → Json F
    str : String → Json F
    arr : Items F → Json F
    obj : Fields F → Json F

  pub data Items (F : Type 0) : Type 0 where
    nil : Items F
    cons : Json F → Items F → Items F

  pub data Fields (F : Type 0) : Type 0 where
    end : Fields F
    field : String → Json F → Fields F → Fields F

-- What `from_dict` raises: KeyError, ValueError of an enum, and values of another type.
pub data DecodeError : Type 0 where
  key_error value_error untyped : String → DecodeError

abbrev pub Decoded : Type 0 → Type 0
Decoded A = Result DecodeError A

module _ {F : Type 0} where
  -- d.get(key)
  unfoldable pub get_field : String → Fields F → Option (Json F)
  get_field k end = none
  get_field k (field j v d) = if j == k then some v else get_field k d

  -- d[key] = value
  unfoldable pub set_field : String → Json F → Fields F → Fields F
  set_field k v end = field k v end
  set_field k v (field j w d) = if j == k then field j v d else field j w (set_field k v d)

  -- A list of strings as a JSON array.
  unfoldable pub strings : List String → Items F
  strings [] = nil
  strings (s ∷ l) = cons (str s) (strings l)

  -- An optional string, `None` as null.
  unfoldable pub opt_str : Option String → Json F
  opt_str none = null
  opt_str (some s) = str s

  unfoldable pub opt_obj : Option (Fields F) → Json F
  opt_obj none = null
  opt_obj (some d) = obj d

  unfoldable pub read_str : String → Json F → Decoded String
  read_str k (str s) = ok s
  read_str k _ = err (untyped k)

  unfoldable pub read_int : String → Json F → Decoded ℕ
  read_int k (int n) = ok n
  read_int k _ = err (untyped k)

  unfoldable pub read_float : String → Json F → Decoded F
  read_float k (float x) = ok x
  read_float k _ = err (untyped k)

  unfoldable pub read_bool : String → Json F → Decoded Bool
  read_bool k (bool b) = ok b
  read_bool k _ = err (untyped k)

  unfoldable pub read_obj : String → Json F → Decoded (Fields F)
  read_obj k (obj d) = ok d
  read_obj k _ = err (untyped k)

  unfoldable pub read_opt_str : String → Json F → Decoded (Option String)
  read_opt_str k null = ok none
  read_opt_str k (str s) = ok (some s)
  read_opt_str k _ = err (untyped k)

  unfoldable pub read_opt_obj : String → Json F → Decoded (Option (Fields F))
  read_opt_obj k null = ok none
  read_opt_obj k (obj d) = ok (some d)
  read_opt_obj k _ = err (untyped k)

  read_items : String → Items F → Decoded (List String)
  read_items k nil = ok []
  read_items k (cons (str s) l) = read_items k l >>= λ r. ok (s ∷ r)
  read_items k (cons _ l) = err (untyped k)

  unfoldable pub read_strings : String → Json F → Decoded (List String)
  unfolding read_items
  read_strings k (arr l) = read_items k l
  read_strings k _ = err (untyped k)

  pub get_field-set_field_self :
      (k : String) (v : Json F) (d : Fields F) → get_field k (set_field k v d) ≡ some v
  unfolding get_field set_field
  get_field-set_field_self k v end = rw (==_refl k)
  get_field-set_field_self k v (field j w d) = ground (arith, get_field-set_field_self k v d)

module _ (F : Type 0) where
  pub read_strings-strings :
      (k : String) (l : List String) → read_strings {F = F} k (arr (strings l)) ≡ ok l
  unfolding read_strings strings
  read_strings-strings k [] = refl
  read_strings-strings k (s ∷ l) = ground (arith, read_strings-strings k l)

  pub read_opt_str-opt_str :
      (k : String) (o : Option String) → read_opt_str {F = F} k (opt_str o) ≡ ok o
  unfolding read_opt_str opt_str
  read_opt_str-opt_str k none = refl
  read_opt_str-opt_str k (some s) = refl

  pub read_opt_obj-opt_obj :
      (k : String) (o : Option (Fields F)) → read_opt_obj k (opt_obj o) ≡ ok o
  unfolding read_opt_obj opt_obj
  read_opt_obj-opt_obj k none = refl
  read_opt_obj-opt_obj k (some d) = refl

module _ {F A : Type 0} where
  -- data.get(key, default), read at the type of the field.
  abbrev pub or_default : Option (Json F) → A → (Json F → Decoded A) → Decoded A
  or_default none default read = ok default
  or_default (some v) default read = read v

  -- data[key]: KeyError where the key is missing.
  abbrev pub or_key_error : String → Option (Json F) → (Json F → Decoded A) → Decoded A
  or_key_error k none read = err (key_error k)
  or_key_error k (some v) read = read v

  unfoldable pub get_default : (String → Json F → Decoded A) → String → A → Fields F → Decoded A
  unfolding get_field ◌==◌
  get_default read k default d = or_default (get_field k d) default (read k)

  unfoldable pub get_required : (String → Json F → Decoded A) → String → Fields F → Decoded A
  unfolding get_field ◌==◌
  get_required read k d = or_key_error k (get_field k d) (read k)
