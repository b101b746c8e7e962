-- ===== src/Wagering/Json.antt =====
-- JSON values and `JSON.stringify`, and src/wagering/application/canonical-json.ts. A number is
-- the text that it is written as. A string is a list of UTF-16 code units.
use distributed_wagering_pro.Prelude.{
  Bool, Text, ℕ, true, if◌then◌else◌, ◌∷◌, leb, false, codes, ◌==◌, ltb, ◌/◌, ◌&&◌, ◌++◌, [], ◌+◌,
  ◌%◌, ◌||◌, ◌-◌,
}

mutual
  pub data Json : Type 0 where
    null : Json
    boolean : Bool → Json
    text : Text → Json
    number : Text → Json
    array : Items → Json
    object : Fields → Json

  pub data Items : Type 0 where
    nil : Items
    item : Json → Items → Items

  -- The own properties in order; a property whose value is `undefined` is `absent`.
  pub data Fields : Type 0 where
    end : Fields
    field : Text → Json → Fields → Fields
    absent : Text → Fields → Fields

-- The order of `Array.prototype.sort` on strings: by code units, a prefix first.
unfoldable pub text_le : Text → Text → Bool
text_le [] t = true
text_le (x ∷ s) [] = false
text_le (x ∷ s) (y ∷ t) = if x == y then text_le s t else leb x y

-- `sorted[key] = value`, keys taken in sorted order.
unfoldable pub insert_field : Text → Json → Fields → Fields
unfolding text_le
insert_field k v end = field k v end
insert_field k v (field j w fs) =
    let rest = insert_field k v fs in
    if text_le k j then field k v (field j w fs) else field j w rest
insert_field k v (absent j fs) =
    let rest = insert_field k v fs in if text_le k j then field k v (absent j fs) else absent j rest

unfoldable pub insert_absent : Text → Fields → Fields
unfolding text_le
insert_absent k end = absent k end
insert_absent k (field j w fs) =
    let rest = insert_absent k fs in if text_le k j then absent k (field j w fs) else field j w rest
insert_absent k (absent j fs) =
    let rest = insert_absent k fs in if text_le k j then absent k (absent j fs) else absent j rest

-- `sortKeysDeep`. (An object with keys that are array indices lists those first, whatever their
-- order of insertion; no object that the program hashes has such a key.)
unfoldable mutual
  unfolding insert_field insert_absent

  pub sort_keys_deep : Json → Json
  sort_keys_deep null = null
  sort_keys_deep (boolean b) = boolean b
  sort_keys_deep (text s) = text s
  sort_keys_deep (number s) = number s
  sort_keys_deep (array xs) = array (sort_items xs)
  sort_keys_deep (object fs) = object (sort_fields fs)

  pub sort_items : Items → Items
  sort_items nil = nil
  sort_items (item x xs) = item (sort_keys_deep x) (sort_items xs)

  pub sort_fields : Fields → Fields
  sort_fields end = end
  sort_fields (field k v fs) = insert_field k (sort_keys_deep v) (sort_fields fs)
  sort_fields (absent k fs) = insert_absent k (sort_fields fs)

-- The digits of `\uXXXX`.
abbrev hex_digit : ℕ → ℕ
hex_digit d = if ltb d 10 then b'0' + d else b'a' + (d - 10)

abbrev unicode_escape : ℕ → Text
unicode_escape c =
    b'\\'
    ∷ b'u'
    ∷ hex_digit (c / 4096)
    ∷ hex_digit (c / 256 % 16)
    ∷ hex_digit (c / 16 % 16)
    ∷ hex_digit (c % 16)
    ∷ []

-- How `JSON.stringify` writes one code unit that is no surrogate.
escape_unit : ℕ → Text
escape_unit c =
    if c == b'"'
    then b'\\' ∷ b'"' ∷ []
    else if c == b'\\'
    then b'\\' ∷ b'\\' ∷ []
    else if c == 8
    then b'\\' ∷ b'b' ∷ []
    else if c == 9
    then b'\\' ∷ b't' ∷ []
    else if c == 10
    then b'\\' ∷ b'n' ∷ []
    else if c == 12
    then b'\\' ∷ b'f' ∷ []
    else if c == 13
    then b'\\' ∷ b'r' ∷ []
    else if ltb c 32
    then unicode_escape c
    else c ∷ []

abbrev is_high_surrogate : ℕ → Bool
is_high_surrogate c = leb 0xd800 c && leb c 0xdbff

abbrev is_low_surrogate : ℕ → Bool
is_low_surrogate c = leb 0xdc00 c && leb c 0xdfff

abbrev starts_low : Text → Bool
starts_low [] = false
starts_low (c ∷ cs) = is_low_surrogate c

-- A surrogate pair is written as it is, a lone surrogate is escaped. `high` says that the unit
-- before was the first of a pair.
escape_from : Bool → Text → Text
unfolding escape_unit
escape_from high [] = []
escape_from high (c ∷ cs) =
    let pair = is_high_surrogate c && starts_low cs in
    let rest = escape_from pair cs in
    if is_high_surrogate c || is_low_surrogate c
    then (if pair || high then c ∷ rest else unicode_escape c ++ rest)
    else escape_unit c ++ rest

unfoldable pub quote : Text → Text
unfolding escape_from
quote s = b'"' ∷ escape_from false s ++ b'"' ∷ []

-- `JSON.stringify`; a property whose value is `undefined` is left out.
unfoldable mutual
  unfolding quote

  pub stringify : Json → Text
  stringify null = codes "null"
  stringify (boolean b) = if b then codes "true" else codes "false"
  stringify (text s) = quote s
  stringify (number s) = s
  stringify (array xs) = b'[' ∷ stringify_items false xs ++ b']' ∷ []
  stringify (object fs) = b'{' ∷ stringify_fields false fs ++ b'}' ∷ []

  -- The flag says that something stands before, so a comma is due.
  pub stringify_items : Bool → Items → Text
  stringify_items comma nil = []
  stringify_items comma (item x xs) =
      (if comma then b',' ∷ [] else []) ++ stringify x ++ stringify_items true xs

  pub stringify_fields : Bool → Fields → Text
  stringify_fields comma end = []
  stringify_fields comma (absent k fs) = stringify_fields comma fs
  stringify_fields comma (field k v fs) =
      (if comma then b',' ∷ [] else []) ++ quote k ++ b':' ∷ stringify v ++ stringify_fields true fs

unfoldable pub canonical_json : Json → Text
unfolding stringify sort_keys_deep
canonical_json value = stringify (sort_keys_deep value)
