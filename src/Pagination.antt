-- ===== src/Pagination.antt =====
-- src/shared/pagination/cursor.ts: where a page of a ledger ends, as an opaque text.
use distributed_wagering_pro.Wagering.Json.{Json, text, object, field, end, stringify}
use distributed_wagering_pro.Wagering.Parse.{property, field_of}
use distributed_wagering_pro.Prelude.{
  Text, codes, Option, ◌≡◌, text_eq, some, none, is_empty, false, refl,
}
use distributed_wagering_pro.Persistence.World.{Platform}
use distributed_wagering_pro.Kernel.Errors.{Result, throw, ok, invalid_cursor}
use distributed_wagering_pro.Kernel.Event.{Timestamp}

pub record LedgerCursor : Type 0 where
  pub created_at : Text
  pub id : Text

abbrev pub cursor_json : LedgerCursor → Json
cursor_json cursor =
    object
      (field (codes "createdAt") (text cursor.created_at) (field (codes "id") (text cursor.id) end))

unfoldable pub encode_cursor : Platform → LedgerCursor → Text
unfolding stringify
encode_cursor P cursor = P.base64url_encode (stringify (cursor_json cursor))

-- `typeof value === "string"`
abbrev string_of : Option Json → Option Text
string_of (some (text s)) = some s
string_of _ = none

abbrev cursor_of : Option Text → Option Text → Option LedgerCursor
cursor_of (some created_at) (some id) = some (record { created_at = created_at; id = id })
cursor_of _ _ = none

-- What is read of the parsed value; an array has none of the two properties.
unfoldable pub read_cursor : Option Json → Option LedgerCursor
unfolding property
read_cursor none = none
read_cursor (some parsed) =
    cursor_of (string_of (property (codes "createdAt") parsed))
      (string_of (property (codes "id") parsed))

abbrev or_invalid : Text → Option LedgerCursor → Result LedgerCursor
or_invalid value none = throw (invalid_cursor value)
or_invalid value (some cursor) = ok cursor

-- Whatever the `try` throws, the `catch` throws `InvalidCursorError`.
unfoldable pub decode_cursor : Platform → Text → Result LedgerCursor
unfolding read_cursor
decode_cursor P value = or_invalid value (read_cursor (P.json_parse (P.base64url_decode value)))

-- The cursor of a row.
abbrev pub cursor_for : Platform → Timestamp → Text → LedgerCursor
cursor_for P created_at id = record { created_at = P.iso_string created_at; id = id }

-- What the program relies on for a row's cursor: its JSON survives the encoding and is parsed to what
-- was written, and its instant and id are read from the texts that they are printed as.
pub record Survives (P : Platform) (created_at : Timestamp) (id : Text) : Type 0 where
  pub decode-encode :
      P.base64url_decode (P.base64url_encode (stringify (cursor_json (cursor_for P created_at id))))
      ≡ stringify (cursor_json (cursor_for P created_at id))
  pub encode-full :
      is_empty (P.base64url_encode (stringify (cursor_json (cursor_for P created_at id)))) ≡ false
  pub parse-stringify :
      P.json_parse (stringify (cursor_json (cursor_for P created_at id)))
      ≡ some (cursor_json (cursor_for P created_at id))
  pub read-iso : P.read_instant (P.iso_string created_at) ≡ some created_at
  pub read-id : P.read_uuid id ≡ some id

pub decode_cursor-encode_cursor :
    (P : Platform) (created_at : Timestamp) (id : Text)
    → Survives P created_at id
    → decode_cursor P (encode_cursor P (cursor_for P created_at id))
      ≡ ok (cursor_for P created_at id)
unfolding decode_cursor encode_cursor read_cursor property field_of text_eq
decode_cursor-encode_cursor P created_at id survives =
    rw (survives.decode-encode, survives.parse-stringify) refl

pub encode_cursor-full :
    (P : Platform) (created_at : Timestamp) (id : Text)
    → Survives P created_at id
    → is_empty (encode_cursor P (cursor_for P created_at id)) ≡ false
unfolding encode_cursor
encode_cursor-full P created_at id survives = survives.encode-full
