-- ===== src/Postgrest/Errors.antt =====
-- errors.go: the errors of the data API. `fmt.Sprintf` is written as the concatenation it makes.
use lowcode_wrapper.Base.{
  ℕ, ◌+◌, ◌-◌, ◌/◌, ◌%◌, Bool, ◌||◌, Option, none, some, or_else, List, [], ◌∷◌, ◌++◌, Text, text,
  text_eq, trim_space, to_lower, contains, is_empty, if◌then◌else◌, any, ltb, ◌==◌,
}

-- `hint` and `details` are pointers; nil is `none`.
pub record ApiError : Type 0 where
  pub code : Text
  pub message : Text
  pub details : Option Text
  pub hint : Option Text
  pub status : ℕ

pub record ErrorContext : Type 0 where
  pub schema : Text
  pub table : Text
  pub rpc : Text

pub record OpNotSupported : Type 0 where
  pub operation : Text
  pub protocol : Text

-- An `error`: what it prints, and what `errors.As` and `errors.Is` find in its chain. `malformed` is
-- a `json.SyntaxError`, a `json.UnmarshalTypeError`, `io.EOF` or `io.ErrUnexpectedEOF`.
pub record Failure : Type 0 where
  pub message : Text
  pub api : Option ApiError
  pub is_not_found : Bool
  pub malformed : Bool
  pub unsupported : Option OpNotSupported

unfoldable pub str_ptr : Text → Option Text
str_ptr s = if is_empty s then none else some s

unfoldable pub fallback : Text → Text → Text
fallback v def = if is_empty (trim_space v) then def else v

abbrev hex_digit : ℕ → ℕ
hex_digit n = if ltb n 10 then b'0' + n else b'a' + n - 10

abbrev pub quote_byte : ℕ → Text
quote_byte c =
    if c == 34 || c == 92
    then 92 ∷ c ∷ []
    else if c == 7
    then 92 ∷ b'a' ∷ []
    else if c == 8
    then 92 ∷ b'b' ∷ []
    else if c == 12
    then 92 ∷ b'f' ∷ []
    else if c == 10
    then 92 ∷ b'n' ∷ []
    else if c == 13
    then 92 ∷ b'r' ∷ []
    else if c == 9
    then 92 ∷ b't' ∷ []
    else if c == 11
    then 92 ∷ b'v' ∷ []
    else if ltb c 32 || c == 127
    then 92 ∷ b'x' ∷ hex_digit (c / 16) ∷ hex_digit (c % 16) ∷ []
    else c ∷ []

abbrev pub quote_bytes : Text → Text
quote_bytes [] = []
quote_bytes (c ∷ cs) = quote_byte c ++ quote_bytes cs

-- The verb `%q`; bytes outside ASCII are taken to spell printable runes.
unfoldable pub quote : Text → Text
quote s = 34 ∷ quote_bytes s ++ (34 ∷ [])

unfoldable pub table_not_found : Text → Text → ApiError
unfolding fallback
table_not_found schema table =
    let s = fallback schema (text "public") in
    let t = fallback table (text "unknown") in
    record {
      code = text "PGRST205";
      message =
          text "Could not find the table '" ++ s ++ text "." ++ t ++ text "' in the schema cache";
      details = none;
      hint = none;
      status = 404;
    }

unfoldable pub rpc_not_found : Text → Text → ApiError
unfolding fallback
rpc_not_found schema name =
    let s = fallback schema (text "public") in
    record {
      code = text "PGRST202";
      message =
          text "Could not find the function "
          ++ s
          ++ text "."
          ++ name
          ++ text " in the schema cache";
      details = none;
      hint = none;
      status = 404;
    }

-- The argument is the message of the error, if there is one.
unfoldable pub invalid_body : Option Text → ApiError
invalid_body err =
    let msg = or_else err (text "Invalid request body") in
    record { code = text "PGRST102"; message = msg; details = none; hint = none; status = 400 }

unfoldable pub unsupported_method : Text → ApiError
unsupported_method method = record {
  code = text "PGRST117";
  message = text "Unsupported HTTP method: " ++ method;
  details = none;
  hint = none;
  status = 405;
}

unfoldable pub invalid_rpc_method : ApiError
invalid_rpc_method = record {
  code = text "PGRST101";
  message = text "Functions only support GET and POST verbs";
  details = none;
  hint = none;
  status = 405;
}

unfoldable pub auth_error : Text → ApiError
unfolding str_ptr
auth_error message = record {
  code = text "PGRST301";
  message = message;
  details = none;
  hint = str_ptr (text "Provide a valid apikey header and Authorization: Bearer <anon-key or JWT>");
  status = 401;
}

unfoldable pub invalid_path : ApiError
invalid_path = record {
  code = text "PGRST125";
  message = text "Invalid path specified in request URL";
  details = none;
  hint = none;
  status = 404;
}

unfoldable pub single_not_found : ApiError
unfolding str_ptr
single_not_found = record {
  code = text "PGRST116";
  message = text "Cannot coerce the result to a single JSON object";
  details = str_ptr (text "The result contains 0 rows");
  hint = none;
  status = 404;
}

unfoldable pub multiple_rows : ApiError
unfolding str_ptr
multiple_rows = record {
  code = text "PGRST116";
  message = text "Cannot coerce the result to a single JSON object";
  details = str_ptr (text "The result contains more than 1 row");
  hint = none;
  status = 404;
}

unfoldable pub embed_not_supported : ApiError
unfolding str_ptr
embed_not_supported = record {
  code = text "PGRST200";
  message = text "Embedded resources are not supported";
  details = none;
  hint = str_ptr (text "Use flat column names in select= without nested ( ) syntax");
  status = 400;
}

unfoldable pub unsupported_operation : Text → ApiError
unsupported_operation msg = record {
  code = text "PGRST000";
  message = msg;
  details = none;
  hint = none;
  status = 400;
}

abbrev pub write_ops : List Text
write_ops = text "insert" ∷ text "update" ∷ text "delete" ∷ text "upsert" ∷ []

unfoldable pub driver_operation_not_supported : Text → Text → ApiError
unfolding str_ptr quote
driver_operation_not_supported op protocol = record {
  code = text "PGRST000";
  message = op ++ text " is not supported for protocol " ++ quote protocol;
  details = none;
  hint = str_ptr (text "See /rest/v1/ OpenAPI and docs/drivers/ for protocol capabilities");
  status = if any (text_eq op) write_ops then 405 else 400;
}

unfoldable pub internal_error : Option Text → ApiError
internal_error err =
    let msg = or_else err (text "Internal server error") in
    record { code = text "PGRST000"; message = msg; details = none; hint = none; status = 500 }

unfoldable pub is_json_syntax_error : Failure → Bool
is_json_syntax_error err =
    let msg = to_lower err.message in
    err.malformed || contains msg (text "json") || contains msg (text "unexpected end of json")

-- The default branch of `MapError`.
abbrev pub map_other_error : Failure → ApiError
map_other_error err = elim err.unsupported [
  | some op ↦ driver_operation_not_supported op.operation op.protocol
  | none ↦
      if contains err.message (text "not supported")
      then unsupported_operation err.message
      else record {
        code = text "PGRST000";
        message = err.message;
        details = none;
        hint = none;
        status = 400;
      }
]

-- `MapError` on an error that is not nil.
unfoldable pub map_failure : Failure → ErrorContext → ApiError
unfolding is_json_syntax_error
map_failure err ctx = elim err.api [
  | some api_err ↦ api_err
  | none ↦
      if err.is_not_found
      then (if is_empty ctx.rpc
          then table_not_found ctx.schema ctx.table
          else rpc_not_found ctx.schema ctx.rpc)
      else if is_json_syntax_error err
      then invalid_body (some err.message)
      else map_other_error err
]

unfoldable pub map_error : Option Failure → ErrorContext → Option ApiError
unfolding map_failure
map_error none ctx = none
map_error (some err) ctx = some (map_failure err ctx)
