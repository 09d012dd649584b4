-- ===== src/Rest/Body.antt =====
-- body.go: what a handler writes. The writer keeps the headers as they were when the status was
-- written: later changes are not sent.
pub mod Replies
use lowcode_wrapper.Base.{
  ℕ, zero, suc, ◌+◌, ◌-◌, ◌^◌, Bool, true, false, not, ◌&&◌, ◌||◌, Option, none, some, List, [],
  ◌∷◌, ◌++◌, Text, text, text_eq, if◌then◌else◌, leb, ltb, ◌==◌, length, is_empty, Result, ok, err,
  ℤ, pos, negsuc,
}
use lowcode_wrapper.Models.{Fields}
use lowcode_wrapper.Postgrest.Query.{Query, Prefer}
use lowcode_wrapper.Engine.Operations.{RpcResult}
use lowcode_wrapper.Postgrest.Errors.{ApiError, Failure, single_not_found, multiple_rows}
use lowcode_wrapper.Postgrest.Headers.{
  ObjectMode, object_mode_array, object_mode_single, object_mode_maybe_single, parse_object_mode,
  format_content_range, media_object_json, media_array_json,
}

pub data Payload : Type 0 where
  no_body null_body : Payload
  row_body : Fields → Payload
  rows_body : List Fields → Payload
  error_body : ApiError → Payload
  rpc_body : RpcResult → Payload

abbrev pub Headers : Type 0
Headers = List (Text × Text)

-- `http.ResponseWriter`: the headers so far, and the status with the headers that went with it.
pub record Writer : Type 0 where
  pub headers : Headers
  pub sent : Option (ℕ × Headers)
  pub body : Payload

abbrev pub new_writer : Writer
new_writer = record { headers = []; sent = none; body = no_body }

unfoldable pub set_header : Text → Text → Headers → Headers
set_header key v [] = (key, v) ∷ []
set_header key v ((k, old) ∷ headers) =
    let rest = set_header key v headers in
    if text_eq k key then (k, v) ∷ headers else (k, old) ∷ rest

abbrev pub set : Text → Text → Writer → Writer
set key v w = record w { headers = set_header key v w.headers }

-- `WriteHeader`: the first call counts.
abbrev pub write_header : ℕ → Writer → Writer
write_header status w = elim w.sent [
  | none ↦ record w { sent = some (status, w.headers) }
  | some s ↦ w
]

-- `httpx.WriteJSON`
unfoldable pub write_json : ℕ → Payload → Writer → Writer
unfolding set_header
write_json status body w =
    record (write_header status (set (text "Content-Type") (text "application/json") w)) {
      body = body;
    }

-- What `decodeInsertBody` makes of the body's bytes: the rows, and whether it was one object. The JSON
-- library's decoders are parameters.
unfoldable pub decode_insert_body :
    (Text → Result Failure (List Fields))
    → (Text → Result Failure Fields)
    → Text
    → Result Failure (List Fields × Bool)
decode_insert_body decode_rows decode_row [] = ok ([] ∷ [], true)
decode_insert_body decode_rows decode_row (c ∷ cs) = elim (c == b'[') [
  | true ↦ elim (decode_rows (c ∷ cs)) [ err e ↦ err e | ok rows ↦ ok (rows, false) ]
  | false ↦ elim (decode_row (c ∷ cs)) [ err e ↦ err e | ok row ↦ ok (row ∷ [], true) ]
]

pub data Written : Type 0 where
  written : Writer → Written
  refused : ApiError → Written
  panicked : Written

-- The check of the number of rows against the mode.
unfoldable pub mode_error : ObjectMode → ℕ → Option ApiError
mode_error object_mode_array n = none
mode_error object_mode_single n =
    if n == 0 then some single_not_found else if ltb 1 n then some multiple_rows else none
mode_error object_mode_maybe_single n = if ltb 1 n then some multiple_rows else none

-- The end of the range: an `int` that wraps around is below the offset.
unfoldable pub range_end : ℕ → ℕ → ℕ
range_end offset n = if n == 0 || leb (2 ^ 63) (offset + n - 1) then offset else offset + n - 1

abbrev pub total_or : ℤ → ℕ → ℤ
total_or (pos t) n = pos t
total_or (negsuc t) n = pos n

-- The status, then the content type and the rows. The check of the mode has passed: no row under the
-- mode for a single object does not come here.
unfoldable pub write_rows : ObjectMode → List Fields → Writer → Writer
unfolding set_header
write_rows object_mode_array rows old =
    let w = set (text "Content-Type") media_array_json (write_header 200 old) in
    record w { body = rows_body rows }
write_rows _ [] old =
    let w = set (text "Content-Type") media_object_json (write_header 200 old) in
    record w { body = null_body }
write_rows _ (row ∷ rows) old =
    let w = set (text "Content-Type") media_object_json (write_header 200 old) in
    record w { body = row_body row }

-- `total` is -1 when nobody counted.
unfoldable pub write_select_result : Text → Text → List Fields → ℕ → Prefer → ℤ → Writer → Written
unfolding mode_error range_end write_rows set_header
write_select_result accept prefer_header rows offset prefer total w =
    let mode = parse_object_mode accept prefer_header in
    let n = length rows in
    elim (mode_error mode n) [
      | some e ↦ refused e
      | none ↦
          if prefer.count_exact
          then elim (format_content_range (pos offset) (pos (range_end offset n))
              (total_or total n)) [
                | none ↦ panicked
                | some range ↦ written (write_rows mode rows (set (text "Content-Range") range w))
              ]
          else written (write_rows mode rows w)
    ]

unfoldable pub write_mutation_no_content : Writer → Writer
write_mutation_no_content w = write_header 204 w

unfoldable pub write_mutation_rows : List Fields → Writer → Writer
unfolding write_json
write_mutation_rows rows w = write_json 200 (rows_body rows) w
