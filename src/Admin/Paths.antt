-- ===== src/Admin/Paths.antt =====
-- The paths of internal/api/admin/handler.go.
pub mod Parsed
use lowcode_wrapper.Base.{
  Option, none, some, List, [], ◌∷◌, Text, text, trim_prefix, split, is_empty, if◌then◌else◌,
}
use lowcode_wrapper.Models.{Uuid}
use lowcode_wrapper.Rest.Route.{trim_slashes}

-- `uuid.Parse` is the argument `parse_uuid`.
module _ (parse_uuid : Text → Option Uuid) where
  abbrev pub id_of_parts : List Text → Option (Uuid × List Text)
  id_of_parts [] = none
  id_of_parts (head ∷ tail) = elim (parse_uuid head) [ none ↦ none | some id ↦ some (id, tail) ]

  unfoldable pub parse_admin_id_tail : Text → Text → Option (Uuid × List Text)
  unfolding trim_prefix trim_slashes split
  parse_admin_id_tail path prefix =
      let rest = trim_slashes (trim_prefix path prefix) in
      if is_empty rest then none else id_of_parts (split b'/' rest)

  abbrev pub only_id : Uuid × List Text → Option Uuid
  only_id (id, []) = some id
  only_id (id, part ∷ tail) = none

  unfoldable pub parse_admin_id : Text → Text → Option Uuid
  unfolding parse_admin_id_tail
  parse_admin_id path prefix = elim (parse_admin_id_tail path prefix) [
    | none ↦ none
    | some found ↦ only_id found
  ]
