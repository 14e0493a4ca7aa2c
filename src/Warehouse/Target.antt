-- ===== src/Warehouse/Target.antt =====
-- internal/app/warehouse/service.go: ParseTarget, the schema and the table that a schedule writes to.
use topbase.Prelude.{
  ◌++◌, if◌then◌else◌, Option, none, some, Result, ok, err, ◌>>◌, guard, is_empty,
}
use topbase.Text.{Text, codes, has_prefix, trim_space}
use topbase.Text.Parts.{split_last}
use topbase.QueryIr.Identifier.{is_ident}
use topbase.Warehouse.{Error, target_required, invalid_ident}

-- queryir.CheckIdent.
abbrev pub check_ident : Text → Text → Result Error (Unit {0})
check_ident label value = guard (is_ident value) (invalid_ident label value)

-- The schema and the table before they are checked.
abbrev pub in_schema : Text → Option (Text × Text) → Text × Text
in_schema raw none = (codes "warehouse", raw)
in_schema raw (some parts) = parts

unfoldable pub prefixed : Text → Text
prefixed table = if has_prefix (codes "wh_") table then table else codes "wh_" ++ table

unfoldable pub checked : Text × Text → Result Error (Text × Text)
checked (schema, table) =
    check_ident (codes "schema") schema
    >> (check_ident (codes "table") (prefixed table) >> ok (schema, prefixed table))

unfoldable pub parse_target : Text → Result Error (Text × Text)
parse_target target =
    let raw = trim_space target in
    if is_empty raw then err target_required else checked (in_schema raw (split_last b'.' raw))
