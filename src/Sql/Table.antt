-- ===== src/Sql/Table.antt =====
-- table.go: the table that a schema makes of a row type (`newTable`, `newTableWithConfig`).
pub mod Keys
pub mod Config
use sqlr.Prelude.{
  ℕ, suc, ◌<◌, Bool, true, false, not, ◌&&◌, ◌||◌, List, [], ◌∷◌, ◌++◌, map, Option, none, some,
  Text, codes, equal, ltb, if◌then◌else◌, keep, length,
}
use sqlr.Sql.Columns.{Column, Kind, int_kind, int32_kind, int64_kind, member}

-- `TagInfo` of private/column/info.go
pub record TagInfo : Type 0 where
  pub ignore : Bool
  pub name : Text
  pub primary_key : Bool
  pub auto_increment : Bool
  pub version : Bool
  pub json : Bool
  pub natural_key : Bool
  pub empty_null : Bool

-- `Info` of private/column/info.go. `name` is what the schema's `columnNamer` makes of it.
pub record Info : Type 0 where
  pub name : Text
  pub field_names : Text
  pub index : List ℕ
  pub kind : Kind
  pub tag : TagInfo

pub record ColumnConfig : Type 0 where
  pub column_name : Text
  pub ignore : Bool
  pub primary_key : Bool
  pub auto_increment : Bool
  pub version : Bool
  pub empty_null : Bool
  pub json : Bool
  pub natural_key : Bool
  pub override_struct_tag : Bool

-- the map `Columns` of a `TableConfig`
abbrev pub ColumnConfigs : Type 0
ColumnConfigs = List (Text × ColumnConfig)

unfoldable pub config_of : Text → ColumnConfigs → Option ColumnConfig
config_of field [] = none
config_of field ((f, c) ∷ cfg) = if equal f field then some c else config_of field cfg

pub record Table : Type 0 where
  pub cols : List Column
  pub pk : List Column
  pub nk : List Column
  pub autoincr : Option Column
  pub created_at : Option Column
  pub updated_at : Option Column
  pub version : Option Column

abbrev pub no_columns : Table
no_columns = record {
  cols = [];
  pk = [];
  nk = [];
  autoincr = none;
  created_at = none;
  updated_at = none;
  version = none;
}

-- The column of a field, by its tag.
abbrev pub tag_column : Info → Column
tag_column info = record {
  column_name = info.name;
  primary_key = info.tag.primary_key;
  auto_increment = info.tag.auto_increment;
  version = info.tag.version;
  json = info.tag.json;
  natural_key = info.tag.natural_key;
  empty_null = info.tag.empty_null;
  field_names = info.field_names;
  index = info.index;
  kind = info.kind;
}

abbrev pub or_else : Text → Text → Text
or_else [] old = old
or_else (c ∷ name) old = c ∷ name

-- `if hasColConfig { … }`
unfoldable pub configure : ColumnConfig → Column → Column
configure cfg col =
    if cfg.override_struct_tag
    then record col {
      column_name = or_else cfg.column_name col.column_name;
      primary_key = cfg.primary_key;
      auto_increment = cfg.auto_increment;
      empty_null = cfg.empty_null;
      json = cfg.json;
      natural_key = cfg.natural_key;
    }
    else record col {
      column_name = or_else cfg.column_name col.column_name;
      primary_key = col.primary_key || cfg.primary_key;
      auto_increment = col.auto_increment || cfg.auto_increment;
      empty_null = col.empty_null || cfg.empty_null;
      json = col.json || cfg.json;
      natural_key = col.natural_key || cfg.natural_key;
    }

abbrev pub append_if : Bool → List Column → Column → List Column
append_if b cols col = if b then cols ++ col ∷ [] else cols

abbrev pub set_if : Bool → Option Column → Column → Option Column
set_if b old col = if b then some col else old

-- What the loop does with a column, from the append to `tbl.cols` on.
unfoldable pub add_column : Table → Column → Table
add_column tbl col = record {
  cols = tbl.cols ++ col ∷ [];
  pk = append_if col.primary_key tbl.pk col;
  nk = append_if col.natural_key tbl.nk col;
  autoincr = set_if col.auto_increment tbl.autoincr col;
  created_at = set_if (equal col.field_names (codes "CreatedAt")) tbl.created_at col;
  updated_at = set_if (equal col.field_names (codes "UpdatedAt")) tbl.updated_at col;
  version = set_if col.version tbl.version col;
}

-- One turn of the loop of `newTable`. Its `continue`s leave the table as it is.
unfoldable pub add_field : Option ColumnConfig → Table → Info → Table
add_field none tbl info = if info.tag.ignore then tbl else add_column tbl (tag_column info)
add_field (some cfg) tbl info =
    if info.tag.ignore
    then tbl
    else if cfg.ignore
    then tbl
    else add_column tbl (configure cfg (tag_column info))

unfoldable pub add_fields : ColumnConfigs → Table → List Info → Table
add_fields cfg tbl [] = tbl
add_fields cfg tbl (info ∷ infos) =
    add_fields cfg (add_field (config_of info.field_names cfg) tbl info) infos

-- `newTable`; a nil config is an empty one here
unfoldable pub new_table : ColumnConfigs → List Info → Table
new_table cfg infos = add_fields cfg no_columns infos

pub data ConfigError : Type 0 where
  field_not_found : Text → ConfigError
  many_versions many_autoincrements : List Text → ConfigError
  version_kind : ConfigError

pub data Configured : Type 0 where
  configured : Table → Configured
  refused : ConfigError → Configured

-- The first key of the config that is no field; Go's map has an order of its own.
unfoldable pub unknown_field : List Text → ColumnConfigs → Option Text
unknown_field fields [] = none
unknown_field fields ((f, c) ∷ cfg) = if member f fields then unknown_field fields cfg else some f

abbrev pub names_of : List Column → List Text
names_of = map (λ col. col.column_name)

abbrev pub is_version_kind : Kind → Bool
is_version_kind int_kind = true
is_version_kind int32_kind = true
is_version_kind int64_kind = true
is_version_kind _ = false

unfoldable pub version_kind_fits : Option Column → Bool
version_kind_fits none = true
version_kind_fits (some col) = is_version_kind col.kind

-- The tests of `newTableWithConfig` behind `newTable`. The second message lists the version
-- columns, as the source does.
unfoldable pub check_table : Table → Configured
check_table tbl =
    let versions = names_of (keep (λ col. col.version) tbl.cols) in
    if ltb 1 (length versions)
    then refused (many_versions versions)
    else if ltb 1 (length (keep (λ col. col.auto_increment) tbl.cols))
    then refused (many_autoincrements versions)
    else if not (version_kind_fits tbl.version)
    then refused version_kind
    else configured tbl

unfoldable pub check_fields : Option Text → Table → Configured
check_fields (some f) tbl = refused (field_not_found f)
check_fields none tbl = check_table tbl

-- `newTableWithConfig`
unfoldable pub new_table_with_config : ColumnConfigs → List Info → Configured
new_table_with_config cfg infos =
    check_fields (unknown_field (map (λ i. i.field_names) infos) cfg) (new_table cfg infos)
