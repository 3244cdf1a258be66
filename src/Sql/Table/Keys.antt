-- ===== src/Sql/Table/Keys.antt =====
-- The parts of a table that `newTable` fills as it goes agree with its columns.
use sqlr.Prelude.{
  Bool, List, [], ◌∷◌, ◌++◌, Option, none, some, ◌≡◌, refl, codes, equal, keep, Bool-cases, inl,
  inr, last, keep-append, last-append, append-nil,
}
use sqlr.Sql.Columns.{Column}
use sqlr.Sql.Table.{
  Table, no_columns, append_if, set_if, add_column, add_field, add_fields, config_of, new_table,
  ColumnConfigs, ColumnConfig, Info,
}

-- Each part of the table is what a search of its columns finds: the keys are the columns so
-- marked, in order, and of the columns marked otherwise the last counts.
pub record Consistent (tbl : Table) : Type 0 where
  pub pk : tbl.pk ≡ keep (λ col. col.primary_key) tbl.cols
  pub nk : tbl.nk ≡ keep (λ col. col.natural_key) tbl.cols
  pub autoincr : tbl.autoincr ≡ last (keep (λ col. col.auto_increment) tbl.cols)
  pub version : tbl.version ≡ last (keep (λ col. col.version) tbl.cols)
  pub created_at :
      tbl.created_at ≡ last (keep (λ col. equal col.field_names (codes "CreatedAt")) tbl.cols)
  pub updated_at :
      tbl.updated_at ≡ last (keep (λ col. equal col.field_names (codes "UpdatedAt")) tbl.cols)

keep-append_one :
    (p : Column → Bool) (cols : List Column) (col : Column) (kept : List Column)
    → kept ≡ keep p cols
    → append_if (p col) kept col ≡ keep p (cols ++ col ∷ [])
keep-append_one p cols col kept e = elim (Bool-cases (p col)) [
  | inl h ↦ rw (keep-append p cols (col ∷ []), h, e) refl
  | inr h ↦ rw (keep-append p cols (col ∷ []), h, e, append-nil (keep p cols)) refl
]

last-append_one :
    (p : Column → Bool) (cols : List Column) (col : Column) (old : Option Column)
    → old ≡ last (keep p cols)
    → set_if (p col) old col ≡ last (keep p (cols ++ col ∷ []))
last-append_one p cols col old e = elim (Bool-cases (p col)) [
  | inl h ↦ rw (keep-append p cols (col ∷ []), h, last-append (keep p cols) col) refl
  | inr h ↦ rw (keep-append p cols (col ∷ []), h, append-nil (keep p cols)) e
]

add_column-Consistent :
    (tbl : Table) (col : Column) → Consistent tbl → Consistent (add_column tbl col)
unfolding add_column
add_column-Consistent tbl col c = record {
  pk = keep-append_one _ tbl.cols col _ c.pk;
  nk = keep-append_one _ tbl.cols col _ c.nk;
  autoincr = last-append_one _ tbl.cols col _ c.autoincr;
  version = last-append_one _ tbl.cols col _ c.version;
  created_at = last-append_one _ tbl.cols col _ c.created_at;
  updated_at = last-append_one _ tbl.cols col _ c.updated_at;
}

add_field-Consistent :
    (cfg : Option ColumnConfig) (tbl : Table) (info : Info)
    → Consistent tbl
    → Consistent (add_field cfg tbl info)
unfolding add_field
add_field-Consistent none tbl info c = elim (Bool-cases info.tag.ignore) [
  | inl e ↦ rw e c
  | inr e ↦ rw e (add_column-Consistent tbl _ c)
]
add_field-Consistent (some cfg) tbl info c = elim (Bool-cases info.tag.ignore) [
  | inl e ↦ rw e c
  | inr e ↦ elim (Bool-cases cfg.ignore) [
    | inl i ↦ rw (e, i) c
    | inr i ↦ rw (e, i) (add_column-Consistent tbl _ c)
  ]
]

add_fields-Consistent :
    (cfg : ColumnConfigs) (tbl : Table) (infos : List Info)
    → Consistent tbl
    → Consistent (add_fields cfg tbl infos)
unfolding add_fields
add_fields-Consistent cfg tbl [] c = c
add_fields-Consistent cfg tbl (info ∷ infos) c =
    add_fields-Consistent cfg (add_field (config_of info.field_names cfg) tbl info) infos
      (add_field-Consistent _ tbl info c)

-- In the table of any row type, under any config, the keys are the columns marked as such, in the
-- order of the columns, and each single column (auto-increment, version, creation and update time)
-- is the last of the columns so marked or named.
pub new_table-Consistent :
    (cfg : ColumnConfigs) (infos : List Info) → Consistent (new_table cfg infos)
unfolding new_table
new_table-Consistent cfg infos = add_fields-Consistent cfg no_columns infos (record {
  pk = refl;
  nk = refl;
  autoincr = refl;
  version = refl;
  created_at = refl;
  updated_at = refl;
})
