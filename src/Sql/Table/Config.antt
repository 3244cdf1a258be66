-- ===== src/Sql/Table/Config.antt =====
-- What `newTableWithConfig` accepts.
use mathlib.Core.Path.{subst}
use sqlr.Prelude.{
  ◌≤◌, true, List, [], ◌∷◌, map, Option, none, some, Text, ◌≡◌, refl, ap, ◌∙◌, arith, keep, length,
  length-map, All, Bool-cases, Option-cases, inl, inr, last,
}
use sqlr.Sql.Columns.{Column, member}
use sqlr.Sql.Table.{
  Table, Info, ColumnConfigs, unknown_field, is_version_kind, version_kind_fits, check_table,
  check_fields, new_table, new_table_with_config, configured,
}
use sqlr.Sql.Table.Keys.{new_table-Consistent}

-- An option as a list
abbrev pub listed {ℓ} : {A : Type ℓ} → Option A → List A
listed none = []
listed (some x) = x ∷ []

listed-last : (xs : List Column) → length xs ≤ 1 → listed (last xs) ≡ xs
listed-last [] h = refl
listed-last (x ∷ []) h = refl
listed-last (x ∷ y ∷ xs) h = absurd (omega arith)

-- The table is fit for use: one version column at most, and one auto-increment column at most, each
-- of them known to the table, and the version is an integer that the source can count up.
pub record Fit (tbl : Table) : Type 0 where
  pub version : listed tbl.version ≡ keep (λ col. col.version) tbl.cols
  pub autoincr : listed tbl.autoincr ≡ keep (λ col. col.auto_increment) tbl.cols
  pub kind : All (λ col. is_version_kind col.kind ≡ true) (keep (λ col. col.version) tbl.cols)

kinds-listed :
    (v : Option Column)
    → version_kind_fits v ≡ true
    → All (λ col. is_version_kind col.kind ≡ true) (listed v)
unfolding version_kind_fits
kinds-listed none h = tt
kinds-listed (some col) h = (h, tt)

check_table-ok :
    (tbl got : Table)
    → check_table tbl ≡ configured got
    → (got ≡ tbl)
      × (length (keep (λ col. col.version) tbl.cols) ≤ 1)
      × (length (keep (λ col. col.auto_increment) tbl.cols) ≤ 1)
      × (version_kind_fits tbl.version ≡ true)
unfolding check_table
check_table-ok tbl got h =
    ground (arith, length-map (keep (λ col. col.version) tbl.cols) (λ col. col.column_name))

unknown_field-none :
    (fields : List Text) (cfg : ColumnConfigs)
    → unknown_field fields cfg ≡ none
    → All (λ c. member c.0 fields ≡ true) cfg
unfolding unknown_field
unknown_field-none fields [] h = tt
unknown_field-none fields ((f, c) ∷ cfg) h = elim (Bool-cases (member f fields)) [
  | inl e ↦ (e, unknown_field-none fields cfg (ground arith))
  | inr e ↦ absurd (ground arith)
]

-- A config that is accepted names fields of the row type only, and the table is the one that
-- `newTable` makes; it has one version column at most, of an integer kind, and one auto-increment
-- column at most, and holds them in its fields for these.
pub new_table_with_config-Fit :
    (cfg : ColumnConfigs) (infos : List Info) (tbl : Table)
    → new_table_with_config cfg infos ≡ configured tbl
    → (tbl ≡ new_table cfg infos)
      × All (λ c. member c.0 (map (λ i. i.field_names) infos) ≡ true) cfg
      × Fit tbl
unfolding new_table_with_config check_fields
new_table_with_config-Fit cfg infos tbl h =
    elim (Option-cases (unknown_field (map (λ i. i.field_names) infos) cfg)) [
      | inl known ↦
          let (same, one_version, one_autoincr, kind) =
            check_table-ok (new_table cfg infos) tbl (ground arith) in
          (same, unknown_field-none _ cfg known, rw same (fit one_version one_autoincr kind))
      | inr (f, e) ↦ absurd (ground arith)
    ]
  where
    fit :
        length (keep (λ col. col.version) (new_table cfg infos).cols) ≤ 1
        → length (keep (λ col. col.auto_increment) (new_table cfg infos).cols) ≤ 1
        → version_kind_fits (new_table cfg infos).version ≡ true
        → Fit (new_table cfg infos)
    fit one_version one_autoincr kind =
        let c = new_table-Consistent cfg infos in
        let version = ap listed c.version ∙ listed-last _ one_version in
        record {
          version = version;
          autoincr = ap listed c.autoincr ∙ listed-last _ one_autoincr;
          kind = subst (All (λ col. is_version_kind col.kind ≡ true)) version (kinds-listed _ kind);
        }
