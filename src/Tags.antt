-- ===== src/Tags.antt =====
-- private/column/info.go (`ParseTag`) and path.go (`ColumnName`): the columns that struct tags name.
pub mod Agreement
pub mod Paths
use sqlr.Prelude.{
  ℕ, zero, suc, Bool, true, false, not, ◌&&◌, List, [], ◌∷◌, map, Option, none, some, Text, codes,
  equal, if◌then◌else◌, length,
}
use sqlr.Go.Unicode.{Unicode}
use sqlr.Go.Strings.{lower, trim_space}
use sqlr.Quote.{is_quoted, unquote}
use sqlr.Scanner.{Token, keyword, ident, literal, op, Scanner, scan, new, add_keywords}
use sqlr.Sql.Table.{TagInfo}

-- A `reflect.StructTag`: its keys with their values, as `Lookup` finds them.
abbrev pub Tag : Type 0
Tag = List (Text × Text)

unfoldable pub look_up : Text → Tag → Option Text
look_up key [] = none
look_up key ((k, v) ∷ tag) = if equal k key then some v else look_up key tag

-- the method `Get`: without the key, the empty text
abbrev pub value_or_empty : Option Text → Text
value_or_empty none = []
value_or_empty (some v) = v

abbrev pub struct_tag_keys : List Text
struct_tag_keys = codes "sqlr" ∷ codes "sql" ∷ []

abbrev pub tag_keywords : List Text
tag_keywords =
    codes "pk"
    ∷ codes "primary_key"
    ∷ codes "primary"
    ∷ codes "autoincrement"
    ∷ codes "autoincr"
    ∷ codes "auto"
    ∷ codes "identity"
    ∷ codes "version"
    ∷ codes "json"
    ∷ codes "jsonb"
    ∷ codes "natural"
    ∷ codes "natural_key"
    ∷ codes "null"
    ∷ codes "omitempty"
    ∷ codes "emptynull"
    ∷ []

abbrev pub no_info : TagInfo
no_info = record {
  ignore = false;
  name = [];
  primary_key = false;
  auto_increment = false;
  version = false;
  json = false;
  natural_key = false;
  empty_null = false;
}

abbrev pub is_empty : Text → Bool
is_empty [] = true
is_empty (c ∷ s) = false

-- What a keyword of a tag means; `key_of` and its like want a second word.
pub data TagWord : Type 0 where
  primary_word auto_word natural_word : TagWord
  primary_key_word auto_increment_word version_word json_word natural_key_word null_word
        other_word :
      TagWord

unfoldable pub tag_word : Text → TagWord
tag_word w =
    if equal w (codes "pk")
    then primary_key_word
    else if equal w (codes "primary_key")
    then primary_key_word
    else if equal w (codes "autoincrement")
    then auto_increment_word
    else if equal w (codes "autoincr")
    then auto_increment_word
    else if equal w (codes "primary")
    then primary_word
    else if equal w (codes "auto")
    then auto_word
    else if equal w (codes "identity")
    then auto_increment_word
    else if equal w (codes "version")
    then version_word
    else if equal w (codes "json")
    then json_word
    else if equal w (codes "jsonb")
    then json_word
    else if equal w (codes "natural_key")
    then natural_key_word
    else if equal w (codes "natural")
    then natural_word
    else if equal w (codes "null")
    then null_word
    else if equal w (codes "omitempty")
    then null_word
    else if equal w (codes "emptynull")
    then null_word
    else other_word

abbrev pub as_primary_key : TagInfo → TagInfo
as_primary_key t = record t { primary_key = true }

abbrev pub as_auto_increment : TagInfo → TagInfo
as_auto_increment t = record t { auto_increment = true }

abbrev pub as_natural_key : TagInfo → TagInfo
as_natural_key t = record t { natural_key = true }

module _ ⦃u : Unicode⦄ where
  -- `newScannerForString`
  abbrev pub tag_scanner : Text → Scanner
  tag_scanner text = add_keywords tag_keywords (record (new text) { ignore_white_space = true })

  -- `if scan.Scan(); strings.ToLower(scan.Text()) == second { … }`: the scanner behind the second word
  unfoldable pub second_word : Text → (TagInfo → TagInfo) → Scanner → TagInfo → Scanner × TagInfo
  second_word second set s t =
      let s' = (scan s).0 in (s', if equal (lower s'.text) second then set t else t)

  -- the switch on the keyword that the scanner has found
  unfoldable pub on_word : TagWord → Scanner → TagInfo → Scanner × TagInfo
  on_word primary_word s t = second_word (codes "key") as_primary_key s t
  on_word auto_word s t = second_word (codes "increment") as_auto_increment s t
  on_word natural_word s t = second_word (codes "key") as_natural_key s t
  on_word primary_key_word s t = (s, as_primary_key t)
  on_word auto_increment_word s t = (s, as_auto_increment t)
  on_word version_word s t = (s, record t { version = true })
  on_word json_word s t = (s, record t { json = true })
  on_word natural_key_word s t = (s, as_natural_key t)
  on_word null_word s t = (s, record t { empty_null = true })
  on_word other_word s t = (s, t)

  -- `!hadKeyword && tagInfo.Name == ""`
  abbrev pub wants_name : Bool → TagInfo → Bool
  wants_name had t = not had && is_empty t.name

  -- The switch on the token, with `hadKeyword`
  unfoldable pub on_token : Token → Bool → Scanner → TagInfo → Bool × Scanner × TagInfo
  on_token keyword had s t = let (s', t') = on_word (tag_word (lower s.text)) s t in (true, s', t')
  on_token ident had s t =
      (had, s, if wants_name had t then record t { name = unquote s.text } else t)
  on_token literal had s t = (
    had,
    s,
    if wants_name had t && is_quoted s.text then record t { name = unquote s.text } else t,
  )
  on_token op had s t = (
    had,
    s,
    if wants_name had t && equal s.text (codes "-") then record t { ignore = true } else t,
  )
  on_token tok had s t = (had, s, t)

  -- The loop of `ParseTag`, on fuel; `none` is out of fuel.
  unfoldable pub tag_loop : ℕ → Bool → Scanner → TagInfo → Option TagInfo
  tag_loop zero had s t = none
  tag_loop (suc f) had s t =
      let (s', more) = scan s in
      let (had', s'', t') = on_token s'.token had s' t in
      let onward = tag_loop f had' s'' t' in if more then onward else some t

  -- `newScanner`: the value of the first key that is not blank
  unfoldable pub first_value : List Text → Tag → Option Text
  first_value [] tag = none
  first_value (key ∷ keys) tag =
      let str = trim_space (value_or_empty (look_up key tag)) in
      if not (is_empty str) then some str else first_value keys tag

  -- `ParseTag` of a value that is trimmed
  unfoldable pub parse_value : Text → Option TagInfo
  parse_value str = tag_loop (suc (length str)) false (tag_scanner str) no_info

  unfoldable pub parse_tag : Tag → Option TagInfo
  parse_tag tag = elim (first_value struct_tag_keys tag) [
    | none ↦ some no_info
    | some str ↦ parse_value str
  ]

  -- The loop of `nameFromTagValue`, on fuel
  unfoldable pub on_name_token : Token → Text → Text → Text
  on_name_token keyword lit rest = []
  on_name_token ident lit rest = unquote lit
  on_name_token literal lit rest = if is_quoted lit then unquote lit else rest
  on_name_token op lit rest = if equal lit (codes "-") then lit else []
  on_name_token tok lit rest = rest

  unfoldable pub name_loop : ℕ → Scanner → Text
  name_loop zero s = []
  name_loop (suc f) s =
      let (s', more) = scan s in
      let rest = name_loop f s' in if more then on_name_token s'.token s'.text rest else []

  -- `nameFromTagValue`
  unfoldable pub name_from_tag_value : Text → Text
  name_from_tag_value value =
      let str = trim_space value in
      if is_empty str then [] else name_loop (suc (length str)) (tag_scanner str)

  -- The loop of `convertField` over the keys
  unfoldable pub name_from_keys : List Text → Tag → Text
  name_from_keys [] tag = []
  name_from_keys (key ∷ keys) tag =
      let name = name_from_tag_value (value_or_empty (look_up key tag)) in
      if not (is_empty name) then name else name_from_keys keys tag

  -- `nameFromTag`, where the schema's key may be empty
  unfoldable pub name_from_tag : Text → Tag → Text
  name_from_tag key tag =
      let found : Text = elim (look_up key tag) [
        | none ↦ name_from_keys struct_tag_keys tag
        | some value ↦ name_from_tag_value value
      ] in
      if is_empty key then name_from_keys struct_tag_keys tag else found

  -- A naming convention (`Convert` and `Join`), which is a parameter
  module _ (convert : Text → Text) (join : List Text → Text) where
    unfoldable pub convert_field : Text → Text × Tag → Text
    convert_field key (field_name, tag) =
        let name = name_from_tag key tag in if not (is_empty name) then name else convert field_name

    -- `ColumnName` of a path
    unfoldable pub column_name : Text → List (Text × Tag) → Text
    column_name key (field ∷ []) = convert_field key field
    column_name key path = join (map (convert_field key) path)
