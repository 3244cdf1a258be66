-- ===== src/Sql/Check.antt =====
-- checksql.go: the shorthands for common statements.
pub mod Shorthands
use sqlr.Prelude.{
  ℕ, suc, Bool, true, false, ◌&&◌, List, [], ◌∷◌, ◌++◌, Option, none, some, Text, codes, equal, ltb,
  leb, if◌then◌else◌, length,
}
use sqlr.Go.Unicode.{Unicode}
use sqlr.Go.Strings.{lower}
use sqlr.Scanner.{Token, keyword, Scanner, new, add_keywords}
use sqlr.Scanner.Stream.{Lexed, scan_all}

abbrev pub max_words : ℕ
max_words = 3

pub data Checked : Type 0 where
  statement : Text → Checked
  will_not_delete : Text → Checked

abbrev pub sql_keywords : List Text
sql_keywords =
    codes "insert"
    ∷ codes "update"
    ∷ codes "delete"
    ∷ codes "select"
    ∷ codes "into"
    ∷ codes "from"
    ∷ []

-- The local function `match`; an empty pattern fits any word.
unfoldable pub match : List Text → List Text → Bool
match [] [] = true
match ([] ∷ args) (w ∷ words) = match args words
match ((c ∷ a) ∷ args) (w ∷ words) = equal (c ∷ a) w && match args words
match _ _ = false

-- `words[i]`, behind a match of that length
abbrev pub word : ℕ → List Text → Text
word i [] = []
word ℕ.zero (w ∷ words) = w
word (suc i) (w ∷ words) = word i words

abbrev pub insert_statement : Text → Text
insert_statement table = codes "insert into " ++ (table ++ codes "({}) values({})")

abbrev pub update_statement : Text → Text
update_statement table = codes "update " ++ (table ++ codes " set {} where {}")

abbrev pub select_statement : Text → Text
select_statement table = codes "select {} from " ++ (table ++ codes " where {}")

-- The tests of `checkSQL` behind its loop.
unfoldable pub expand_words : Text → List Text → Checked
expand_words sql words =
    if match (codes "insert" ∷ [] ∷ []) words
    then statement (insert_statement (word 1 words))
    else if match (codes "insert" ∷ codes "into" ∷ [] ∷ []) words
    then statement (insert_statement (word 2 words))
    else if match (codes "update" ∷ [] ∷ []) words
    then statement (update_statement (word 1 words))
    else if match (codes "select" ∷ [] ∷ []) words
    then statement (select_statement (word 1 words))
    else if match (codes "select" ∷ codes "from" ∷ [] ∷ []) words
    then statement (select_statement (word 2 words))
    else if match (codes "delete" ∷ [] ∷ []) words
    then will_not_delete (word 1 words)
    else if match (codes "delete" ∷ codes "from" ∷ [] ∷ []) words
    then will_not_delete (word 2 words)
    else statement sql

module _ ⦃u : Unicode⦄ where
  -- The word of a token: keywords in lower case.
  unfoldable pub word_of : Lexed → Text
  word_of (keyword, text) = lower text
  word_of (tok, text) = text

  -- The loop over the tokens; `none` is its early return, with more than three words.
  unfoldable pub collect_words : List Text → List Lexed → Option (List Text)
  unfolding word_of
  collect_words words [] = some words
  collect_words words (t ∷ ts) =
      let onward = collect_words (words ++ word_of t ∷ []) ts in
      if leb max_words (length words) then none else onward

  abbrev pub sql_scanner : Text → Scanner
  sql_scanner sql = add_keywords sql_keywords (record (new sql) { ignore_white_space = true })

  unfoldable pub check_words : Text → Option (List Text) → Checked
  check_words sql none = statement sql
  check_words sql (some words) = expand_words sql words

  unfoldable pub check_sql : Text → Checked
  check_sql sql = check_words sql (collect_words [] (scan_all (sql_scanner sql)).0)
