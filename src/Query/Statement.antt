-- ===== src/Query/Statement.antt =====
-- lib/query/query.cpp: a statement that has been parsed. The parser and the deparser are libpg_query.
-- The copy and move members of the class copy both fields, as values do here.
use pg_fort.Base.{
  ℕ, Bool, true, false, [], ◌∷◌, Option, Text, codes, decimal, Result, ok, throw, json_error,
}
use pg_fort.Common.{Error, no_error}
use pg_fort.Query.Json.{Json, null}

-- `valid_` and `j_`
pub record Query : Type 0 where
  pub valid : Bool
  pub json : Json

-- `Query::Query`
abbrev pub no_query : Query
no_query = record { valid = false; json = null }

pub record ParseError : Type 0 where
  pub message : Text
  pub funcname : Text
  pub filename : Text
  pub lineno : ℕ
  pub cursorpos : ℕ

-- What `pg_query_parse` answers: an error, or the text of a tree, which `json::parse` reads or not.
pub data Parsed : Type 0 where
  parsed : Json → Parsed
  unreadable : Parsed
  unparsed : ParseError → Parsed

-- `Query::Parse`
unfoldable pub parse_query : (Text → Parsed) → Text → Result (Query × Error)
parse_query parser raw = elim (parser raw) [
  | parsed j ↦ ok (record { valid = true; json = j }, no_error)
  | unreadable ↦ throw json_error
  | unparsed e ↦ ok (
    no_query,
    (codes "S", codes "ERROR")
        ∷ (codes "M", e.message)
        ∷ (codes "R", e.funcname)
        ∷ (codes "F", e.filename)
        ∷ (codes "L", decimal e.lineno)
        ∷ (codes "P", decimal e.cursorpos)
        ∷ [],
  )
]

-- `Query::ToString`: `none` is the failed assertion that the tree can be deparsed. What is in a tree
-- has passed `json::parse`, so `dump()` does not throw.
unfoldable pub to_string : (Json → Option Text) → Query → Option Text
to_string deparse q = deparse q.json
