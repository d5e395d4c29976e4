-- ===== src/Traffic/Influx.antt =====
-- tc.go, `parseAttribute`: the three attributes in a response of InfluxDB. The types are the parts
-- of the client library's response that the function reads.
use scope_network.Prelude.{
  ℕ, zero, suc, List, [], ◌∷◌, Option, none, some, ltb, length, if◌then◌else◌,
}
use scope_network.Text.{Text, codes}
use scope_network.Text.Decimal.{format_int, parse_int}
use scope_network.Errors.{Outcome, returns, panics, ◌>>=◌}

-- A cell of a row: a string, a `json.Number` with its text, or anything else.
pub data Cell : Type 0 where
  string : Text → Cell
  number : Text → Cell
  other : Cell

pub record Series : Type 0 where
  pub values : List (List Cell)

pub record QueryResult : Type 0 where
  pub series : List Series

pub record Response : Type 0 where
  pub results : List QueryResult

pub record Attributes : Type 0 where
  pub pod : Text
  pub bandwidth : Text
  pub packet : Text

-- An index out of range panics.
abbrev pub at {ℓ} : {A : Type ℓ} → List A → ℕ → Outcome A
at [] i = panics
at (x ∷ xs) zero = returns x
at (x ∷ xs) (suc i) = at xs i

-- The type assertions without `ok`.
abbrev pub as_string : Cell → Outcome Text
as_string (string s) = returns s
as_string _ = panics

abbrev pub as_number : Cell → Outcome Text
as_number (number s) = returns s
as_number _ = panics

-- `.Int64()` of a number, whose error is only logged.
unfoldable pub int64_text : Text → Text
unfolding parse_int format_int
int64_text s = format_int (parse_int s).0

-- The assertion with `ok`; its success also logs the sixth cell as a string.
unfoldable pub pod_name : Cell → List Cell → Text → Outcome Text
pod_name (string s) row old = do spod ← at row 5; logged ← as_string spod; returns s
pod_name _ row old = returns old

abbrev dashes : Attributes
dashes = record { pod = codes "-"; bandwidth = codes "-"; packet = codes "-" }

unfoldable pub parse_series : List Series → Outcome Attributes
unfolding pod_name int64_text
parse_series series = do
  first ← at series 0
  row ← at first.values 0
  cell ← at row 1
  pod ← pod_name cell row (codes "-")
  bandwidth_cell ← at row 8
  bandwidth ← as_number bandwidth_cell
  second ← at series 1
  packet_row ← at second.values 0
  packet_cell ← at packet_row 8
  packet ← as_number packet_cell
  returns (record { pod = pod; bandwidth = int64_text bandwidth; packet = int64_text packet })

unfoldable pub parse_attribute : Option Response → Outcome Attributes
unfolding parse_series
parse_attribute none = returns dashes
parse_attribute (some resp) = do
  result ← at resp.results 0
  if ltb 1 (length result.series) then parse_series result.series else returns dashes
