-- ===== src/Graph/Page.antt =====
-- The resolver `Leaderboard` (graph/schema.resolvers.go) and `PaginateRaw` (internal/db/db.go). A Go
-- `int` is given by its 64 bits.
pub mod Order
pub mod Cover
use Prim.Native.String.{◌++◌ as str_append}
use Prim.Native.Char.{code}
use carbonable_leaderboard_b.Prelude.{
  ℕ, ◌+◌, ◌-◌, ◌*◌, ◌%◌, ◌^◌, Bool, String, List, [], ◌∷◌, at_key, eqb, if◌then◌else◌,
}
use carbonable_leaderboard_b.Go.Format.{decimal_int64, lt_int64}
use carbonable_leaderboard_b.Leaderboard.Total.{CategorisedScore}
use carbonable_leaderboard_b.Leaderboard.Line.{Point, LeaderboardLine}

-- `strings.TrimSuffix(query, ";")`
unfoldable pub trim_semicolon : String → String
trim_semicolon String.[] = ""
trim_semicolon (String.◌∷◌ c String.[]) = if eqb (code c) b';' then "" else String.◌∷◌ c ""
trim_semicolon (String.◌∷◌ c (String.◌∷◌ e s)) = String.◌∷◌ c (trim_semicolon (String.◌∷◌ e s))

-- `(page - 1) * limit`
unfoldable pub offset_of : ℕ → ℕ → ℕ
offset_of page limit = (page + 2 ^ 64 - 1) * limit % 2 ^ 64

-- `Paginate`: what `Offset` and `Limit` of a query are set to
unfoldable paginate : ℕ → ℕ → ℕ × ℕ
unfolding offset_of
paginate page limit = (offset_of page limit, limit)

unfoldable pub paginate_raw : String → ℕ → ℕ → String
unfolding trim_semicolon offset_of
paginate_raw query page limit = str_append (trim_semicolon query) (
    str_append " OFFSET " (
      str_append (decimal_int64 (offset_of page limit))
        (str_append " LIMIT " (str_append (decimal_int64 limit) ";"))))

pub record PageInfo : Type 0 where
  pub max_page : ℕ
  pub page : ℕ
  pub limit : ℕ
  pub count : ℕ
  pub has_next_page : Bool
  pub has_previous_page : Bool

pub record Metadata : Type 0 where
  pub slot : String
  pub project_name : String
  pub date : String
  pub event : String
  pub boosts : String
  pub rule : String

pub record PointDetails : Type 0 where
  pub rule : String
  pub value : ℕ
  pub metadata : Metadata

pub record LeaderboardLineData : Type 0 where
  pub id : String
  pub wallet_address : String
  pub points : List PointDetails
  pub categories : CategorisedScore
  pub total_score : String
  pub position : ℕ

pub record LeaderboardQueryResult : Type 0 where
  pub line : LeaderboardLine
  pub position : ℕ

-- The field `Rule` of the variable `point` behind the loop of `itemToGqlModel`. Up to Go 1.21, the
-- version of go.mod, the iterations of a loop share one variable.
abbrev pub rule_after : String → List Point → String
rule_after rule [] = rule
rule_after rule (point ∷ points) = rule_after point.rule points

-- The loop of `itemToGqlModel`. `Rule` is a pointer into the variable of the loop, and is read when the
-- answer is written, behind the loop: `shared` is what it then reads. The other pointers are to
-- variables of the iteration.
abbrev pub details_from : String → List Point → List PointDetails
details_from shared [] = []
details_from shared (point ∷ points) =
    record {
      rule = shared;
      value = point.value;
      metadata = record {
        slot = at_key "slot" point.metadata;
        project_name = at_key "project_name" point.metadata;
        date = at_key "date" point.metadata;
        event = at_key "event" point.metadata;
        boosts = at_key "boosts" point.metadata;
        rule = at_key "rule" point.metadata;
      };
    }
    ∷ details_from shared points

unfoldable pub point_details : List Point → List PointDetails
point_details points = details_from (rule_after "" points) points

unfoldable pub item_to_gql_model : LeaderboardQueryResult → LeaderboardLineData
unfolding point_details
item_to_gql_model item = record {
  id = item.line.id;
  wallet_address = item.line.wallet_address;
  points = point_details item.line.points;
  categories = item.line.categories;
  total_score = item.line.total_score;
  position = item.position;
}

unfoldable pub db_model_to_gql_model : List LeaderboardQueryResult → List LeaderboardLineData
db_model_to_gql_model [] = []
db_model_to_gql_model (line ∷ lines) = item_to_gql_model line ∷ db_model_to_gql_model lines

pub record Leaderboard : Type 0 where
  pub lines : List LeaderboardLineData
  pub page_info : PageInfo

-- `int(math.Ceil(float64(count) / float64(limit)))`: floats are not modelled.
abbrev pub CeilQuotient : Type 0
CeilQuotient = ℕ → ℕ → ℕ

unfoldable pub page_info_of : CeilQuotient → ℕ → ℕ → ℕ → PageInfo
page_info_of ceil_quotient count page limit =
    let total_pages = ceil_quotient count limit in
    record {
      max_page = total_pages;
      page = page;
      limit = limit;
      count = count;
      has_next_page = lt_int64 page total_pages;
      has_previous_page = lt_int64 1 page;
    }

abbrev pub leaderboard_query : String
leaderboard_query = str_append "WITH leaderboard AS (\n   SELECT l.*,\n" (
    str_append "\tROW_NUMBER() OVER(ORDER BY l.total_score::INT DESC) AS position\n" (
      str_append "     FROM leaderboard_lines l)\nSELECT l.*\n"
        "\tFROM leaderboard l ORDER BY l.total_score::INT DESC;"))

-- `Leaderboard`, over the number of lines and what the database answers to a query.
unfoldable pub leaderboard :
    CeilQuotient → ℕ → (String → List LeaderboardQueryResult) → ℕ → ℕ → Leaderboard
unfolding page_info_of db_model_to_gql_model paginate_raw
leaderboard ceil_quotient count raw page limit = record {
  lines = db_model_to_gql_model (raw (paginate_raw leaderboard_query page limit));
  page_info = page_info_of ceil_quotient count page limit;
}
