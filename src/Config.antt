-- ===== src/Config.antt =====
-- The route configuration (core/config/model/router.go) and the tags of an instance
-- (pkg/util/tags/tags.go, the built-in names of core/common/common.go).
use go_chassis.Prelude.{String, List, [], Option, none, Dict, ℤ, pos}

abbrev pub buildin_tag_app : String
buildin_tag_app = "app"

abbrev pub buildin_tag_version : String
buildin_tag_version = "version"

abbrev pub latest_version : String
latest_version = "latest"

abbrev pub buildin_label_version : String
buildin_label_version = "version:latest"

-- `RouteTag`: a version of the service and the share of the calls that it takes.
pub record RouteTag : Type 0 where
  pub tags : Dict String
  pub weight : ℤ
  pub label : String

-- `Match`: a nil map is `none`.
pub record Match : Type 0 where
  pub refer : String
  pub source : String
  pub source_tags : Dict String
  pub http_headers : Option (Dict (Dict String))
  pub headers : Option (Dict (Dict String))

pub record RouteRule : Type 0 where
  pub precedence : ℤ
  pub routes : List RouteTag
  pub match : Match

-- Go's zero values.
abbrev pub zero_match : Match
zero_match = record {
  refer = "";
  source = "";
  source_tags = [];
  http_headers = none;
  headers = none;
}

abbrev pub zero_rule : RouteRule
zero_rule = record { precedence = pos 0; routes = []; match = zero_match }

abbrev pub zero_tag : RouteTag
zero_tag = record { tags = []; weight = pos 0; label = "" }
