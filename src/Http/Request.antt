-- ===== src/Http/Request.antt =====
-- Requests, contexts and responses; internal/service/context.go and internal/middleware/trace.go.
use mizuflow.Base.{ℕ, String, Option, none, some, List, [], str_eq, if◌then◌else◌}
use mizuflow.Base.Int.{ℤ}
use mizuflow.Base.Dict.{Dict, lookup, insert}
use mizuflow.Features.Reads.{FeatureItem, AuditLogItem}
use mizuflow.Auth.{TokenResp}

-- `OperatorInfo`
pub record OperatorInfo : Type 0 where
  pub user_id : String
  pub name : String
  pub role : String

-- The values of a request's context: the operator, under a key of its own type, and the values under text keys.
pub record Context : Type 0 where
  pub operator : Option OperatorInfo
  pub values : Dict String

abbrev pub background : Context
background = record { operator = none; values = [] }

unfoldable pub with_operator : Context → OperatorInfo → Context
with_operator ctx op = record ctx { operator = some op }

unfoldable pub get_operator_info : Context → Option OperatorInfo
get_operator_info ctx = ctx.operator

abbrev pub name_or_system : Option OperatorInfo → String
name_or_system none = "system"
name_or_system (some op) = op.name

unfoldable pub get_operator : Context → String
unfolding get_operator_info
get_operator ctx = name_or_system (get_operator_info ctx)

abbrev pub or_blank : Option String → String
or_blank none = ""
or_blank (some s) = s

-- `traceID, _ := ctx.Value("TraceID").(string)` in `SaveFeature`
unfoldable pub trace_of : Context → String
trace_of ctx = or_blank (lookup "TraceID" ctx.values)

-- `gin.Context`: the headers and the query of the request, its context, the address, and gin's own keys, which the
-- context of the request does not show.
pub record GinContext : Type 0 where
  pub headers : Dict String
  pub query : Dict String
  pub client_ip : String
  pub ctx : Context
  pub keys : Dict String

-- `c.GetHeader` and `c.Query`: empty where there is none.
abbrev pub get_header : GinContext → String → String
get_header c name = or_blank (lookup name c.headers)

abbrev pub get_query : GinContext → String → String
get_query c name = or_blank (lookup name c.query)

unfoldable pub default_query : GinContext → String → String → String
default_query c name value = elim (lookup name c.query) [ none ↦ value | some s ↦ s ]

-- `TraceMiddleware`, where `new_id` is the uuid: `c.Set` writes gin's keys. The header of the response is left out.
unfoldable pub trace_middleware : String → GinContext → GinContext
trace_middleware new_id c =
    let trace_id =
      if str_eq (get_header c "X-Trace-ID") "" then new_id else get_header c "X-Trace-ID" in
    record c { keys = insert "TraceID" trace_id c.keys }

-- What is written with a status.
pub data Body : Type 0 where
  error : String → Body
  version : ℤ → Body
  item : FeatureItem → Body
  items : List FeatureItem → Body
  audits : List AuditLogItem → Body
  tokens : TokenResp → Body
  profile : OperatorInfo → String → Body
  done : Body

pub record Response : Type 0 where
  pub status : ℕ
  pub body : Body

abbrev pub respond : ℕ → Body → Response
respond status body = record { status = status; body = body }
