-- ===== src/McpServer/Serve.antt =====
-- internal/mcpserver/handler.go and protection.go: a request over HTTP, from its headers to the
-- response. The deadline of the request's context is an argument, and so is whether it comes from
-- this host.
pub mod Guarded
mod Tests
use aceryx.Prelude.{
  ℕ, zero, suc, ◌+◌, ◌*◌, ◌-◌, ◌^◌, String, Bool, true, false, not, ◌&&◌, ◌||◌, Option, none, some,
  List, [], ◌∷◌, leb, ltb, nat_eq, ◌==◌, if◌then◌else◌,
}
use aceryx.Prelude.Int.{ℤ, pos, negsuc, ltb_ℤ, not_positive, mul64}
use aceryx.Prelude.Text.{trim_space}
use aceryx.McpServer.{
  Tool, Handler, Execution, Request, RpcCode, invalid_request, Answer, handle_rpc,
}
use aceryx.McpServer.Keys.{KeyTable, ApiKeyRecord, authenticate, connection_of}
use Prim.Native.Char.{code}
use Prim.Native.String

-- strconv.Atoi on the digits of a number.
abbrev pub is_digit : ℕ → Bool
is_digit c = leb b'0' c && leb c b'9'

unfoldable pub digits_from : ℕ → String → Option ℕ
digits_from value String.[] = some value
digits_from value (String.◌∷◌ c rest) =
    let later = digits_from (value * 10 + (code c - b'0')) rest in
    if is_digit (code c) then later else none

unfoldable pub unsigned : String → Option ℕ
unsigned String.[] = none
unsigned (String.◌∷◌ c rest) = digits_from 0 (String.◌∷◌ c rest)

-- A number beyond the int64 is an error.
abbrev pub in_range : Option ℕ → Option ℤ
in_range none = none
in_range (some n) = if ltb n (2 ^ 63) then some (pos n) else none

abbrev pub negative : Option ℕ → Option ℤ
negative none = none
negative (some zero) = some (pos 0)
negative (some (suc n)) = if ltb n (2 ^ 63) then some (negsuc n) else none

unfoldable pub atoi : String → Option ℤ
atoi String.[] = none
atoi (String.◌∷◌ c rest) =
    if nat_eq (code c) b'-'
    then negative (unsigned rest)
    else if nat_eq (code c) b'+'
    then in_range (unsigned rest)
    else in_range (unsigned (String.◌∷◌ c rest))

abbrev pub natural_or_zero : Option ℤ → ℕ
natural_or_zero (some (pos n)) = n
natural_or_zero _ = 0

unfoldable pub read_depth : (String → String) → ℕ
read_depth header = natural_or_zero (atoi (header "X-MCP-Depth"))

unfoldable pub max_depth : ℤ → ℤ
max_depth given = if not_positive given then pos 3 else given

-- CheckDepth, without its error.
unfoldable pub within_depth : ℕ → ℤ → Bool
within_depth depth given = not (ltb_ℤ (max_depth given) (pos depth))

-- A duration in nanoseconds.
unfoldable pub read_timeout : (String → String) → ℤ
read_timeout header = mul64 (pos (natural_or_zero (atoi (header "X-MCP-Timeout-Ms")))) 1000000

abbrev pub least : ℤ → Option ℤ → ℤ
least effective none = effective
least effective (some remaining) = if ltb_ℤ remaining effective then remaining else effective

abbrev pub longest_of : ℤ → ℤ
longest_of server_max = if not_positive server_max then pos 120000000000 else server_max

abbrev pub wanted_of : ℤ → ℤ → ℤ
wanted_of header_timeout longest =
    if not (not_positive header_timeout) && ltb_ℤ header_timeout longest
    then header_timeout
    else longest

abbrev pub some_time : ℤ → ℤ
some_time effective = if not_positive effective then pos 1000000 else effective

-- ApplyTimeout, of which the timeout of the new context is kept; `remaining` is the time until the
-- deadline of the context, where it has one.
unfoldable pub apply_timeout : Option ℤ → ℤ → ℤ → ℤ
apply_timeout remaining header_timeout server_max =
    some_time (least (wanted_of header_timeout (longest_of server_max)) remaining)

-- A body that is not JSON, one whose version is not 2.0 or whose method is blank, or a request.
pub data Body : Type 0 where
  invalid_json invalid_version : Body
  valid : Request → Body

pub data HttpStatus : Type 0 where
  method_not_allowed bad_request unauthorized : HttpStatus

pub data HttpCode : Type 0 where
  parse_error : HttpCode
  rpc : RpcCode → HttpCode

-- An HTTP request: its headers and body, whether its address is a loopback, and the time that its
-- context leaves.
pub record HttpRequest : Type 0 where
  pub is_post : Bool
  pub header : String → String
  pub is_loopback : Bool
  pub remaining : Option ℤ
  pub body : Body

pub record ServerConfig : Type 0 where
  pub auth_type : String
  pub auth_header : String
  pub max_depth : ℤ
  pub max_request_timeout : ℤ

-- What the context of a call carries to its tool.
pub record CallContext : Type 0 where
  pub depth : ℕ
  pub timeout : ℤ

pub data HttpAnswer : Type 0 where
  refused : HttpStatus → HttpCode → HttpAnswer
  answered : CallContext → ApiKeyRecord → Answer → HttpAnswer

abbrev pub depth_of : HttpRequest → ℕ
depth_of r =
    let depth = read_depth r.header in if ltb 0 depth && r.is_loopback then depth + 1 else depth

abbrev pub context_of : ServerConfig → HttpRequest → CallContext
context_of config r = record {
  depth = depth_of r;
  timeout = apply_timeout r.remaining (read_timeout r.header) config.max_request_timeout;
}

abbrev pub auth_header_of : ServerConfig → String
auth_header_of config = if config.auth_header == "" then "X-API-Key" else config.auth_header

-- `key_allows` and `tool_allows` are what the limiters answer for the key of a row.
module _ (matches : String → String → Bool) (key_allows tool_allows : ApiKeyRecord → Bool)
    (execute : CallContext → ApiKeyRecord → Tool → Execution) (h : Handler)
    (config : ServerConfig) where
  abbrev pub answer_body : HttpRequest → ApiKeyRecord → Body → HttpAnswer
  answer_body r row invalid_json = refused bad_request parse_error
  answer_body r row invalid_version = refused bad_request (rpc invalid_request)
  answer_body r row (valid request) = answered (context_of config r) row (
      handle_rpc h (some (connection_of row)) (key_allows row) (tool_allows row)
        (execute (context_of config r) row) request)

  abbrev pub answer_row : HttpRequest → Option ApiKeyRecord → HttpAnswer
  answer_row r none = refused unauthorized (rpc invalid_request)
  answer_row r (some row) = answer_body r row r.body

  -- ServeHTTP: the answer, and the table of keys with the time of the key's use.
  unfoldable pub serve_http : ℕ → HttpRequest → KeyTable → HttpAnswer × KeyTable
  serve_http now r table =
      let checked =
        authenticate matches now config.auth_type (auth_header_of config) r.header table in
      if not r.is_post
      then (refused method_not_allowed (rpc invalid_request), table)
      else if not (within_depth (read_depth r.header) config.max_depth)
      then (refused bad_request (rpc invalid_request), table)
      else (answer_row r checked.0, checked.1)
