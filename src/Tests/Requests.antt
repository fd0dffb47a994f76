-- ===== src/Tests/Requests.antt =====
-- Requests through the parser of src/http.c.
use cn_cw.Common.{◌≤◌, ◌≡◌, refl, none, [], arith, Bytes, codes, length, strchr, strspn}
use cn_cw.Http.{
  HttpReq, http_10, http_11, parse_ok, invalid_version, parse_http_method, parse_version,
  finish_version, parse_protocol, parse_uri, parse_target, parse_line, parse_http_req,
}
use cn_cw.Http.Request.{version_str, IsRequest}
use cn_cw.Http.Request.Accepts.{answer, parse_http_req-IsRequest}
use cn_cw.Http.Request.Sound.{parse_http_req-ok}
use cn_cw.Http.Tables.{get, head, http_method_str}
use cn_cw.Machine.{Machine}
use cn_cw.Memory.{server_alloc}
use cn_cw.Outcome.{returns}
use cn_cw.Tests.Toy.{toy_os, ToyOs, toy}

abbrev sample : Bytes
sample = codes "GET /a HTTP/1.1\r\nHost: x\r\n\r\n"

abbrev blank : HttpReq
blank = record { method = head; uri = []; version = http_10 }

abbrev sample_req : HttpReq
sample_req = record { method = get; uri = codes "/a"; version = http_11 }

abbrev start : Machine ToyOs (Unit {0})
start = record { os = toy_os; g_memory_arena = none; client = tt }

abbrev after : Machine ToyOs (Unit {0})
after = record { os = record toy_os { brk = 4099 }; g_memory_arena = none; client = tt }

sample-IsRequest : IsRequest sample sample_req
unfolding http_method_str version_str
sample-IsRequest = record {
  pad = 0;
  gap = [];
  rest = codes "\nHost: x\r\n\r\n";
  splits = refl;
  gap_length = refl;
  gap_lacks = refl;
  uri_lacks_space = refl;
  uri_lacks_return = refl;
  uri_ne_nil = λ e. cc;
}

sample_parses : parse_http_req toy 10 sample blank start ≡ returns (parse_ok, sample_req) after
unfolding parse_http_req parse_line parse_target parse_uri parse_protocol parse_version
    finish_version parse_http_method server_alloc strchr strspn
sample_parses = refl

parse_http_req-IsRequest_example :
    parse_http_req toy 10 sample blank start ≡ answer toy 10 blank sample_req start
parse_http_req-IsRequest_example =
    parse_http_req-IsRequest toy 10 sample blank sample_req start sample-IsRequest (omega arith)

parse_http_req-ok_example : IsRequest sample sample_req × (length sample_req.uri ≤ 10)
parse_http_req-ok_example =
    parse_http_req-ok toy 10 sample blank sample_req start after sample_parses (omega arith)

-- Two spaces after the method and one after the URI: the version is looked for a byte too far.
two_spaces :
    parse_http_req toy 10 (codes "GET  /a HTTP/1.1\r\n") blank start
    ≡ returns (invalid_version, record blank { method = get; uri = codes "/a" }) after
unfolding parse_http_req parse_line parse_target parse_uri parse_protocol parse_version
    finish_version parse_http_method server_alloc strchr strspn
two_spaces = refl
