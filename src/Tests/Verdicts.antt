-- ===== src/Tests/Verdicts.antt =====
-- One connection through `process_request` of src/handler.c.
use cn_cw.Common.{false, arith, ◌↔◌, ◌≡◌, Bytes, true, none, [], ◌++◌, codes, ◌==◌, if◌then◌else◌}
use cn_cw.Conn.{complete, err_unrecoverable, waiting, ServerSettings}
use cn_cw.Handler.{State}
use cn_cw.Handler.Answers.{Finished, error_response-Finished}
use cn_cw.Handler.Response.Errors.{error_response-Proper}
use cn_cw.Handler.Response.{error_response}
use cn_cw.Handler.Paths.{Inside, in_static_dir-Prefix, resolve_path-Inside}
use cn_cw.Handler.Serve.{in_static_dir, resolve_path, process_request}
use cn_cw.Handler.States.{Broken, Settled, Failed}
use cn_cw.Handler.Verdicts.{process_request-Settled}
use cn_cw.Http.{HttpReq, http_11}
use cn_cw.Http.Tables.{get, not_found}
use cn_cw.Log.{info}
use cn_cw.Memory.Proper.{Proper}
use cn_cw.Outcome.{Leaves}
use cn_cw.Tests.Lists.{lists, lists_append}
use cn_cw.Tests.Toy.{toy_fits, toy_os, toy}

abbrev pub settings : ServerSettings
settings = record {
  uri_length_limit = 1024;
  host = codes "0.0.0.0";
  port = 5000;
  process_count = 1;
  listen_backlog = 10;
  read_buf_size = 2048;
  req_size_limit = 4096;
  static_dir = codes "/srv";
  log_level = info;
  log_filename = none;
  log_to_stdout = false;
}

abbrev pub client : State toy
client = record {
  os = record toy_os {
    files = λ fd. if fd == 4 then codes "GET /a.html HTTP/1.1\r\n" else codes "hello";
  };
  g_memory_arena = none;
  client = record {
    state = waiting;
    sock_fd = 4;
    file_fd = none;
    read_buf_size = 0;
    read_buf_len = 0;
    read_buf_cursor = 0;
    read_buf = none;
  };
}

abbrev pub blank : HttpReq
blank = record { method = get; uri = []; version = http_11 }

process_request-Settled_example :
    Leaves
      (Settled toy client.client)
      (Failed toy)
      (process_request toy lists 20 blank settings client)
process_request-Settled_example =
    process_request-Settled toy lists lists_append 20 blank settings client

error_response-Finished_example :
    Leaves (Finished toy) (Broken toy) (error_response toy lists 20 not_found client)
error_response-Finished_example = error_response-Finished toy lists 20 lists_append not_found client

error_response-Proper_example :
    Proper
      (λ _ m. m.client.state ≡ complete)
      (λ m. m.client.state ≡ err_unrecoverable)
      (error_response toy lists 0 not_found client)
error_response-Proper_example =
    error_response-Proper toy toy_fits (λ os. (toy_fits.times os, omega arith)) lists lists_append 0
      not_found client

resolve_path-Inside_example :
    Leaves
      (Inside (codes "/srv"))
      (λ _. Unit {0})
      (resolve_path toy lists 20 (codes "a.html") settings client)
resolve_path-Inside_example = resolve_path-Inside toy lists 20 (codes "a.html") settings client

in_static_dir-Prefix_example :
    (in_static_dir (codes "/srv/www") (codes "/srv/www-private/key") ≡ true)
    ↔ ((rest : Bytes) × (codes "/srv/www-private/key" ≡ codes "/srv/www" ++ rest))
in_static_dir-Prefix_example =
    in_static_dir-Prefix (codes "/srv/www") (codes "/srv/www-private/key")
