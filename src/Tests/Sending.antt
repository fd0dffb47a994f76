-- ===== src/Tests/Sending.antt =====
-- A file through the send loop of src/handler.c, in rounds of four bytes, and lines of the log.
use cn_cw.Common.{
  ◌<◌, ◌≡◌, refl, none, some, [], ◌==◌, if◌then◌else◌, arith, Bytes, codes, replicate, All, ℕ, zero,
  suc,
}
use cn_cw.Conn.{sending, complete}
use cn_cw.Handler.{State, pending, process_request_write}
use cn_cw.Handler.Flows.{Flows, Stopped, Broken, to_send}
use cn_cw.Handler.Stream.{process_request_write-Flows}
use cn_cw.Handler.Moves.{Readiness, Opens}
use cn_cw.Handler.Visits.{visits, visits-Complete}
use cn_cw.Log.{info, log_msg}
use cn_cw.Log.Bounds.{log_msg_overruns}
use cn_cw.Outcome.{Ensures, overruns}
use cn_cw.Tests.Toy.{toy, toy_os, toy_fits, toy_streams, toy_progress}

abbrev text : Bytes
text = codes "hello, world"

abbrev sender : State toy
sender = record {
  os = record toy_os { files = λ fd. if fd == 5 then text else [] };
  g_memory_arena = none;
  client = record {
    state = sending;
    sock_fd = 4;
    file_fd = some 5;
    read_buf_size = 4;
    read_buf_len = 0;
    read_buf_cursor = 0;
    read_buf = some (replicate 4 0);
  };
}

sender-Flows : Flows toy toy_streams toy_fits 5 4 text sender
unfolding pending toy_streams
sender-Flows = record {
  file_is = refl;
  sock_is = refl;
  buffered = record {
    cursor_le = omega arith;
    len_le = omega arith;
    size_le = omega arith;
    room = omega arith;
  };
  conserved = refl;
}

sender_short : to_send toy toy_streams toy_fits 5 sender < 20
unfolding to_send pending toy_streams
sender_short = omega arith

process_request_write-Flows_example :
    Ensures
      (λ _. Stopped toy toy_streams toy_fits 5 4 text sending)
      (Broken toy toy_streams toy_fits 5 4 text)
      (λ _. ⊥)
      (process_request_write toy 20 sender)
process_request_write-Flows_example =
    process_request_write-Flows toy toy_streams toy_fits 5 4 text (omega arith) (omega arith) 20
      sender toy_progress (omega arith) sender-Flows sender_short

log_msg_overruns_example : log_msg toy info (replicate 4085 b'a') sender ≡ overruns sender
log_msg_overruns_example = log_msg_overruns toy info (replicate 4085 b'a') sender (omega arith)

-- Between two calls nothing happens, and the socket always takes bytes.
pub toy_readiness : (f s : ℕ) → Readiness toy f s
toy_readiness f s = record {
  Ready = λ _. Unit {0};
  read_ready = λ n os h. tt;
  write_ready = λ bs os h e. (cc, cc);
}

abbrev pub idle : toy.Os → toy.Os
idle os = os

pub All-idle :
    (f s n : ℕ) → All (Opens toy toy_streams toy_fits f s (toy_readiness f s)) (replicate n idle)
unfolding toy_readiness
All-idle f s zero = tt
All-idle f s (suc n) = ((λ os. (refl, refl, tt)), All-idle f s n)

visits-Complete_example :
    Ensures
      (λ _ m.
        Flows toy toy_streams toy_fits 5 4 text m
        × (m.client.state ≡ complete)
        × (toy_streams.sent m.os 4 ≡ text))
      (Broken toy toy_streams toy_fits 5 4 text)
      (λ _. ⊥)
      (visits toy 25 (replicate 20 idle) sender)
visits-Complete_example =
    visits-Complete toy toy_streams toy_fits 5 4 (toy_readiness 5 4) text (omega arith)
      (omega arith) 25 (replicate 20 idle) sender toy_progress (omega arith) sender-Flows refl
      (All-idle 5 4 20) sender_short (omega (arith, sender_short))
