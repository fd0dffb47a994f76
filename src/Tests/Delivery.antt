-- ===== src/Tests/Delivery.antt =====
-- One request from its line to the last byte of the file (src/handler.c).
use cn_cw.Common.{replicate, ℕ, ◌<◌, ◌≡◌, ◌≢◌, refl, arith, some, Bytes, length}
use cn_cw.Handler.Quiet.{Quiet}
use cn_cw.Handler.Delivery.{IsFresh, Handled, Overlong}
use cn_cw.Handler.Delivery.Whole.{process_request-Delivered}
use cn_cw.Handler.Response.Built.{Dates}
use cn_cw.Handler.Serve.{process_request}
use cn_cw.Handler.States.{Failed}
use cn_cw.Handler.{State}
use cn_cw.Log.{stderr_fileno}
use cn_cw.Machine.{empty_arena}
use cn_cw.Memory.Runs.{Runs}
use cn_cw.Platform.{got}
use cn_cw.Conn.{sending}
use cn_cw.Handler.Delivery.Completed.{process_request-Ended}
use cn_cw.Handler.Delivery.Ended.{Patient}
use cn_cw.Handler.Visits.{visits}
use cn_cw.Outcome.{and_then}
use cn_cw.Tests.Sending.{toy_readiness, All-idle, idle}
use cn_cw.Tests.Lists.{lists, lists_append}
use cn_cw.Tests.Toy.{toy, toy_calloc, toy_fits, toy_streams, toy_progress, ToyOs}
use cn_cw.Tests.Verdicts.{settings, client, blank}

pub toy_dates : Dates toy
toy_dates os = (toy_fits.times os, omega arith)

calloc_quiet :
    (n : ℕ) (os : ToyOs) (fd : ℕ)
    → ((toy_calloc n os).1.files fd ≡ os.files fd) × ((toy_calloc n os).1.wire fd ≡ os.wire fd)
calloc_quiet n os fd = (ground arith, ground arith)

open_five :
    (path : Bytes) (os : ToyOs) {fd : ℕ} {os' : ToyOs}
    → toy.open_file path os ≡ (got fd, os')
    → (fd ≡ 5) × (length (os'.files fd) < 20)
open_five path os e = (ground arith, ground arith)

pub toy-Quiet : (s : ℕ) → s ≢ 5 → Quiet toy toy_streams lists s
unfolding toy_streams
toy-Quiet s apart = record {
  calloc_same = calloc_quiet;
  free_same = λ p os fd. (refl, refl);
  gmtime_same = λ os fd. (refl, refl);
  get_flags_same = λ k os fd. (refl, refl);
  set_flags_same = λ k n os fd. (refl, refl);
  stat_same = λ path os fd. (refl, refl);
  realpath_same = λ path os fd. (refl, refl);
  open_sent = λ path os t. refl;
  open_fresh = λ path os e.
      (omega (arith, (open_five path os e).0), omega (arith, apart, (open_five path os e).0));
  stat_size = λ path os e. ground arith;
  lappend_same = λ l h m. ((λ fd. (refl, refl)), (λ a. a));
}

abbrev newcomer : State toy
newcomer = record client { g_memory_arena = some empty_arena }

newcomer-IsFresh : IsFresh newcomer.client
newcomer-IsFresh = record {
  no_buffer = refl;
  no_size = refl;
  no_len = refl;
  no_cursor = refl;
  no_file = refl;
}

pub small_files :
    (path : Bytes) (os : ToyOs) (fd : ℕ) (os' : ToyOs)
    → toy.open_file path os ≡ (got fd, os')
    → length (toy_streams.unread os' fd) < 20
unfolding toy_streams
small_files path os fd os' e = (open_five path os e).1

stderr_apart : stderr_fileno ≢ 4
stderr_apart = omega arith

process_request-Delivered_example :
    Runs
      (λ _.
        Handled toy toy_streams toy_fits settings (toy_streams.sent newcomer.os 4) newcomer.client)
      (Failed toy)
      (Overlong toy toy_streams toy_fits settings (toy_streams.sent newcomer.os 4) newcomer.client)
      (process_request toy lists 20 blank settings newcomer)
process_request-Delivered_example =
    process_request-Delivered toy toy_streams toy_fits toy_dates lists lists_append 20 blank
      settings newcomer (toy-Quiet 4 (omega arith)) stderr_apart toy_progress small_files
      (omega arith) (omega arith) newcomer-IsFresh tt

-- The rest of a file, in the calls after the first.
newcomer_patient :
    Patient toy toy_streams toy_fits 4 (λ f. toy_readiness f 4) 25 (replicate 20 idle)
newcomer_patient = record {
  progress = toy_progress;
  opens = λ f. All-idle f 4 20;
  many = λ path os fd os' e.
      (omega (arith, small_files path os fd os' e), omega (arith, small_files path os fd os' e));
}

process_request-Ended_example :
    Runs
      (λ _ m.
        Handled toy toy_streams toy_fits settings (toy_streams.sent newcomer.os 4) newcomer.client m
        × (m.client.state ≢ sending))
      (Failed toy)
      (Overlong toy toy_streams toy_fits settings (toy_streams.sent newcomer.os 4) newcomer.client)
      (and_then
        (process_request toy lists 25 blank settings newcomer)
        (λ _. visits toy 25 (replicate 20 idle)))
process_request-Ended_example =
    process_request-Ended toy toy_streams toy_fits toy_dates lists lists_append 25 blank settings
      newcomer (toy-Quiet 4 (omega arith)) stderr_apart (λ f. toy_readiness f 4) (replicate 20 idle)
      newcomer_patient refl (omega arith) (omega arith) newcomer-IsFresh tt
