-- ===== src/Tests/Masters.antt =====
-- The master of src/server.c, which fails at its third `fork` and at a `bind` to port 80.
use cn_cw.Common.{ℕ, ◌≡◌, arith, none}
use cn_cw.Conn.{ServerSettings}
use cn_cw.Log.Sure.{Surely}
use cn_cw.Machine.{Shared}
use cn_cw.Master.{main_settings, validate_settings, init_socket, init_master, run_server}
use cn_cw.Master.Ready.{Begun, init_master-Begun}
use cn_cw.Master.Startup.{Decides, Socketed, validate_settings-Decides, init_socket-Socketed}
use cn_cw.Master.Workers.{Reaped, run_server-Reaped}
use cn_cw.Outcome.{Leaves}
use cn_cw.Tests.Lists.{lists, lists_append}
use cn_cw.Tests.System.{calloc_opens, sockets, processes, descriptors, children}
use cn_cw.Tests.Toy.{ToyOs, toy, toy_os, toy_fits}
use cn_cw.Tests.Verdicts.{blank}

abbrev boot : Shared ToyOs
boot = record { os = toy_os; g_memory_arena = none; client = tt }

-- A server without workers.
abbrev idle_settings : ServerSettings
idle_settings = record main_settings { process_count = 0; port = 80 }

validate_settings-Decides_example :
    Surely (Decides toy toy_fits idle_settings) (validate_settings toy idle_settings boot)
validate_settings-Decides_example = validate_settings-Decides toy toy_fits idle_settings boot

init_socket-Socketed_example :
    Surely
      (Socketed toy toy_fits descriptors 3 (descriptors.opened boot.os 3))
      (init_socket toy sockets idle_settings boot)
init_socket-Socketed_example = init_socket-Socketed toy toy_fits descriptors 3 idle_settings boot

malloc_opens :
    (n : ℕ) (os : ToyOs) → descriptors.opened (processes.malloc n os).1 3 ≡ descriptors.opened os 3
unfolding descriptors
malloc_opens n os = calloc_opens n os 3

init_master-Begun_example :
    Surely
      (Begun toy toy_fits descriptors processes 3 malloc_opens main_settings
        (descriptors.opened boot.os 3))
      (init_master toy sockets processes main_settings boot)
unfolding main_settings
init_master-Begun_example =
    init_master-Begun toy toy_fits descriptors processes 3 malloc_opens main_settings boot
      (omega arith)

run_server-Reaped_example :
    Leaves
      (Reaped toy children 9 lists lists_append lists lists_append 20 blank 5 main_settings
        (children.running boot.os 9))
      (λ _. ⊥)
      (run_server toy sockets processes lists lists 20 blank 5 main_settings boot)
run_server-Reaped_example =
    run_server-Reaped toy children 9 lists lists_append lists lists_append 20 blank 5 main_settings
      boot
