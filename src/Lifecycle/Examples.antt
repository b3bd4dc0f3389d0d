-- ===== src/Lifecycle/Examples.antt =====
-- Instances of the theorems of internal/lifecycle at concrete inputs.
use dsh_work.Prelude.{◌≡◌, refl, true, false, none, some, List, [], ◌∷◌, arith}
use dsh_work.Prelude.Assoc.{ne}
use dsh_work.Workspace.{FileSystem}
use dsh_work.Lifecycle.Types.{Phase, Failure, Status}
use dsh_work.Lifecycle.Types.State.{stopped}
use dsh_work.Lifecycle.Machine.{new_machine, begin_start, begin_stop, complete_stop}
use dsh_work.Lifecycle.Machine.Steps.{Call, begins, phases, readies, stops, fails, run}
use dsh_work.Lifecycle.Machine.Invariant.{Inv, run-new_machine-Inv}
use dsh_work.Lifecycle.Machine.Generations.{stale_run_unchanged, run-HasEnded, HasEnded}
use dsh_work.Lifecycle.Machine.Shutdown.{stop_converges}
use dsh_work.Lifecycle.QuitFlow
use dsh_work.Lifecycle.WindowLedger

-- A file system that has every absolute directory.
abbrev plain_fs : FileSystem
plain_fs = record {
  is_abs = λ p. true;
  abs = λ p. some p;
  eval_symlinks = λ p. some p;
  stat_is_dir = λ p. some true;
  clean = λ p. p;
  base = λ p. p;
}

abbrev startup : List Call
startup =
    begins "g1"
    ∷ phases "g1" Phase.runtime
    ∷ phases "g1" Phase.worker
    ∷ phases "g1" Phase.readiness
    ∷ readies "g1" "http://127.0.0.1:1/"
    ∷ []

run-new_machine-Inv_example : Inv (run plain_fs new_machine startup)
run-new_machine-Inv_example =
    run-new_machine-Inv plain_fs startup (ne "g1" "" refl, (tt, (tt, (tt, (tt, tt)))))

-- The generation "g1" in startup, ready, and failed.
abbrev started : Status
started = (begin_start new_machine "g1").0

abbrev failure : Failure
failure = record {
  code = "PROCESS_CRASHED";
  summary = "";
  retryable = true;
  effect_occurred = false;
  correlation_id = "";
  detail = "";
}

stale_run_unchanged_example :
    run plain_fs started (readies "g0" "u" ∷ fails "g0" failure ∷ []) ≡ started
unfolding begin_start new_machine
stale_run_unchanged_example =
    stale_run_unchanged plain_fs started (readies "g0" "u" ∷ fails "g0" failure ∷ [])
      ((refl, ne "g0" "g1" refl), ((refl, ne "g0" "g1" refl), tt))

run-HasEnded_example : HasEnded (run plain_fs new_machine (readies "g1" "u" ∷ stops "" ∷ [])).state
unfolding new_machine
run-HasEnded_example =
    run-HasEnded plain_fs new_machine (readies "g1" "u" ∷ stops "" ∷ []) (refl, (refl, tt)) tt

started-Inv : Inv started
unfolding begin_start new_machine
started-Inv = ground (arith, ne "g1" "" refl)

stop_converges_example :
    (complete_stop (begin_stop started started.generation_id).0 started.generation_id none).0.state
    ≡ stopped
stop_converges_example =
    (stop_converges started started-Inv (unfold begin_start new_machine in λ e. cc)).2

abbrev quit_steps : List QuitFlow.Step
quit_steps =
    QuitFlow.request
    ∷ QuitFlow.request
    ∷ QuitFlow.returns true
    ∷ QuitFlow.releases
    ∷ QuitFlow.request
    ∷ QuitFlow.returns false
    ∷ []

abbrev ledger_calls : List WindowLedger.Call
ledger_calls = WindowLedger.shows "shell" ∷ WindowLedger.begins ∷ WindowLedger.shows "pet" ∷ []

no_window_while_quitting_example :
    WindowLedger.visible_count
      (WindowLedger.run (WindowLedger.new_ledger ("shell" ∷ "pet" ∷ [])) ledger_calls)
    ≡ 0
unfolding WindowLedger.run WindowLedger.call WindowLedger.new_ledger
no_window_while_quitting_example =
    WindowLedger.no_window_while_quitting ("shell" ∷ "pet" ∷ []) ledger_calls refl

cancelled_quit_stays_hidden_example :
    WindowLedger.visible_count
      (WindowLedger.cancel_quit (WindowLedger.begin_quit (WindowLedger.new_ledger ("shell" ∷ []))))
    ≡ 0
cancelled_quit_stays_hidden_example =
    (WindowLedger.cancelled_quit_stays_hidden (WindowLedger.new_ledger ("shell" ∷ [])) "shell").0
