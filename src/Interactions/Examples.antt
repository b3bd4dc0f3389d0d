-- ===== src/Interactions/Examples.antt =====
-- Instances of the theorems of internal/dshinteraction at concrete inputs.
use dsh_work.Prelude.{◌≡◌, ◌≢◌, ◌↔◌, String, none, some, List, [], ◌∷◌, true, false}
use dsh_work.Interactions.{Report, Call, reports, clears, delivers, run, new_store, report, page}
use dsh_work.Interactions.Ownership.{Inv, instance_of, run-new_store-Inv}
use dsh_work.Interactions.Heard.{heard, log, pending_key}
use dsh_work.Interactions.Views.{run-new_store-IsInformed}
use dsh_work.Interactions.Surfaces.{report_refused_iff}

abbrev asks : String → String → String → Report
asks instance_id session key = record {
  instance_id = instance_id;
  session_id = session;
  kind = "approval";
  key = key;
  tool_name = "shell";
  reason = "";
  current = "";
  visible = true;
}

abbrev calls : List Call
calls =
    reports "main" (asks "i1" "s1" "k1")
    ∷ reports "main" (asks "i1" "s2" "k2")
    ∷ delivers
    ∷ reports "main" (asks "i1" "s1" "k3")
    ∷ reports "pet" (asks "i2" "s1" "k4")
    ∷ clears "pet"
    ∷ []

run-new_store-Inv_example : Inv (run new_store calls)
run-new_store-Inv_example = run-new_store-Inv calls

run-new_store-IsInformed_example :
    heard none (log (run new_store calls)) "i1" "s1" ≡ pending_key (run new_store calls) "i1" "s1"
run-new_store-IsInformed_example = run-new_store-IsInformed calls "i1" "s1"

report_refused_iff_example :
    let s = run new_store calls in
    ((report s "pet" (asks "i1" "s9" "k9")).1 ≡ false)
    ↔ ∥ ((u : String) × (u ≢ "pet") × (instance_of (page s u) ≡ some "i1")) ∥₁
report_refused_iff_example = report_refused_iff calls "pet" (asks "i1" "s9" "k9")
