-- ===== src/Activity/Bridge/Stale.antt =====
-- internal/dshactivity/bridge.go: what a goroutine of an earlier worker still does is without effect.
use dsh_work.Prelude.{String, ◌≡◌, ◌≢◌, eq_iff, false, Option, none, some, arith}
use dsh_work.Activity.Projection.{Snapshot, normalize}
use dsh_work.Activity.Bridge.{Bridge, accept, accept_normal, disconnected}

pub disconnected-stale :
    (b : Bridge) (captured : String) → b.generation ≢ captured → disconnected b captured ≡ b
unfolding disconnected
disconnected-stale b captured h = ground (arith, eq_iff b.generation captured)

accept_normal-stale :
    (b : Bridge) (captured : String) (o : Option Snapshot)
    → b.generation ≢ captured
    → accept_normal b captured o ≡ b
unfolding accept_normal
accept_normal-stale b captured none h = disconnected-stale b captured h
accept_normal-stale b captured (some s) h = ground (arith, eq_iff b.generation captured)

pub accept-stale :
    (b : Bridge) (captured : String) (s : Snapshot)
    → b.generation ≢ captured
    → accept b captured s ≡ b
unfolding accept
accept-stale b captured s = accept_normal-stale b captured (normalize s)

pub disconnected-generation :
    (b : Bridge) (captured : String) → (disconnected b captured).generation ≡ b.generation
unfolding disconnected
disconnected-generation b captured = ground arith

accept_normal-generation :
    (b : Bridge) (captured : String) (o : Option Snapshot)
    → (accept_normal b captured o).generation ≡ b.generation
unfolding accept_normal
accept_normal-generation b captured none = disconnected-generation b captured
accept_normal-generation b captured (some s) = ground arith

pub accept-generation :
    (b : Bridge) (captured : String) (s : Snapshot)
    → (accept b captured s).generation ≡ b.generation
unfolding accept
accept-generation b captured s = accept_normal-generation b captured (normalize s)

pub disconnected-connected :
    (b : Bridge) (captured : String)
    → b.generation ≡ captured
    → (disconnected b captured).state.connected ≡ false
unfolding disconnected
disconnected-connected b captured h = ground (arith, eq_iff b.generation captured)
