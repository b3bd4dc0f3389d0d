-- ===== src/Lib.antt =====
-- dsh-work: the core of the desktop host.
--
-- dsh-work starts one generation of a worker after another for the desktop windows. Its process keeps
-- small stores that the windows, the command line and the background tasks share, each behind a lock
-- of its own. This library models these stores: a method is one step from state to state, and an
-- interleaving of the callers is a list of steps, so that a theorem about all lists of calls holds
-- for all interleavings. Where the source makes a call back into other code outside the lock, the
-- call back is a step of its own.
--
-- - Lifecycle (internal/lifecycle): `Types` and `Machine` are types.go, the status of the current
--   generation with `BeginStart`, `SetPhase`, `MarkReady`, `BeginStop`, `CompleteStop`, `Fail` and the
--   others; `Machine.Steps` lists their calls. `QuitFlow` is quit_flow.go, a quit that waits for a
--   cleanup task; `WindowLedger` is window_policy.go, which windows are visible.
-- - Workspace (internal/workspacecontext/context.go): the workspace that a generation has selected.
--   The lifecycle machine validates it before it stores it. The file system is a parameter.
-- - Presence (internal/presence/tracker.go): which surfaces have the focus. The notification router
--   asks for it.
-- - HostEvents (internal/hostevents/hub.go): topics and commands for the subscribers of the windows,
--   with bounded queues.
-- - Interactions (internal/dshinteraction/store.go): the pending interactions of each page, which the
--   pages report and whose changes the callbacks learn.
-- - Notifications (internal/notifications/router.go): which events reach the platform's notifications;
--   `Recall` is its ring of identifiers.
-- - Publisher (internal/desktopapp/trailing_publisher.go): a limit on the rate of a stream of values;
--   `Callers` are those that it tells to drain it.
-- - Release (internal/release): `Version` is version.go, windows.go and a part of compare.go,
--   `Version.Parse` the reading of a version, `Compute` is compute.go and the rest of compare.go.
-- - Activity (internal/dshactivity/bridge.go): what the conversations of a worker are doing. `Frames`
--   reads the event stream of a worker, from its lines to its snapshots; `Session` and `Projection`
--   are the normal form of a snapshot, the order of its sessions and the animation that shows it;
--   `Bridge` is the state that the stream, the windows and the timers of a navigation change.
-- - SelfUpdate (internal/selfupdate/pe.go): the version that a Windows executable declares. `Bytes` are
--   slices with their capacity, `Image` the headers and the section table, `Resource` the resource
--   directory, `Version` and `Blocks` the version resource, `Identity` what is read of it all.
-- - Pet (internal/pet/runtime.go): which animation the companion shows. `Runtime` is its state and the
--   sets of animations, `Actions` the base state, the selection of an action and of its track,
--   `Transient` how an action, a greeting and a drag end, `Gate` which host events are taken, and
--   `Dispatch` the switch that reads the commands, the activities and the events.
-- - Settings (internal/settings/computer_policy.go): `Computer` is the policy on the applications of a
--   computer, its normal form and its update.
-- - Prelude: the shared names, lists, association lists for Go's maps, and the functions of the
--   standard library on strings.
--
-- A Go map with string keys is an association list whose order does not matter for the lookup. Go's
-- integers stand as natural numbers: the counters of the stores count calls, and do not come near
-- 2^63; the release numbers are bounded by 2^63 - 1 as the source checks it, and the one sum of them
-- is written modulo 2^64. The ring of the router has the source's 1024 places, its proofs any positive
-- number. The functions are structural recursions; the printing of a decimal runs on as many rounds
-- as the number, which is enough since each round divides by ten. A text of internal/release is the
-- list of its code points; its lengths are compared with eight only where the text must consist of
-- digits. The numbers of an executable are read from their bytes, and the sums of 32 bits are written
-- modulo 2^32. A block of a version resource is parsed with one round more than it has bytes, which is
-- enough since a block inside another one is shorter. A reader of an executable has panics and the
-- end of its rounds as results. A navigation's number is a natural number, whose decimal is its
-- identifier. The clock of the companion counts nanoseconds from its start, and a number that it draws
-- is an argument.
--
-- Not modelled: the JSON forms, locking itself, nil receivers, the registration of callbacks, error
-- messages (an error is a constructor), the system calls of the platforms, and the remaining packages
-- (the daemon and desktop applications, the automation broker, the DSH manager, the rest of the pet,
-- whose looks and progress are floating-point, the rest of the updater, the other settings, logs and
-- diagnostics), which mostly move data between the operating system, the network and the stores above.
-- The comparison of golang.org/x/mod/semver and the functions of path/filepath and os, the JSON
-- decoder and the upper and lower case of a character are parameters; theorems that need a property of
-- one name it as a hypothesis.
mod Prelude
pub mod Workspace
pub mod Lifecycle
pub mod Presence
pub mod HostEvents
pub mod Interactions
pub mod Notifications
pub mod Release
pub mod Settings
pub mod Publisher
pub mod Activity
pub mod SelfUpdate
pub mod Pet
