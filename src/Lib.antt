-- ===== src/Lib.antt =====
-- zj-radar is a Zellij plugin that draws a rail of tabs with the status of what runs in their
-- panes: agents, which report by a pipe, and commands, which Zellij reports. This library models
-- the decisions of its core (crates/core) and of the plugin (crates/plugin); their effects on the
-- host (files, timers, pipes, terminal cells) are not modelled.
--
-- How the parts interact. A line from the pipe is parsed and sanitized (Core/Payload,
-- Core/Sanitize) into a payload with a status (Core/Status), a source (Core/Kind) and background
-- tasks (Core/Task). The status store (Plugin/StatusStore) turns it into the observation of a pane
-- (Core/Observation); the command store (Core/Command) does so for command panes. Both hand the
-- completions that leave a card to the ledger (Plugin/Ledger). The observations of the panes of a
-- tab are rolled up into its display (Plugin/Rollup), and the changes between two maps of
-- statuses become notifications (Plugin/NotifyRules). Plugin/TabNamer picks the names of the tabs.
-- Plugin/RadarState composes all of these with the tabs and panes that the host reports, hands out
-- the rows of the rail, and writes and reads the snapshot. Plugin/Permission elects the one
-- instance that asks the user for permissions. Core/Presence reads what the other sessions publish,
-- and Plugin/Sessions keeps them, shows them and cycles through them.
--
-- The files, and the source that each models:
--   Core/Status, Status/Wire       crates/core/src/status.rs: the table, its order, its predicates
--   Core/Kind, Kind/Source         crates/core/src/kind.rs: the table and its predicates
--   Core/Task and below            crates/core/src/task.rs: upsert, cap, apply
--   Core/Text                      what the code takes from str and format!
--   Core/Sanitize and below        crates/core/src/payload.rs: kept, scrub, sanitize
--   Core/Payload, Payload/Intake   crates/core/src/payload.rs: parse, parse_tasks
--   Payload/Printer, Roundtrip     its to_wire
--   Core/Observation and below     crates/core/src/observation.rs: the record and the map
--   Core/Command                   crates/core/src/command.rs: the store, exits, prune, queries
--   Core/Command/Argv              its argument vectors: wrappers, hosted agents, shell prompts
--   Core/Command/Remote, Rules     its display_remote, and its rules and classify
--   Core/Command/Intake            its on_command_changed
--   Core/Command/Timer, Extras     its on_timer, and its set_*_extras
--   Core/Command, the others       lemmas on rows, ends, exits, recedes and extras
--   Core/Presence                  crates/core/src/presence.rs: parse
--   Plugin/StatusStore and below   crates/plugin/src/status_store.rs: every operation
--   Plugin/Permission and below    crates/plugin/src/permission.rs: on_load, on_timer, on_result
--   Plugin/Ledger and below        crates/plugin/src/ledger.rs: push, merge, ages, entries
--   Plugin/NotifyRules and below   crates/plugin/src/notify_rules.rs: diff, build, claim_key
--   Plugin/Displays                crates/plugin/src/rollup.rs: the rows and effective_focus
--   Plugin/Rollup and below        crates/plugin/src/rollup.rs: roll_up
--   Plugin/TabNamer, Echo          crates/plugin/src/tab_namer.rs: rename, retain_tabs
--   Plugin/RadarState              crates/plugin/src/radar_state.rs: the state and its joins
--   RadarState/Rows, Memo, Run     its rows and their memo, and runs of the rail
--   RadarState/Touch               what advances its generation
--   RadarState/Recede, Naming      its hand-over to the ledger, and its naming
--   RadarState/Update              its from_raw
--   RadarState/Panes and below     its panes_changed, and runs of manifests
--   RadarState/Events              its timer, pipe, commands and settings
--   RadarState/Cycle, Target       its cycle_attention
--   RadarState/Views, Ids          its notify_views, and the ids that a store tracks
--   RadarState/Snapshot, Roundtrip crates/plugin/src/radar_state/snapshot.rs, and its load and write
--   Plugin/Sessions                crates/plugin/src/sessions.rs: the order and the badge
--   Sessions/Intake, Reap          its update_presences
--   Sessions/Cycle, Commit         its cycle and tick
--   Tests and below                the results at concrete inputs
--   Prelude and below              shared names, lists, maps keyed by a pane id, integers
--
-- How it is modelled. A method on `&mut self` is a function that returns the new state beside its
-- result. Ticks, epochs and ids are natural numbers: the code only compares and subtracts them,
-- and where it does (`saturating_sub`, `saturating_add`, FNV's `wrapping_mul`) the model writes
-- out the saturation or the wrap. A map is a list of pairs with each key once. A string is a list
-- of chars; its bytes are the lead and continuation bytes of its UTF-8, which the walk of `scrub`
-- reads as the code does.
--
-- Fuel. The walk of `scrub` is given as many rounds as there are bytes, and each round takes at
-- least one; the cap of the tasks and the eviction of the status store take one item out in each
-- round, and are given as many rounds as there are items; printing a number takes as many rounds
-- as its value at most.
--
-- Parameters: serde_json (`Json` and `to_string` in Core/Payload and below it, `Serde` in
-- Plugin/RadarState/Snapshot, `from_str` in Core/Presence), `str::to_lowercase`
-- (Core/Command/Rules) and the colours of theme.rs (Plugin/RadarState/Update). The colours have no
-- part in any result here.
--
-- Not modelled: pipe.rs, the configuration and its colours, the renderer, the runtime and its
-- files, the command line, and serde. The generation of the rail is a number that
-- does not wrap: the code counts events in 64 bits.
pub mod Prelude
pub mod Core
pub mod Plugin
pub mod Tests
