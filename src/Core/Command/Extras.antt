-- ===== src/Core/Command/Extras.antt =====
-- crates/core/src/command.rs: the user's extra names, `set_interactive_extras` and
-- `set_remote_extras`, which are applied to what is recorded already.
use zj_radar.Prelude.{
  ℕ, String, Bool, true, false, not, ◌&&◌, ◌||◌, Option, none, some, List, [], ◌∷◌, ◌++◌, filter,
  str_eq, eq_bool, is_some, is_some_and, unwrap_or, and_then, if◌then◌else◌,
}
use zj_radar.Prelude.PaneMap
use zj_radar.Prelude.PaneMap.{PaneMap}
use zj_radar.Core.Text.{trim_start, contains, word, trim_dashes}
use zj_radar.Core.Status.{Status, eq_status}
use zj_radar.Core.Kind.{Kind, is_remote}
use zj_radar.Core.Observation.{TrackedObservation, ObservationStore}
use zj_radar.Core.Command.{CommandStore, Pending}

abbrev pub default_interactive : List String
default_interactive =
    "vi" ∷ "vim" ∷ "nvim" ∷ "emacs" ∷ "nano" ∷ "hx" ∷ "kak" ∷ "micro" ∷ "less" ∷ "more" ∷ "most"
    ∷ "man" ∷ "htop" ∷ "btop" ∷ "top" ∷ "lazygit" ∷ "tig" ∷ "gitui" ∷ "k9s" ∷ "fzf" ∷ "ranger"
    ∷ "yazi" ∷ "nnn" ∷ "lf" ∷ "mc" ∷ []

abbrev pub default_remote : List String
default_remote = "ssh" ∷ "mosh" ∷ "mosh-client" ∷ "autossh" ∷ "et" ∷ []

-- `CommandStore::default`
abbrev pub empty : CommandStore
empty = record {
  store = [];
  pending = [];
  pending_done = [];
  exited = [];
  interactive = default_interactive;
  remote_extras = [];
}

unfoldable pub first_token : String → Option String
unfolding word trim_dashes
first_token display =
    let shown = trim_start display in
    if str_eq shown "" then none else some (trim_dashes (word shown))

-- Every pending judged against the new set; whether one changed.
unfoldable pub rejudge : List String → PaneMap Pending → Bool × PaneMap Pending
rejudge names [] = (false, [])
rejudge names ((id, p) ∷ m) =
    let (changed, rest) = rejudge names m in
    let want = not (contains names p.program) in
    (not (eq_bool p.promotable want) || changed, (id, record p { promotable = want }) ∷ rest)

-- The filter of `to_demote`.
unfoldable pub is_demoted : List String → PaneMap ℕ → ℕ → TrackedObservation → Bool
is_demoted names leaving id o =
    eq_status o.status Status.running
    && not (is_some (PaneMap.get id leaving))
    && is_some_and (first_token o.msg) (contains names)

unfoldable pub to_demote : List String → PaneMap ℕ → ObservationStore → List ℕ
to_demote names leaving [] = []
to_demote names leaving ((id, o) ∷ m) =
    if is_demoted names leaving id o
    then id ∷ to_demote names leaving m
    else to_demote names leaving m

-- The quiet pending of a demoted row.
unfoldable pub quiet_pending : TrackedObservation → Pending
quiet_pending o = record {
  command = o.msg;
  cwd = o.repo;
  kind = o.kind;
  since_tick = o.last_change_tick;
  promotable = false;
  program = unwrap_or (first_token o.msg) "";
}

unfoldable pub demote_one : ℕ → CommandStore → CommandStore
demote_one id s = elim (PaneMap.get id s.store) [
  | none ↦ s
  | some o ↦ record s {
    store = PaneMap.insert id (record o { status = Status.idle }) s.store;
    pending = PaneMap.or_insert id (quiet_pending o) s.pending;
  }
]

unfoldable pub demote_all : List ℕ → CommandStore → CommandStore
demote_all [] s = s
demote_all (id ∷ ids) s = demote_all ids (demote_one id s)

-- The ids of `to_demote` are those of rows, so each of them changes one.
unfoldable pub set_interactive_extras : List String → CommandStore → Bool × CommandStore
set_interactive_extras extras s =
    let names = default_interactive ++ extras in
    let (changed, pending) = rejudge names s.pending in
    let ids = to_demote names s.pending_done s.store in
    (
      changed || elim ids [ [] ↦ false | _ ∷ _ ↦ true ],
      demote_all ids (record s { interactive = names; pending = pending }),
    )

-- The flip, or `none` to leave a row alone.
unfoldable pub rekind : List String → String → Kind → Option Kind
rekind extras name kind =
    if contains extras name
    then (if is_remote kind then none else some Kind.remote)
    else if is_remote kind && not (contains default_remote name)
    then some Kind.command
    else none

unfoldable pub rekind_pending : List String → PaneMap Pending → Bool × PaneMap Pending
rekind_pending extras [] = (false, [])
rekind_pending extras ((id, p) ∷ m) =
    let (changed, rest) = rekind_pending extras m in
    let want = rekind extras p.program p.kind in
    (is_some want || changed, (id, record p { kind = unwrap_or want p.kind }) ∷ rest)

-- A row is matched by the first word of what it displays.
unfoldable pub row_rekind : List String → TrackedObservation → Option Kind
row_rekind extras o = and_then (first_token o.msg) (λ name. rekind extras name o.kind)

unfoldable pub rekind_rows : List String → ObservationStore → Bool × ObservationStore
rekind_rows extras [] = (false, [])
rekind_rows extras ((id, o) ∷ m) =
    let (changed, rest) = rekind_rows extras m in
    let want = row_rekind extras o in
    (is_some want || changed, (id, record o { kind = unwrap_or want o.kind }) ∷ rest)

unfoldable pub set_remote_extras : List String → CommandStore → Bool × CommandStore
unfolding filter
set_remote_extras names s =
    let extras = filter (λ name. not (contains default_remote name)) names in
    let (in_pending, pending) = rekind_pending extras s.pending in
    let (in_rows, store) = rekind_rows extras s.store in
    (in_pending || in_rows, record s { remote_extras = extras; pending = pending; store = store })
