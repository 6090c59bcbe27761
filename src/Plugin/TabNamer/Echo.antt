-- ===== src/Plugin/TabNamer/Echo.antt =====
-- crates/plugin/src/tab_namer.rs: the host echoes the applied names back, and what follows.
use zj_radar.Prelude.{
  ℕ, String, ◌≡◌, ◌∙◌, refl, arith, inl, inr, Bool, true, false, ◌&&◌, Option, none, some, List, [],
  ◌∷◌, ◌==◌, ==_refl, str_eq, eq_iff, is_some_and, All, Bool-cases, Option-cases, if◌then◌else◌,
}
use mathlib.Core.Path.{subst}
use zj_radar.Prelude.PaneMap.{get, insert, get-insert, get-insert_self}
use zj_radar.Core.Sanitize.{sanitize}
use zj_radar.Core.Sanitize.Laws.{sanitize_idem}
use zj_radar.Core.Observation.{max_tab_name_chars}
use zj_radar.Plugin.TabNamer.{
  NamingMode, TabFacts, TabRename, Applied, overwrite, new_name, computed_name, name_supported,
  is_force, rename_loop, rename,
}

-- The name that the host has for a tab once the renames are applied.
unfoldable pub echoed_name : List TabRename → ℕ → String → String
echoed_name [] id name = name
echoed_name (r ∷ out) id name = if r.id == id then r.name else echoed_name out id name

-- The tabs of the next `TabUpdate`, with their names sanitized as `tabs_changed` does at the intake.
unfoldable pub echo : List TabRename → List TabFacts → List TabFacts
unfolding echoed_name
echo out [] = []
echo out (t ∷ tabs) =
    record t { name = sanitize (echoed_name out t.id t.name) max_tab_name_chars } ∷ echo out tabs

-- The names have been through the intake.
abbrev pub IsIntake : List TabFacts → Type 0
IsIntake tabs = All (λ (t : TabFacts). sanitize t.name max_tab_name_chars ≡ t.name) tabs

-- No tab has this id.
abbrev pub IsFresh : ℕ → List TabFacts → Type 0
IsFresh id tabs = All (λ (t : TabFacts). (t.id == id) ≡ false) tabs

-- The host's tab ids are different from each other.
abbrev pub IsDistinct : List TabFacts → Type 0
IsDistinct [] = Unit
IsDistinct (t ∷ tabs) = IsFresh t.id tabs × IsDistinct tabs

-- A tab whose name is not a name that is applied keeps it.
echo_fresh :
    (mode : NamingMode) (applied : Applied) (id : ℕ) (name : String) (tabs : List TabFacts)
    → IsFresh id tabs
    → echoed_name (rename_loop mode applied tabs).1 id name ≡ name
unfolding echoed_name rename_loop
echo_fresh mode applied id name [] h = refl
echo_fresh mode applied id name (t ∷ tabs) h =
    elim (Option-cases (new_name mode (get t.id applied) t)) [
      | inl none_new ↦ rw (rename_loop, none_new) (echo_fresh mode applied id name tabs h.1)
      | inr (n, e) ↦
          rw (rename_loop, e, h.0) (echo_fresh mode (insert t.id n applied) id name tabs h.1)
    ]

-- What was applied to a tab that is not in the list stays.
get-rename_loop :
    (mode : NamingMode) (applied : Applied) (id : ℕ) (tabs : List TabFacts)
    → IsFresh id tabs
    → get id (rename_loop mode applied tabs).0 ≡ get id applied
unfolding rename_loop
get-rename_loop mode applied id [] h = refl
get-rename_loop mode applied id (t ∷ tabs) h =
    elim (Option-cases (new_name mode (get t.id applied) t)) [
      | inl none_new ↦ rw (rename_loop, none_new) (get-rename_loop mode applied id tabs h.1)
      | inr (n, e) ↦
          rw
            (
              rename_loop,
              e,
              get-rename_loop mode (insert t.id n applied) id tabs h.1,
              get-insert t.id id n applied,
              h.0,
            )
            refl
    ]

overwrite_again :
    (ours forced : Bool) (name : String) (c : Option String) (n : String)
    → overwrite ours forced name c ≡ some n
    → overwrite true forced n c ≡ none
unfolding overwrite
overwrite_again ours forced name none n e = absurd (cc)
overwrite_again ours forced name (some c) n e =
    ground (arith, eq_iff (sanitize c max_tab_name_chars) n)

else_of_some :
    {n : String} {c : Option String} (b : Bool) → (if b then none else c) ≡ some n → c ≡ some n
else_of_some true e = absurd (cc)
else_of_some false e = e

-- What is applied is a new name by the candidates, whatever supports the name that it has.
overwrite-new_name :
    (mode : NamingMode) (applied : Option String) (t : TabFacts) (n : String)
    → new_name mode applied t ≡ some n
    → overwrite
        (is_some_and applied (λ a. str_eq a t.name))
        (is_force mode)
        t.name
        (computed_name t.panes)
      ≡ some n
unfolding new_name
overwrite-new_name mode applied t n e =
    else_of_some (is_some_and applied (λ a. str_eq a t.name) && name_supported t.panes t.name) e

overwrite-clean :
    (ours forced : Bool) (name : String) (c : Option String) (n : String)
    → overwrite ours forced name c ≡ some n
    → sanitize n max_tab_name_chars ≡ n
unfolding overwrite
overwrite-clean ours forced name none n e = absurd (cc)
overwrite-clean ours forced name (some c) n e = ground (arith, sanitize_idem c max_tab_name_chars)

-- The intake leaves a name that the code applies as it is.
new_name-clean :
    (mode : NamingMode) (applied : Option String) (t : TabFacts) (n : String)
    → new_name mode applied t ≡ some n
    → sanitize n max_tab_name_chars ≡ n
new_name-clean mode applied t n e =
    overwrite-clean (is_some_and applied (λ a. str_eq a t.name)) (is_force mode) t.name
      (computed_name t.panes) n (overwrite-new_name mode applied t n e)

-- An applied name, once the tab has it, is not applied again.
new_name_again :
    (mode : NamingMode) (applied : Option String) (t : TabFacts) (n : String)
    → new_name mode applied t ≡ some n
    → new_name mode (some n) (record t { name = n }) ≡ none
unfolding new_name
new_name_again mode applied t n e =
    let again : overwrite true (is_force mode) n (computed_name t.panes) ≡ none =
      overwrite_again (is_some_and applied (λ a. str_eq a t.name)) (is_force mode) t.name
        (computed_name t.panes) n (overwrite-new_name mode applied t n e) in
    elim (Bool-cases (name_supported t.panes n)) [
      | inl keeps ↦ rw ((eq_iff n n).1 refl, keeps) refl
      | inr free ↦ rw ((eq_iff n n).1 refl, free) again
    ]

-- A second pass over tabs for which nothing is new applies nothing.
rename_loop_quiet :
    (mode : NamingMode) (applied : Applied) (tabs : List TabFacts)
    → All (λ (t : TabFacts). new_name mode (get t.id applied) t ≡ none) tabs
    → (rename_loop mode applied tabs).1 ≡ []
unfolding rename_loop
rename_loop_quiet mode applied [] h = refl
rename_loop_quiet mode applied (t ∷ tabs) h =
    rw (rename_loop, h.0) (rename_loop_quiet mode applied tabs h.1)

-- A rename of another tab does not enter the echo.
echo_skip :
    (r : TabRename) (out : List TabRename) (tabs : List TabFacts)
    → IsFresh r.id tabs
    → echo (r ∷ out) tabs ≡ echo out tabs
unfolding echo echoed_name
echo_skip r out [] h = refl
echo_skip r out (t ∷ tabs) h = ground (arith, h.0, echo_skip r out tabs h.1)

-- After a pass nothing is new for the tabs that the host reports next.
abbrev pub IsSettled : NamingMode → List TabFacts → Applied × List TabRename → Type 0
IsSettled mode tabs (kept, out) =
    All (λ (t : TabFacts). new_name mode (get t.id kept) t ≡ none) (echo out tabs)

abbrev with_rename : ℕ → String → Applied × List TabRename → Applied × List TabRename
with_rename id n (kept, out) = (kept, record { id = id; name = n } ∷ out)

rename_loop-none :
    (mode : NamingMode) (applied : Applied) (t : TabFacts) (tabs : List TabFacts)
    → new_name mode (get t.id applied) t ≡ none
    → rename_loop mode applied tabs ≡ rename_loop mode applied (t ∷ tabs)
unfolding rename_loop
rename_loop-none mode applied t tabs e = rw (rename_loop, e) refl

rename_loop-some :
    (mode : NamingMode) (applied : Applied) (t : TabFacts) (tabs : List TabFacts) (n : String)
    → new_name mode (get t.id applied) t ≡ some n
    → with_rename t.id n (rename_loop mode (insert t.id n applied) tabs)
      ≡ rename_loop mode applied (t ∷ tabs)
unfolding rename_loop
rename_loop-some mode applied t tabs n e = rw (rename_loop, e) refl

IsSettled-head :
    (mode : NamingMode) (applied : Applied) (t : TabFacts) (tabs : List TabFacts)
    → IsFresh t.id tabs
    → sanitize t.name max_tab_name_chars ≡ t.name
    → new_name mode (get t.id applied) t ≡ none
    → new_name mode (get t.id (rename_loop mode applied tabs).0) (record t {
      name =
          sanitize (echoed_name (rename_loop mode applied tabs).1 t.id t.name) max_tab_name_chars;
    })
      ≡ none
IsSettled-head mode applied t tabs h clean none_new =
    rw (get-rename_loop mode applied t.id tabs h, echo_fresh mode applied t.id t.name tabs h, clean)
      none_new

new_name-renamed :
    (mode : NamingMode) (applied : Applied) (t : TabFacts) (tabs : List TabFacts) (n : String)
    → IsFresh t.id tabs
    → new_name mode (get t.id applied) t ≡ some n
    → new_name mode
        (get t.id (rename_loop mode (insert t.id n applied) tabs).0)
        (record t { name = n })
      ≡ none
new_name-renamed mode applied t tabs n h e =
    rw (get-rename_loop mode (insert t.id n applied) t.id tabs h, get-insert_self t.id n applied)
      (new_name_again mode (get t.id applied) t n e)

IsSettled-tail :
    (mode : NamingMode) (t : TabFacts) (tabs : List TabFacts) (n : String)
    (res : Applied × List TabRename)
    → IsFresh t.id tabs
    → sanitize n max_tab_name_chars ≡ n
    → new_name mode (get t.id res.0) (record t { name = n }) ≡ none
    → IsSettled mode tabs res
    → IsSettled mode (t ∷ tabs) (with_rename t.id n res)
unfolding echo echoed_name
IsSettled-tail mode t tabs n res h clean e settled = (
  rw (==_refl t.id, clean) e,
  rw (echo_skip (record { id = t.id; name = n }) res.1 tabs h) settled,
)

loop_settles :
    (mode : NamingMode) (applied : Applied) (tabs : List TabFacts)
    → IsDistinct tabs
    → IsIntake tabs
    → IsSettled mode tabs (rename_loop mode applied tabs)
unfolding rename_loop echo
loop_settles mode applied [] h clean = tt
loop_settles mode applied (t ∷ tabs) h clean =
    elim (Option-cases (new_name mode (get t.id applied) t)) [
      | inl none_new ↦
          subst (IsSettled mode (t ∷ tabs)) (rename_loop-none mode applied t tabs none_new) (
            IsSettled-head mode applied t tabs h.0 clean.0 none_new,
            loop_settles mode applied tabs h.1 clean.1,
          )
      | inr (n, e) ↦ subst (IsSettled mode (t ∷ tabs)) (rename_loop-some mode applied t tabs n e) (
          IsSettled-tail mode t tabs n (rename_loop mode (insert t.id n applied) tabs) h.0
            (new_name-clean mode (get t.id applied) t n e)
            (new_name-renamed mode applied t tabs n h.0 e)
            (loop_settles mode (insert t.id n applied) tabs h.1 clean.1))
    ]

-- Each name that is applied is recorded as ours.
abbrev pub IsRecorded : Applied × List TabRename → Type 0
IsRecorded (kept, out) = All (λ (r : TabRename). get r.id kept ≡ some r.name) out

loop_records :
    (mode : NamingMode) (applied : Applied) (tabs : List TabFacts)
    → IsDistinct tabs
    → IsRecorded (rename_loop mode applied tabs)
unfolding rename_loop
loop_records mode applied [] h = tt
loop_records mode applied (t ∷ tabs) h = elim (Option-cases (new_name mode (get t.id applied) t)) [
  | inl none_new ↦
      subst IsRecorded (rename_loop-none mode applied t tabs none_new)
        (loop_records mode applied tabs h.1)
  | inr (n, e) ↦
      let recorded : get t.id (rename_loop mode (insert t.id n applied) tabs).0 ≡ some n =
        get-rename_loop mode (insert t.id n applied) t.id tabs h.0
        ∙ get-insert_self t.id n applied in
      subst IsRecorded (rename_loop-some mode applied t tabs n e)
        (recorded, loop_records mode (insert t.id n applied) tabs h.1)
]

-- Where the tabs have different ids and names that the intake has sanitized, a rename records each
-- name that it applies, under the tab's id; and once the host echoes the names back, through the
-- intake, a rename of the same tabs asks for nothing.
pub rename-echo :
    (mode : NamingMode) (applied : Applied) (tabs : List TabFacts)
    → IsDistinct tabs
    → IsIntake tabs
    → IsRecorded (rename applied tabs mode)
      × ((rename (rename applied tabs mode).0 (echo (rename applied tabs mode).1 tabs) mode).1 ≡ [])
unfolding rename
rename-echo NamingMode.off applied tabs h clean = (tt, refl)
rename-echo NamingMode.managed applied tabs h clean =
    let settled = loop_settles NamingMode.managed applied tabs h clean in
    (
      loop_records NamingMode.managed applied tabs h,
      rename_loop_quiet NamingMode.managed (rename_loop NamingMode.managed applied tabs).0
          (echo (rename_loop NamingMode.managed applied tabs).1 tabs) settled,
    )
rename-echo NamingMode.force applied tabs h clean =
    let settled = loop_settles NamingMode.force applied tabs h clean in
    (
      loop_records NamingMode.force applied tabs h,
      rename_loop_quiet NamingMode.force (rename_loop NamingMode.force applied tabs).0
          (echo (rename_loop NamingMode.force applied tabs).1 tabs) settled,
    )
