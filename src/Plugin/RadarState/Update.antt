-- ===== src/Plugin/RadarState/Update.antt =====
-- crates/plugin/src/radar_state.rs: `PaneUpdate::from_raw`. The colours of a pane and the theme that
-- they give, of theme.rs, are parameters.
use zj_radar.Prelude.{
  ℕ, String, Bool, Option, none, some, List, [], ◌∷◌, ◌++◌, or_else, unwrap_or, if◌then◌else◌,
}
use zj_radar.Prelude.Int.{ℤ}
use zj_radar.Prelude.PaneMap
use zj_radar.Prelude.PaneMap.{PaneMap}
use zj_radar.Core.Sanitize.{sanitize}
use zj_radar.Core.Observation.{max_tab_name_chars}
use zj_radar.Plugin.Displays.{TerminalPane}

pub record PaneUpdate (Theme : Type 0) : Type 0 where
  pub tab_panes : PaneMap (List TerminalPane)
  pub live : List ℕ
  pub theme : Option Theme
  pub exits : List (ℕ × Option ℤ)

pub record RawPane : Type 0 where
  pub tab_pos : ℕ
  pub id : ℕ
  pub title : String
  pub is_plugin : Bool
  pub is_focused : Bool
  pub is_floating : Bool
  pub default_bg : Option String
  pub default_fg : Option String
  pub exited : Bool
  pub exit_status : Option ℤ

unfoldable pub terminal_pane : RawPane → TerminalPane
terminal_pane p = record {
  id = p.id;
  title = sanitize p.title max_tab_name_chars;
  focused_in_tab = p.is_focused;
  floating = p.is_floating;
}

abbrev pub both {ℓ} : {A : Type ℓ} → Option A → Option A → Option (A × A)
both (some a) (some b) = some (a, b)
both _ _ = none

module _ {Rgb Theme : Type 0} (parse_hex : String → Option Rgb)
    (from_bg_fg : Rgb → Rgb → Theme) where
  abbrev pub parsed : Option String → Option Rgb
  parsed none = none
  parsed (some hex) = parse_hex hex

  abbrev pub colors : RawPane → Option (Rgb × Rgb)
  colors p = both (parsed p.default_bg) (parsed p.default_fg)

  -- The `let mut`s of `from_raw`.
  pub record Folded : Type 0 where
    pub tab_panes : PaneMap (List TerminalPane)
    pub live : List ℕ
    pub exits : List (ℕ × Option ℤ)
    pub focused_colors : Option (Rgb × Rgb)
    pub any_colors : Option (Rgb × Rgb)

  unfoldable pub fold_pane : RawPane → Folded → Folded
  unfolding terminal_pane
  fold_pane p f = if p.is_plugin then f else record {
    tab_panes =
        PaneMap.insert p.tab_pos
          (unwrap_or (PaneMap.get p.tab_pos f.tab_panes) [] ++ terminal_pane p ∷ []) f.tab_panes;
    live = p.id ∷ f.live;
    exits = if p.exited then f.exits ++ (p.id, p.exit_status) ∷ [] else f.exits;
    focused_colors = if p.is_focused then or_else (colors p) f.focused_colors else f.focused_colors;
    any_colors = or_else f.any_colors (colors p);
  }

  unfoldable pub fold_panes : List RawPane → Folded → Folded
  unfolding fold_pane
  fold_panes [] f = f
  fold_panes (p ∷ panes) f = fold_panes panes (fold_pane p f)

  unfoldable pub from_raw : List RawPane → PaneUpdate Theme
  unfolding fold_panes
  from_raw panes =
      let f = fold_panes panes (record {
        tab_panes = [];
        live = [];
        exits = [];
        focused_colors = none;
        any_colors = none;
      }) in
      record {
        tab_panes = f.tab_panes;
        live = f.live;
        theme = elim (or_else f.focused_colors f.any_colors) [
          | none ↦ none
          | some (bg, fg) ↦ some (from_bg_fg bg fg)
        ];
        exits = f.exits;
      }
