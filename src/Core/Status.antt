-- ===== src/Core/Status.antt =====
-- crates/core/src/status.rs: `Status` and what the `statuses!` table generates from it, with
-- `Role` and `GlyphSet`. The derived `Ord` is the order of the table: `rank` is the position.
pub mod Wire
use zj_radar.Prelude.{
  ℕ, String, Bool, true, false, Option, none, some, List, [], ◌∷◌, str_eq, leb, if◌then◌else◌,
}

pub data Status : Type 0 where
  idle done running pending error : Status

pub data Role : Type 0 where
  error attention working success muted accent : Role

pub data GlyphSet : Type 0 where
  nerd plain : GlyphSet

abbrev pub all_statuses : List Status
all_statuses = Status.idle ∷ Status.done ∷ Status.running ∷ Status.pending ∷ Status.error ∷ []

unfoldable pub rank : Status → ℕ
rank Status.idle = 0
rank Status.done = 1
rank Status.running = 2
rank Status.pending = 3
rank Status.error = 4

-- `PartialEq` and `PartialOrd`, as derived.
unfoldable pub eq_status : Status → Status → Bool
eq_status Status.idle Status.idle = true
eq_status Status.done Status.done = true
eq_status Status.running Status.running = true
eq_status Status.pending Status.pending = true
eq_status Status.error Status.error = true
eq_status _ _ = false

unfoldable pub le_status : Status → Status → Bool
unfolding rank
le_status a b = leb (rank a) (rank b)

unfoldable pub from_wire : String → Status
from_wire s =
    if str_eq s "idle"
    then Status.idle
    else if str_eq s "done"
    then Status.done
    else if str_eq s "running"
    then Status.running
    else if str_eq s "pending"
    then Status.pending
    else if str_eq s "error"
    then Status.error
    else Status.idle

unfoldable pub try_from_wire : String → Option Status
try_from_wire s =
    if str_eq s "idle"
    then some Status.idle
    else if str_eq s "done"
    then some Status.done
    else if str_eq s "running"
    then some Status.running
    else if str_eq s "pending"
    then some Status.pending
    else if str_eq s "error"
    then some Status.error
    else none

unfoldable pub as_wire : Status → String
as_wire Status.idle = "idle"
as_wire Status.done = "done"
as_wire Status.running = "running"
as_wire Status.pending = "pending"
as_wire Status.error = "error"

unfoldable pub role : Status → Role
role Status.idle = Role.muted
role Status.done = Role.success
role Status.running = Role.working
role Status.pending = Role.attention
role Status.error = Role.error

-- The `char`s as code points.
unfoldable pub glyph_for : Status → GlyphSet → ℕ
glyph_for Status.idle GlyphSet.plain = 0x25cb
glyph_for Status.idle GlyphSet.nerd = 0xeb83
glyph_for Status.done GlyphSet.plain = 0x25cf
glyph_for Status.done GlyphSet.nerd = 0xf058
glyph_for Status.running GlyphSet.plain = 0x280b
glyph_for Status.running GlyphSet.nerd = 0xf110
glyph_for Status.pending GlyphSet.plain = 0x25c6
glyph_for Status.pending GlyphSet.nerd = 0xf0f3
glyph_for Status.error GlyphSet.plain = 0x2717
glyph_for Status.error GlyphSet.nerd = 0xf057

unfoldable pub is_active : Status → Bool
is_active Status.idle = false
is_active _ = true

unfoldable pub needs_attention : Status → Bool
needs_attention Status.pending = true
needs_attention Status.error = true
needs_attention Status.done = true
needs_attention _ = false

unfoldable pub needs_you : Status → Bool
needs_you Status.pending = true
needs_you Status.error = true
needs_you _ = false

unfoldable pub is_completion : Status → Bool
is_completion Status.done = true
is_completion Status.error = true
is_completion _ = false

unfoldable pub from_config : String → Option GlyphSet
from_config s =
    if str_eq s "nerd"
    then some GlyphSet.nerd
    else if str_eq s "plain"
    then some GlyphSet.plain
    else none
