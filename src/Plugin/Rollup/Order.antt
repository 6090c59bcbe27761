-- ===== src/Plugin/Rollup/Order.antt =====
-- crates/plugin/src/rollup.rs: the order by which the rows of a tab compete for its detail line.
use zj_radar.Prelude.{◌≤◌, true, false, ◌≡◌, arith}
use zj_radar.Plugin.Rollup.{Key, key_ge}

abbrev pub Ge : Key → Key → Type 0
Ge a b = key_ge a b ≡ true

pub key_ge-total : (a b : Key) → key_ge a b ≡ false → Ge b a
unfolding key_ge
key_ge-total (r, true, t) (r₂, true, t₂) h = ground arith
key_ge-total (r, true, t) (r₂, false, t₂) h = ground arith
key_ge-total (r, false, t) (r₂, true, t₂) h = ground arith
key_ge-total (r, false, t) (r₂, false, t₂) h = ground arith

pub key_ge_refl : (a : Key) → Ge a a
unfolding key_ge
key_ge_refl (r, true, t) = ground arith
key_ge_refl (r, false, t) = ground arith

pub key_ge_trans : (a b c : Key) → Ge a b → Ge b c → Ge a c
unfolding key_ge
key_ge_trans (r, true, t) (r₂, true, t₂) (r₃, true, t₃) g h = ground arith
key_ge_trans (r, true, t) (r₂, true, t₂) (r₃, false, t₃) g h = ground arith
key_ge_trans (r, true, t) (r₂, false, t₂) (r₃, true, t₃) g h = ground arith
key_ge_trans (r, true, t) (r₂, false, t₂) (r₃, false, t₃) g h = ground arith
key_ge_trans (r, false, t) (r₂, true, t₂) (r₃, true, t₃) g h = ground arith
key_ge_trans (r, false, t) (r₂, true, t₂) (r₃, false, t₃) g h = ground arith
key_ge_trans (r, false, t) (r₂, false, t₂) (r₃, true, t₃) g h = ground arith
key_ge_trans (r, false, t) (r₂, false, t₂) (r₃, false, t₃) g h = ground arith

-- A greater key has at least the severity.
pub key_ge-rank : (a b : Key) → Ge a b → b.0 ≤ a.0
unfolding key_ge
key_ge-rank (r, true, t) (r₂, true, t₂) h = ground arith
key_ge-rank (r, true, t) (r₂, false, t₂) h = ground arith
key_ge-rank (r, false, t) (r₂, true, t₂) h = ground arith
key_ge-rank (r, false, t) (r₂, false, t₂) h = ground arith
