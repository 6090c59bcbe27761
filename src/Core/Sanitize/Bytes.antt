-- ===== src/Core/Sanitize/Bytes.antt =====
-- The UTF-8 bytes of a char that the sanitizer keeps, and what one round of the walk does to them.
use Prim.Native.Char.{Char, code}
use zj_radar.Prelude.{
  ℕ, zero, suc, ◌≤◌, ◌≡◌, refl, true, false, Option, none, some, List, [], ◌∷◌, ◌++◌, arith, length,
  drop, ◌==◌,
}
use zj_radar.Core.Sanitize.{
  Byte, lead, cont, lead_value, conts, extra_bytes, kept, csi, osc, after_escape, step_normal,
  scrub_step,
}

drop-length-append : (xs ys : List Byte) → drop (length xs) (xs ++ ys) ≡ ys
drop-length-append [] ys = refl
drop-length-append (x ∷ xs) ys = drop-length-append xs ys

-- What `kept` says of the code point, and what the first byte says of the arms of the walk.
kept_lead :
    (c : Char)
    → kept c ≡ true
    → (0x20 ≤ lead_value (code c)) × ((lead_value (code c) == 0x7f) ≡ false)
unfolding kept lead_value
kept_lead c h = ground arith

-- A kept char passes through the walk unchanged, with all its bytes.
pub scrub_step-kept :
    (c : Char) (bs : List Byte)
    → kept c ≡ true
    → scrub_step (lead c (lead_value (code c))) (conts (code c) ++ bs) ≡ (some c, bs)
unfolding scrub_step extra_bytes
scrub_step-kept c bs h = ground (arith, h, kept_lead c h, drop-length-append (conts (code c)) bs)

-- A round never gives back more bytes than it was given.
length-csi-le : (bs : List Byte) → length (csi bs) ≤ length bs
unfolding csi
length-csi-le [] = omega arith
length-csi-le (b ∷ bs) = ground (arith, length-csi-le bs)

length-drop-le {ℓ} : {A : Type ℓ} (n : ℕ) (xs : List A) → length (drop n xs) ≤ length xs
length-drop-le zero xs = omega arith
length-drop-le (suc n) [] = omega arith
length-drop-le (suc n) (x ∷ xs) = omega (arith, length-drop-le n xs)

length-osc-le : (bs : List Byte) → length (osc bs) ≤ length bs
unfolding osc
length-osc-le [] = omega arith
length-osc-le (b ∷ bs) = ground (arith, length-osc-le bs, length-drop-le 1 bs)

length-after_escape-le : (bs : List Byte) → length (after_escape bs) ≤ length bs
unfolding after_escape
length-after_escape-le [] = omega arith
length-after_escape-le (b ∷ bs) = ground (arith, length-csi-le bs, length-osc-le bs)

length-step_normal-le : (b : Byte) (bs : List Byte) → length (step_normal b bs).1 ≤ length bs
unfolding step_normal
length-step_normal-le (lead c n) bs = length-drop-le (extra_bytes c) bs
length-step_normal-le (cont n) bs = omega arith

pub length-scrub_step-le : (b : Byte) (bs : List Byte) → length (scrub_step b bs).1 ≤ length bs
unfolding scrub_step
length-scrub_step-le b bs = ground (arith, length-after_escape-le bs, length-step_normal-le b bs)

-- What a round pushes is kept by the sanitizer.
abbrev pub IsKept : Option Char → Type 0
IsKept none = Unit
IsKept (some c) = kept c ≡ true

step_normal-IsKept : (b : Byte) (bs : List Byte) → IsKept (step_normal b bs).0
unfolding step_normal
step_normal-IsKept (lead c n) bs = ground arith
step_normal-IsKept (cont n) bs = tt

kept_space : kept " " ≡ true
unfolding kept
kept_space = refl

pub scrub_step-IsKept : (b : Byte) (bs : List Byte) → IsKept (scrub_step b bs).0
unfolding scrub_step
scrub_step-IsKept b bs = ground (arith, kept_space, step_normal-IsKept b bs)
