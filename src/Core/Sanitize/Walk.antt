-- ===== src/Core/Sanitize/Walk.antt =====
-- crates/core/src/payload.rs: the loop of `scrub`, what it pushes and the fuel it takes.
use Prim.Native.Char.{Char, code}
use Prim.Native.String.{◌∷◌ as cons_char, [] as no_chars}
use zj_radar.Prelude.{
  ℕ, zero, suc, ◌≤◌, String, ◌≡◌, refl, ap, Bool, true, Option, none, some, List, [], ◌∷◌, arith,
  length, length-append,
}
use zj_radar.Core.Sanitize.{
  Byte, conts, bytes, kept, all_chars, take_chars, count_chars, push_char, scrub_step, scrub_loop,
}
use zj_radar.Core.Sanitize.Bytes.{scrub_step-kept, length-scrub_step-le, IsKept, scrub_step-IsKept}

all_chars-push_char :
    (o : Option Char) (s : String)
    → IsKept o
    → all_chars kept s ≡ true
    → all_chars kept (push_char o s) ≡ true
unfolding all_chars
all_chars-push_char none s h k = k
all_chars-push_char (some c) s h k = ground (arith, h, k)

pub all_chars-scrub_loop : (fuel : ℕ) (bs : List Byte) → all_chars kept (scrub_loop fuel bs) ≡ true
unfolding all_chars scrub_loop
all_chars-scrub_loop zero bs = refl
all_chars-scrub_loop (suc fuel) [] = refl
all_chars-scrub_loop (suc fuel) (b ∷ bs) =
    all_chars-push_char (scrub_step b bs).0 _ (scrub_step-IsKept b bs)
      (all_chars-scrub_loop fuel (scrub_step b bs).1)

-- The walk over the bytes ends after `n` rounds.
pub data WalkEnds : ℕ → List Byte → Type 0 where
  at_end : WalkEnds 0 []
  round :
      (n : ℕ) (b : Byte) (bs : List Byte)
      → WalkEnds n (scrub_step b bs).1
      → WalkEnds (suc n) (b ∷ bs)

-- The walk over the bytes ends within a number of rounds, and more fuel than that changes nothing.
pub record EndsWithin (limit fuel : ℕ) (bs : List Byte) : Type 0 where
  pub rounds : ℕ
  pub bounded : rounds ≤ limit
  pub ends : WalkEnds rounds bs
  pub settled : scrub_loop fuel bs ≡ scrub_loop rounds bs

-- The walk ends on every text, after at most one round for each of its bytes, and fuel for as many
-- rounds as there are bytes is enough: the text is the one that the rounds until the end give.
pub scrub_loop-ends :
    (fuel : ℕ) (bs : List Byte) → length bs ≤ fuel → EndsWithin (length bs) fuel bs
unfolding scrub_loop
scrub_loop-ends zero [] h = record {
  rounds = 0;
  bounded = omega arith;
  ends = WalkEnds.at_end;
  settled = refl;
}
scrub_loop-ends zero (b ∷ bs) h = absurd (omega arith)
scrub_loop-ends (suc fuel) [] h = record {
  rounds = 0;
  bounded = omega arith;
  ends = WalkEnds.at_end;
  settled = refl;
}
scrub_loop-ends (suc fuel) (b ∷ bs) h =
    let rest =
      scrub_loop-ends fuel (scrub_step b bs).1 (omega (arith, length-scrub_step-le b bs)) in
    record {
      rounds = suc rest.rounds;
      bounded = omega (arith, rest.bounded, length-scrub_step-le b bs);
      ends = WalkEnds.round rest.rounds b bs rest.ends;
      settled = ap (push_char (scrub_step b bs).0) rest.settled;
    }

-- On text that needs no scrubbing the walk changes nothing.
pub scrub_loop-bytes :
    (fuel : ℕ) (s : String)
    → length (bytes s) ≤ fuel
    → all_chars kept s ≡ true
    → scrub_loop fuel (bytes s) ≡ s
unfolding scrub_loop bytes all_chars
scrub_loop-bytes zero no_chars h k = refl
scrub_loop-bytes zero (cons_char c s) h k = absurd (omega arith)
scrub_loop-bytes (suc fuel) no_chars h k = refl
scrub_loop-bytes (suc fuel) (cons_char c s) h k = rw (scrub_step-kept c (bytes s) (ground arith)) (
    ap (λ (t : String). cons_char c t)
      (scrub_loop-bytes fuel s (omega (arith, h, length-append {0} (conts (code c)) (bytes s)))
        (ground arith)))

pub all_chars-take_chars :
    (p : Char → Bool) (n : ℕ) (s : String)
    → all_chars p s ≡ true
    → all_chars p (take_chars n s) ≡ true
unfolding all_chars take_chars
all_chars-take_chars p zero s h = refl
all_chars-take_chars p (suc n) no_chars h = refl
all_chars-take_chars p (suc n) (cons_char c s) h = ground (arith, all_chars-take_chars p n s)

pub count_chars-take_chars : (n : ℕ) (s : String) → count_chars (take_chars n s) ≤ n
unfolding count_chars take_chars
count_chars-take_chars zero s = omega arith
count_chars-take_chars (suc n) no_chars = omega arith
count_chars-take_chars (suc n) (cons_char c s) = omega (arith, count_chars-take_chars n s)

pub take_chars-eq_self : (n : ℕ) (s : String) → count_chars s ≤ n → take_chars n s ≡ s
unfolding count_chars take_chars
take_chars-eq_self zero no_chars h = refl
take_chars-eq_self zero (cons_char c s) h = absurd (omega arith)
take_chars-eq_self (suc n) no_chars h = refl
take_chars-eq_self (suc n) (cons_char c s) h =
    ap (λ (t : String). cons_char c t) (take_chars-eq_self n s (omega arith))
