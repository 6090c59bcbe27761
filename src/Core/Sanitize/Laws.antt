-- ===== src/Core/Sanitize/Laws.antt =====
-- What every caller of `sanitize` relies on.
use zj_radar.Prelude.{ℕ, ◌≤◌, String, ◌≡◌, refl, true, inl, inr, arith, length, Bool-cases}
use zj_radar.Core.Sanitize.{bytes, kept, all_chars, count_chars, scrub, sanitize}
use zj_radar.Core.Sanitize.Walk.{
  all_chars-scrub_loop, scrub_loop-bytes, all_chars-take_chars, count_chars-take_chars,
  take_chars-eq_self,
}

-- The fast path agrees with the full walk on every text: `sanitize` is `scrub`.
pub sanitize-eq-scrub : (s : String) (n : ℕ) → sanitize s n ≡ scrub s n
unfolding sanitize scrub
sanitize-eq-scrub s n = elim (Bool-cases (all_chars kept s)) [
  | inl clean ↦ rw (clean, scrub_loop-bytes (length (bytes s)) s (omega arith) clean) refl
  | inr dirty ↦ rw dirty refl
]

-- Whatever the input, the result holds no control character, no escape and no bidi format
-- character, and has at most `n` chars.
pub sanitize_clean :
    (s : String) (n : ℕ) → (all_chars kept (sanitize s n) ≡ true) × (count_chars (sanitize s n) ≤ n)
sanitize_clean s n = rw sanitize-eq-scrub (
    unfold scrub in
    (
      all_chars-take_chars kept n _ (all_chars-scrub_loop (length (bytes s)) (bytes s)),
      count_chars-take_chars n _,
    ))

-- A text that is clean and short enough is left as it is.
pub sanitize-eq_self :
    (s : String) (n : ℕ) → all_chars kept s ≡ true → count_chars s ≤ n → sanitize s n ≡ s
unfolding sanitize
sanitize-eq_self s n clean short = rw clean (take_chars-eq_self n s short)

-- Sanitizing again, as a snapshot that is loaded does, changes nothing.
pub sanitize_idem : (s : String) (n : ℕ) → sanitize (sanitize s n) n ≡ sanitize s n
sanitize_idem s n = sanitize-eq_self (sanitize s n) n (sanitize_clean s n).0 (sanitize_clean s n).1
