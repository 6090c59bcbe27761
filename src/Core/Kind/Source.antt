-- ===== src/Core/Kind/Source.antt =====
-- The `source` vocabulary of crates/core/src/kind.rs.
use zj_radar.Prelude.{
  String, ◌≡◌, ◌≢◌, ◌↔◌, refl, sym, ap, ◌∙◌, true, arith, eq_iff, str_eq, Bool-cases, inl, inr,
  if◌then◌else◌,
}
use zj_radar.Core.Kind.{Kind, eq_kind, from_source, as_source}

eq_kind_refl : (a : Kind) → eq_kind a a ≡ true
unfolding eq_kind
eq_kind_refl a = ground arith

eq_of_eq_kind : (a b : Kind) → eq_kind a b ≡ true → a ≡ b
unfolding eq_kind
eq_of_eq_kind Kind.claude b h = ground arith
eq_of_eq_kind Kind.codex b h = ground arith
eq_of_eq_kind Kind.opencode b h = ground arith
eq_of_eq_kind Kind.pi b h = ground arith
eq_of_eq_kind Kind.omp b h = ground arith
eq_of_eq_kind Kind.gemini b h = ground arith
eq_of_eq_kind Kind.command b h = ground arith
eq_of_eq_kind Kind.other b h = ground arith
eq_of_eq_kind Kind.test b h = ground arith
eq_of_eq_kind Kind.build b h = ground arith
eq_of_eq_kind Kind.deploy b h = ground arith
eq_of_eq_kind Kind.server b h = ground arith
eq_of_eq_kind Kind.remote b h = ground arith

pub eq_kind_iff : (a b : Kind) → (eq_kind a b ≡ true) ↔ (a ≡ b)
eq_kind_iff a b = (eq_of_eq_kind a b, λ e. rw e (eq_kind_refl b))

from_source-as_source : (k : Kind) → from_source (as_source k) ≡ k
unfolding from_source as_source
from_source-as_source Kind.claude = refl
from_source-as_source Kind.codex = refl
from_source-as_source Kind.opencode = refl
from_source-as_source Kind.pi = refl
from_source-as_source Kind.omp = refl
from_source-as_source Kind.gemini = refl
from_source-as_source Kind.command = refl
from_source-as_source Kind.other = refl
from_source-as_source Kind.test = refl
from_source-as_source Kind.build = refl
from_source-as_source Kind.deploy = refl
from_source-as_source Kind.server = refl
from_source-as_source Kind.remote = refl

-- One row of the table: its token hits, or the rows below decide.
row :
    (w : String) (x y k : Kind)
    → (if str_eq w (as_source x) then x else y) ≡ k
    → (y ≡ k → w ≡ as_source k)
    → w ≡ as_source k
row w x y k h below = elim (Bool-cases (str_eq w (as_source x))) [
  | inl hit ↦ (eq_iff w (as_source x)).0 hit ∙ ap as_source (rw hit at h)
  | inr miss ↦ below (rw miss at h)
]

as_source-of : (w : String) (k : Kind) → from_source w ≡ k → k ≢ Kind.other → w ≡ as_source k
unfolding from_source as_source
as_source-of w k h ne = row w Kind.claude _ k h (λ h1. row w Kind.codex _ k h1 (λ h2.
    row w Kind.opencode _ k h2 (λ h3. row w Kind.pi _ k h3 (λ h4. row w Kind.omp _ k h4 (λ h5.
      row w Kind.gemini _ k h5 (λ h6. row w Kind.command _ k h6 (λ h7.
        row w Kind.other _ k h7 (λ h8. row w Kind.test _ k h8 (λ h9. row w Kind.build _ k h9 (λ h10.
          row w Kind.deploy _ k h10 (λ h11.
            row w Kind.server _ k h11
              (λ h12. row w Kind.remote _ k h12 (λ h13. absurd (ne (sym h13)))))))))))))))

-- A token other than the fallback's is read as the one kind that is written so: a known token by
-- its row of the table, and any other token as `Other`.
pub from_source_iff :
    (w : String) (k : Kind) → k ≢ Kind.other → (from_source w ≡ k) ↔ (w ≡ as_source k)
from_source_iff w k ne = (λ h. as_source-of w k h ne, λ e. rw e (from_source-as_source k))
