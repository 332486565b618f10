-- ===== src/Prelude/Text/Laws.antt =====
-- Laws of the operations on texts.
use Prim.Native.String.{String, [], ◌∷◌}
use mathlib.Core.Path.{◌≡◌, refl}
use mathlib.Core.Bool.{false}
use mathlib.Core.Logic.{inl, inr}
use native.Mathlib.Omega.{arith}
use text.Mathlib.TextEquality.{eq_iff}
use text.Mathlib.TextLemmas.{nil-append, cons-append, append-eq-nil_iff}
use package.masjid_protocol.Prelude.Tests.{Bool-cases}
use package.masjid_protocol.Prelude.Text.{◌+++◌, slice_from, size, is_empty}

pub slice_from-append : (s t : String) → slice_from (size s) (s +++ t) ≡ t
unfolding slice_from size
slice_from-append [] t = rw (nil-append t) refl
slice_from-append (c ∷ s) t = rw (cons-append c s t) (slice_from-append s t)

pub is_empty-append : (s t : String) → is_empty s ≡ false → is_empty (s +++ t) ≡ false
is_empty-append s t h = elim (Bool-cases (is_empty (s +++ t))) [
  | inl e ↦
      let first = (append-eq-nil_iff.0 ((eq_iff (s +++ t) "").0 e)).0 in
      absurd (ground (arith, h, (eq_iff s "").1 first))
  | inr e ↦ e
]
