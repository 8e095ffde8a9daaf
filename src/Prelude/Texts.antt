-- ===== src/Prelude/Texts.antt =====
-- Go's strings and byte slices, as lists of bytes.
use Prim.Native.Char.{code}
use Prim.Native.String.{String}
use Prim.Native.Nat.{ℕ}
use mathlib.Core.Path.{◌≡◌, refl, sym, ap}
use mathlib.Core.Logic.{◌↔◌, ◌≢◌}
use mathlib.Core.Bool.{Bool, true, false, not, ◌&&◌}
use mathlib.Core.List.{List, [], ◌∷◌, ◌++◌, append-nil, append_assoc}
use native.Mathlib.Omega.{arith}
use cserf.Prelude.Tests.{nat_eq, ltb, if◌then◌else◌}
use cserf.Prelude.Lists.{All}
use cserf.Prelude.Equality.{Key}

abbrev pub Text : Type 0
Text = List ℕ

-- The bytes of an ASCII literal.
abbrev pub bytes : String → Text
bytes (String.◌∷◌ head tail) = code head ∷ bytes tail
bytes String.[] = []

-- `==` on strings, `bytes.Equal` on slices
abbrev pub text_eq : Text → Text → Bool
text_eq [] [] = true
text_eq [] (y ∷ t) = false
text_eq (x ∷ s) [] = false
text_eq (x ∷ s) (y ∷ t) = nat_eq x y && text_eq s t

pub text_eq_refl : (s : Text) → text_eq s s ≡ true
text_eq_refl [] = refl
text_eq_refl (x ∷ s) = ground (arith, text_eq_refl s)

pub text_eq→eq : (s t : Text) → text_eq s t ≡ true → s ≡ t
text_eq→eq [] [] h = refl
text_eq→eq [] (y ∷ t) h = cc
text_eq→eq (x ∷ s) [] h = cc
text_eq→eq (x ∷ s) (y ∷ t) h = ground (arith, text_eq→eq s t)

pub text_eq_iff : (s t : Text) → (text_eq s t ≡ true) ↔ (s ≡ t)
text_eq_iff s t = (text_eq→eq s t, λ e. cc (text_eq_refl s, e))

instance abbrev pub text_key : Key Text
text_key = record { means = text_eq_iff; same = text_eq }

-- `strings.HasPrefix`
abbrev pub has_prefix : Text → Text → Bool
has_prefix s [] = true
has_prefix [] (p ∷ ps) = false
has_prefix (x ∷ s) (p ∷ ps) = nat_eq x p && has_prefix s ps

-- `strings.Split` with a separator of one byte; `front` is what has been read of the present part.
unfoldable pub split : ℕ → Text → Text → List Text
split sep front [] = front ∷ []
split sep front (c ∷ cs) =
    let rest = split sep [] cs in
    let more = split sep (front ++ (c ∷ [])) cs in if nat_eq c sep then front ∷ rest else more

-- `<` on strings: the order of their bytes.
abbrev pub text_lt : Text → Text → Bool
text_lt s [] = false
text_lt [] (y ∷ t) = true
text_lt (x ∷ s) (y ∷ t) = if nat_eq x y then text_lt s t else ltb x y

pub text_lt_trans : (s t u : Text) → text_lt s t ≡ true → text_lt t u ≡ true → text_lt s u ≡ true
text_lt_trans s t [] h k = cc
text_lt_trans s [] (z ∷ u) h k = cc
text_lt_trans [] (y ∷ t) (z ∷ u) h k = refl
text_lt_trans (x ∷ s) (y ∷ t) (z ∷ u) h k = ground (arith, text_lt_trans s t u)

pub text_lt_total : (s t : Text) → s ≢ t → text_lt s t ≡ not (text_lt t s)
text_lt_total [] [] h = absurd (h refl)
text_lt_total [] (y ∷ t) h = refl
text_lt_total (x ∷ s) [] h = refl
text_lt_total (x ∷ s) (y ∷ t) h = ground (arith, text_lt_total s t, h)

-- No byte `c` is in the text.
abbrev pub Avoids : ℕ → Text → Type 0
Avoids c s = All (λ d. d ≢ c) s

pub split-Avoids : (sep : ℕ) (front s : Text) → Avoids sep s → split sep front s ≡ (front ++ s) ∷ []
unfolding split
split-Avoids sep front [] h = ap (λ a. a ∷ []) (sym (append-nil front))
split-Avoids sep front (c ∷ s) h =
    ground (arith, h.0, split-Avoids sep (front ++ (c ∷ [])) s h.1, append_assoc front (c ∷ []) s)

pub split-append :
    (sep : ℕ) (front s t : Text)
    → Avoids sep s
    → split sep front (s ++ (sep ∷ t)) ≡ (front ++ s) ∷ split sep [] t
unfolding split
split-append sep front [] t h = ground (arith, append-nil front)
split-append sep front (c ∷ s) t h =
    ground (arith, h.0, split-append sep (front ++ (c ∷ [])) s t h.1, append_assoc front (c ∷ []) s)
