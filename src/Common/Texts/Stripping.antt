-- ===== src/Common/Texts/Stripping.antt =====
-- What is left of a stripped text: to strip it again changes nothing.
use Prim.Native.Char.{Char, code}
use Prim.Native.String.{String}
use mathlib.Core.Path.{◌≡◌, refl}
use mathlib.Core.Bool.{true}
use mathlib.Core.Logic.{inl, inr}
use smart_factory_monitor.Common.Tests.{Bool-cases}
use smart_factory_monitor.Common.Texts.{is_space, lstrip, rstrip, prepend, strip}

prepend_ne : (c : Char) (s : String) → rstrip s ≡ s → rstrip (prepend c s) ≡ prepend c s
unfolding prepend rstrip
prepend_ne c String.[] h = elim (Bool-cases (is_space (code c))) [
  | inl e ↦ rw e
  | inr e ↦ rw e (rw e)
]
prepend_ne c (String.◌∷◌ d s) h = rw h

rstrip-rstrip : (s : String) → rstrip (rstrip s) ≡ rstrip s
unfolding rstrip
rstrip-rstrip String.[] = refl
rstrip-rstrip (String.◌∷◌ c s) = prepend_ne c (rstrip s) (rstrip-rstrip s)

lstrip-lstrip : (s : String) → lstrip (lstrip s) ≡ lstrip s
unfolding lstrip
lstrip-lstrip String.[] = refl
lstrip-lstrip (String.◌∷◌ c s) = elim (Bool-cases (is_space (code c))) [
  | inl e ↦ rw e (lstrip-lstrip s)
  | inr e ↦ rw e (rw e)
]

rest_stripped :
    (c : Char) (s t : String) → is_space (code c) ≡ true → prepend c t ≡ String.◌∷◌ c s → t ≡ s
unfolding prepend
rest_stripped c s String.[] e h = absurd (cc (rw e at h))
rest_stripped c s (String.◌∷◌ d t) e h = cc h

rstrip-lstrip : (s : String) → rstrip s ≡ s → rstrip (lstrip s) ≡ lstrip s
unfolding lstrip rstrip
rstrip-lstrip String.[] h = refl
rstrip-lstrip (String.◌∷◌ c s) h = elim (Bool-cases (is_space (code c))) [
  | inl e ↦ rw e (rstrip-lstrip s (rest_stripped c s (rstrip s) e h))
  | inr e ↦ rw e h
]

pub strip-strip : (s : String) → strip (strip s) ≡ strip s
unfolding strip
strip-strip s = rw (rstrip-lstrip (rstrip s) (rstrip-rstrip s)) (lstrip-lstrip (rstrip s))
