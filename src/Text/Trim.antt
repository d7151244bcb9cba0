-- ===== src/Text/Trim.antt =====
-- `trim` keeps a text that holds no white space, so that the normalised forms are fixed by the
-- normalisers: an identity that was accepted once is accepted again as it is.
use mathlib.Core.List.{reverse, reverse-reverse, reverse-cons}
use fabushi_backend.Prelude.{
  ℕ, ◌≡◌, refl, Bool, true, false, [], ◌∷◌, ◌++◌, Option, none, some, every, arith, if◌then◌else◌,
}
use fabushi_backend.Text.{Text, is_space, drop_space, trim, is_ascii_lower, Locale}
use fabushi_backend.Text.Pattern.{
  component_pattern, is_component_char, is_suffix_char, skip_digits, skip_number, skip_dot,
  then_number, version_suffix, version_pattern,
}

abbrev pub is_ink : ℕ → Bool
is_ink c = if is_space c then false else true

pub every-append :
    (p : ℕ → Bool) (s t : Text) → every p s ≡ true → every p t ≡ true → every p (s ++ t) ≡ true
every-append p [] t h k = k
every-append p (c ∷ s) t h k = ground (arith, every-append p s t)

every-reverse : (p : ℕ → Bool) (s : Text) → every p s ≡ true → every p (reverse s) ≡ true
every-reverse p [] h = refl
every-reverse p (c ∷ s) h =
    rw (reverse-cons c s)
      (every-append p (reverse s) (c ∷ []) (every-reverse p s (ground arith)) (ground arith))

every_weaken :
    (p q : ℕ → Bool)
    → ((c : ℕ) → p c ≡ true → q c ≡ true)
    → (s : Text) → every p s ≡ true
    → every q s ≡ true
every_weaken p q w [] h = refl
every_weaken p q w (c ∷ s) h = ground (arith, w c, every_weaken p q w s)

drop_space_ink : (s : Text) → every is_ink s ≡ true → drop_space s ≡ s
unfolding drop_space
drop_space_ink [] h = refl
drop_space_ink (c ∷ s) h = ground arith

pub trim_ink : (s : Text) → every is_ink s ≡ true → trim s ≡ s
unfolding trim
trim_ink s h =
    rw (drop_space_ink s h, drop_space_ink (reverse s) (every-reverse is_ink s h))
      (reverse-reverse s)

component_char_ink : (c : ℕ) → is_component_char c ≡ true → is_ink c ≡ true
unfolding is_component_char is_space
component_char_ink c h = ground arith

component_char_lower : (c : ℕ) → is_component_char c ≡ true → is_ascii_lower c ≡ true
unfolding is_component_char is_ascii_lower
component_char_lower c h = ground arith

component_chars :
    (lo hi : ℕ) (s : Text) → component_pattern lo hi s ≡ true → every is_component_char s ≡ true
unfolding component_pattern
component_chars lo hi [] h = refl
component_chars lo hi (c ∷ s) h = ground arith

-- What the pattern of a component accepts is trimmed and lower-cased already.
pub component_trim : (lo hi : ℕ) (s : Text) → component_pattern lo hi s ≡ true → trim s ≡ s
component_trim lo hi s h =
    trim_ink s
      (every_weaken is_component_char is_ink component_char_ink s (component_chars lo hi s h))

pub component_lower :
    (l : Locale) (lo hi : ℕ) (s : Text) → component_pattern lo hi s ≡ true → l.lower s ≡ s
component_lower l lo hi s h = l.lower_ascii s (
    every_weaken is_component_char is_ascii_lower component_char_lower s
      (component_chars lo hi s h))

-- What stands behind a matched part is ink only if the whole is.
abbrev ink_behind : Option Text → Bool
ink_behind none = false
ink_behind (some r) = every is_ink r

digits_ink : (s : Text) → every is_ink (skip_digits s) ≡ true → every is_ink s ≡ true
unfolding skip_digits is_space
digits_ink [] h = refl
digits_ink (c ∷ s) h = ground (arith, digits_ink s)

number_ink : (s : Text) → ink_behind (skip_number s) ≡ true → every is_ink s ≡ true
unfolding skip_number is_space
number_ink [] h = refl
number_ink (c ∷ s) h = ground (arith, digits_ink s)

dot_ink : (o : Option Text) → ink_behind (skip_dot o) ≡ true → ink_behind o ≡ true
unfolding skip_dot is_space
dot_ink none h = h
dot_ink (some []) h = refl
dot_ink (some (c ∷ s)) h = ground arith

then_number_ink : (o : Option Text) → ink_behind (then_number o) ≡ true → ink_behind o ≡ true
unfolding then_number
then_number_ink none h = h
then_number_ink (some s) h = number_ink s h

suffix_char_ink : (c : ℕ) → is_suffix_char c ≡ true → is_ink c ≡ true
unfolding is_suffix_char is_space
suffix_char_ink c h = ground arith

suffix_ink : (o : Option Text) → version_suffix o ≡ true → ink_behind o ≡ true
unfolding version_suffix is_space
suffix_ink none h = h
suffix_ink (some []) h = refl
suffix_ink (some (c ∷ [])) h = absurd (ground arith)
suffix_ink (some (c ∷ d ∷ s)) h =
    ground (arith, suffix_char_ink d, every_weaken is_suffix_char is_ink suffix_char_ink s)

-- What the pattern of a version accepts is trimmed already.
pub version_trim : (s : Text) → version_pattern s ≡ true → trim s ≡ s
unfolding version_pattern
version_trim s h =
    trim_ink s (
      number_ink s (dot_ink _ (then_number_ink _ (dot_ink _ (then_number_ink _ (suffix_ink _ h))))))
