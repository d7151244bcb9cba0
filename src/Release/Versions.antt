-- ===== src/Release/Versions.antt =====
-- The order of versions: `parseSemver`, `comparePrerelease` and `compareVersions` of
-- ai-backend/src/extension_release_store.js. A comparison is used by its sign only, so it is one of
-- three.
use fabushi_backend.Prelude.{
  ℕ, ◌≡◌, refl, Bool, true, ◌&&◌, not, List, [], ◌∷◌, Option, none, some, every, ltb, nat_beq,
  arith, Option-cases, text_Eq, text_beq_iff, ◌==◌, if◌then◌else◌, inl, inr,
}
use fabushi_backend.Text.{Text, is_empty}
use fabushi_backend.Text.Split.{split_on}
use fabushi_backend.Text.Pattern.{is_digit, is_suffix_char, skip_digits}

pub data Sign : Type 0 where
  less same greater : Sign

unfoldable pub flip : Sign → Sign
flip less = greater
flip same = same
flip greater = less

-- What the runtime gives: `Number` of a text of digits, which rounds, and `localeCompare`, by which
-- two texts exchanged are in the opposite order.
pub record Collation : Type 0 where
  pub number : Text → ℕ
  pub compare : Text → Text → Sign
  pub compare_flip : (s t : Text) → compare t s ≡ flip (compare s t)

pub record Semver : Type 0 where
  pub major : ℕ
  pub minor : ℕ
  pub patch : ℕ
  pub prerelease : List Text

-- (\d+), greedy
unfoldable pub digits : Text → Text
digits [] = []
digits (c ∷ s) = let rest = digits s in if is_digit c then c ∷ rest else []

-- the text behind a digit and the character `c`
unfoldable pub behind : ℕ → Text → Option Text
unfolding digits skip_digits
behind c s = if is_empty (digits s) then none else behind_char (skip_digits s)
  where
    behind_char : Text → Option Text
    behind_char [] = none
    behind_char (d ∷ rest) = if nat_beq d c then some rest else none

-- [0-9A-Za-z.-]+, greedy
unfoldable pub suffix : Text → Text
suffix [] = []
suffix (c ∷ s) = let rest = suffix s in if is_suffix_char c then c ∷ rest else []

unfoldable pub skip_suffix : Text → Text
skip_suffix [] = []
skip_suffix (c ∷ s) = if is_suffix_char c then skip_suffix s else c ∷ s

-- (?:\+[0-9A-Za-z.-]+)?$
unfoldable pub build_pattern : Text → Bool
unfolding suffix skip_suffix
build_pattern [] = true
build_pattern (c ∷ s) = nat_beq c b'+' && not (is_empty s) && every is_suffix_char s

-- the prerelease, and what stands behind the patch
unfoldable pub parse_prerelease : Text → Option (List Text)
unfolding build_pattern suffix skip_suffix
parse_prerelease [] = some []
parse_prerelease (c ∷ s) =
    if nat_beq c b'-'
    then if not (is_empty (suffix s)) && build_pattern (skip_suffix s)
      then some (split_on b'.' (suffix s))
      else none
    else if build_pattern (c ∷ s)
    then some []
    else none

unfoldable pub compare_numbers : ℕ → ℕ → Sign
compare_numbers a b = if ltb a b then less else if nat_beq a b then same else greater

-- /^\d+$/
unfoldable pub is_numeric : Text → Bool
is_numeric s = not (is_empty s) && every is_digit s

unfoldable pub compare_item : Collation → Text → Text → Sign
unfolding is_numeric compare_numbers
compare_item c left right =
    if is_numeric left
    then if is_numeric right then compare_numbers (c.number left) (c.number right) else less
    else if is_numeric right
    then greater
    else c.compare left right

unfoldable pub compare_items : Collation → List Text → List Text → Sign
unfolding compare_item
compare_items c [] [] = same
compare_items c [] (right ∷ rights) = less
compare_items c (left ∷ lefts) [] = greater
compare_items c (left ∷ lefts) (right ∷ rights) =
    let rest = compare_items c lefts rights in
    if left == right then rest else compare_item c left right

-- A version with no prerelease comes behind those that have one.
unfoldable pub compare_prerelease : Collation → List Text → List Text → Sign
unfolding compare_items
compare_prerelease c [] [] = same
compare_prerelease c [] (right ∷ rights) = greater
compare_prerelease c (left ∷ lefts) [] = less
compare_prerelease c (left ∷ lefts) (right ∷ rights) =
    compare_items c (left ∷ lefts) (right ∷ rights)

abbrev pub then_by : Sign → Sign → Sign
then_by less next = less
then_by same next = next
then_by greater next = greater

unfoldable pub compare_semver : Collation → Semver → Semver → Sign
unfolding compare_numbers compare_prerelease
compare_semver c a b = then_by (compare_numbers a.major b.major) (
    then_by (compare_numbers a.minor b.minor)
      (then_by (compare_numbers a.patch b.patch) (compare_prerelease c a.prerelease b.prerelease)))

module _ (c : Collation) where
  unfoldable pub parse_patch : ℕ → ℕ → Text → Option Semver
  unfolding digits skip_digits parse_prerelease
  parse_patch major minor s =
      if is_empty (digits s) then none else elim (parse_prerelease (skip_digits s)) [
        | none ↦ none
        | some prerelease ↦ some (record {
          major = major;
          minor = minor;
          patch = c.number (digits s);
          prerelease = prerelease;
        })
      ]

  -- /^(\d+)\.(\d+)\.(\d+)(?:-([0-9A-Za-z.-]+))?(?:\+[0-9A-Za-z.-]+)?$/
  unfoldable pub parse_semver : Text → Option Semver
  unfolding behind digits parse_patch
  parse_semver s = elim (behind b'.' s) [
    | none ↦ none
    | some rest ↦ elim (behind b'.' rest) [
      | none ↦ none
      | some last ↦ parse_patch (c.number (digits s)) (c.number (digits rest)) last
    ]
  ]

  unfoldable pub compare_versions : Text → Text → Sign
  unfolding parse_semver compare_semver
  compare_versions left right = elim (parse_semver left) [
    | none ↦ c.compare left right
    | some a ↦ elim (parse_semver right) [
      | none ↦ c.compare left right
      | some b ↦ compare_semver c a b
    ]
  ]

  compare_numbers-flip : (a b : ℕ) → compare_numbers b a ≡ flip (compare_numbers a b)
  unfolding compare_numbers flip
  compare_numbers-flip a b = ground arith

  compare_item-flip : (s t : Text) → compare_item c t s ≡ flip (compare_item c s t)
  unfolding compare_item flip
  compare_item-flip s t =
      grind (arith, compare_numbers-flip (c.number s) (c.number t), c.compare_flip s t)

  compare_items-flip : (s t : List Text) → compare_items c t s ≡ flip (compare_items c s t)
  unfolding compare_items flip
  compare_items-flip [] [] = refl
  compare_items-flip [] (y ∷ t) = refl
  compare_items-flip (x ∷ s) [] = refl
  compare_items-flip (x ∷ s) (y ∷ t) =
      grind
        (arith, compare_items-flip s t, compare_item-flip x y, text_beq_iff x y, text_beq_iff y x)

  compare_prerelease-flip :
      (s t : List Text) → compare_prerelease c t s ≡ flip (compare_prerelease c s t)
  unfolding compare_prerelease flip
  compare_prerelease-flip [] [] = refl
  compare_prerelease-flip [] (y ∷ t) = refl
  compare_prerelease-flip (x ∷ s) [] = refl
  compare_prerelease-flip (x ∷ s) (y ∷ t) = compare_items-flip (x ∷ s) (y ∷ t)

  flip-then_by : (x y x' y' : Sign) → x' ≡ flip x → y' ≡ flip y → then_by x' y' ≡ flip (then_by x y)
  unfolding flip
  flip-then_by x y x' y' h k = ground arith

  pub compare_semver-flip : (a b : Semver) → compare_semver c b a ≡ flip (compare_semver c a b)
  unfolding compare_semver
  compare_semver-flip a b = flip-then_by _ _ _ _ (compare_numbers-flip a.major b.major) (
      flip-then_by _ _ _ _ (compare_numbers-flip a.minor b.minor) (
        flip-then_by _ _ _ _ (compare_numbers-flip a.patch b.patch)
          (compare_prerelease-flip a.prerelease b.prerelease)))

  -- Two versions exchanged are in the opposite order, whether they follow semantic versioning or not.
  pub compare_versions-flip :
      (left right : Text) → compare_versions right left ≡ flip (compare_versions left right)
  unfolding compare_versions
  compare_versions-flip left right = elim (Option-cases (parse_semver left)) [
    | inl none_left ↦ grind (arith, c.compare_flip left right)
    | inr (a, p) ↦ elim (Option-cases (parse_semver right)) [
      | inl none_right ↦ grind (arith, c.compare_flip left right)
      | inr (b, q) ↦ grind (arith, compare_semver-flip a b)
    ]
  ]
