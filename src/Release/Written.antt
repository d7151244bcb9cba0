-- ===== src/Release/Written.antt =====
-- The texts of semantic versions, apart from the code that parses them.
use fabushi_backend.Prelude.{
  ℕ, ◌≤◌, ◌≡◌, ◌↔◌, ◌≢◌, ◌⊎◌, ◌++◌, refl, ap, ◌∙◌, true, false, List, [], ◌∷◌, some, arith, every,
}
use fabushi_backend.Text.{Text, is_empty}
use fabushi_backend.Text.Pattern.{is_digit, is_suffix_char, skip_digits}
use fabushi_backend.Text.Split.{split_on}
use fabushi_backend.Release.Versions.{
  Collation, Semver, digits, suffix, skip_suffix, behind, build_pattern, parse_prerelease,
  parse_patch, parse_semver, compare_versions, less, greater,
}
use fabushi_backend.Release.Precedence.{OfDigits, IsNumber, Precedes, compare_parsed-Precedes}

abbrev pub InSuffix : ℕ → Type 0
InSuffix c =
    ((b'0' ≤ c) × (c ≤ b'9'))
    ⊎ ((b'a' ≤ c) × (c ≤ b'z'))
    ⊎ ((b'A' ≤ c) × (c ≤ b'Z'))
    ⊎ (c ≡ b'.')
    ⊎ (c ≡ b'-')

abbrev pub OfSuffix : Text → Type 0
OfSuffix [] = Unit {0}
OfSuffix (c ∷ s) = InSuffix c × OfSuffix s

pub data IsBuild : Text → Type 0 where
  no_build : IsBuild []
  build : {s : Text} → s ≢ [] → OfSuffix s → IsBuild (b'+' ∷ s)

-- What stands behind the patch, and the identifiers of the prerelease.
pub data Ends : Text → List Text → Type 0 where
  released : {b : Text} → IsBuild b → Ends b []
  staged : {s b : Text} → s ≢ [] → OfSuffix s → IsBuild b → Ends (b'-' ∷ (s ++ b)) (split_on b'.' s)

-- Three numbers with dots between them, and an end.
pub data Writes (c : Collation) : Text → Semver → Type 0 where
  writes :
      {major minor patch last : Text} {prerelease : List Text}
      → IsNumber major
      → IsNumber minor
      → IsNumber patch
      → Ends last prerelease
      → Writes c (major ++ b'.' ∷ (minor ++ b'.' ∷ (patch ++ last))) (record {
        major = c.number major;
        minor = c.number minor;
        patch = c.number patch;
        prerelease = prerelease;
      })

abbrev EndsDigits : Text → Type 0
EndsDigits [] = Unit {0}
EndsDigits (c ∷ s) = (is_digit c ≡ false)

digits-OfDigits : (m r : Text) → OfDigits m → EndsDigits r → digits (m ++ r) ≡ m
unfolding digits
digits-OfDigits [] [] d e = refl
digits-OfDigits [] (c ∷ r) d e = rw e refl
digits-OfDigits (c ∷ m) r d e =
    let rest = digits-OfDigits m r d.2 e in
    let is : is_digit c ≡ true = ground arith in rw (is, rest) refl

skip_digits-OfDigits : (m r : Text) → OfDigits m → EndsDigits r → skip_digits (m ++ r) ≡ r
unfolding skip_digits
skip_digits-OfDigits [] [] d e = refl
skip_digits-OfDigits [] (c ∷ r) d e = rw e refl
skip_digits-OfDigits (c ∷ m) r d e =
    let is : is_digit c ≡ true = ground arith in rw is (skip_digits-OfDigits m r d.2 e)

is_empty-IsNumber : (m : Text) → IsNumber m → is_empty m ≡ false
unfolding is_empty
is_empty-IsNumber [] n = absurd (n.0 refl)
is_empty-IsNumber (c ∷ m) n = refl

behind-IsNumber : (m r : Text) → IsNumber m → behind b'.' (m ++ b'.' ∷ r) ≡ some r
unfolding behind
behind-IsNumber m r n =
    rw
      (
        digits-OfDigits m (b'.' ∷ r) n.1 refl,
        skip_digits-OfDigits m (b'.' ∷ r) n.1 refl,
        is_empty-IsNumber m n,
      )
      refl

every-OfSuffix : (s : Text) → OfSuffix s → every is_suffix_char s ≡ true
unfolding is_suffix_char
every-OfSuffix [] o = refl
every-OfSuffix (c ∷ s) o = let rest = every-OfSuffix s o.1 in ground arith

suffix-OfSuffix : (s b : Text) → OfSuffix s → IsBuild b → suffix (s ++ b) ≡ s
unfolding suffix is_suffix_char
suffix-OfSuffix [] [] o no_build = refl
suffix-OfSuffix [] (c ∷ b) o (build n p) = refl
suffix-OfSuffix (c ∷ s) b o i =
    let rest = suffix-OfSuffix s b o.1 i in
    let is : is_suffix_char c ≡ true = ground arith in rw (is, rest) refl

skip_suffix-OfSuffix : (s b : Text) → OfSuffix s → IsBuild b → skip_suffix (s ++ b) ≡ b
unfolding skip_suffix is_suffix_char
skip_suffix-OfSuffix [] [] o no_build = refl
skip_suffix-OfSuffix [] (c ∷ b) o (build n p) = refl
skip_suffix-OfSuffix (c ∷ s) b o i =
    let is : is_suffix_char c ≡ true = ground arith in rw is (skip_suffix-OfSuffix s b o.1 i)

filled : (s : Text) → s ≢ [] → is_empty s ≡ false
unfolding is_empty
filled [] n = absurd (n refl)
filled (c ∷ s) n = refl

build_pattern-IsBuild : (b : Text) → IsBuild b → build_pattern b ≡ true
unfolding build_pattern
build_pattern-IsBuild [] no_build = refl
build_pattern-IsBuild (c ∷ s) (build n o) = rw (filled s n, every-OfSuffix s o) refl

parse_prerelease-Ends : {t : Text} {p : List Text} → Ends t p → parse_prerelease t ≡ some p
unfolding parse_prerelease
parse_prerelease-Ends (released no_build) = refl
parse_prerelease-Ends (released (build {s} n o)) =
    rw (build_pattern-IsBuild (b'+' ∷ s) (build n o)) refl
parse_prerelease-Ends (staged {s} {b} n o i) =
    rw
      (suffix-OfSuffix s b o i, skip_suffix-OfSuffix s b o i, filled s n, build_pattern-IsBuild b i)
      refl

Ends-EndsDigits : {t : Text} {p : List Text} → Ends t p → EndsDigits t
Ends-EndsDigits (released no_build) = tt
Ends-EndsDigits (released (build n o)) = refl
Ends-EndsDigits (staged n o i) = refl

module _ (c : Collation) where
  parse_patch_lem :
      (major minor : ℕ) (s m : Text) (prerelease : List Text)
      → digits s ≡ m
      → is_empty m ≡ false
      → parse_prerelease (skip_digits s) ≡ some prerelease
      → parse_patch c major minor s
        ≡ some
            (record { major = major; minor = minor; patch = c.number m; prerelease = prerelease })
  unfolding parse_patch
  parse_patch_lem major minor s m prerelease is full end = ground arith

  parse_patch-Ends :
      (major minor : ℕ) (patch last : Text) (prerelease : List Text)
      → IsNumber patch
      → Ends last prerelease
      → parse_patch c major minor (patch ++ last)
        ≡ some (record {
          major = major;
          minor = minor;
          patch = c.number patch;
          prerelease = prerelease;
        })
  parse_patch-Ends major minor patch last prerelease n e =
      parse_patch_lem major minor (patch ++ last) patch prerelease
        (digits-OfDigits patch last n.1 (Ends-EndsDigits e)) (is_empty-IsNumber patch n)
        (ap parse_prerelease (skip_digits-OfDigits patch last n.1 (Ends-EndsDigits e))
          ∙ parse_prerelease-Ends e)

  parse_semver_lem :
      (s rest last m n : Text)
      → behind b'.' s ≡ some rest
      → behind b'.' rest ≡ some last
      → digits s ≡ m
      → digits rest ≡ n
      → parse_semver c s ≡ parse_patch c (c.number m) (c.number n) last
  unfolding parse_semver
  parse_semver_lem s rest last m n first second is is' = ground arith

  -- A text that writes a version is parsed to it.
  parse_semver-Writes : (s : Text) (v : Semver) → Writes c s v → parse_semver c s ≡ some v
  parse_semver-Writes s v (writes {major} {minor} {patch} {last} {prerelease} p q r e) =
      let after_major = minor ++ b'.' ∷ (patch ++ last) in
      parse_semver_lem (major ++ b'.' ∷ after_major) after_major (patch ++ last) major minor
        (behind-IsNumber major after_major p) (behind-IsNumber minor (patch ++ last) q)
        (digits-OfDigits major (b'.' ∷ after_major) p.1 refl)
        (digits-OfDigits minor (b'.' ∷ (patch ++ last)) q.1 refl)
      ∙ parse_patch-Ends (c.number major) (c.number minor) patch last prerelease r e

-- Of two texts that write semantic versions, the first is compared as less exactly when it precedes
-- the second, and as greater exactly when the second precedes it: by major, minor and patch, then a
-- prerelease before the release, then by the identifiers of the prereleases.
pub compare_versions-Precedes :
    (c : Collation) (left right : Text) (a b : Semver)
    → Writes c left a
    → Writes c right b
    → (compare_versions c left right ≡ less ↔ Precedes c a b)
      × (compare_versions c left right ≡ greater ↔ Precedes c b a)
compare_versions-Precedes c left right a b p q =
    compare_parsed-Precedes c left right a b (parse_semver-Writes c left a p)
      (parse_semver-Writes c right b q)
