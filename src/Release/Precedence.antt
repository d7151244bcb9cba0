-- ===== src/Release/Precedence.antt =====
-- The precedence of semantic versions, apart from the code that compares them.
use fabushi_backend.Prelude.{
  ◌≤◌, ◌<◌, ◌≡◌, ◌≢◌, ◌↔◌, refl, true, false, List, [], ◌∷◌, some, arith, Bool-cases, text_Eq,
  text_beq_iff, ◌==◌, ltb, every, inl, inr,
}
use fabushi_backend.Text.{Text, is_empty}
use fabushi_backend.Text.Pattern.{is_digit}
use fabushi_backend.Release.Versions.{
  less, greater, flip, Collation, Semver, compare_numbers, is_numeric, compare_item, compare_items,
  compare_prerelease, compare_semver, parse_semver, compare_versions, compare_semver-flip,
}

abbrev pub OfDigits : Text → Type 0
OfDigits [] = Unit {0}
OfDigits (c ∷ s) = (b'0' ≤ c) × (c ≤ b'9') × OfDigits s

abbrev pub IsNumber : Text → Type 0
IsNumber s = (s ≢ []) × OfDigits s

every-OfDigits : (s : Text) → every is_digit s ≡ true ↔ OfDigits s
every-OfDigits [] = (λ e. tt, λ d. refl)
every-OfDigits (c ∷ s) =
    let (there, back) = every-OfDigits s in
    (
      λ e. (ground arith, ground arith, there (ground arith)),
      λ d. let rest = back d.2 in ground arith,
    )

is_numeric-IsNumber : (s : Text) → is_numeric s ≡ true ↔ IsNumber s
unfolding is_numeric is_empty
is_numeric-IsNumber [] = (λ e. absurd (ground arith), λ n. absurd (n.0 refl))
is_numeric-IsNumber (c ∷ s) =
    let (there, back) = every-OfDigits (c ∷ s) in
    (λ e. (λ is. ground arith, there (ground arith)), λ n. let all = back n.1 in ground arith)

is_numeric-not-IsNumber : (s : Text) → is_numeric s ≡ false ↔ (¬ IsNumber s)
is_numeric-not-IsNumber s =
    let (there, back) = is_numeric-IsNumber s in
    (
      λ e n. let is = back n in ground arith,
      λ no_number. elim (Bool-cases (is_numeric s)) [
        | inl numeric ↦ absurd (no_number (there numeric))
        | inr text ↦ text
      ],
    )

module _ (c : Collation) where
  -- Of two identifiers, by their numbers where both are numbers, else a number first.
  pub data ItemBelow : Text → Text → Type 0 where
    by_number : {x y : Text} → IsNumber x → IsNumber y → c.number x < c.number y → ItemBelow x y
    number_first : {x y : Text} → IsNumber x → ¬ IsNumber y → ItemBelow x y
    by_text : {x y : Text} → ¬ IsNumber x → ¬ IsNumber y → c.compare x y ≡ less → ItemBelow x y

  -- Of two lists of identifiers, by the first that differ, else the shorter.
  pub data ItemsBelow : List Text → List Text → Type 0 where
    shorter : {y : Text} {ys : List Text} → ItemsBelow [] (y ∷ ys)
    differ : {x y : Text} {xs ys : List Text} → x ≢ y → ItemBelow x y → ItemsBelow (x ∷ xs) (y ∷ ys)
    agree :
        {x y : Text} {xs ys : List Text} → x ≡ y → ItemsBelow xs ys → ItemsBelow (x ∷ xs) (y ∷ ys)

  -- A prerelease comes before the release.
  pub data EarlierStage : List Text → List Text → Type 0 where
    unreleased : {x : Text} {xs : List Text} → EarlierStage (x ∷ xs) []
    by_items :
        {x y : Text} {xs ys : List Text}
        → ItemsBelow (x ∷ xs) (y ∷ ys)
        → EarlierStage (x ∷ xs) (y ∷ ys)

  pub data Precedes : Semver → Semver → Type 0 where
    by_major : {a b : Semver} → a.major < b.major → Precedes a b
    by_minor : {a b : Semver} → a.major ≡ b.major → a.minor < b.minor → Precedes a b
    by_patch :
        {a b : Semver} → a.major ≡ b.major → a.minor ≡ b.minor → a.patch < b.patch → Precedes a b
    by_stage :
        {a b : Semver}
        → a.major ≡ b.major
        → a.minor ≡ b.minor
        → a.patch ≡ b.patch
        → EarlierStage a.prerelease b.prerelease
        → Precedes a b

  compare_item-ItemBelow : (x y : Text) → compare_item c x y ≡ less → ItemBelow x y
  unfolding compare_item compare_numbers
  compare_item-ItemBelow x y e =
      let (number_x, _) = is_numeric-IsNumber x in
      let (number_y, _) = is_numeric-IsNumber y in
      let (text_x, _) = is_numeric-not-IsNumber x in
      let (text_y, _) = is_numeric-not-IsNumber y in
      elim (Bool-cases (is_numeric x)) [
        | inl numeric ↦ elim (Bool-cases (is_numeric y)) [
          | inl both ↦ by_number (number_x numeric) (number_y both) (ground arith)
          | inr text ↦ number_first (number_x numeric) (text_y text)
        ]
        | inr text ↦ elim (Bool-cases (is_numeric y)) [
          | inl number ↦ absurd (ground arith)
          | inr both ↦ by_text (text_x text) (text_y both) (ground arith)
        ]
      ]

  ItemBelow-compare_item : {x y : Text} → ItemBelow x y → compare_item c x y ≡ less
  unfolding compare_item compare_numbers
  ItemBelow-compare_item (by_number {x} {y} p q r) =
      let p' = (is_numeric-IsNumber x).1 p in let q' = (is_numeric-IsNumber y).1 q in ground arith
  ItemBelow-compare_item (number_first {x} {y} p q) =
      let p' = (is_numeric-IsNumber x).1 p in
      let q' = (is_numeric-not-IsNumber y).1 q in ground arith
  ItemBelow-compare_item (by_text {x} {y} p q r) =
      let p' = (is_numeric-not-IsNumber x).1 p in
      let q' = (is_numeric-not-IsNumber y).1 q in ground arith

  compare_items-ItemsBelow : (xs ys : List Text) → compare_items c xs ys ≡ less → ItemsBelow xs ys
  unfolding compare_items
  compare_items-ItemsBelow [] [] e = absurd (ground arith)
  compare_items-ItemsBelow [] (y ∷ ys) e = shorter
  compare_items-ItemsBelow (x ∷ xs) [] e = absurd (ground arith)
  compare_items-ItemsBelow (x ∷ xs) (y ∷ ys) e = elim (Bool-cases (x == y)) [
    | inl alike ↦ agree ((text_beq_iff x y).0 alike) (compare_items-ItemsBelow xs ys (ground arith))
    | inr differs ↦
        differ (λ is. ground (arith, text_beq_iff x y)) (compare_item-ItemBelow x y (ground arith))
  ]

  ItemsBelow-compare_items : {xs ys : List Text} → ItemsBelow xs ys → compare_items c xs ys ≡ less
  unfolding compare_items
  ItemsBelow-compare_items shorter = refl
  ItemsBelow-compare_items (differ {x} {y} unlike below) =
      grind (arith, text_beq_iff x y, ItemBelow-compare_item below)
  ItemsBelow-compare_items (agree {x} {y} is below) =
      ground (arith, (text_beq_iff x y).1 is, ItemsBelow-compare_items below)

  compare_prerelease-EarlierStage :
      (xs ys : List Text) → compare_prerelease c xs ys ≡ less → EarlierStage xs ys
  unfolding compare_prerelease
  compare_prerelease-EarlierStage [] [] e = absurd (ground arith)
  compare_prerelease-EarlierStage [] (y ∷ ys) e = absurd (ground arith)
  compare_prerelease-EarlierStage (x ∷ xs) [] e = unreleased
  compare_prerelease-EarlierStage (x ∷ xs) (y ∷ ys) e =
      by_items (compare_items-ItemsBelow (x ∷ xs) (y ∷ ys) e)

  EarlierStage-compare_prerelease :
      {xs ys : List Text} → EarlierStage xs ys → compare_prerelease c xs ys ≡ less
  unfolding compare_prerelease
  EarlierStage-compare_prerelease unreleased = refl
  EarlierStage-compare_prerelease (by_items below) = ItemsBelow-compare_items below

  compare_semver-Precedes : (a b : Semver) → compare_semver c a b ≡ less → Precedes a b
  unfolding compare_semver compare_numbers
  compare_semver-Precedes a b e = elim (Bool-cases (ltb a.major b.major)) [
    | inl lt ↦ by_major (ground arith)
    | inr ge ↦ elim (Bool-cases (ltb a.minor b.minor)) [
      | inl lt ↦ by_minor (ground arith) (ground arith)
      | inr ge' ↦ elim (Bool-cases (ltb a.patch b.patch)) [
        | inl lt ↦ by_patch (ground arith) (ground arith) (ground arith)
        | inr ge'' ↦
            by_stage (ground arith) (ground arith) (ground arith)
              (compare_prerelease-EarlierStage a.prerelease b.prerelease (ground arith))
      ]
    ]
  ]

  Precedes-compare_semver : {a b : Semver} → Precedes a b → compare_semver c a b ≡ less
  unfolding compare_semver compare_numbers
  Precedes-compare_semver (by_major p) = ground arith
  Precedes-compare_semver (by_minor p q) = ground arith
  Precedes-compare_semver (by_patch p q r) = ground arith
  Precedes-compare_semver (by_stage p q r stage) =
      ground (arith, EarlierStage-compare_prerelease stage)

  -- The order of two texts that are parsed is the precedence of the versions they are parsed to.
  pub compare_parsed-Precedes :
      (left right : Text) (a b : Semver)
      → parse_semver c left ≡ some a
      → parse_semver c right ≡ some b
      → (compare_versions c left right ≡ less ↔ Precedes a b)
        × (compare_versions c left right ≡ greater ↔ Precedes b a)
  unfolding compare_versions flip
  compare_parsed-Precedes left right a b p q =
      let is : compare_versions c left right ≡ compare_semver c a b = ground arith in
      let back = compare_semver-flip c a b in
      rw is (
        (λ e. compare_semver-Precedes a b e, λ r. Precedes-compare_semver r),
        (
          λ e. compare_semver-Precedes b a (ground arith),
          λ r. grind (arith, Precedes-compare_semver r),
        ),
      )
