-- ===== src/Money/Amounts.antt =====
-- assertMinorAmount, validateTwoPartySplit, allocateTwoPartySplit and adBillableAmount.
use fabushi_backend.Prelude.{
  ℕ, ◌+◌, ◌-◌, ◌*◌, ◌≤◌, ◌<◌, ◌≡◌, Bool, true, false, ◌&&◌, ◌||◌, not, [], ◌∷◌, Option, none, some,
  length, every, leb, ltb, nat_beq, text_Eq, ◌==◌, Result, ok, err, throw_if, ◌>>=◌, ◌>>◌,
  if◌then◌else◌,
}
use Prim.Native.Nat.{◌/◌}
use fabushi_backend.Text.{Text, codes, trim, text_or}
use fabushi_backend.Text.Pattern.{is_digit, is_lower_letter, is_upper_letter}

-- What is thrown.
pub data Error : Type 0 where
  invalid_identifier invalid_amount invalid_currency invalid_split split_out_of_range
        split_not_total :
      Error
  unsupported_event quantity_out_of_range invalid_bid unsupported_model invalid_rule : Error
  not_found not_active outside_window not_billable budget_exhausted batch_failed : Error

-- `Number(value)`, as far as the tests tell values apart.
pub data Number : Type 0 where
  no_integer below_zero : Number
  natural : ℕ → Number

abbrev pub max_safe : ℕ
max_safe = 9007199254740991

-- Sums, products and rounded-down quotients of natural numbers as doubles give them: they are exact
-- up to 2^53-1, and what is larger stays larger.
pub record Doubles : Type 0 where
  pub plus : ℕ → ℕ → ℕ
  pub times : ℕ → ℕ → ℕ
  pub floor_div : ℕ → ℕ → ℕ
  pub plus_exact : (a b : ℕ) → a + b ≤ max_safe → plus a b ≡ a + b
  pub plus_large : (a b : ℕ) → max_safe < a + b → max_safe < plus a b
  pub times_exact : (a b : ℕ) → a * b ≤ max_safe → times a b ≡ a * b
  pub floor_div_exact : (a d : ℕ) → a ≤ max_safe → d ≤ 10000 → floor_div a d ≡ a / d

-- [A-Za-z0-9], and the same with [._:@/-]
abbrev pub is_name_start : ℕ → Bool
is_name_start c = is_digit c || is_lower_letter c || is_upper_letter c

abbrev pub is_name_unit : ℕ → Bool
is_name_unit c =
    is_name_start c
    || nat_beq c b'.'
    || nat_beq c b'_'
    || nat_beq c b':'
    || nat_beq c b'@'
    || nat_beq c b'/'
    || nat_beq c b'-'

unfoldable pub identifier_pattern : Text → Bool
identifier_pattern [] = false
identifier_pattern (c ∷ s) = is_name_start c && every is_name_unit s && leb (length s) 159

unfoldable pub assert_identifier : Option Text → Result Error Text
unfolding identifier_pattern
assert_identifier value = do
  throw_if (not (identifier_pattern (trim (text_or value [])))) invalid_identifier
  ok (trim (text_or value []))

unfoldable pub assert_minor_amount : Number → Error → Result Error ℕ
assert_minor_amount (natural n) e = do throw_if (not (leb n max_safe && ltb 0 n)) e; ok n
assert_minor_amount value e = err e

-- A platform's and a developer's basis points.
pub record Split : Type 0 where
  pub platform_bps : ℕ
  pub developer_bps : ℕ

unfoldable pub bps : Number → Result Error ℕ
bps no_integer = err invalid_split
bps below_zero = err split_out_of_range
bps (natural n) = do throw_if (ltb 10000 n) split_out_of_range; ok n

-- The type of both is tested before the range of either.
abbrev pub is_integer : Number → Bool
is_integer no_integer = false
is_integer n = true

unfoldable pub validate_two_party_split : Number → Number → Result Error Split
unfolding bps
validate_two_party_split platform developer = do
  throw_if (not (is_integer platform && is_integer developer)) invalid_split
  p ← bps platform
  d ← bps developer
  throw_if (not (nat_beq (p + d) 10000)) split_not_total
  ok (record { platform_bps = p; developer_bps = d })

-- What the platform and the developer get; a share above the gross amount, which only an inexact product
-- could give, leaves the developer 0 here and less than 0 in the source.
pub record Shares : Type 0 where
  pub gross_amount : ℕ
  pub platform_amount : ℕ
  pub developer_amount : ℕ

unfoldable pub allocate_two_party_split : Doubles → Number → Number → Number → Result Error Shares
unfolding assert_minor_amount validate_two_party_split
allocate_two_party_split num gross platform developer = do
  g ← assert_minor_amount gross invalid_amount
  split ← validate_two_party_split platform developer
  let share = num.floor_div (num.times g split.platform_bps) 10000
  ok (record { gross_amount = g; platform_amount = share; developer_amount = g - share })

pub data AdType : Type 0 where
  impression click conversion rewarded : AdType

-- AD_EVENT_TYPES
unfoldable pub ad_type : Text → Option AdType
ad_type s =
    if s == codes "impression"
    then some impression
    else if s == codes "click"
    then some click
    else if s == codes "conversion"
    then some conversion
    else if s == codes "rewarded"
    then some rewarded
    else none

pub data Model : Type 0 where
  cpm cpc cpa for_reward unknown_model : Model

-- The `switch` on the model of the campaign.
unfoldable pub model_amount : Doubles → Model → AdType → ℕ → ℕ → Result Error ℕ
model_amount num cpm impression amount count = ok (num.floor_div (num.times amount count) 1000)
model_amount num cpc click amount count = ok (num.times amount count)
model_amount num cpa conversion amount count = ok (num.times amount count)
model_amount num for_reward rewarded amount count = ok (num.times amount count)
model_amount num unknown_model event amount count = err unsupported_model
model_amount num model event amount count = ok 0

unfoldable pub quantity_of : Number → Result Error ℕ
quantity_of (natural n) = do throw_if (not (ltb 0 n && leb n 1000)) quantity_out_of_range; ok n
quantity_of value = err quantity_out_of_range

unfoldable pub ad_billable_amount : Doubles → Model → Number → AdType → Number → Result Error ℕ
unfolding assert_minor_amount quantity_of model_amount
ad_billable_amount num model bid event quantity = do
  amount ← assert_minor_amount bid invalid_bid
  count ← quantity_of quantity
  model_amount num model event amount count
