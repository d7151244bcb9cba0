-- ===== src/Fdn/Broker/Addresses.antt =====
-- `ipv4Number`, `isCgnat`, `expandIpv6`, `isTailscaleUla` and `selectNodeAddress`.
use fabushi_backend.Prelude.{
  ℕ, zero, suc, ◌+◌, ◌-◌, ◌*◌, ◌^◌, Bool, false, ◌&&◌, ◌||◌, not, List, [], ◌∷◌, ◌++◌, Option, none,
  some, map, filter, length, every, leb, nat_beq, Result, ok, err, or_throw, ◌>>=◌, if◌then◌else◌,
}
use Prim.Native.Nat.{◌%◌}
use fabushi_backend.Text.{Text, is_empty}
use fabushi_backend.Text.Split.{split_on}
use fabushi_backend.Text.Pattern.{is_digit}
use fabushi_backend.Fdn.Snapshot.{number_of, lower_unit}
use fabushi_backend.Fdn.Broker.Rows.{Error, node_address_invalid}
use fabushi_backend.Fdn.Broker.Names.{bounded_text}

-- /^\d{1,3}$/ and at most 255
unfoldable pub is_octet : Text → Bool
unfolding number_of
is_octet s = leb 1 (length s) && leb (length s) 3 && every is_digit s && leb (number_of 0 s) 255

unfoldable pub four_parts : List Text → Option ℕ
unfolding is_octet number_of
four_parts (a ∷ b ∷ c ∷ d ∷ []) =
    if is_octet a && is_octet b && is_octet c && is_octet d
    then some (
        (((number_of 0 a * 256 + number_of 0 b) * 256 + number_of 0 c) * 256 + number_of 0 d)
        % 2 ^ 32)
    else none
four_parts parts = none

unfoldable pub ipv4_number : Text → Option ℕ
unfolding split_on four_parts
ipv4_number s = four_parts (split_on b'.' s)

-- `ipv4Number("100.64.0.0")` and `ipv4Number("100.127.255.255")`
abbrev pub cgnat_start : ℕ
cgnat_start = ((100 * 256 + 64) * 256 + 0) * 256 + 0

abbrev pub cgnat_end : ℕ
cgnat_end = ((100 * 256 + 127) * 256 + 255) * 256 + 255

unfoldable pub is_cgnat : Text → Bool
unfolding ipv4_number
is_cgnat s = elim (ipv4_number s) [ none ↦ false | some n ↦ leb cgnat_start n && leb n cgnat_end ]

-- The text before the first `::`, and the text behind it if there is one.
unfoldable pub before_double : Text → Text
before_double [] = []
before_double (c ∷ []) = c ∷ []
before_double (c ∷ d ∷ s) =
    let rest = before_double (d ∷ s) in if nat_beq c b':' && nat_beq d b':' then [] else c ∷ rest

unfoldable pub behind_double : Text → Option Text
behind_double [] = none
behind_double (c ∷ []) = none
behind_double (c ∷ d ∷ s) =
    let rest = behind_double (d ∷ s) in if nat_beq c b':' && nat_beq d b':' then some s else rest

-- `raw ? raw.split(":") : []`
unfoldable pub groups : Text → List Text
unfolding split_on
groups [] = []
groups (c ∷ s) = split_on b':' (c ∷ s)

-- [0-9a-f]
abbrev pub is_hex : ℕ → Bool
is_hex c = is_digit c || (leb b'a' c && leb c b'f')

abbrev pub hex_value : ℕ → ℕ
hex_value c = if is_digit c then c - 48 else c - 87

-- `Number.parseInt(word, 16)`
unfoldable pub hex_number : ℕ → Text → ℕ
hex_number acc [] = acc
hex_number acc (c ∷ s) = hex_number (acc * 16 + hex_value c) s

-- /^[0-9a-f]{1,4}$/
unfoldable pub is_group : Text → Bool
is_group s = leb 1 (length s) && leb (length s) 4 && every is_hex s

abbrev pub zero_groups : ℕ → List Text
zero_groups zero = []
zero_groups (suc n) = (b'0' ∷ []) ∷ zero_groups n

-- the groups of an address that is in lower case
unfoldable pub expand_groups : Text → Option (List Text)
unfolding groups before_double behind_double
expand_groups s = elim (behind_double s) [
  | none ↦
      if nat_beq (length (groups (before_double s))) 8
      then some (groups (before_double s))
      else none
  | some rest ↦
      if leb (length (groups (before_double s)) + length (groups (before_double rest))) 8
      then some (
          groups (before_double s)
          ++ zero_groups
              (8 - (length (groups (before_double s)) + length (groups (before_double rest))))
          ++ groups (before_double rest))
      else none
]

-- `expandIpv6`, of a value that `isIP` calls 6
unfoldable pub expand_ipv6 : (Text → ℕ) → Text → Option (List ℕ)
unfolding expand_groups is_group hex_number
expand_ipv6 is_ip s =
    if nat_beq (is_ip s) 6
    then elim (expand_groups (map lower_unit s)) [
      | none ↦ none
      | some words ↦ if every is_group words then some (map (hex_number 0) words) else none
    ]
    else none

abbrev pub is_ula : List ℕ → Bool
is_ula (a ∷ b ∷ c ∷ rest) = nat_beq a 0xfd7a && nat_beq b 0x115c && nat_beq c 0xa1e0
is_ula words = false

unfoldable pub is_tailscale_ula : (Text → ℕ) → Text → Bool
unfolding expand_ipv6
is_tailscale_ula is_ip s = elim (expand_ipv6 is_ip s) [ none ↦ false | some words ↦ is_ula words ]

-- `Array.prototype.find`
abbrev pub find {ℓ} : {A : Type ℓ} → (A → Bool) → List A → Option A
find p [] = none
find p (x ∷ xs) = let rest = find p xs in if p x then some x else rest

abbrev pub is_filled : Text → Bool
is_filled s = not (is_empty s)

abbrev pub address_text : Option Text → Text
address_text item = bounded_text item 128

unfoldable pub is_trusted_v4 : (Text → ℕ) → Text → Bool
unfolding is_cgnat
is_trusted_v4 is_ip s = nat_beq (is_ip s) 4 && is_cgnat s

unfoldable pub select_node_address : (Text → ℕ) → Option (List (Option Text)) → Result Error Text
unfolding is_trusted_v4 is_tailscale_ula bounded_text
select_node_address is_ip addresses = do
  items ← or_throw addresses node_address_invalid
  let clean = filter is_filled (map address_text items)
  elim (find (is_trusted_v4 is_ip) clean) [
    | some v4 ↦ ok v4
    | none ↦ elim (find (is_tailscale_ula is_ip) clean) [
      | some v6 ↦ ok (map lower_unit v6)
      | none ↦ err node_address_invalid
    ]
  ]
