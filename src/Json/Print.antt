-- ===== src/Json/Print.antt =====
-- `JSON.stringify`: no white space, the escapes of quotes, backslashes and control characters, and
-- of surrogates that have no partner.
use Prim.Native.Nat.{◌/◌, ◌%◌}
use fabushi_backend.Prelude.{
  ℕ, ◌+◌, true, false, ◌&&◌, ◌||◌, [], ◌∷◌, ◌++◌, ltb, leb, nat_beq, if◌then◌else◌,
}
use fabushi_backend.Text.{Text, codes}
use fabushi_backend.Text.Decimal.{decimal}
use fabushi_backend.Json.{
  Json, Items, Fields, text, number, flag, null, arr, obj, nil, cons, end, field,
}

hex_unit : ℕ → ℕ
hex_unit d = if ltb d 10 then 48 + d else 87 + d

-- `\u` and four digits
unicode_escape : ℕ → Text
unfolding hex_unit
unicode_escape c =
    0x5c
    ∷ b'u'
    ∷ hex_unit (c / 4096)
    ∷ hex_unit (c / 256 % 16)
    ∷ hex_unit (c / 16 % 16)
    ∷ hex_unit (c % 16)
    ∷ []

-- a code unit with no partner
escape_unit : ℕ → Text
unfolding unicode_escape
escape_unit c =
    if nat_beq c 0x22 || nat_beq c 0x5c
    then 0x5c ∷ c ∷ []
    else if nat_beq c 8
    then 0x5c ∷ b'b' ∷ []
    else if nat_beq c 9
    then 0x5c ∷ b't' ∷ []
    else if nat_beq c 10
    then 0x5c ∷ b'n' ∷ []
    else if nat_beq c 12
    then 0x5c ∷ b'f' ∷ []
    else if nat_beq c 13
    then 0x5c ∷ b'r' ∷ []
    else if ltb c 32 || (leb 0xd800 c && leb c 0xdfff)
    then unicode_escape c
    else c ∷ []

escape : Text → Text
unfolding escape_unit
escape [] = []
escape (c ∷ []) = escape_unit c
escape (c ∷ d ∷ s) =
    let paired = c ∷ d ∷ escape s in
    let alone = escape_unit c ++ escape (d ∷ s) in
    if leb 0xd800 c && leb c 0xdbff && leb 0xdc00 d && leb d 0xdfff then paired else alone

unfoldable pub quoted : Text → Text
unfolding escape
quoted s = 0x22 ∷ (escape s ++ 0x22 ∷ [])

unfoldable mutual
  unfolding quoted

  pub stringify : Json → Text
  stringify (text s) = quoted s
  stringify (number n) = decimal n
  stringify (flag true) = codes "true"
  stringify (flag false) = codes "false"
  stringify null = codes "null"
  stringify (arr items) = b'[' ∷ stringify_items items
  stringify (obj fields) = b'{' ∷ stringify_fields fields

  -- the items and the closing bracket
  pub stringify_items : Items → Text
  stringify_items nil = b']' ∷ []
  stringify_items (cons v nil) = stringify v ++ b']' ∷ []
  stringify_items (cons v (cons w rest)) = stringify v ++ b',' ∷ stringify_items (cons w rest)

  pub stringify_fields : Fields → Text
  stringify_fields end = b'}' ∷ []
  stringify_fields (field k v end) = quoted k ++ b':' ∷ (stringify v ++ b'}' ∷ [])
  stringify_fields (field k v (field j w rest)) =
      quoted k ++ b':' ∷ (stringify v ++ b',' ∷ stringify_fields (field j w rest))
