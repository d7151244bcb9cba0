-- ===== src/Fdn/Tailnet.antt =====
-- The addresses that a node of the policy may have.
use fabushi_backend.Prelude.{
  ℕ, ◌+◌, ◌*◌, ◌≤◌, ◌≡◌, ◌↔◌, true, sym, ap, ◌∙◌, refl, [], ◌∷◌, arith, length,
}
use fabushi_backend.Text.{Text}
use fabushi_backend.Fdn.Snapshot.{Net, octets, address_number, in_range, valid_tailnet_node}

address_number_lem :
    (a b c d : ℕ)
    → a ≤ 255
    → b ≤ 255
    → c ≤ 255
    → d ≤ 255
    → address_number (a ∷ b ∷ c ∷ d ∷ []) ≡ a * 16777216 + b * 65536 + c * 256 + d
unfolding address_number
address_number_lem a b c d ha hb hc hd = omega arith

in_range_iff :
    (a b c d : ℕ)
    → a ≤ 255
    → b ≤ 255
    → c ≤ 255
    → d ≤ 255
    → (in_range (a ∷ b ∷ c ∷ d ∷ []) ≡ true) ↔ ((a ≡ 100) × (64 ≤ b) × (b ≤ 127))
unfolding in_range
in_range_iff a b c d ha hb hc hd = rw (address_number_lem a b c d ha hb hc hd) (ground arith)

-- An IPv4 address is accepted as a node exactly when its text has at most 160 units and it lies in
-- 100.64.0.0/10 by its bytes: the first is 100 and the second has 01 for its top bits.
pub tailnet_ipv4 :
    (net : Net) (s : Text)
    → net.is_ip s ≡ 4
    → (valid_tailnet_node net s ≡ true) ↔ (
        (length s ≤ 160)
        × (b : ℕ) × (c : ℕ) × (d : ℕ) × (octets s ≡ 100 ∷ b ∷ c ∷ d ∷ [])
        × (64 ≤ b)
        × (b ≤ 127))
unfolding valid_tailnet_node
tailnet_ipv4 net s four =
    let (a, b, c, d, is, ha, hb, hc, hd) = net.four_octets s four in
    let range = in_range_iff a b c d ha hb hc hd in
    (
      λ valid.
          let inside : in_range (octets s) ≡ true = ground arith in
          let (first, low, high) = range.0 (sym (ap in_range is) ∙ inside) in
          (ground arith, b, c, d, rw (is, first) refl, low, high),
      λ w.
          let (short, b', c', d', is', low, high) = w in
          let inside : in_range (octets s) ≡ true =
            ap in_range is ∙ range.1 (grind arith, grind arith, grind arith) in
          ground arith,
    )
