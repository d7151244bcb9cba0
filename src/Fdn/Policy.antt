-- ===== src/Fdn/Policy.antt =====
-- The snapshots that are accepted, and the policy that is built from them.
use fabushi_backend.Fdn.Live.{
  Each, InTailnet, IsLive, valid_tailnet_node-InTailnet, valid_binding-IsLive, every-Each,
}
use fabushi_backend.Prelude.{
  ℕ, suc, ◌≤◌, ◌≡◌, refl, ap, ◌∙◌, inl, inr, Bool, true, false, ◌&&◌, ◌||◌, not, List, [], ◌∷◌,
  Option, none, some, map, length, every, arith, Bool-cases, Option-cases, Result-cases, text_Eq,
  text_beq_iff, ◌==◌, ok,
}
use fabushi_backend.Text.{Text, has}
use fabushi_backend.Fdn.Snapshot.{
  Net, Row, Binding, Snapshot, Grant, read_binding, valid_binding, check_rows, insert_by_node,
  sort_by_node, validate_cell_snapshot, add_text, valid_tailnet_node, build_headscale_policy,
  node_of, max_bindings,
}

-- No two have the same node.
unfoldable pub distinct_nodes : List Binding → Bool
distinct_nodes [] = true
distinct_nodes (b ∷ rest) = not (has (map node_of rest) b.node_id) && distinct_nodes rest

abbrev pub is_of : Text → Binding → Bool
is_of user b = b.user_id == user

module _ (net : Net) where
  every-insert :
      (p : Binding → Bool) (b : Binding) (cs : List Binding)
      → every p (insert_by_node net b cs) ≡ (p b && every p cs)
  unfolding insert_by_node
  every-insert p b [] = refl
  every-insert p b (c ∷ cs) = ground (arith, every-insert p b cs)

  -- The order does not matter to a test of each.
  every-sort_by_node :
      (p : Binding → Bool) (bs : List Binding) → every p (sort_by_node net bs) ≡ every p bs
  unfolding sort_by_node
  every-sort_by_node p [] = refl
  every-sort_by_node p (b ∷ bs) =
      every-insert p b (sort_by_node net bs) ∙ ap (λ r. p b && r) (every-sort_by_node p bs)

  has-insert :
      (s : Text) (b : Binding) (cs : List Binding)
      → has (map node_of (insert_by_node net b cs)) s ≡ ((b.node_id == s) || has (map node_of cs) s)
  unfolding insert_by_node has
  has-insert s b [] = refl
  has-insert s b (c ∷ cs) = ground (arith, has-insert s b cs)

  distinct-insert :
      (b : Binding) (cs : List Binding)
      → distinct_nodes (insert_by_node net b cs) ≡ distinct_nodes (b ∷ cs)
  unfolding insert_by_node distinct_nodes has
  distinct-insert b [] = refl
  distinct-insert b (c ∷ cs) = grind (
    arith,
    distinct-insert b cs,
    has-insert c.node_id b cs,
    text_beq_iff b.node_id c.node_id,
    text_beq_iff c.node_id b.node_id,
  )

  has-sort :
      (s : Text) (bs : List Binding)
      → has (map node_of (sort_by_node net bs)) s ≡ has (map node_of bs) s
  unfolding sort_by_node has
  has-sort s [] = refl
  has-sort s (b ∷ bs) = grind (arith, has-insert s b (sort_by_node net bs), has-sort s bs)

  distinct-sort : (bs : List Binding) → distinct_nodes (sort_by_node net bs) ≡ distinct_nodes bs
  unfolding sort_by_node distinct_nodes
  distinct-sort [] = refl
  distinct-sort (b ∷ bs) =
      grind
        (arith, distinct-insert b (sort_by_node net bs), has-sort b.node_id bs, distinct-sort bs)

  length-insert :
      (b : Binding) (cs : List Binding) → length (insert_by_node net b cs) ≡ suc (length cs)
  unfolding insert_by_node
  length-insert b [] = refl
  length-insert b (c ∷ cs) = ground (arith, length-insert b cs)

  length-sort : (bs : List Binding) → length (sort_by_node net bs) ≡ length bs
  unfolding sort_by_node
  length-sort [] = refl
  length-sort (b ∷ bs) = length-insert b (sort_by_node net bs) ∙ ap suc (length-sort bs)

-- A row that the loop has passed, and the rest of the loop.
check_rows_cons :
    (net : Net) (cell : Text) (now : ℕ) (row : Option Row) (rows : List (Option Row))
    (nodes users : List Text) (bs : List Binding) (all_users : List Text)
    → check_rows net cell now (row ∷ rows) nodes users ≡ ok (bs, all_users)
    → (b : Binding) × (rest : List Binding) × (valid_binding net cell now b ≡ true)
      × (has nodes b.node_id ≡ false)
      × (check_rows net cell now rows (add_text nodes b.node_id) (add_text users b.user_id)
          ≡ ok (rest, all_users))
      × (bs ≡ b ∷ rest)
unfolding check_rows
check_rows_cons net cell now row rows nodes users bs all_users e =
    elim (Result-cases (read_binding row)) [
      | inl (code, p) ↦ absurd (ground arith)
      | inr (b, p) ↦ elim (Bool-cases (valid_binding net cell now b)) [
        | inr bad ↦ absurd (ground arith)
        | inl good ↦ elim (Bool-cases (has nodes b.node_id)) [
          | inl twice ↦ absurd (ground arith)
          | inr fresh ↦
              elim (Result-cases (
                check_rows net cell now rows (add_text nodes b.node_id)
                  (add_text users b.user_id))) [
                    | inl (code, q) ↦ absurd (ground arith)
                    | inr ((rest, found), q) ↦ (b, rest, good, fresh, ground arith, ground arith)
                  ]
        ]
      ]
    ]

-- What the loop has found when it returns: every row checked and with a node of its own, and users
-- that are all in the set.
record Checked (net : Net) (cell : Text) (now : ℕ) (nodes users : List Text) (bs : List Binding)
    (all_users : List Text) : Type 0 where
  pub valid : every (valid_binding net cell now) bs ≡ true
  pub distinct : distinct_nodes bs ≡ true
  pub fresh : (s : Text) → has nodes s ≡ true → has (map node_of bs) s ≡ false
  pub grows : (s : Text) → has users s ≡ true → has all_users s ≡ true
  pub covered : every (λ b. has all_users b.user_id) bs ≡ true

has-add_text : (set : List Text) (s t : Text) → has (add_text set s) t ≡ ((s == t) || has set t)
unfolding has
has-add_text set s t = elim (Bool-cases (has set s)) [
  | inl there ↦ grind (arith, text_beq_iff s t)
  | inr absent ↦ ground arith
]

Checked-check_rows :
    (net : Net) (cell : Text) (now : ℕ) (rows : List (Option Row)) (nodes users : List Text)
    (bs : List Binding) (all_users : List Text)
    → check_rows net cell now rows nodes users ≡ ok (bs, all_users)
    → (length bs ≡ length rows) × Checked net cell now nodes users bs all_users
unfolding check_rows distinct_nodes has
Checked-check_rows net cell now [] nodes users bs all_users e =
    let empty : bs ≡ [] = ground arith in
    let same : all_users ≡ users = ground arith in
    rw (empty, same)
      (
        refl,
        record {
          valid = refl;
          distinct = refl;
          fresh = λ s h. refl;
          grows = λ s h. h;
          covered = refl;
        },
      )
Checked-check_rows net cell now (row ∷ rows) nodes users bs all_users e =
    let (b, rest, good, new, others, is) =
      check_rows_cons net cell now row rows nodes users bs all_users e in
    let (count, v) =
      Checked-check_rows net cell now rows (add_text nodes b.node_id) (add_text users b.user_id)
        rest all_users others in
    let self : (b.node_id == b.node_id) ≡ true = (text_beq_iff b.node_id b.node_id).1 refl in
    let mine : (b.user_id == b.user_id) ≡ true = (text_beq_iff b.user_id b.user_id).1 refl in
    let alone : has (map node_of rest) b.node_id ≡ false =
      v.fresh b.node_id (grind (arith, has-add_text nodes b.node_id b.node_id)) in
    let known : has all_users b.user_id ≡ true =
      v.grows b.user_id (grind (arith, has-add_text users b.user_id b.user_id)) in
    rw is (
      omega arith,
      record {
        valid = rw (good, v.valid) refl;
        distinct = rw (alone, v.distinct) refl;
        fresh = λ s h. grind (
          arith,
          v.fresh s (grind (arith, has-add_text nodes b.node_id s)),
          text_beq_iff b.node_id s,
        );
        grows = λ s h. v.grows s (grind (arith, has-add_text users b.user_id s));
        covered = rw (known, v.covered) refl;
      },
    )

-- A snapshot that is accepted: its rows have passed the loop, and the set of users is small.
validate_ok :
    (net : Net) (raw : Option Snapshot) (cell : Text) (now : ℕ) (bs : List Binding)
    → validate_cell_snapshot net raw cell now ≡ ok bs
    → (rows : List (Option Row)) × (found : List Binding) × (users : List Text) × (length rows
        ≤ max_bindings)
      × (check_rows net cell now rows [] [] ≡ ok (found, users))
      × (length users ≤ 1)
      × (bs ≡ sort_by_node net found)
unfolding validate_cell_snapshot
validate_ok net none cell now bs e = absurd (ground arith)
validate_ok net (some snapshot) cell now bs e = elim (Option-cases snapshot.cell_id) [
  | inl unnamed ↦ absurd (ground arith)
  | inr (named, p) ↦ elim (Option-cases snapshot.bindings) [
    | inl absent ↦ absurd (ground arith)
    | inr (rows, q) ↦ elim (Result-cases (check_rows net cell now rows [] [])) [
      | inl (code, r) ↦ absurd (ground arith)
      | inr ((found, users), r) ↦ (rows, found, users, ground arith, r, ground arith, ground arith)
    ]
  ]
]

-- A set of at most one user that has all of them.
one_user :
    (users : List Text) (bs : List Binding)
    → length users ≤ 1
    → every (λ b. has users b.user_id) bs ≡ true
    → (user : Text) × (every (is_of user) bs ≡ true)
unfolding has
one_user [] [] short all = ([], refl)
one_user [] (b ∷ bs) short all = absurd (ground arith)
one_user (user ∷ []) bs short all = (user, all_of user bs all)
  where
    all_of :
        (user : Text) (bs : List Binding)
        → every (λ b. has (user ∷ []) b.user_id) bs ≡ true
        → every (is_of user) bs ≡ true
    all_of user [] all = refl
    all_of user (b ∷ bs) all =
        grind (arith, all_of user bs, text_beq_iff user b.user_id, text_beq_iff b.user_id user)
one_user (user ∷ other ∷ rest) bs short all = absurd (omega arith)

nodes_valid :
    (net : Net) (cell : Text) (now : ℕ) (bs : List Binding)
    → every (valid_binding net cell now) bs ≡ true
    → every (valid_tailnet_node net) (map node_of bs) ≡ true
unfolding valid_binding
nodes_valid net cell now [] h = refl
nodes_valid net cell now (b ∷ bs) h = ground (arith, nodes_valid net cell now bs)

abbrev pub reaches_tailnet : Net → Grant → Bool
reaches_tailnet net g = every (valid_tailnet_node net) g.dst

policy_reaches :
    (net : Net) (cell : Text) (now : ℕ) (bs : List Binding)
    → every (valid_binding net cell now) bs ≡ true
    → every (reaches_tailnet net) (build_headscale_policy bs) ≡ true
unfolding build_headscale_policy
policy_reaches net cell now [] h = refl
policy_reaches net cell now (b ∷ bs) h = grind (arith, nodes_valid net cell now (b ∷ bs) h)

-- A snapshot that is accepted has at most 256 bindings, each of the expected cell, not expired, of a
-- positive generation and with a node in the tailnet: a text of at most 160 units that is an IPv4
-- address in 100.64.0.0/10 or an IPv6 address that begins with fd7a:115c:a1e0, in either case. No two
-- have the same node, and all are of one account. Every destination of the policy that is built from
-- them is such an address.
pub accepted_snapshot :
    (net : Net) (raw : Option Snapshot) (cell : Text) (now : ℕ) (bs : List Binding)
    → validate_cell_snapshot net raw cell now ≡ ok bs
    → (length bs ≤ 256)
      × Each (IsLive net cell now) bs
      × (distinct_nodes bs ≡ true)
      × (user : Text) × (every (is_of user) bs ≡ true)
      × Each (λ g. Each (InTailnet net) g.dst) (build_headscale_policy bs)
accepted_snapshot net raw cell now bs e =
    let (rows, found, users, few, looped, single, is) = validate_ok net raw cell now bs e in
    let (count, v) = Checked-check_rows net cell now rows [] [] found users looped in
    let (user, all) = one_user users found single v.covered in
    let valid : every (valid_binding net cell now) bs ≡ true =
      rw is (every-sort_by_node net (valid_binding net cell now) found ∙ v.valid) in
    (
      rw (is, length-sort net found) (omega arith),
      every-Each (valid_binding net cell now) (IsLive net cell now)
          (valid_binding-IsLive net cell now) bs valid,
      rw is (distinct-sort net found ∙ v.distinct),
      user,
      rw is (every-sort_by_node net (is_of user) found ∙ all),
      every-Each (reaches_tailnet net) (λ g. Each (InTailnet net) g.dst)
          (λ g h.
            every-Each (valid_tailnet_node net) (InTailnet net) (valid_tailnet_node-InTailnet net)
              g.dst h)
          (build_headscale_policy bs) (policy_reaches net cell now bs valid),
    )
