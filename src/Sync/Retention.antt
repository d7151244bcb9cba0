-- ===== src/Sync/Retention.antt =====
-- What retention leaves of the log for a client with a valid cursor.
use Prim.Native.Nat.{max}
use fabushi_backend.Prelude.{
  ℕ, suc, zero, ◌-◌, ◌+◌, ◌≤◌, ◌≡◌, refl, ap, ◌∙◌, inl, inr, false, List, [], ◌∷◌, arith,
  Bool-cases, text_Eq, text_beq_iff, ◌==◌, ltb, leb, nat_beq, length, take, if◌then◌else◌,
}
use fabushi_backend.Text.{Text}
use fabushi_backend.Table.{get-upsert}
use fabushi_backend.Sync.Cursor.{encode_cursor}
use fabushi_backend.Sync.Log.{
  Event, Log, Entry, own, above, delete_before, floor_of, raise_floor, prune_below, prune,
  insert_event, append_all, empty_log, append_event, events_after, sequence_at, sync_from,
  difference, page_reply, current_sequence, oldest_first, last_sequence,
}

-- Deletion touches no other account.
own-delete_before_ne :
    (a b : Text) (minimum : ℕ) (es : List Event)
    → (a == b) ≡ false
    → own b (delete_before a minimum es) ≡ own b es
unfolding own delete_before
own-delete_before_ne a b minimum [] ne = refl
own-delete_before_ne a b minimum (e ∷ es) ne =
    grind (arith, own-delete_before_ne a b minimum es ne, text_beq_iff)

-- What lies above the deleted rows is as it was.
above-own-delete_before :
    (a : Text) (minimum n : ℕ) (es : List Event)
    → minimum - 1 ≤ n
    → above n (own a (delete_before a minimum es)) ≡ above n (own a es)
unfolding own delete_before above
above-own-delete_before a minimum n [] h = refl
above-own-delete_before a minimum n (e ∷ es) h =
    grind (arith, above-own-delete_before a minimum n es h)

-- The events as they would be if none were ever deleted.
unfoldable pub full_history : Log → List Entry → Log
unfolding insert_event
full_history log [] = log
full_history log (e ∷ es) = full_history (insert_event log e) es

-- The log has the rows of the history above each floor.
pub record Covers (log full : Log) : Type 0 where
  pub last : log.last ≡ full.last
  pub rows :
      (a : Text) (n : ℕ)
      → floor_of log a ≤ n
      → above n (own a log.events) ≡ above n (own a full.events)

Covers-insert_event :
    (log full : Log) (e : Entry)
    → Covers log full
    → Covers (insert_event log e) (insert_event full e)
unfolding insert_event floor_of own above
Covers-insert_event log full e v = record {
  last = ap suc v.last;
  rows = λ a n h. grind (arith, v.last, v.rows a n h);
}

module _ (log : Log) (a : Text) (minimum now : ℕ) where
  floor_of-prune_below :
      (b : Text)
      → floor_of (prune_below log a minimum now) b
        ≡ (if a == b then max (floor_of log a) (minimum - 1) else floor_of log b)
  unfolding prune_below raise_floor floor_of
  floor_of-prune_below b = elim (Bool-cases (a == b)) [
    | inl same ↦ rw (get-upsert log.floors a b, same) refl
    | inr other ↦ rw (get-upsert log.floors a b, other) refl
  ]

  above_of_other :
      (b : Text) (n : ℕ)
      → (a == b) ≡ false
      → above n (own b (delete_before a minimum log.events)) ≡ above n (own b log.events)
  above_of_other b n other = ap (above n) (own-delete_before_ne a b minimum log.events other)

  Covers-prune_below : (full : Log) → Covers log full → Covers (prune_below log a minimum now) full
  unfolding prune_below raise_floor
  Covers-prune_below full v = record {
    last = v.last;
    rows = λ b n h. elim (Bool-cases (a == b)) [
      | inl same ↦
          let k : max (floor_of log a) (minimum - 1) ≤ n = grind (arith, floor_of-prune_below b) in
          rw (← (text_beq_iff a b).0 same) (
            above-own-delete_before a minimum n log.events (omega arith) ∙ v.rows a n (omega arith))
      | inr other ↦ above_of_other b n other ∙ v.rows b n (grind (arith, floor_of-prune_below b))
    ];
  }

Covers-prune :
    (retention : ℕ) (log full : Log) (a : Text) (now : ℕ)
    → Covers log full
    → Covers (prune retention log a now) full
unfolding prune
Covers-prune retention log full a now v =
    elim (Bool-cases (leb (length (own a log.events)) retention)) [
      | inl few ↦ rw few v
      | inr many ↦ elim (Bool-cases (nat_beq (sequence_at (retention - 1) (own a log.events)) 0)) [
        | inl none_found ↦ rw (many, none_found) v
        | inr found ↦ rw (many, found) (Covers-prune_below log a _ now full v)
      ]
    ]

Covers-append_all :
    (retention : ℕ) (log full : Log) (es : List Entry)
    → Covers log full
    → Covers (append_all retention log es) (full_history full es)
unfolding append_all append_event full_history
Covers-append_all retention log full [] v = v
Covers-append_all retention log full (e ∷ es) v =
    Covers-append_all retention (append_event retention log e) (insert_event full e) es (
      Covers-prune retention (insert_event log e) (insert_event full e) e.account e.now
        (Covers-insert_event log full e v))

module _ {A : Type 0} where
  take_of_take : (n : ℕ) (xs : List A) → take n (take (n + 1) xs) ≡ take n xs
  take_of_take zero xs = ground arith
  take_of_take (suc n) [] = ground arith
  take_of_take (suc n) (x ∷ xs) = ground (arith, take_of_take n xs)

  more_of_take : (n : ℕ) (xs : List A) → ltb n (length (take (n + 1) xs)) ≡ ltb n (length xs)
  more_of_take zero [] = ground arith
  more_of_take zero (x ∷ xs) = ground arith
  more_of_take (suc n) [] = ground arith
  more_of_take (suc n) (x ∷ xs) = ground (arith, more_of_take n xs)

  take_of_short : (n : ℕ) (xs : List A) → ltb n (length xs) ≡ false → take (n + 1) xs ≡ take n xs
  take_of_short zero [] h = ground arith
  take_of_short zero (x ∷ xs) h = ground arith
  take_of_short (suc n) [] h = ground arith
  take_of_short (suc n) (x ∷ xs) h = ground (arith, take_of_short n xs)

page_reply_lem :
    (limit requested current : ℕ) (rows : List Event)
    → page_reply limit requested current (take (limit + 1) rows)
      ≡ difference
          (encode_cursor (
            if ltb limit (length rows) then last_sequence requested (take limit rows) else current))
          (ltb limit (length rows))
          (take limit rows)
unfolding page_reply
page_reply_lem limit requested current rows = elim (Bool-cases (ltb limit (length rows))) [
  | inl more ↦ ground (arith, more_of_take limit rows, take_of_take limit rows)
  | inr all ↦ ground (arith, more_of_take limit rows, take_of_short limit rows)
]

sync_from_valid :
    (log : Log) (account : Text) (limit requested : ℕ)
    → floor_of log account ≤ requested
    → requested ≤ current_sequence log account
    → sync_from log account limit requested
      ≡ page_reply limit requested
          (current_sequence log account)
          (take (limit + 1) (events_after log.events account requested))
unfolding sync_from
sync_from_valid log account limit requested floor ahead = ground arith

-- Above the floor of an account the log has every event ever appended for it.
pub events_after-append_all :
    (retention : ℕ) (es : List Entry) (account : Text) (requested : ℕ)
    → let log = append_all retention empty_log es in
      floor_of log account ≤ requested
      → events_after log.events account requested
        ≡ events_after (full_history empty_log es).events account requested
unfolding events_after
events_after-append_all retention es account requested floor =
    let v =
      Covers-append_all retention empty_log empty_log es
        (record { last = refl; rows = λ a n h. refl }) in
    ap oldest_first (v.rows account requested floor)

-- After any calls of `#appendEvent` on an empty log, whatever the retention, a client whose cursor
-- is neither ahead of its account nor below the floor of the account is answered with a
-- difference: its events are the first `limit` of all the events ever appended for the account
-- after the cursor, in order, `hasMore` says whether there are more, and the next cursor is that of
-- the last event of the page if so and the current one of the account otherwise.
pub sync_complete :
    (retention : ℕ) (es : List Entry) (account : Text) (limit requested : ℕ)
    → let log = append_all retention empty_log es in
      let rows = events_after (full_history empty_log es).events account requested in
      floor_of log account ≤ requested
      → requested ≤ current_sequence log account
      → sync_from log account limit requested
        ≡ difference
            (encode_cursor (
              if ltb limit (length rows)
              then last_sequence requested (take limit rows)
              else current_sequence log account))
            (ltb limit (length rows))
            (take limit rows)
sync_complete retention es account limit requested floor ahead =
    let log = append_all retention empty_log es in
    rw (← events_after-append_all retention es account requested floor) (
      sync_from_valid log account limit requested floor ahead
      ∙ page_reply_lem limit requested (current_sequence log account)
          (events_after log.events account requested))
