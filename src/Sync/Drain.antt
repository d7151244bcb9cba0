-- ===== src/Sync/Drain.antt =====
-- A client that follows the cursors of `sync` until there are no more pages.
use fabushi_backend.Prelude.{
  ℕ, zero, suc, ◌+◌, ◌-◌, ◌^◌, ◌≤◌, ◌<◌, ◌≡◌, refl, ap, inl, inr, true, false, List, [], ◌∷◌, ◌++◌,
  some, arith, Bool-cases, length, take, ltb, text_Eq,
}
use fabushi_backend.Text.{Text}
use fabushi_backend.Sync.Cursor.{Requested, initial, invalid, from, decode_cursor}
use fabushi_backend.Sync.Cursor.Laws.{decode_cursor-encode_cursor}
use fabushi_backend.Sync.Log.{
  Event, Log, Entry, Reply, snapshot, difference, own, above, oldest_first, events_after,
  last_sequence, sync_from, current_sequence, greatest, append_all, empty_log, floor_of,
}
use fabushi_backend.Sync.Retention.{full_history, sync_complete, events_after-append_all}
use fabushi_backend.Sync.Pages.{drop, next_rows, last_sequence-le}

-- How a client ends: it has been told that there is no more, with the events of all its pages; it has
-- been told to start again with a snapshot, or given a cursor that is none; or it has asked as often
-- as it may and is not done.
pub data Drained : Type 0 where
  finished : List Event → Drained
  turned_away unfinished : Drained

abbrev with_page : List Event → Drained → Drained
with_page page (finished rest) = finished (page ++ rest)
with_page page turned_away = turned_away
with_page page unfinished = unfinished

resume : Requested → (ℕ → Drained) → Drained
resume (from n) k = k n
resume initial k = turned_away
resume invalid k = turned_away

follow : Reply → (ℕ → Drained) → Drained
unfolding resume
follow (snapshot reason cursor) k = turned_away
follow (difference cursor true page) k = with_page page (resume (decode_cursor (some cursor)) k)
follow (difference cursor false page) k = finished page

-- The end of a client that asks at most `fuel` times.
unfoldable pub drain : ℕ → Log → Text → ℕ → ℕ → Drained
unfolding follow sync_from
drain zero log account limit requested = unfinished
drain (suc fuel) log account limit requested =
    follow (sync_from log account limit requested) (λ next. drain fuel log account limit next)

greatest-append :
    (es ds : List Event) (m : ℕ) → greatest es ≤ m → greatest ds ≤ m → greatest (es ++ ds) ≤ m
unfolding greatest
greatest-append [] ds m h k = k
greatest-append (e ∷ es) ds m h k = omega (arith, greatest-append es ds m (omega arith) k)

greatest-oldest_first :
    (n m : ℕ) (es : List Event) → greatest es ≤ m → greatest (oldest_first (above n es)) ≤ m
unfolding greatest oldest_first above
greatest-oldest_first n m [] h = h
greatest-oldest_first n m (e ∷ es) h = elim (Bool-cases (ltb n e.sequence)) [
  | inl later ↦ rw later (
      greatest-append (oldest_first (above n es)) (e ∷ []) m
        (greatest-oldest_first n m es (omega arith)) (omega arith))
  | inr earlier ↦ rw earlier (greatest-oldest_first n m es (omega arith))
]

last_sequence-greatest :
    (n m k : ℕ) (es : List Event) → n ≤ m → greatest es ≤ m → last_sequence n (take k es) ≤ m
unfolding greatest last_sequence
last_sequence-greatest n m zero es h b = h
last_sequence-greatest n m (suc k) [] h b = h
last_sequence-greatest n m (suc k) (e ∷ es) h b =
    last_sequence-greatest e.sequence m k es (omega arith) (omega arith)

take-drop : (n : ℕ) (es : List Event) → take n es ++ drop n es ≡ es
unfolding drop
take-drop zero es = refl
take-drop (suc n) [] = refl
take-drop (suc n) (e ∷ es) = ap (λ x. e ∷ x) (take-drop n es)

length-drop : (n : ℕ) (es : List Event) → n ≤ length es → length (drop n es) + n ≡ length es
unfolding drop
length-drop zero es h = omega arith
length-drop (suc n) [] h = absurd (omega arith)
length-drop (suc n) (e ∷ es) h = omega (arith, length-drop n es (omega arith))

take-all : (n : ℕ) (es : List Event) → ltb n (length es) ≡ false → take n es ≡ es
take-all zero [] h = refl
take-all zero (e ∷ es) h = absurd (ground arith)
take-all (suc n) [] h = refl
take-all (suc n) (e ∷ es) h = ap (λ x. e ∷ x) (take-all n es (ground arith))

-- The cursor of a page is no further than the current one.
page_behind :
    (log : Log) (account : Text) (n k : ℕ)
    → n ≤ current_sequence log account
    → last_sequence n (take k (events_after log.events account n)) ≤ current_sequence log account
unfolding current_sequence events_after
page_behind log account n k h =
    let mine = own account log.events in
    last_sequence-greatest n (greatest mine) k (oldest_first (above n mine)) h
      (greatest-oldest_first n (greatest mine) mine (omega arith))

-- After any calls of `#appendEvent` on an empty log, a client with a valid cursor that asks for
-- pages until `hasMore` is false is done after one reply more than there are events at most, and has
-- then been given all the events ever appended for its account after its cursor, each once and in
-- order, whatever the retention has deleted.
pub drain_complete :
    (retention : ℕ) (es : List Entry) (account : Text) (limit requested fuel : ℕ)
    → 1 ≤ limit
    → let log = append_all retention empty_log es in
      let rows = events_after (full_history empty_log es).events account requested in
      floor_of log account ≤ requested
      → requested ≤ current_sequence log account
      → current_sequence log account ≤ 2 ^ 53 - 1
      → length rows < fuel
      → drain fuel log account limit requested ≡ finished rows
unfolding drain follow resume
drain_complete retention es account limit requested zero one floor ahead safe enough =
    absurd (omega arith)
drain_complete retention es account limit requested (suc fuel) one floor ahead safe enough =
    let log = append_all retention empty_log es in
    let rows = events_after (full_history empty_log es).events account requested in
    let s = last_sequence requested (take limit rows) in
    let answer = sync_complete retention es account limit requested floor ahead in
    let (asc, next) = next_rows es account requested limit in
    elim (Bool-cases (ltb limit (length rows))) [
      | inr done ↦ rw (answer, done) (ap finished (take-all limit rows done))
      | inl more ↦
          let behind : s ≤ current_sequence log account =
            rw (← events_after-append_all retention es account requested floor)
              (page_behind log account requested limit ahead) in
          let rest =
            drain_complete retention es account limit s fuel one
              (omega (arith, last_sequence-le requested limit rows asc)) behind safe
              (rw next (grind (arith, length-drop limit rows))) in
          rw (answer, more, decode_cursor-encode_cursor s (omega arith), rest, next)
            (ap finished (take-drop limit rows))
    ]
