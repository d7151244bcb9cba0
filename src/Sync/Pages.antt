-- ===== src/Sync/Pages.antt =====
-- A client that asks for page after page.
use Prim.Native.Nat.{max}
use fabushi_backend.Prelude.{
  ℕ, zero, suc, ◌≤◌, ◌<◌, ◌≡◌, refl, sym, ap, ◌∙◌, inl, inr, List, [], ◌∷◌, ◌++◌, arith, Bool-cases,
  take, ltb, text_Eq, ◌==◌,
}
use fabushi_backend.Text.{Text}
use fabushi_backend.Sync.Log.{
  Event, Log, Entry, own, above, oldest_first, events_after, last_sequence, insert_event, empty_log,
}
use fabushi_backend.Sync.Retention.{full_history}

unfoldable pub drop : ℕ → List Event → List Event
drop zero es = es
drop (suc n) [] = []
drop (suc n) (e ∷ es) = drop n es

-- In order of their sequence, from above `n` on.
unfoldable pub Ascends : ℕ → List Event → Type 0
Ascends n [] = Unit
Ascends n (e ∷ es) = (n < e.sequence) × Ascends e.sequence es

-- The newest first, all below `b`.
unfoldable Descends : ℕ → List Event → Type 0
Descends b [] = Unit
Descends b (e ∷ es) = (e.sequence < b) × Descends e.sequence es

Descends-weaken : (b c : ℕ) (es : List Event) → b ≤ c → Descends b es → Descends c es
unfolding Descends
Descends-weaken b c [] h v = tt
Descends-weaken b c (e ∷ es) h (v, w) = (omega arith, w)

Descends-own : (a : Text) (b : ℕ) (es : List Event) → Descends b es → Descends b (own a es)
unfolding Descends own
Descends-own a b [] v = tt
Descends-own a b (e ∷ es) (v, w) = elim (Bool-cases (e.account_id == a)) [
  | inl mine ↦ rw mine (v, Descends-own a e.sequence es w)
  | inr other ↦ rw other (Descends-own a b es (Descends-weaken e.sequence b es (omega arith) w))
]

Ascends-append :
    (n : ℕ) (es : List Event) (e : Event)
    → Ascends n es
    → last_sequence n es < e.sequence
    → Ascends n (es ++ e ∷ [])
unfolding Ascends last_sequence
Ascends-append n [] e v h = (h, tt)
Ascends-append n (d ∷ es) e (v, w) h = (v, Ascends-append d.sequence es e w h)

last_sequence-append :
    (n : ℕ) (es : List Event) (e : Event) → last_sequence n (es ++ e ∷ []) ≡ e.sequence
unfolding last_sequence
last_sequence-append n [] e = refl
last_sequence-append n (d ∷ es) e = last_sequence-append d.sequence es e

-- The rows above a cursor, the oldest first, are in order, and end below the bound of the log.
oldest_first-Ascends :
    (n b : ℕ) (es : List Event)
    → n < b
    → Descends b es
    → Ascends n (oldest_first (above n es)) × (last_sequence n (oldest_first (above n es)) < b)
unfolding Descends Ascends above oldest_first last_sequence
oldest_first-Ascends n b [] h v = (tt, h)
oldest_first-Ascends n b (e ∷ es) h (v, w) = elim (Bool-cases (ltb n e.sequence)) [
  | inl later ↦
      let (asc, below) = oldest_first-Ascends n e.sequence es (ground arith) w in
      rw later (
        Ascends-append n (oldest_first (above n es)) e asc below,
        rw (last_sequence-append n (oldest_first (above n es)) e) v,
      )
  | inr earlier ↦
      rw earlier (oldest_first-Ascends n b es h (Descends-weaken e.sequence b es (omega arith) w))
]

pub last_sequence-le : (n k : ℕ) (es : List Event) → Ascends n es → n ≤ last_sequence n (take k es)
unfolding Ascends last_sequence
last_sequence-le n zero es v = omega arith
last_sequence-le n (suc k) [] v = omega arith
last_sequence-le n (suc k) (e ∷ es) (v, w) = omega (arith, last_sequence-le e.sequence k es w)

above-Ascends : (n m : ℕ) (es : List Event) → n ≤ m → Ascends m es → above n es ≡ es
unfolding Ascends above
above-Ascends n m [] h v = refl
above-Ascends n m (e ∷ es) h (v, w) = grind (arith, above-Ascends n e.sequence es (omega arith) w)

-- The rows above the last one of a page are those behind the page.
above-last_sequence :
    (n k : ℕ) (es : List Event) → Ascends n es → above (last_sequence n (take k es)) es ≡ drop k es
unfolding Ascends above last_sequence drop
above-last_sequence n zero es v = above-Ascends n n es (omega arith) v
above-last_sequence n (suc k) [] v = refl
above-last_sequence n (suc k) (e ∷ es) (v, w) =
    grind (arith, above-last_sequence e.sequence k es w, last_sequence-le e.sequence k es w)

above-append : (n : ℕ) (xs ys : List Event) → above n (xs ++ ys) ≡ above n xs ++ above n ys
unfolding above
above-append n [] ys = refl
above-append n (e ∷ xs) ys = ground (arith, above-append n xs ys)

append_nil : (es : List Event) → es ++ [] ≡ es
append_nil [] = refl
append_nil (e ∷ es) = ap (λ x. e ∷ x) (append_nil es)

above-oldest_first :
    (n : ℕ) (es : List Event) → above n (oldest_first es) ≡ oldest_first (above n es)
unfolding above oldest_first
above-oldest_first n [] = refl
above-oldest_first n (e ∷ es) = grind (
  arith,
  above-append n (oldest_first es) (e ∷ []),
  above-oldest_first n es,
  append_nil (oldest_first (above n es)),
)

above-above : (n m : ℕ) (es : List Event) → n ≤ m → above m (above n es) ≡ above m es
unfolding above
above-above n m [] h = refl
above-above n m (e ∷ es) h = grind (arith, above-above n m es h)

-- Sequence numbers are given out in order.
full_history-Descends :
    (log : Log) (es : List Entry)
    → Descends (suc log.last) log.events
    → Descends (suc (full_history log es).last) (full_history log es).events
unfolding full_history insert_event Descends
full_history-Descends log [] v = v
full_history-Descends log (e ∷ es) v =
    full_history-Descends (insert_event log e) es (omega arith, v)

-- Behind a page stands what the next cursor asks for.
pub next_rows :
    (es : List Entry) (account : Text) (n k : ℕ)
    → let rows = λ (m : ℕ). events_after (full_history empty_log es).events account m in
      Ascends n (rows n) × (rows (last_sequence n (take k (rows n))) ≡ drop k (rows n))
unfolding events_after Descends
next_rows es account n k =
    let full = full_history empty_log es in
    let mine = own account full.events in
    let bound = max (suc full.last) (suc n) in
    let ordered : Descends bound mine = Descends-own account bound full.events (
      Descends-weaken (suc full.last) bound full.events (omega arith)
        (full_history-Descends empty_log es tt)) in
    let (asc, below) = oldest_first-Ascends n bound mine (omega arith) ordered in
    let s = last_sequence n (take k (oldest_first (above n mine))) in
    (
      asc,
      ap oldest_first
            (sym (above-above n s mine (last_sequence-le n k (oldest_first (above n mine)) asc)))
          ∙ sym (above-oldest_first s (above n mine))
          ∙ above-last_sequence n k (oldest_first (above n mine)) asc,
    )
