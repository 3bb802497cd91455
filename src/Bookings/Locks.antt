-- ===== src/Bookings/Locks.antt =====
-- What a fare lock is good for: one reservation, at its price, within fifteen minutes.
use text.Mathlib.TextPositions.{eq_refl}
use multi_ai_agent.Common.{
  ℕ, ◌*◌, ◌≤◌, String, false, Option, none, some, List, [], ◌∷◌, ◌≡◌, ◌≢◌, refl, ◌⊎◌, inl, inr,
  arith, eq_iff, All, Bool-cases,
}
use multi_ai_agent.Common.Dict.{lookup, lookup-insert}
use multi_ai_agent.Bookings.{
  LockStatus, locked, booked, is_booked, PriceLock, Reservation, BookingRepository, lock_price,
  lock_expired, lock_redeemed, confirmed, Passenger, is_expired, reservation_of, book_found,
  create_reservation, get_price_lock,
}

pub data Op : Type 0 where
  locks : (now : ℕ) (lock_id offer_id offer_type : String) (price : ℕ) (currency : String) → Op
  books : (now : ℕ) (booking_id pnr_code : String) (p : Passenger) (lock_id : String) → Op

unfoldable pub apply : Op → BookingRepository → BookingRepository
apply (locks now lock_id offer_id offer_type price currency) r =
    (lock_price now lock_id offer_id offer_type price currency r).0
apply (books now booking_id pnr_code p lock_id) r =
    (create_reservation now booking_id pnr_code p lock_id r).0

unfoldable pub run_ops : List Op → BookingRepository → BookingRepository
run_ops [] r = r
run_ops (op ∷ ops) r = run_ops ops (apply op r)

-- The identifiers of new locks are fresh ones.
abbrev pub Mints : String → Op → Type 0
Mints k (locks now lock_id offer_id offer_type price currency) = k ≢ lock_id
Mints k (books now booking_id pnr_code p lock_id) = Unit {0}

abbrev IsRedeemed : String → BookingRepository → Type 0
IsRedeemed k r = (l : PriceLock) × (lookup k r.price_locks ≡ some l) × (l.status ≡ booked)

book-keeps :
    (now : ℕ) (booking_id pnr_code : String) (p : Passenger) (j k : String) (l : PriceLock)
    (found : Option PriceLock) (r : BookingRepository)
    → lookup j r.price_locks ≡ found
    → lookup k r.price_locks ≡ some l
    → l.status ≡ booked
    → lookup k (book_found now booking_id pnr_code p j found r).0.price_locks ≡ some l
unfolding book_found
book-keeps now booking_id pnr_code p j k l none r q e b = e
book-keeps now booking_id pnr_code p j k l (some lock) r q e b =
    ground (arith, eq_iff j k, lookup-insert j k (record lock { status = booked }) r.price_locks)

apply-IsRedeemed :
    (k : String) (op : Op) (r : BookingRepository)
    → Mints k op
    → IsRedeemed k r
    → IsRedeemed k (apply op r)
unfolding apply lock_price create_reservation
apply-IsRedeemed k (locks now j offer_id offer_type price currency) r m (l, e, b) = (
  l,
  ground (
    arith,
    e,
    eq_iff j k,
    lookup-insert j k (lock_price now j offer_id offer_type price currency r).1 r.price_locks,
  ),
  b,
)
apply-IsRedeemed k (books now booking_id pnr_code p j) r m (l, e, b) =
    (l, book-keeps now booking_id pnr_code p j k l (lookup j r.price_locks) r refl e b, b)

run_ops-IsRedeemed :
    (k : String) (ops : List Op) (r : BookingRepository)
    → All (Mints k) ops
    → IsRedeemed k r
    → IsRedeemed k (run_ops ops r)
unfolding run_ops
run_ops-IsRedeemed k [] r m h = h
run_ops-IsRedeemed k (op ∷ ops) r m h =
    run_ops-IsRedeemed k ops (apply op r) m.1 (apply-IsRedeemed k op r m.0 h)

redeemed_refused :
    (now : ℕ) (booking_id pnr_code : String) (p : Passenger) (k : String) (r : BookingRepository)
    → IsRedeemed k r
    → (create_reservation now booking_id pnr_code p k r ≡ (r, lock_expired))
      ⊎ (create_reservation now booking_id pnr_code p k r ≡ (r, lock_redeemed))
unfolding create_reservation book_found
redeemed_refused now booking_id pnr_code p k r (l, e, b) = elim (Bool-cases (is_expired now l)) [
  | inl late ↦ inl (rw (e, book_found) (rw late refl))
  | inr fresh ↦ inr (rw (e, book_found) (rw fresh (rw (b, is_booked) refl)))
]

not_booked : (s : LockStatus) → is_booked s ≡ false → s ≡ locked
not_booked locked h = refl
not_booked booked h = cc

found_confirmed :
    (now : ℕ) (booking_id pnr_code : String) (p : Passenger) (k : String) (found : Option PriceLock)
    (r : BookingRepository) (res : Reservation)
    → (book_found now booking_id pnr_code p k found r).1 ≡ confirmed res
    → (l : PriceLock) × (found ≡ some l)
      × (is_expired now l ≡ false)
      × (is_booked l.status ≡ false)
      × (res ≡ reservation_of now booking_id pnr_code p l)
      × (lookup k (book_found now booking_id pnr_code p k found r).0.price_locks
          ≡ some (record l { status = booked }))
unfolding book_found
found_confirmed now booking_id pnr_code p k none r res ok = absurd (ground (arith, ok))
found_confirmed now booking_id pnr_code p k (some l) r res ok =
    elim (Bool-cases (is_expired now l)) [
      | inl late ↦ absurd (ground (arith, late, ok))
      | inr fresh ↦ elim (Bool-cases (is_booked l.status)) [
        | inl gone ↦ absurd (ground (arith, fresh, gone, ok))
        | inr free ↦
            let e : confirmed (reservation_of now booking_id pnr_code p l) ≡ confirmed res =
              ground (arith, fresh, free, ok) in
            (l, refl, fresh, free, cc, rw fresh (rw free (simp (lookup-insert, eq_refl))))
      ]
    ]

-- A reservation is confirmed only on a lock that was there, not yet redeemed and not expired, at the
-- locked price, and redeems it.
pub create_reservation_lem :
    (now : ℕ) (booking_id pnr_code : String) (p : Passenger) (k : String) (r : BookingRepository)
    (res : Reservation)
    → (create_reservation now booking_id pnr_code p k r).1 ≡ confirmed res
    → (l : PriceLock) × (get_price_lock k r ≡ some l)
      × (l.status ≡ locked)
      × (now ≤ l.expires_at * 1000)
      × (res ≡ reservation_of now booking_id pnr_code p l)
      × (lookup k (create_reservation now booking_id pnr_code p k r).0.price_locks
          ≡ some (record l { status = booked }))
unfolding create_reservation get_price_lock is_expired
create_reservation_lem now booking_id pnr_code p k r res ok =
    let (l, e, fresh, free, same, kept) =
      found_confirmed now booking_id pnr_code p k (lookup k r.price_locks) r res ok in
    (l, e, not_booked l.status free, ground (arith, fresh), same, kept)

-- Once a reservation was confirmed on a lock, every later one on that lock is refused and changes
-- nothing, whatever locks and reservations come between, as long as no new lock gets its identifier.
pub lock_redeemed_once :
    (now later : ℕ) (booking_id pnr_code booking_id' pnr_code' : String) (p p' : Passenger)
    (k : String) (ops : List Op) (r : BookingRepository) (res : Reservation)
    → (create_reservation now booking_id pnr_code p k r).1 ≡ confirmed res
    → All (Mints k) ops
    → let r' = run_ops ops (create_reservation now booking_id pnr_code p k r).0 in
      (create_reservation later booking_id' pnr_code' p' k r' ≡ (r', lock_expired))
      ⊎ (create_reservation later booking_id' pnr_code' p' k r' ≡ (r', lock_redeemed))
lock_redeemed_once now later booking_id pnr_code booking_id' pnr_code' p p' k ops r res ok m =
    let (l, there, free, fresh, same, e) =
      create_reservation_lem now booking_id pnr_code p k r res ok in
    let done = (create_reservation now booking_id pnr_code p k r).0 in
    redeemed_refused later booking_id' pnr_code' p' k (run_ops ops done)
      (run_ops-IsRedeemed k ops done m (record l { status = booked }, e, refl))
