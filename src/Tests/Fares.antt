-- ===== src/Tests/Fares.antt =====
-- Runs of the booking repository.
use multi_ai_agent.Common.{
  List, ◌*◌, ◌≤◌, ◌≡◌, ◌≢◌, ◌⊎◌, refl, String, some, [], ◌∷◌, arith, eq_iff,
}
use multi_ai_agent.Common.Dict.{lookup}
use multi_ai_agent.Bookings.{
  locked, booked, PriceLock, Reservation, BookingRepository, get_price_lock, lock_expired,
  lock_redeemed, Passenger, is_expired, reservation_of, create_reservation,
}
use multi_ai_agent.Bookings.Locks.{
  Op, locks, books, run_ops, create_reservation_lem, lock_redeemed_once,
}

abbrev fare : PriceLock
fare = record {
  lock_id = "lk1";
  offer_id = "f7";
  offer_type = "flight";
  locked_price = 12000;
  currency = "USD";
  expires_at = 1000;
  status = locked;
}

abbrev offered : BookingRepository
offered = record { reservations = []; price_locks = ("lk1", fare) ∷ [] }

abbrev ann : Passenger
ann = record {
  user_id = "u1";
  passenger_name = "Ann";
  passenger_email = "ann@x.io";
  special_requests = "";
}

abbrev ticket : Reservation
ticket = record {
  booking_id = "bk1";
  pnr_code = "TMX123";
  user_id = "u1";
  offer_id = "f7";
  offer_type = "flight";
  amount_paid = 12000;
  currency = "USD";
  passenger_name = "Ann";
  passenger_email = "ann@x.io";
  special_requests = "";
  created_at = 5000;
}

create_reservation_lem_example :
    (l : PriceLock) × (get_price_lock "lk1" offered ≡ some l)
    × (l.status ≡ locked)
    × (5000 ≤ l.expires_at * 1000)
    × (ticket ≡ reservation_of 5000 "bk1" "TMX123" ann l)
    × (lookup "lk1" (create_reservation 5000 "bk1" "TMX123" ann "lk1" offered).0.price_locks
        ≡ some (record l { status = booked }))
unfolding create_reservation is_expired reservation_of lookup
create_reservation_lem_example =
    create_reservation_lem 5000 "bk1" "TMX123" ann "lk1" offered ticket refl

keys_differ : ◌≢◌ {A = String} "lk1" "lk2"
keys_differ e = absurd (ground (arith, (eq_iff "lk1" "lk2").1 e))

abbrev between : List Op
between = locks 6000 "lk2" "h1" "hotel" 5000 "USD" ∷ books 7000 "bk2" "TMX124" ann "lk2" ∷ []

lock_redeemed_once_example :
    let r' = run_ops between (create_reservation 5000 "bk1" "TMX123" ann "lk1" offered).0 in
    (create_reservation 8000 "bk3" "TMX125" ann "lk1" r' ≡ (r', lock_expired))
    ⊎ (create_reservation 8000 "bk3" "TMX125" ann "lk1" r' ≡ (r', lock_redeemed))
unfolding create_reservation is_expired reservation_of lookup
lock_redeemed_once_example =
    lock_redeemed_once 5000 8000 "bk1" "TMX123" "bk3" "TMX125" ann ann "lk1" between offered ticket
      refl (keys_differ, (tt, tt))
