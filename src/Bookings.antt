-- ===== src/Bookings.antt =====
-- StoreBookingRepository of tripmate/repositories/store_repositories.py: fare locks and the
-- reservations made on them. The clock is read in milliseconds and fresh identifiers are arguments.
pub mod Locks
use multi_ai_agent.Common.{
  ℕ, ◌+◌, ◌*◌, ◌/◌, String, Bool, true, false, not, ◌&&◌, Option, none, some, List, [], ◌∷◌, ltb,
  str_eq, truthy, if◌then◌else◌,
}
use multi_ai_agent.Common.Dict.{Dict, lookup, insert}
use multi_ai_agent.Store.{or_empty}

pub data LockStatus : Type 0 where
  locked booked : LockStatus

abbrev pub is_booked : LockStatus → Bool
is_booked locked = false
is_booked booked = true

pub record PriceLock : Type 0 where
  pub lock_id : String
  pub offer_id : String
  pub offer_type : String
  pub locked_price : ℕ
  pub currency : String
  pub expires_at : ℕ
  pub status : LockStatus

pub record Reservation : Type 0 where
  pub booking_id : String
  pub pnr_code : String
  pub user_id : String
  pub offer_id : String
  pub offer_type : String
  pub amount_paid : ℕ
  pub currency : String
  pub passenger_name : String
  pub passenger_email : String
  pub special_requests : String
  pub created_at : ℕ

pub record BookingRepository : Type 0 where
  pub reservations : Dict Reservation
  pub price_locks : Dict PriceLock

unfoldable pub empty_repository : BookingRepository
empty_repository = record { reservations = []; price_locks = [] }

-- `int(time.time()) + 900`, in seconds.
unfoldable pub lock_price :
    ℕ → String → String → String → ℕ → String → BookingRepository → BookingRepository × PriceLock
lock_price now lock_id offer_id offer_type total_price currency r =
    let lock : PriceLock = record {
      lock_id = lock_id;
      offer_id = offer_id;
      offer_type = offer_type;
      locked_price = total_price;
      currency = currency;
      expires_at = now / 1000 + 900;
      status = locked;
    } in
    (record r { price_locks = insert lock_id lock r.price_locks }, lock)

unfoldable pub get_price_lock : String → BookingRepository → Option PriceLock
get_price_lock lock_id r = lookup lock_id r.price_locks

-- The three messages of the ValueError.
pub data Booking : Type 0 where
  no_such_lock lock_expired lock_redeemed : Booking
  confirmed : Reservation → Booking

-- The passenger and the user, as the caller names them.
pub record Passenger : Type 0 where
  pub user_id : String
  pub passenger_name : String
  pub passenger_email : String
  pub special_requests : String

-- `lock["expires_at"] < time.time()`
unfoldable pub is_expired : ℕ → PriceLock → Bool
is_expired now lock = ltb (lock.expires_at * 1000) now

unfoldable pub reservation_of : ℕ → String → String → Passenger → PriceLock → Reservation
reservation_of now booking_id pnr_code p lock = record {
  booking_id = booking_id;
  pnr_code = pnr_code;
  user_id = p.user_id;
  offer_id = lock.offer_id;
  offer_type = lock.offer_type;
  amount_paid = lock.locked_price;
  currency = lock.currency;
  passenger_name = p.passenger_name;
  passenger_email = p.passenger_email;
  special_requests = p.special_requests;
  created_at = now;
}

book_found :
    ℕ
    → String
    → String
    → Passenger
    → String
    → Option PriceLock
    → BookingRepository
    → BookingRepository × Booking
book_found now booking_id pnr_code p lock_id none r = (r, no_such_lock)
book_found now booking_id pnr_code p lock_id (some lock) r =
    if is_expired now lock
    then (r, lock_expired)
    else (if is_booked lock.status
        then (r, lock_redeemed)
        else (let reservation = reservation_of now booking_id pnr_code p lock in
            (
              record r {
                price_locks = insert lock_id (record lock { status = booked }) r.price_locks;
                reservations = insert booking_id reservation r.reservations;
              },
              confirmed reservation,
            )))

unfoldable pub create_reservation :
    ℕ → String → String → Passenger → String → BookingRepository → BookingRepository × Booking
unfolding book_found get_price_lock
create_reservation now booking_id pnr_code p lock_id r =
    book_found now booking_id pnr_code p lock_id (get_price_lock lock_id r) r

of_user : Option String → Option Reservation → Option Reservation
of_user user none = none
of_user user (some res) =
    if truthy (or_empty user) && not (str_eq res.user_id (or_empty user)) then none else some res

unfoldable pub get_reservation : String → Option String → BookingRepository → Option Reservation
unfolding of_user
get_reservation booking_id user r = of_user user (lookup booking_id r.reservations)
