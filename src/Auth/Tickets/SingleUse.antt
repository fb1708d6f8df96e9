-- ===== src/Auth/Tickets/SingleUse.antt =====
-- What a ticket of internal/auth/wsticket.go is worth: one handshake, of the user it was issued to.
use matrixctrl.Common.{
  ℕ, ◌+◌, ◌≤◌, String, ◌≡◌, ◌≢◌, Bool, true, false, Option, none, some, List, [], ◌∷◌, lookup,
  lookup-insert, lookup-delete, str_eq, str_eq_self, str_eq_ne, eq_iff, leb, arith, if◌then◌else◌,
}
use matrixctrl.Auth.Tickets.{Ticket, Tickets, ticket_ttl, sweep, issued, issue, redeem}

-- Once redeemed, in time or not, a ticket is worth nothing: a second redemption finds no user,
-- whenever it comes, and changes nothing.
pub redeem-redeem :
    (now later : ℕ) (id : String) (m : Tickets)
    → redeem later id (redeem now id m).1 ≡ (none, (redeem now id m).1)
unfolding redeem
redeem-redeem now later id m = ground (arith, lookup-delete id id m, str_eq_self id)

-- A ticket that was issued is redeemed to its user up to its last moment, and not after it.
pub redeem-issue :
    (now later : ℕ) (user id : String) (m : Tickets)
    → id ≢ ""
    → (issue now (some id) user m).0 ≡ issued id
    → (redeem later id (issue now (some id) user m).1).0
      ≡ (if leb later (now + ticket_ttl) then some user else none)
unfolding redeem issue
redeem-issue now later user id m named h = ground (
  arith,
  lookup-insert id id (record { user_id = user; expires = now + ticket_ttl }) (sweep now m),
  str_eq_self id,
  str_eq_ne id "" named,
)

-- What may happen to the store: requests for tickets and handshakes, each at its time.
pub data Request : Type 0 where
  asks : (now : ℕ) (random : Option String) (user : String) → Request
  shows : (now : ℕ) (id : String) → Request

unfoldable pub serve : Request → Tickets → Tickets
serve (asks now random user) m = (issue now random user m).1
serve (shows now id) m = (redeem now id m).1

abbrev one_if_some : Option String → ℕ
one_if_some none = 0
one_if_some (some u) = 1

abbrev one_if : Bool → ℕ
one_if true = 1
one_if false = 0

-- How many handshakes with the ticket `id` succeed when the requests are served in order.
pub successes : String → List Request → Tickets → ℕ
successes id [] m = 0
successes id (asks now random user ∷ rest) m = successes id rest (serve (asks now random user) m)
successes id (shows now k ∷ rest) m =
    (if str_eq k id then one_if_some (redeem now k m).0 else 0)
    + successes id rest (serve (shows now k) m)

-- How often the generator gives `id`.
pub drawn : String → List Request → ℕ
drawn id [] = 0
drawn id (asks now none user ∷ rest) = drawn id rest
drawn id (asks now (some k) user ∷ rest) = one_if (str_eq k id) + drawn id rest
drawn id (shows now k ∷ rest) = drawn id rest

abbrev present : Option Ticket → ℕ
present none = 0
present (some t) = 1

present-sweep :
    (now : ℕ) (id : String) (m : Tickets)
    → present (lookup id (sweep now m)) ≤ present (lookup id m)
unfolding lookup sweep
present-sweep now id [] = omega arith
present-sweep now id ((k, t) ∷ m) = ground (arith, present-sweep now id m)

-- A handshake that succeeds takes the ticket out.
present-redeem :
    (now : ℕ) (k id : String) (m : Tickets)
    → (if str_eq k id then one_if_some (redeem now k m).0 else 0)
        + present (lookup id (redeem now k m).1)
      ≤ present (lookup id m)
unfolding redeem
present-redeem now k id m = ground (arith, lookup-delete k id m, eq_iff k id)

present-issue :
    (now : ℕ) (k id user : String) (m : Tickets)
    → present (lookup id (issue now (some k) user m).1)
      ≤ present (lookup id m) + one_if (str_eq k id)
unfolding issue
present-issue now k id user m = ground (
  arith,
  present-sweep now id m,
  lookup-insert k id (record { user_id = user; expires = now + ticket_ttl }) (sweep now m),
)

-- With no random id nothing is stored.
issue_not_random : (now : ℕ) (user : String) (m : Tickets) → (issue now none user m).1 ≡ m
unfolding issue
issue_not_random now user m = ground arith

successes-le-present-drawn :
    (id : String) (rs : List Request) (m : Tickets)
    → successes id rs m ≤ present (lookup id m) + drawn id rs
unfolding successes drawn serve
successes-le-present-drawn id [] m = omega arith
successes-le-present-drawn id (asks now none user ∷ rest) m =
    rw issue_not_random (successes-le-present-drawn id rest m)
successes-le-present-drawn id (asks now (some k) user ∷ rest) m = omega (
  arith,
  present-issue now k id user m,
  successes-le-present-drawn id rest (issue now (some k) user m).1,
)
successes-le-present-drawn id (shows now k ∷ rest) m =
    omega (arith, present-redeem now k id m, successes-le-present-drawn id rest (redeem now k m).1)

-- From a store without the ticket, whatever the requests: no more handshakes with it succeed than
-- the generator gave it times. One that is drawn once serves one handshake at most.
pub successes-le-drawn :
    (id : String) (rs : List Request) (m : Tickets)
    → lookup id m ≡ none
    → successes id rs m ≤ drawn id rs
successes-le-drawn id rs m absent = omega (arith, successes-le-present-drawn id rs m, absent_none)
  where
    absent_none : present (lookup id m) ≡ 0
    absent_none = rw absent
