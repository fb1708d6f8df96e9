-- ===== src/Auth/Tickets/Store.antt =====
-- The store of internal/auth/wsticket.go stays bounded.
use matrixctrl.Common.{
  ℕ, ◌+◌, ◌≤◌, String, none, some, List, [], ◌∷◌, insert, delete, length, arith,
}
use matrixctrl.Auth.Tickets.{Ticket, Tickets, ticket_ttl, max_tickets, sweep, issue, redeem}
use matrixctrl.Auth.Tickets.SingleUse.{Request, asks, shows, serve}

length-sweep : (now : ℕ) (m : Tickets) → length (sweep now m) ≤ length m
unfolding sweep
length-sweep now [] = omega arith
length-sweep now ((id, t) ∷ m) = ground (arith, length-sweep now m)

length-insert : (id : String) (t : Ticket) (m : Tickets) → length (insert id t m) ≤ length m + 1
unfolding insert
length-insert id t [] = omega arith
length-insert id t ((k, u) ∷ m) = ground (arith, length-insert id t m)

length-delete : (id : String) (m : Tickets) → length (delete id m) ≤ length m
unfolding delete
length-delete id [] = omega arith
length-delete id ((k, u) ∷ m) = ground (arith, length-delete id m)

length-serve :
    (r : Request) (m : Tickets) → length m ≤ max_tickets → length (serve r m) ≤ max_tickets
unfolding serve issue redeem
length-serve (asks now none user) m h = ground arith
length-serve (asks now (some id) user) m h = ground (
  arith,
  length-sweep now m,
  length-insert id (record { user_id = user; expires = now + ticket_ttl }) (sweep now m),
)
length-serve (shows now id) m h = ground (arith, length-delete id m)

-- The store after a list of requests.
pub serve_all : List Request → Tickets → Tickets
serve_all [] m = m
serve_all (r ∷ rs) m = serve_all rs (serve r m)

length-serve_all :
    (rs : List Request) (m : Tickets)
    → length m ≤ max_tickets
    → length (serve_all rs m) ≤ max_tickets
unfolding serve_all
length-serve_all [] m h = h
length-serve_all (r ∷ rs) m h = length-serve_all rs (serve r m) (length-serve r m h)

-- From the empty store, whatever the requests, at most 1024 tickets are outstanding.
pub serve_all_bounded : (rs : List Request) → length (serve_all rs []) ≤ max_tickets
serve_all_bounded rs = length-serve_all rs [] (omega arith)
