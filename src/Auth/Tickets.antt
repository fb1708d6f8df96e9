-- ===== src/Auth/Tickets.antt =====
-- internal/auth/wsticket.go: single-use WebSocket tickets.
--
-- The store is an association list by ticket id, each id once. Times are nanoseconds; the clock and
-- what `rand.Read` gives (an id, or an error) are arguments. The lock makes each operation one step.
pub mod Store
pub mod SingleUse
mod Examples
use matrixctrl.Common.{
  ℕ, ◌+◌, String, Bool, true, false, Option, none, some, List, [], ◌∷◌, lookup, insert, delete,
  length, str_eq, ltb, leb, if◌then◌else◌,
}

abbrev pub ticket_ttl : ℕ
ticket_ttl = 30_000_000_000

abbrev pub max_tickets : ℕ
max_tickets = 1024

pub record Ticket : Type 0 where
  pub user_id : String
  pub expires : ℕ

abbrev pub Tickets : Type 0
Tickets = List (String × Ticket)

-- `now.After(t.expires)`
abbrev pub expired : ℕ → Ticket → Bool
expired now t = ltb t.expires now

unfoldable pub sweep : ℕ → Tickets → Tickets
sweep now [] = []
sweep now ((id, t) ∷ m) = let rest = sweep now m in if expired now t then rest else (id, t) ∷ rest

pub data Issued : Type 0 where
  issued : String → Issued
  no_user : Issued
  not_random : Issued
  too_many : Issued

abbrev pub store_ticket : ℕ → String → String → Tickets → Issued × Tickets
store_ticket now user id m =
    if leb max_tickets (length m)
    then (too_many, m)
    else (issued id, insert id (record { user_id = user; expires = now + ticket_ttl }) m)

abbrev pub issue_with : ℕ → String → Option String → Tickets → Issued × Tickets
issue_with now user none m = (not_random, m)
issue_with now user (some id) m = store_ticket now user id (sweep now m)

unfoldable pub issue : (now : ℕ) (random : Option String) → String → Tickets → Issued × Tickets
issue now random user m = if str_eq user "" then (no_user, m) else issue_with now user random m

abbrev pub spend : ℕ → String → Option Ticket → Tickets → Option String × Tickets
spend now id none m = (none, m)
spend now id (some t) m = (if expired now t then none else some t.user_id, delete id m)

unfoldable pub redeem : (now : ℕ) → String → Tickets → Option String × Tickets
redeem now id m = if str_eq id "" then (none, m) else spend now id (lookup id m) m
