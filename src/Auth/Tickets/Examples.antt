-- ===== src/Auth/Tickets/Examples.antt =====
-- One ticket, issued and shown twice.
use matrixctrl.Common.{
  ◌+◌, ◌≤◌, ◌≡◌, refl, none, some, List, [], ◌∷◌, length, lookup, leb, if◌then◌else◌, false≢true,
  eq_iff,
}
use matrixctrl.Auth.Tickets.{issue, redeem, sweep, ticket_ttl, max_tickets}
use matrixctrl.Auth.Tickets.SingleUse.{
  Request, asks, shows, successes, drawn, redeem-issue, successes-le-drawn,
}
use matrixctrl.Auth.Tickets.Store.{serve_all, serve_all_bounded}

abbrev visit : List Request
visit = asks 10 (some "t1") "@alice:example.org" ∷ shows 20 "t1" ∷ shows 30 "t1" ∷ []

redeem-issue_example :
    (redeem 20 "t1" (issue 10 (some "t1") "@alice" []).1).0
    ≡ (if leb 20 (10 + ticket_ttl) then some "@alice" else none)
unfolding issue sweep
redeem-issue_example =
    redeem-issue 10 20 "@alice" "t1" [] (λ p. false≢true ((eq_iff "t1" "").1 p)) refl

successes-le-drawn_example : successes "t1" visit [] ≤ drawn "t1" visit
unfolding lookup
successes-le-drawn_example = successes-le-drawn "t1" visit [] refl

serve_all_bounded_example : length (serve_all visit []) ≤ max_tickets
serve_all_bounded_example = serve_all_bounded visit
