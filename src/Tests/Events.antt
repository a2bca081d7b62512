-- ===== src/Tests/Events.antt =====
-- A client that leaves while the connection is made, one that is refused, and what clients ask for.
use monok8s.Prelude.{◌≡◌, ◌≢◌, ◌⊎◌, refl, true, false, some, [], ◌∷◌, lit, any}
use monok8s.Services.{ok}
use monok8s.Api.Events.{
  advance, checking, no_subscription, active, checked, connected, message, teardown, play,
}
use monok8s.Api.Events.Requests.{object}
use monok8s.Api.Events.Handshake.{ChecksTenant, Refuses, handshake-tenant}
use monok8s.Fixtures.{acme, alice, env}
use monok8s.Api.Events.Access.{is_next, play-closed, play-clean}

play-closed_example :
    (any is_next
        (play
          (lit "w1")
          checking
          (message (ok (lit "m")) ∷ connected (ok tt) ∷ checked (ok false) ∷ [])).emitted
      ≡ false)
    × ((play
          (lit "w1")
          checking
          (message (ok (lit "m")) ∷ connected (ok tt) ∷ checked (ok false) ∷ [])).sub
        ≡ no_subscription)
play-closed_example =
    play-closed (lit "w1") (message (ok (lit "m")) ∷ connected (ok tt) ∷ checked (ok false) ∷ [])
      refl

play-clean_example :
    (play (lit "w1") checking (connected (ok tt) ∷ teardown ∷ checked (ok true) ∷ [])).sub ≢ active
unfolding play advance
play-clean_example =
    play-clean (lit "w1") checking (connected (ok tt) ∷ teardown ∷ checked (ok true) ∷ []) refl

handshake-tenant_example :
    Refuses env alice (object (some acme)) [] ⊎ ChecksTenant env alice (object (some acme)) []
handshake-tenant_example = handshake-tenant env alice (object (some acme)) []
