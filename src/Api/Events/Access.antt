-- ===== src/Api/Events/Access.antt =====
-- Who is sent what, and that nothing is left behind.
use monok8s.Prelude.{◌≡◌, ◌≢◌, refl, sym, Bool, true, false, List, [], ◌∷◌, Text, any, arith}
use monok8s.Services.{ok, throw}
use monok8s.Api.Events.{
  Phase, checking, connecting, settled, Subscription, no_subscription, active, stopped, Emission,
  next, Channel, Event, checked, connected, message, teardown, advance, play,
}

abbrev pub is_grant : Event → Bool
is_grant (checked (ok true)) = true
is_grant _ = false

abbrev pub is_next : Emission → Bool
is_next (next _) = true
is_next _ = false

-- Before a grant there is no connection, no subscription, and nothing but errors.
pub data Closed : Phase → Subscription → List Emission → Type 0 where
  unchecked : (em : List Emission) → any is_next em ≡ false → Closed checking no_subscription em
  refused : (em : List Emission) → any is_next em ≡ false → Closed settled no_subscription em

-- No subscription before `ready` settles, and none that is active after the client has left, too.
pub data Clean : Phase → Bool → Subscription → Type 0 where
  unready : (k : Bool) → Clean checking k no_subscription
  unconnected : (k : Bool) → Clean connecting k no_subscription
  present : (s : Subscription) → Clean settled false s
  gone : Clean settled true no_subscription
  gone_after : Clean settled true stopped

abbrev pub channel : Phase → Bool → Subscription → List Emission → Channel
channel p k s em = record { phase = p; cancelled = k; sub = s; emitted = em }

module _ (w : Text) where
  Closed-step :
      (e : Event) (p : Phase) (k : Bool) (s : Subscription) (em : List Emission)
      → is_grant e ≡ false
      → Closed p s em
      → let c = advance w e (channel p k s em) in Closed c.phase c.sub c.emitted
  unfolding advance
  Closed-step (checked (ok true)) p k s em g i = absurd (grind arith)
  Closed-step (checked (ok false)) _ true _ _ g (unchecked em q) = refused _ q
  Closed-step (checked (ok false)) _ false _ _ g (unchecked em q) = refused _ q
  Closed-step (checked (throw x)) _ true _ _ g (unchecked em q) = refused _ q
  Closed-step (checked (throw x)) _ false _ _ g (unchecked em q) = refused _ q
  Closed-step (checked (ok false)) _ k _ _ g (refused em q) = refused em q
  Closed-step (checked (throw x)) _ k _ _ g (refused em q) = refused em q
  Closed-step (connected (ok u)) _ k _ _ g (unchecked em q) = unchecked em q
  Closed-step (connected (throw x)) _ k _ _ g (unchecked em q) = unchecked em q
  Closed-step (connected (ok u)) _ k _ _ g (refused em q) = refused em q
  Closed-step (connected (throw x)) _ k _ _ g (refused em q) = refused em q
  Closed-step (message r) _ k _ _ g (unchecked em q) = unchecked em q
  Closed-step (message r) _ k _ _ g (refused em q) = refused em q
  Closed-step teardown _ k _ _ g (unchecked em q) = unchecked em q
  Closed-step teardown _ k _ _ g (refused em q) = refused em q

  Closed-play :
      (es : List Event)
      → any is_grant es ≡ false
      → let c = play w checking es in Closed c.phase c.sub c.emitted
  unfolding play
  Closed-play [] g = unchecked [] refl
  Closed-play (e ∷ es) g =
      let c = play w checking es in
      Closed-step e c.phase c.cancelled c.sub c.emitted (ground arith)
        (Closed-play es (ground arith))

  Closed-silent :
      (p : Phase) (s : Subscription) (em : List Emission)
      → Closed p s em
      → (any is_next em ≡ false) × (s ≡ no_subscription)
  Closed-silent _ _ _ (unchecked em q) = (q, refl)
  Closed-silent _ _ _ (refused em q) = (q, refl)

  -- On the channel of a workflow, as long as `canOnWorkflow` has not answered yes, no message is sent
  -- to the client and none is subscribed to, whatever happens in whatever order.
  pub play-closed :
      (es : List Event)
      → any is_grant es ≡ false
      → (any is_next (play w checking es).emitted ≡ false)
        × ((play w checking es).sub ≡ no_subscription)
  play-closed es g = Closed-silent _ _ _ (Closed-play es g)

  Clean-step :
      (e : Event) (p : Phase) (k : Bool) (s : Subscription) (em : List Emission)
      → Clean p k s
      → let c = advance w e (channel p k s em) in Clean c.phase c.cancelled c.sub
  unfolding advance
  Clean-step (checked (ok true)) _ _ _ em (unready true) = gone
  Clean-step (checked (ok true)) _ _ _ em (unready false) = unconnected false
  Clean-step (checked (ok false)) _ _ _ em (unready true) = gone
  Clean-step (checked (ok false)) _ _ _ em (unready false) = present _
  Clean-step (checked (throw x)) _ _ _ em (unready true) = gone
  Clean-step (checked (throw x)) _ _ _ em (unready false) = present _
  Clean-step (connected (ok u)) _ _ _ em (unready k) = unready k
  Clean-step (connected (throw x)) _ _ _ em (unready k) = unready k
  Clean-step (message r) _ _ _ em (unready k) = unready k
  Clean-step teardown _ _ _ em (unready k) = unready true
  Clean-step (checked r) _ _ _ em (unconnected k) = unconnected k
  Clean-step (connected (ok u)) _ _ _ em (unconnected true) = gone
  Clean-step (connected (ok u)) _ _ _ em (unconnected false) = present _
  Clean-step (connected (throw x)) _ _ _ em (unconnected true) = gone
  Clean-step (connected (throw x)) _ _ _ em (unconnected false) = present _
  Clean-step (message r) _ _ _ em (unconnected k) = unconnected k
  Clean-step teardown _ _ _ em (unconnected k) = unconnected true
  Clean-step (checked r) _ _ _ em (present s) = present s
  Clean-step (connected r) _ _ _ em (present s) = present s
  Clean-step (message (ok t)) _ _ _ em (present no_subscription) = present _
  Clean-step (message (ok t)) _ _ _ em (present active) = present _
  Clean-step (message (ok t)) _ _ _ em (present stopped) = present _
  Clean-step (message (throw x)) _ _ _ em (present no_subscription) = present _
  Clean-step (message (throw x)) _ _ _ em (present active) = present _
  Clean-step (message (throw x)) _ _ _ em (present stopped) = present _
  Clean-step teardown _ _ _ em (present no_subscription) = gone
  Clean-step teardown _ _ _ em (present active) = gone_after
  Clean-step teardown _ _ _ em (present stopped) = gone_after
  Clean-step (checked r) _ _ _ em gone = gone
  Clean-step (connected r) _ _ _ em gone = gone
  Clean-step (message r) _ _ _ em gone = gone
  Clean-step teardown _ _ _ em gone = gone
  Clean-step (checked r) _ _ _ em gone_after = gone_after
  Clean-step (connected r) _ _ _ em gone_after = gone_after
  Clean-step (message r) _ _ _ em gone_after = gone_after
  Clean-step teardown _ _ _ em gone_after = gone_after

  Clean-play :
      (start : Phase) (es : List Event) → let c = play w start es in Clean c.phase c.cancelled c.sub
  unfolding play
  Clean-play checking [] = unready false
  Clean-play connecting [] = unconnected false
  Clean-play settled [] = present no_subscription
  Clean-play start (e ∷ es) =
      let c = play w start es in
      Clean-step e c.phase c.cancelled c.sub c.emitted (Clean-play start es)

  Clean-left : (p : Phase) (s : Subscription) → Clean p true s → (s ≡ active) → ⊥
  Clean-left _ _ (unready _) e = absurd (grind arith)
  Clean-left _ _ (unconnected _) e = absurd (grind arith)
  Clean-left _ _ gone e = absurd (grind arith)
  Clean-left _ _ gone_after e = absurd (grind arith)

  -- On every channel: once the client has left, no subscription is active, however the leaving falls
  -- among the check, the connection and the messages.
  pub play-clean :
      (start : Phase) (es : List Event)
      → (play w start es).cancelled ≡ true
      → (play w start es).sub ≢ active
  play-clean start es k =
      let c = play w start es in Clean-left c.phase c.sub (rw (sym k) (Clean-play start es))
