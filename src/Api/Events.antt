-- ===== src/Api/Events.antt =====
-- apps/api/src/handlers/events.ts: the three subscriptions, as a step function. The promise `ready` runs
-- from `await` to `await`; a step is one such piece, a message, or the client's leaving. The
-- check of `canOnWorkflow`, the connection and the decoding of a message end in an event. What a
-- client that leaves puts after a settled `ready` runs in the same step.
pub mod Access
pub mod Requests
pub mod Handshake
use monok8s.Prelude.{
  Bool, true, false, Option, none, some, List, [], ◌∷◌, ◌++◌, Text, lit, if◌then◌else◌,
}
use monok8s.Services.{Thrown, trpc_error, forbidden, Result, ok, throw}

-- Where `ready` stands: at `canOnWorkflow`, at `connectNats`, or settled.
pub data Phase : Type 0 where
  checking connecting settled : Phase

-- The variable `sub`: null, subscribed, or unsubscribed.
pub data Subscription : Type 0 where
  no_subscription active stopped : Subscription

-- What the client is sent: `emit.next` and `emit.error`.
pub data Emission : Type 0 where
  next : Text → Emission
  failure : Thrown → Emission

-- `emitted` is newest first.
pub record Channel : Type 0 where
  pub phase : Phase
  pub cancelled : Bool
  pub sub : Subscription
  pub emitted : List Emission

pub data Event : Type 0 where
  checked : Result Bool → Event
  connected : Result (Unit {0}) → Event
  -- A message, decoded or not, or an error of the subscription.
  message : Result Text → Event
  teardown : Event

-- The channels of tenants and of audit entries need no check here; that of a workflow does.
abbrev pub open_channel : Phase → Channel
open_channel phase = record {
  phase = phase;
  cancelled = false;
  sub = no_subscription;
  emitted = [];
}

abbrev pub unsubscribe : Subscription → Subscription
unsubscribe active = stopped
unsubscribe s = s

-- `ready` settles; the `then` of a client that has left runs.
abbrev pub settle : Channel → Channel
settle c = record {
  phase = settled;
  cancelled = c.cancelled;
  sub = if c.cancelled then unsubscribe c.sub else c.sub;
  emitted = c.emitted;
}

abbrev pub emit : Emission → Channel → Channel
emit e c = record { phase = c.phase; cancelled = c.cancelled; sub = c.sub; emitted = e ∷ c.emitted }

abbrev pub with_phase : Phase → Channel → Channel
with_phase p c = record { phase = p; cancelled = c.cancelled; sub = c.sub; emitted = c.emitted }

abbrev pub subscribed : Channel → Channel
subscribed c = record {
  phase = c.phase;
  cancelled = c.cancelled;
  sub = active;
  emitted = c.emitted;
}

abbrev pub left : Channel → Channel
left c = record { phase = c.phase; cancelled = true; sub = c.sub; emitted = c.emitted }

abbrev pub denied : Text → Thrown
denied workflow_id =
    trpc_error forbidden (lit "missing permission: read on workflow " ++ workflow_id)

module _ (workflow_id : Text) where
  abbrev pub on_checked : Phase → Result Bool → Channel → Channel
  on_checked checking (ok true) c = if c.cancelled then settle c else with_phase connecting c
  on_checked checking (ok false) c = settle (emit (failure (denied workflow_id)) c)
  on_checked checking (throw e) c = settle (emit (failure e) c)
  on_checked _ _ c = c

  abbrev pub on_connected : Phase → Result (Unit {0}) → Channel → Channel
  on_connected connecting (ok _) c = if c.cancelled then settle c else settle (subscribed c)
  on_connected connecting (throw e) c = settle (emit (failure e) c)
  on_connected _ _ c = c

  abbrev pub on_message : Subscription → Result Text → Channel → Channel
  on_message active (ok t) c = emit (next t) c
  on_message active (throw e) c = emit (failure e) c
  on_message _ _ c = c

  abbrev pub on_teardown : Phase → Channel → Channel
  on_teardown settled c = settle (left c)
  on_teardown _ c = left c

  -- One event; one that cannot happen in a state changes nothing.
  unfoldable pub advance : Event → Channel → Channel
  advance (checked r) c = on_checked c.phase r c
  advance (connected r) c = on_connected c.phase r c
  advance (message r) c = on_message c.sub r c
  advance teardown c = on_teardown c.phase c

  -- The events, the newest first.
  unfoldable pub play : Phase → List Event → Channel
  play start [] = open_channel start
  play start (e ∷ es) = advance e (play start es)
