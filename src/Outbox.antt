-- ===== src/Outbox.antt =====
-- internal/outbox/relay.go: one drain of the outbox to the broker, and the ticks of Run.
--
-- JetStream is the list of the messages that it has accepted: the subject, the payload and the
-- message id, by which the server drops a message that it has seen.
pub mod Delivery
pub mod Waiting
pub mod Progress
use iam_go_auth.Base.{
  ℕ, zero, suc, String, Bool, true, false, List, [], ◌∷◌, ◌++◌, str_append, if◌then◌else◌,
}
use iam_go_auth.Db.Models.{Outbox}
use iam_go_auth.Db.Query.{Query, Answer, row, no_rows, failed}
use iam_go_auth.Db.Log.{fetch_unpublished_outbox, mark_outbox_published}
use iam_go_auth.Rpc.{World, Result, ok, err, next_fault, exec}

pub record Message : Type 0 where
  pub subject : String
  pub payload : String
  pub id : String

abbrev pub batch : ℕ
batch = 100

-- The world, and what the broker has accepted.
pub record Relay : Type 0 where
  pub world : World
  pub accepted : List Message

-- events.SubjectPrefix, and uuid.UUID.String.
module _ (subject_prefix : String) (uuid_string : ℕ → String) where
  abbrev pub message_of : Outbox → Message
  message_of o = record {
    subject = str_append subject_prefix o.event_type;
    payload = o.payload;
    id = uuid_string o.id;
  }

  -- js.Publish: true where the broker has the message.
  unfoldable pub publish : Outbox → Relay → Bool × Relay
  publish o r =
      let (fault, rest) = next_fault r.world.faults in
      let world = record r.world { faults = rest } in
      if fault
      then (false, record { world = world; accepted = r.accepted })
      else (true, record { world = world; accepted = r.accepted ++ message_of o ∷ [] })

  -- MarkOutboxPublished, once the broker has the message.
  mark : List Message → Result (Answer (Unit {0})) × World → Bool × Relay
  mark accepted (ok (row _), w) = (true, record { world = w; accepted = accepted })
  mark accepted (_, w) = (false, record { world = w; accepted = accepted })

  -- One turn of the loop: false is the return of an error.
  relay_row : Outbox → Bool × Relay → Bool × Relay
  unfolding mark
  relay_row o (false, r) = (false, r)
  relay_row o (true, r) = mark r.accepted (exec (mark_outbox_published o.id) r.world)

  unfoldable pub relay_rows : List Outbox → Relay → Bool × Relay
  unfolding relay_row publish
  relay_rows [] r = (true, r)
  relay_rows (o ∷ os) r =
      let (done, r1) = relay_row o (publish o r) in
      let rest = relay_rows os r1 in if done then rest else (false, r1)

  fetched : List Message → Result (Answer (List Outbox)) × World → Bool × Relay
  unfolding relay_rows
  fetched accepted (ok (row os), w) = relay_rows os (record { world = w; accepted = accepted })
  fetched accepted (_, w) = (false, record { world = w; accepted = accepted })

  -- drain: false where it returned an error.
  unfoldable pub drain : Relay → Bool × Relay
  unfolding fetched
  drain r = fetched r.accepted (exec (fetch_unpublished_outbox batch) r.world)

  -- The ticks of Run, before its context is cancelled: a failed drain is only logged.
  unfoldable pub run : ℕ → Relay → Relay
  unfolding drain
  run zero r = r
  run (suc ticks) r = run ticks (drain r).1
