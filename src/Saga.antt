-- ===== src/Saga.antt =====
-- internal/saga/saga.go: the consumer of failed profile creations.
--
-- The JSON of iam-go-libs/events and google/uuid are parameters; Start is the subscription itself.
use iam_go_auth.Base.{String, Option, none, some}
use iam_go_auth.Db.Log.{insert_audit_event}
use iam_go_auth.Rpc.{M, pure, ◌>>◌, try}
use iam_go_auth.Handler.{Libs}

-- events.ProfileCreationFailed
pub record ProfileCreationFailed : Type 0 where
  pub user_id : String
  pub reason : String

-- What the handler tells JetStream: never to send the message again, or that it was handled.
pub data Settled : Type 0 where
  term ack : Settled

module _ (libs : Libs) where
  pub record_failure : ProfileCreationFailed → M Settled
  record_failure ev = do
    try (insert_audit_event "system" "saga" "profile.creation_failed" ev.user_id ev.reason none)
    pure ack

  pub handle_event : Option ProfileCreationFailed → M Settled
  unfolding record_failure
  handle_event none = pure term
  handle_event (some ev) = elim (libs.uuid_parse ev.user_id) [
    | none ↦ pure term
    | some _ ↦ record_failure ev
  ]

  -- `unmarshal` is json.Unmarshal into the event.
  unfoldable pub handle : (String → Option ProfileCreationFailed) → String → M Settled
  unfolding handle_event
  handle unmarshal data_ = handle_event (unmarshal data_)
