-- ===== src/Db/Log.antt =====
-- The statements on audit_events and outbox of internal/db/auth.sql.go.
use iam_go_auth.Base.{
  ℕ, ◌+◌, String, not, Option, none, some, List, [], ◌∷◌, ◌++◌, ◌==◌, leb, is_some, some_eq, any,
  select, sort_by, update_where, take,
}
use iam_go_auth.Db.Models.{AuditEvent, Outbox}
use iam_go_auth.Db.Query.{Query, wrote, check}

-- The arguments are those of InsertAuditEventParams.
unfoldable pub insert_audit_event :
    String → String → String → String → String → Option ℕ → Query (Unit {0})
insert_audit_event actor_id actor_email action target detail tenant_id now db =
    let e : AuditEvent = record {
      id = db.next_serial;
      actor_id = actor_id;
      actor_email = actor_email;
      action = action;
      target = target;
      detail = detail;
      created_at = now;
      tenant_id = tenant_id;
    } in
    wrote tt
      (record db { audit_events = db.audit_events ++ e ∷ []; next_serial = db.next_serial + 1 })

-- WHERE tenant_id = $1 ORDER BY id DESC LIMIT $2; a NULL equals nothing.
unfoldable pub list_audit_events : ℕ → ℕ → Query (List AuditEvent)
list_audit_events tenant_id limit now db =
    wrote
      (take limit (
        sort_by (λ (a b : AuditEvent). leb b.id a.id)
          (select (λ (e : AuditEvent). some_eq e.tenant_id tenant_id) db.audit_events)))
      db

unfoldable pub insert_outbox : ℕ → String → String → Query (Unit {0})
insert_outbox aggregate_id event_type payload now db =
    let id = db.uuids db.drawn in
    let o : Outbox = record {
      id = id;
      aggregate_id = aggregate_id;
      event_type = event_type;
      payload = payload;
      created_at = now;
      published_at = none;
      tenant_id = none;
    } in
    check (not (any (λ (p : Outbox). p.id == id) db.outbox))
      (wrote tt (record db { outbox = db.outbox ++ o ∷ []; drawn = db.drawn + 1 }))

-- WHERE published_at IS NULL ORDER BY created_at LIMIT $1
unfoldable pub fetch_unpublished_outbox : ℕ → Query (List Outbox)
fetch_unpublished_outbox limit now db =
    wrote
      (take limit (
        sort_by (λ (a b : Outbox). leb a.created_at b.created_at)
          (select (λ (o : Outbox). not (is_some o.published_at)) db.outbox)))
      db

unfoldable pub mark_outbox_published : ℕ → Query (Unit {0})
mark_outbox_published id now db = wrote tt (record db {
  outbox =
      update_where (λ (o : Outbox). o.id == id) (λ o. record o { published_at = some now })
        db.outbox;
})
