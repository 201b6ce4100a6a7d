-- ===== src/Handler/Listings/Bounds.antt =====
-- ListAuditEvents answers with a bounded number of events, all of the caller's tenant.
use iam_go_auth.Base.{
  ℕ, ◌≤◌, true, ◌≡◌, refl, some, List, length, take, All, select, sort_by, some_eq, arith, leb,
}
use iam_go_auth.Base.{All-sort_by, All-take, All-select, length-take}
use iam_go_auth.Db.Models.{Db, AuditEvent}
use iam_go_auth.Db.Log.{list_audit_events}
use iam_go_auth.Rpc.{World}
use iam_go_auth.Rpc.Laws.{After, after-bind}
use iam_go_auth.Rpc.Reads.{after-must_value}
use iam_go_auth.Handler.{AuthHandler, Identity}
use iam_go_auth.Handler.Guards.{after-require_perm, after-active_tenant}
use iam_go_auth.Handler.Listings.{audit_limit, list_audit_events_rpc}

audit_limit-bounded : (n : ℕ) → audit_limit n ≤ 200
audit_limit-bounded n = ground arith

abbrev OfTenant : ℕ → AuditEvent → Type 0
OfTenant tenant e = some_eq e.tenant_id tenant ≡ true

module _ (h : AuthHandler) (ctx : Identity) where
  -- What an answer of ListAuditEvents shows.
  pub record Audited (events : List AuditEvent) : Type 0 where
    pub permitted : ctx.has_permission "audit:read" ≡ true
    pub tenant : ℕ
    pub active : h.uuid_parse ctx.tenant_id ≡ some tenant
    pub bounded : length events ≤ 200
    pub own : All (λ (e : AuditEvent). some_eq e.tenant_id tenant ≡ true) events

  -- Whatever calls fail and whatever limit is asked for: ListAuditEvents changes no table, and an
  -- answer of it has at most 200 events, every one of the caller's tenant, and was made with the
  -- permission audit:read.
  pub list_audit_events-Audited :
      (limit : ℕ) (w : World)
      → After
          (list_audit_events_rpc h ctx limit)
          w
          (λ events w'. Audited events × (w'.db ≡ w.db))
          (λ _ w'. w'.db ≡ w.db)
  unfolding list_audit_events_rpc list_audit_events
  list_audit_events-Audited limit w = after-bind _ _ _ (
      after-require_perm ctx _ w
        (λ permitted. after-bind _ _ _ (
          after-active_tenant h ctx w
            (λ tenant active.
              after-must_value (list_audit_events tenant (audit_limit limit))
                (λ _ (db : Db). take (audit_limit limit) (
                  sort_by (λ (a b : AuditEvent). leb b.id a.id)
                    (select (λ (e : AuditEvent). some_eq e.tenant_id tenant) db.audit_events)))
                _ _ w (λ _ _. refl)
                (λ w1 r. (
                  record {
                    permitted = permitted;
                    tenant = tenant;
                    active = active;
                    bounded = below (length-take (audit_limit limit) _) (audit_limit-bounded limit);
                    own = All-take (OfTenant tenant) (audit_limit limit) _ (
                        All-sort_by (OfTenant tenant) _ _ (
                          All-select (λ (e : AuditEvent). some_eq e.tenant_id tenant)
                            w.db.audit_events));
                  },
                  r.db,
                ))
                (λ _ e. e))
            (λ _. refl)))
        (λ _. refl))
    where
      below : {a b c : ℕ} → a ≤ b → b ≤ c → a ≤ c
      below p q = omega arith
