-- ===== src/Examples/Tenancy.antt =====
-- The theorems on tenants, roles, members and OAuth clients, run on the small installation.
use iam_go_auth.Base.{
  true, false, none, some, [], ◌∷◌, ◌≡◌, refl, str_eq, any, if◌then◌else◌, find, select, sort_by,
  distinct, flat_map, filter_map, insert_by, str_append,
}
use iam_go_auth.Db.Query.{row}
use iam_go_auth.Db.Oauth.{unclaimed}
use iam_go_auth.Db.Permissions.{get_user_permissions_scoped}
use iam_go_auth.Db.Permissions.Laws.{is_permitted, get_user_permissions_scoped-is_permitted}
use iam_go_auth.Rpc.{World, ◌>>=◌}
use iam_go_auth.Rpc.Laws.{After}
use iam_go_auth.Cache.{Cache, perms_key, invalidate_perms}
use iam_go_auth.Examples.RedisServer.{server, server-IsRedis}
use iam_go_auth.Cache.Scan.{plain, Forgotten, Aside}
use iam_go_auth.Cache.Invalidation.{invalidate_perms-Forgotten}
use iam_go_auth.Handler.{display_from_email}
use iam_go_auth.Handler.Login.Sound.{SameTokens}
use iam_go_auth.Handler.Register.{delete_user_rpc}
use iam_go_auth.Handler.Register.Atomic.{Unwritten}
use iam_go_auth.Handler.Validate.{validate_token}
use iam_go_auth.Handler.Oidc.{Exchange, exchange_authorization_code}
use iam_go_auth.Handler.Oidc.Redemption.{Redeemed, exchange-Redeemed}
use iam_go_auth.Handler.Oidc.Once.{invalid_grant, exchange-Used, exchange-once}
use iam_go_auth.Handler.Clients.{save_consent, get_consent}
use iam_go_auth.Handler.Clients.Consent.{save-get_consent}
use iam_go_auth.Handler.Tenants.{switch_tenant, create_tenant_rpc, remove_member_rpc}
use iam_go_auth.Handler.Tenants.Switch.{Switched, switch_tenant-Switched}
use iam_go_auth.Handler.Tenants.Founding.{TenantCreated, create_tenant-TenantCreated}
use iam_go_auth.Handler.Tenants.Removal.{Removed, remove_member-Removed}
use iam_go_auth.Handler.Sequences.{deleted-refused, removed-refused, removed-switch}
use iam_go_auth.Handler.Assignments.{assign_role, assign_role_bulk}
use iam_go_auth.Handler.Assignments.Given.{Assigned, assign_role-Assigned}
use iam_go_auth.Handler.Assignments.Bulk.{Bulk, assign_role_bulk-Bulk}
use iam_go_auth.Handler.Listings.{list_audit_events_rpc}
use iam_go_auth.Handler.Listings.Bounds.{Audited, list_audit_events-Audited}
use iam_go_auth.Handler.Bootstrap.{bootstrap_account}
use iam_go_auth.Handler.Bootstrap.Once.{Present, bootstrap_account-Present}
use iam_go_auth.Handler.Display.{display_from_email-append}
use iam_go_auth.Examples.Installation.{
  now, database, world, calm, handler, caller, authorization_code,
}

abbrev request : Exchange
request = record {
  code = "code";
  client_id = "app";
  client_secret = "";
  redirect_uri = "https://app/cb";
  code_verifier = "verifier";
}

exchange-Redeemed_example :
    After
      (exchange_authorization_code handler request)
      world
      (Redeemed handler request world)
      (λ _ _. Unit)
exchange-Redeemed_example = exchange-Redeemed handler request world

exchange-once_example :
    After
      (exchange_authorization_code handler request >>= λ _.
        exchange_authorization_code handler (record request { client_id = "other" }))
      world
      (λ _ _. ⊥)
      (λ _ _. Unit)
exchange-once_example =
    exchange-once handler request (record request { client_id = "other" }) world refl

-- The code has been exchanged before.
abbrev used : World
used = record world {
  db = record database { authorization_codes = record authorization_code { used = true } ∷ [] };
}

all_used : any (unclaimed "h-code") used.db.authorization_codes ≡ false
unfolding any
all_used = refl

exchange-Used_example :
    After
      (exchange_authorization_code handler request)
      used
      (λ _ _. ⊥)
      (λ s w'. (s ≡ invalid_grant) × (w'.db ≡ used.db))
exchange-Used_example = exchange-Used handler request used all_used

switch_tenant-Switched_example :
    After
      (switch_tenant handler caller "7" "")
      world
      (Switched handler caller "7" "" world)
      (λ _. SameTokens world)
switch_tenant-Switched_example = switch_tenant-Switched handler caller "7" "" world

create_tenant-TenantCreated_example :
    After
      (create_tenant_rpc handler caller "globex" "Globex")
      world
      (TenantCreated handler caller "globex" "Globex" world)
      (λ _. Unwritten world)
create_tenant-TenantCreated_example =
    create_tenant-TenantCreated handler caller "globex" "Globex" world

remove_member-Removed_example :
    After
      (remove_member_rpc handler caller "3")
      world
      (λ _. Removed handler caller "3" world)
      (λ _. Unwritten world)
remove_member-Removed_example = remove_member-Removed handler caller "3" world

removed-refused_example :
    After
      (remove_member_rpc handler caller "1" >>= λ _. validate_token handler "access")
      world
      (λ v _. ¬ (
        (handler.uuid_parse v.user_id ≡ handler.uuid_parse "1")
        × (handler.uuid_parse v.tenant_id ≡ handler.uuid_parse "7")))
      (λ _ _. Unit)
removed-refused_example = removed-refused handler caller "1" "access" world refl

removed-switch_example :
    After
      (remove_member_rpc handler caller "1" >>= λ _. switch_tenant handler caller "7" "")
      world
      (λ _ _. ⊥)
      (λ _ _. Unit)
removed-switch_example = removed-switch handler caller "1" "7" "" caller world refl refl

deleted-refused_example :
    After
      (delete_user_rpc handler caller "1" false >>= λ _. validate_token handler "access")
      world
      (λ v _. ¬ (handler.uuid_parse v.user_id ≡ handler.uuid_parse "1"))
      (λ _ _. Unit)
deleted-refused_example = deleted-refused handler caller "1" "access" false world calm

abbrev cache : Cache
cache = record {
  enabled = true;
  server = server;
  json = record { marshal = λ _. "[]"; unmarshal = λ _. some [] };
}

abbrev cached : World
cached = record world {
  redis =
      record { key = "perms:7:-:1"; value = "[]"; expires = now }
      ∷ record { key = "denylist:x"; value = "1"; expires = now }
      ∷ [];
}

invalidate_perms-Forgotten_example :
    After
      (invalidate_perms cache "1")
      cached
      (λ _ w'. Forgotten (perms_key "7" "" "1") w'.redis × Aside cached w')
      (λ _ _. ⊥)
unfolding plain
invalidate_perms-Forgotten_example =
    invalidate_perms-Forgotten cache "1" "7" "" cached server-IsRedis refl refl refl

assign_role-Assigned_example :
    After
      (assign_role handler caller "3" "user" "")
      world
      (λ _. Assigned handler caller "3" "user" "" world)
      (λ _. Unwritten world)
assign_role-Assigned_example = assign_role-Assigned handler caller "3" "user" "" world

assign_role_bulk-Bulk_example :
    After
      (assign_role_bulk handler caller ("1" ∷ "nobody" ∷ "3" ∷ []) "user" "")
      world
      (Bulk handler caller ("1" ∷ "nobody" ∷ "3" ∷ []) "user" "" world)
      (λ _ w'. w'.db ≡ world.db)
assign_role_bulk-Bulk_example =
    assign_role_bulk-Bulk handler caller ("1" ∷ "nobody" ∷ "3" ∷ []) "user" "" world

list_audit_events-Audited_example :
    After
      (list_audit_events_rpc handler caller 1000)
      world
      (λ events w'. Audited handler caller events × (w'.db ≡ world.db))
      (λ _ w'. w'.db ≡ world.db)
list_audit_events-Audited_example = list_audit_events-Audited handler caller 1000 world

permissions_of_alice :
    get_user_permissions_scoped 1 7 none now database ≡ row ("audit:read" ∷ [], database)
unfolding get_user_permissions_scoped select sort_by distinct flat_map filter_map find insert_by any
permissions_of_alice = refl

get_user_permissions_scoped-is_permitted_example :
    (any (str_eq "audit:read") ("audit:read" ∷ []) ≡ is_permitted 1 7 none database "audit:read")
    × (database ≡ database)
get_user_permissions_scoped-is_permitted_example =
    get_user_permissions_scoped-is_permitted 1 7 none now database database ("audit:read" ∷ [])
      "audit:read" permissions_of_alice

save-get_consent_example :
    After
      (save_consent handler "1" "app" ("openid" ∷ []) >>= λ _. get_consent handler "1" "app")
      world
      (λ read _. read ≡ "openid" ∷ [])
      (λ _ _. Unit)
save-get_consent_example = save-get_consent handler "1" "app" ("openid" ∷ []) world

bootstrap_account-Present_example :
    After
      (bootstrap_account handler "admin" "root@acme" "secret")
      world
      (λ _. Present handler "root@acme" "secret" world)
      (λ _. Unwritten world)
bootstrap_account-Present_example =
    bootstrap_account-Present handler "admin" "root@acme" "secret" world refl

display_from_email-append_example :
    display_from_email (str_append "alice" (str_append "@" "acme@x"))
    ≡ (if str_eq "alice" "" then str_append "alice" (str_append "@" "acme@x") else "alice")
display_from_email-append_example = display_from_email-append "alice" "acme@x" refl
