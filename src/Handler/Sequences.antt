-- ===== src/Handler/Sequences.antt =====
-- What one method refuses after another has succeeded.
use iam_go_auth.Base.{
  ℕ, String, Bool, true, false, ◌≡◌, sym, subst, ◌∙◌, inl, inr, Option, none, some, List, [], ◌∷◌,
  any, find, is_some, eq_iff, arith, ap,
}
use iam_go_auth.Db.Models.{User}
use iam_go_auth.Db.Users.{has_id}
use iam_go_auth.Db.Tenants.{active_in}
use iam_go_auth.Rpc.{World, ◌>>=◌}
use iam_go_auth.Rpc.Laws.{After, after-bind, after-weaken}
use iam_go_auth.Rpc.Statements.{Calm}
use iam_go_auth.Handler.{AuthHandler, Identity}
use iam_go_auth.Handler.Validate.{Validated, validate_token}
use iam_go_auth.Handler.Validate.Gate.{Admitted, validate_token-Admitted}
use iam_go_auth.Handler.Tokens.{TokenPair}
use iam_go_auth.Handler.Register.{delete_user_rpc}
use iam_go_auth.Handler.Register.Deletion.{remains, Deleted, delete_user-Deleted}
use iam_go_auth.Handler.Tenants.{remove_member_rpc, switch_tenant}
use iam_go_auth.Handler.Tenants.Switch.{Switched, switch_tenant-Switched}
use iam_go_auth.Handler.Tenants.Removal.{Removed, remove_member-Removed}

same : {a b : ℕ} {o : Option ℕ} → o ≡ some a → o ≡ some b → a ≡ b
same p q = cc

is_true : {b : Bool} → b ≡ true → b ≡ false → ⊥
is_true p q = cc

-- An account that is not deleted remains, after a deletion of either kind.
find-remains :
    (hard : Bool) (uid : ℕ) (us : List User) {u : User}
    → find (has_id uid) us ≡ some u
    → is_some u.deleted_at ≡ false
    → any (remains hard uid) us ≡ true
unfolding find any
find-remains hard uid [] {u} e live = ground arith
find-remains hard uid (x ∷ xs) {u} e live = ground (arith, find-remains hard uid xs {u = u})

module _ (h : AuthHandler) (ctx : Identity) where
  -- Where no call fails: after a DeleteUser that succeeded, hard or soft, ValidateToken answers for
  -- no token of that account.
  pub deleted-refused :
      (user_id token : String) (hard : Bool) (w : World)
      → Calm w
      → After
          (delete_user_rpc h ctx user_id hard >>= λ _. validate_token h token)
          w
          (λ v _. ¬ (h.uuid_parse v.user_id ≡ h.uuid_parse user_id))
          (λ _ _. Unit {0})
  deleted-refused user_id token hard w calm = after-bind _ _ _ (
      after-weaken _ w (delete_user-Deleted h ctx user_id hard w calm)
        (λ _ w1 deleted.
          after-weaken _ w1 (validate_token-Admitted h token w1) (λ v _ a. gone w1 v deleted a)
            (λ _ _ _. tt))
        (λ _ _ _. tt))
    where
      gone :
          (w1 : World) (v : Validated)
          → Deleted h ctx user_id hard w w1
          → Admitted h token w1 v
          → ¬ (h.uuid_parse v.user_id ≡ h.uuid_parse user_id)
      gone w1 v d a e =
          let one_user : a.uid ≡ d.uid =
            same (ap h.uuid_parse a.same_user ∙ a.subject) (e ∙ d.parsed) in
          is_true
            (find-remains hard d.uid w1.db.users
              (subst (λ u. find (has_id u) w1.db.users ≡ some a.user) one_user a.known) a.active)
            d.told.account

  -- Whatever calls fail, where google/uuid does not parse the empty text: after a RemoveMember that
  -- succeeded, ValidateToken answers for no token of that user in the tenant of the caller.
  pub removed-refused :
      (user_id token : String) (w : World)
      → h.uuid_parse "" ≡ none
      → After
          (remove_member_rpc h ctx user_id >>= λ _. validate_token h token)
          w
          (λ v _. ¬ (
            (h.uuid_parse v.user_id ≡ h.uuid_parse user_id)
            × (h.uuid_parse v.tenant_id ≡ h.uuid_parse ctx.tenant_id)))
          (λ _ _. Unit {0})
  removed-refused user_id token w no_empty = after-bind _ _ _ (
      after-weaken _ w (remove_member-Removed h ctx user_id w)
        (λ _ w1 removed.
          after-weaken _ w1 (validate_token-Admitted h token w1) (λ v _ a. gone w1 v removed a)
            (λ _ _ _. tt))
        (λ _ _ _. tt))
    where
      gone :
          (w1 : World) (v : Validated)
          → Removed h ctx user_id w w1
          → Admitted h token w1 v
          → ¬ (
              (h.uuid_parse v.user_id ≡ h.uuid_parse user_id)
              × (h.uuid_parse v.tenant_id ≡ h.uuid_parse ctx.tenant_id))
      gone w1 v r a (eu, et) = elim a.member [
        | inl empty ↦ cc_none (
            ap h.uuid_parse (sym ((eq_iff a.claims.tenant_id "").0 empty))
            ∙ ap h.uuid_parse (sym a.same_tenant)
            ∙ et
            ∙ r.active)
        | inr (tid, parsed, member) ↦
            is_true
              (subst (λ u. any (active_in u r.tenant w1.db.tenants) w1.db.memberships ≡ true)
                (same (ap h.uuid_parse a.same_user ∙ a.subject) (eu ∙ r.named))
                (subst (λ t. any (active_in a.uid t w1.db.tenants) w1.db.memberships ≡ true)
                  (same (ap h.uuid_parse a.same_tenant ∙ parsed) (et ∙ r.active)) member))
              r.refused
      ]
        where
          cc_none : {n : ℕ} → h.uuid_parse "" ≡ some n → ⊥
          cc_none e = cc

  -- Whatever calls fail: after a RemoveMember that succeeded, SwitchTenant gives that user no
  -- tokens for the tenant of the caller.
  pub removed-switch :
      (user_id tenant_id project_id : String) (user : Identity) (w : World)
      → h.uuid_parse user.user_id ≡ h.uuid_parse user_id
      → h.uuid_parse tenant_id ≡ h.uuid_parse ctx.tenant_id
      → After
          (remove_member_rpc h ctx user_id >>= λ _. switch_tenant h user tenant_id project_id)
          w
          (λ _ _. ⊥)
          (λ _ _. Unit {0})
  removed-switch user_id tenant_id project_id user w eu et = after-bind _ _ _ (
      after-weaken _ w (remove_member-Removed h ctx user_id w)
        (λ _ w1 removed.
          after-weaken _ w1 (switch_tenant-Switched h user tenant_id project_id w1)
            (λ pair w2 s. gone w1 pair w2 removed s) (λ _ _ _. tt))
        (λ _ _ _. tt))
    where
      gone :
          (w1 : World) (pair : TokenPair) (w2 : World)
          → Removed h ctx user_id w w1
          → Switched h user tenant_id project_id w1 pair w2
          → ⊥
      gone w1 pair w2 r s =
          is_true
            (subst (λ u. any (active_in u r.tenant w1.db.tenants) w1.db.memberships ≡ true)
              (same s.caller (eu ∙ r.named))
              (subst (λ t. any (active_in s.uid t w1.db.tenants) w1.db.memberships ≡ true)
                (same s.named (et ∙ r.active)) s.member))
            r.refused
