-- ===== src/Handler/Register/Deletion.antt =====
-- DeleteUser removes the account and its sessions and tells of it together, or does nothing.
use iam_go_auth.Base.{
  ℕ, ◌+◌, String, Bool, true, false, not, ◌&&◌, ◌||◌, ◌≡◌, refl, sym, ap, ◌∙◌, none, some, List, [],
  ◌∷◌, ◌++◌, any, any-delete_where, any-update_where_none, is_some, arith, if◌then◌else◌, inl, inr,
  delete_where,
}
use iam_go_auth.Db.Models.{Db, User, Outbox}
use iam_go_auth.Db.Query.Laws.{row-snd}
use iam_go_auth.Db.Users.{has_id, delete_user, soft_delete_user}
use iam_go_auth.Db.Tokens.{belongs_to, revoke_all_user_refresh_tokens}
use iam_go_auth.Rpc.{World, Status, open_tx, aborted, must, internal}
use iam_go_auth.Rpc.Laws.{
  After, after-pure, after-raise, after-or_raise, after-bind, after-weaken, after-if,
}
use iam_go_auth.Rpc.Statements.{Calm, Calm-Ran, after-must, after-try}
use iam_go_auth.Rpc.Transactions.{Begun, Committed, Undone, after-in_tx}
use iam_go_auth.Handler.{AuthHandler, Identity, require_perm, audit}
use iam_go_auth.Handler.Frame.{Frame, after-audit_as}
use iam_go_auth.Handler.Refresh.Rotation.{live_of}
use iam_go_auth.Handler.Register.{soft_delete, delete_user_tx, delete_user_rpc}
use iam_go_auth.Handler.Register.Writes.{insert_outbox-Made}
use iam_go_auth.Handler.Register.Atomic.{Unwritten, Unwritten-same}

any-and :
    {A : Type 0} (p q : A → Bool) (xs : List A)
    → any p xs ≡ false
    → any (λ x. p x && q x) xs ≡ false
unfolding any
any-and p q [] e = refl
any-and p q (x ∷ xs) e = ground (arith, any-and p q xs)

-- A row of the account: any at all after a hard deletion, one that is not deleted after a soft one.
abbrev pub remains : Bool → ℕ → User → Bool
remains hard uid u = has_id uid u && (hard || not (is_some u.deleted_at))

Begun-Calm : {w w1 : World} → Calm w → Begun w w1 → Calm w1
Begun-Calm c b = record {
  no_faults = b.calm c.no_faults;
  accepting = λ e. not_aborted (sym b.tx ∙ e);
}
  where
    not_aborted : open_tx ≡ aborted → ⊥
    not_aborted e = cc

module _ (h : AuthHandler) (ctx : Identity) where
  -- The account and its sessions are gone, and the outbox is as it was.
  pub record Gone (hard : Bool) (uid : ℕ) (w w' : World) : Type 0 where
    pub account : any (remains hard uid) w'.db.users ≡ false
    pub sessions : any (live_of uid) w'.db.refresh_tokens ≡ false
    pub outbox : w'.db.outbox ≡ w.db.outbox

  removal-Gone :
      {E : Status → World → Type 0} (hard : Bool) (uid : ℕ) (w : World)
      → Calm w
      → ((s : Status) (w' : World) → E s w')
      → After
          (if hard
            then must (delete_user uid) internal "failed to delete user"
            else soft_delete h ctx uid)
          w
          (λ _. Gone hard uid w)
          E
  unfolding delete_user soft_delete soft_delete_user revoke_all_user_refresh_tokens
  removal-Gone true uid w calm e =
      after-must _ _ _ w
        (λ _ w1 ran. record {
          account =
              ap (λ (d : Db). any (remains true uid) d.users) (sym (row-snd ran.answered))
              ∙ any-and (has_id uid) _ (delete_where (has_id uid) w.db.users)
                  (any-delete_where (has_id uid) w.db.users);
          sessions =
              ap (λ (d : Db). any (live_of uid) d.refresh_tokens) (sym (row-snd ran.answered))
              ∙ any-and (belongs_to uid) _ (delete_where (belongs_to uid) w.db.refresh_tokens)
                  (any-delete_where (belongs_to uid) w.db.refresh_tokens);
          outbox = ap (λ (d : Db). d.outbox) (sym (row-snd ran.answered));
        })
        (λ w1 _. e _ w1)
  removal-Gone false uid w calm e = after-bind _ _ _ (
      after-must _ _ _ w
        (λ _ w1 ran.
          after-try _ w1
            (λ _ w2 ran2. record {
              account =
                  ap (λ (d : Db). any (remains false uid) d.users) (sym (row-snd ran2.answered))
                  ∙ ap (λ (d : Db). any (remains false uid) d.users) (sym (row-snd ran.answered))
                  ∙ any-update_where_none (remains false uid) _ (λ x. ground arith) w.db.users;
              sessions =
                  ap (λ (d : Db). any (live_of uid) d.refresh_tokens) (sym (row-snd ran2.answered))
                  ∙ any-update_where_none (live_of uid) _ (λ x. ground arith) w1.db.refresh_tokens;
              outbox =
                  ap (λ (d : Db). d.outbox) (sym (row-snd ran2.answered))
                  ∙ ap (λ (d : Db). d.outbox) (sym (row-snd ran.answered));
            })
            (λ w2 m. absurd (elim (m.cause (Calm-Ran ran calm)) [ inl x ↦ cc | inr x ↦ cc ])))
        (λ w1 _. e _ w1))

  -- The account and its sessions are gone, and one event of it is pending.
  pub record Told (hard : Bool) (uid : ℕ) (w w' : World) : Type 0 where
    pub account : any (remains hard uid) w'.db.users ≡ false
    pub sessions : any (live_of uid) w'.db.refresh_tokens ≡ false
    pub event : Outbox
    pub aggregate : event.aggregate_id ≡ uid
    pub kind : event.event_type ≡ h.type_user_deleted
    pub payload : event.payload ≡ h.user_deleted (h.uuid_string uid) hard
    pub pending : event.published_at ≡ none
    pub outbox : w'.db.outbox ≡ w.db.outbox ++ event ∷ []

  delete_user_tx-Told :
      (uid : ℕ) (hard : Bool) (w : World)
      → Calm w
      → After (delete_user_tx h ctx uid hard) w (λ _. Told hard uid w) (λ _. Unwritten w)
  unfolding delete_user_tx
  delete_user_tx-Told uid hard w calm =
      after-in_tx _ _ _ w (λ w' e _. Unwritten-same e)
        (λ w1 b. after-bind _ _ _ (
          after-weaken _ w1
            (removal-Gone hard uid w1 (Begun-Calm calm b) (λ s w2 w' u. undone w2 w' u))
            (λ _ w2 gone.
              after-must _ _ _ w2
                (λ _ w3 queued. (
                  (λ w4 c.
                      told w1 w2 w3 w4 b gone c (insert_outbox-Made _ _ _ _ _ _ _ queued.answered)),
                  λ w4 u. undone w3 w4 u,
                ))
                (λ w3 _ w' u. undone w3 w' u))
            (λ _ _ x. x)))
    where
      undone : (w2 w' : World) → Undone w.db w2 w' → Unwritten w w'
      undone w2 w' u = record { drawn = w2.db.drawn; serial = w2.db.next_serial; db = u.db }

      told :
          (w1 w2 w3 w4 : World)
          → Begun w w1
          → Gone hard uid w1 w2
          → Committed w3 w4
          → ((o : Outbox) × (o.aggregate_id ≡ uid)
              × (o.event_type ≡ h.type_user_deleted)
              × (o.payload ≡ h.user_deleted (h.uuid_string uid) hard)
              × (o.published_at ≡ none)
              × (w3.db ≡ record w2.db { outbox = w2.db.outbox ++ o ∷ []; drawn = w2.db.drawn + 1 }))
          → Told hard uid w w4
      told w1 w2 w3 w4 b gone c made = record {
        account = ap (λ (d : Db). any (remains hard uid) d.users) (c.db ∙ made.5) ∙ gone.account;
        sessions =
            ap (λ (d : Db). any (live_of uid) d.refresh_tokens) (c.db ∙ made.5) ∙ gone.sessions;
        event = made.0;
        aggregate = made.1;
        kind = made.2;
        payload = made.3;
        pending = made.4;
        outbox =
            ap (λ (d : Db). d.outbox) (c.db ∙ made.5)
            ∙ ap (λ os. os ++ made.0 ∷ []) (gone.outbox ∙ ap (λ (d : Db). d.outbox) b.db);
      }

  -- What a successful DeleteUser shows.
  pub record Deleted (user_id : String) (hard : Bool) (w w' : World) : Type 0 where
    pub permitted : ctx.has_permission "user:delete" ≡ true
    pub uid : ℕ
    pub parsed : h.uuid_parse user_id ≡ some uid
    pub told : Told hard uid w w'

  Told-audit :
      (hard : Bool) (uid : ℕ) (w w1 w2 : World)
      → Told hard uid w w1
      → w2.db.users ≡ w1.db.users
      → Frame w1 w2
      → Told hard uid w w2
  Told-audit hard uid w w1 w2 t users f = record {
    account = ap (any (remains hard uid)) users ∙ t.account;
    sessions = ap (λ (d : Db). any (live_of uid) d.refresh_tokens) f.db ∙ t.sessions;
    event = t.event;
    aggregate = t.aggregate;
    kind = t.kind;
    payload = t.payload;
    pending = t.pending;
    outbox = ap (λ (d : Db). d.outbox) f.db ∙ t.outbox;
  }

  -- Where no call fails, a DeleteUser that succeeds was made with the permission user:delete; no row
  -- of the account is left, or, after a soft deletion, none that is not marked as deleted; the
  -- account has no active refresh token; and one unpublished event of the deletion is in the outbox.
  -- One that ends with an error has left every table as it was.
  pub delete_user-Deleted :
      (user_id : String) (hard : Bool) (w : World)
      → Calm w
      → After
          (delete_user_rpc h ctx user_id hard)
          w
          (λ _. Deleted user_id hard w)
          (λ _. Unwritten w)
  unfolding delete_user_rpc require_perm audit
  delete_user-Deleted user_id hard w calm = after-bind _ _ _ (
      after-if _ _ _ w
        (λ permitted. after-pure _ w (
          after-bind _ _ _ (
            after-or_raise _ _ _ w
              (λ uid parsed. after-bind _ _ _ (
                after-weaken _ w (delete_user_tx-Told uid hard w calm)
                  (λ _ w1 told. after-bind _ _ _ (
                    after-audit_as h ctx _ _ _ _ _ w1 (λ w2 users f. after-pure _ w2 (record {
                      permitted = permitted;
                      uid = uid;
                      parsed = parsed;
                      told = Told-audit hard uid w w1 w2 told users f;
                    }))))
                  (λ _ _ x. x)))
              (λ _. Unwritten-same refl))))
        (λ _. after-raise _ _ w (Unwritten-same refl)))
