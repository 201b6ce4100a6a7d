-- ===== src/Handler/Frame.antt =====
-- Steps of a method that touch only the users and the audit trail.
use iam_go_auth.Base.{ℕ, String, ◌≡◌, refl, sym, ap, ◌∙◌, List}
use iam_go_auth.Db.Models.{Db, User, AuditEvent}
use iam_go_auth.Db.Query.{Query}
use iam_go_auth.Db.Query.Laws.{row-snd}
use iam_go_auth.Db.Log.{insert_audit_event}
use iam_go_auth.Rpc.{World, Status, M}
use iam_go_auth.Rpc.Laws.{After, after-when, after-weaken}
use iam_go_auth.Rpc.Statements.{Missed, after-try}
use iam_go_auth.Handler.{AuthHandler, Identity, audit_as}

-- From `w` to `w'` only the users, the audit trail and the next value of the sequences changed.
pub record Frame (w w' : World) : Type 0 where
  pub users : List User
  pub events : List AuditEvent
  pub serial : ℕ
  pub db : w'.db ≡ record w.db { users = users; audit_events = events; next_serial = serial }
  pub now : w'.now ≡ w.now

pub Frame-refl : (w : World) → Frame w w
Frame-refl w = record {
  users = w.db.users;
  events = w.db.audit_events;
  serial = w.db.next_serial;
  db = refl;
  now = refl;
}

pub Frame-trans : {u v w : World} → Frame u v → Frame v w → Frame u w
Frame-trans p q = record {
  users = q.users;
  events = q.events;
  serial = q.serial;
  db =
      q.db
      ∙ ap
          (λ (d : Db). record d {
            users = q.users;
            audit_events = q.events;
            next_serial = q.serial;
          })
          p.db;
  now = q.now ∙ p.now;
}

pub Frame-Missed : {A : Type 0} {q : Query A} {w w' : World} → Missed q w w' → Frame w w'
Frame-Missed {w = w} m = record {
  users = w.db.users;
  events = w.db.audit_events;
  serial = w.db.next_serial;
  db = m.db;
  now = m.same.now;
}

-- A statement that has only read.
pub Frame-read : {w w' : World} → w'.db ≡ w.db → w'.now ≡ w.now → Frame w w'
Frame-read {w} e now = record {
  users = w.db.users;
  events = w.db.audit_events;
  serial = w.db.next_serial;
  db = e;
  now = now;
}

-- A statement that has rewritten the users alone.
pub Frame-users :
    {w w' : World} (us : List User)
    → w'.db ≡ record w.db { users = us }
    → w'.now ≡ w.now
    → Frame w w'
Frame-users {w} us e now = record {
  users = us;
  events = w.db.audit_events;
  serial = w.db.next_serial;
  db = e;
  now = now;
}

pub after-extend :
    {A : Type 0} {m : M A} {w w1 : World}
    → Frame w w1
    → After m w1 (λ _. Frame w1) (λ _. Frame w1)
    → After m w1 (λ _. Frame w) (λ _. Frame w)
after-extend {m = m} {w1 = w1} f a =
    after-weaken m w1 a (λ _ _ g. Frame-trans f g) (λ _ _ g. Frame-trans f g)

module _ (h : AuthHandler) (ctx : Identity) where
  module _ {P : Unit {0} → World → Type 0} {E : Status → World → Type 0} where
    pub after-audit_as :
        (actor_id actor_email action target detail : String) (w : World)
        → ((w' : World) → w'.db.users ≡ w.db.users → Frame w w' → P tt w')
        → After (audit_as h ctx actor_id actor_email action target detail) w P E
    unfolding audit_as insert_audit_event
    after-audit_as actor_id actor_email action target detail w p =
        after-when _ _ w
          (λ _.
            after-try _ w
              (λ _ w' ran. p w' (sym (ap (λ (d : Db). d.users) (row-snd ran.answered))) (record {
                users = w.db.users;
                events = _;
                serial = _;
                db = sym (row-snd ran.answered);
                now = ran.same.now;
              }))
              (λ w' m. p w' (ap (λ (d : Db). d.users) m.db) (Frame-Missed m)))
          (λ _. p w refl (Frame-refl w))
