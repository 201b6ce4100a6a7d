-- ===== src/Outbox/Delivery.antt =====
-- No event is marked as published before the broker has it.
use iam_go_auth.Base.{
  ℕ, zero, suc, String, Bool, true, false, ◌||◌, ◌≡◌, refl, sym, ap, subst, ◌∙◌, ◌⊎◌, inl, inr,
  List, [], ◌∷◌, ◌++◌, All, All-update_where, any, any-append, str_eq, str_eq_refl, is_some, ==_iff,
  arith, if◌then◌else◌,
}
use iam_go_auth.Db.Models.{Db, Outbox}
use iam_go_auth.Db.Query.{Answer, row, no_rows, failed}
use iam_go_auth.Db.Query.Laws.{row-snd}
use iam_go_auth.Db.Log.{fetch_unpublished_outbox, mark_outbox_published}
use iam_go_auth.Rpc.{World, Result, ok, err, next_fault, exec}
use iam_go_auth.Rpc.Laws.{Ends, After}
use iam_go_auth.Rpc.Statements.{after-exec}
use iam_go_auth.Outbox.{
  Message, Relay, batch, message_of, publish, mark, relay_row, relay_rows, fetched, drain, run,
}

module _ (subject_prefix : String) (uuid_string : ℕ → String) where
  abbrev pub has_message : ℕ → List Message → Bool
  has_message id accepted = any (λ (m : Message). str_eq m.id (uuid_string id)) accepted

  -- The row is not marked, or the broker has accepted a message with its id.
  abbrev pub Announced : List Message → Outbox → Type 0
  Announced accepted o = (is_some o.published_at ≡ false) ⊎ (has_message o.id accepted ≡ true)

  abbrev pub Delivered : Relay → Type 0
  Delivered r = All (Announced r.accepted) r.world.db.outbox

  or_true : {b : Bool} (c : Bool) → b ≡ true → (b || c) ≡ true
  or_true c e = ground arith

  true_or : (b : Bool) {c : Bool} → c ≡ true → (b || c) ≡ true
  true_or b e = ground arith

  more :
      (accepted : List Message) (m : Message) (os : List Outbox)
      → All (Announced accepted) os
      → All (Announced (accepted ++ m ∷ [])) os
  more accepted m [] h = tt
  more accepted m (o ∷ os) h = (
    elim h.0 [ inl e ↦ inl e | inr e ↦ inr (any-append _ accepted (m ∷ []) ∙ or_true _ e) ],
    more accepted m os h.1,
  )

  published_keeps :
      (o : Outbox) (r : Relay)
      → Delivered r
      → Delivered (publish subject_prefix uuid_string o r).1
        × ((publish subject_prefix uuid_string o r).0 ≡ true
            → has_message o.id (publish subject_prefix uuid_string o r).1.accepted ≡ true)
  unfolding publish any
  published_keeps o r d = on (next_fault r.world.faults).0
    where
      sent : has_message o.id (message_of subject_prefix uuid_string o ∷ []) ≡ true
      sent = or_true _ (str_eq_refl (uuid_string o.id))

      on :
          (fault : Bool)
          → let x : Bool × Relay =
              if fault
              then (
                false,
                record {
                  world = record r.world { faults = (next_fault r.world.faults).1 };
                  accepted = r.accepted;
                },
              )
              else (
                true,
                record {
                  world = record r.world { faults = (next_fault r.world.faults).1 };
                  accepted = r.accepted ++ message_of subject_prefix uuid_string o ∷ [];
                },
              ) in
            Delivered x.1 × (x.0 ≡ true → has_message o.id x.1.accepted ≡ true)
      on true = (d, λ e. cc)
      on false = (
        more r.accepted _ r.world.db.outbox d,
        λ _.
            any-append _ r.accepted (message_of subject_prefix uuid_string o ∷ []) ∙ true_or _ sent,
      )

  mark-Delivered :
      (accepted : List Message) (x : Result (Answer (Unit {0}))) (w : World)
      → Ends x w (λ _ w'. All (Announced accepted) w'.db.outbox) (λ _ _. ⊥)
      → Delivered (mark subject_prefix uuid_string accepted (x, w)).1
  unfolding mark
  mark-Delivered accepted (ok (row _)) w h = h
  mark-Delivered accepted (ok no_rows) w h = h
  mark-Delivered accepted (ok failed) w h = h
  mark-Delivered accepted (err s) w h = absurd h

  mark_outbox_published-Announced :
      (accepted : List Message) (o : Outbox) (w : World)
      → has_message o.id accepted ≡ true
      → All (Announced accepted) w.db.outbox
      → After
          (exec (mark_outbox_published o.id))
          w
          (λ _ w'. All (Announced accepted) w'.db.outbox)
          (λ _ _. ⊥)
  unfolding mark_outbox_published
  mark_outbox_published-Announced accepted o w has d =
      after-exec _ w _
        (λ _ w' ran.
          subst (λ (x : Db). All (Announced accepted) x.outbox) (row-snd ran.answered)
            (All-update_where (Announced accepted) _ _ w.db.outbox
              (λ x _ same.
                inr (ap (λ id. has_message id accepted) ((==_iff x.id o.id).0 same) ∙ has))
              d))
        (λ w' _ m. subst (λ (x : Db). All (Announced accepted) x.outbox) (sym m.db) d)
        (λ w' m. subst (λ (x : Db). All (Announced accepted) x.outbox) (sym m.db) d)

  relay_row-Delivered :
      (o : Outbox) (x : Bool × Relay)
      → Delivered x.1 × (x.0 ≡ true → has_message o.id x.1.accepted ≡ true)
      → Delivered (relay_row subject_prefix uuid_string o x).1
  unfolding relay_row
  relay_row-Delivered o (false, r) h = h.0
  relay_row-Delivered o (true, r) h =
      mark-Delivered r.accepted (exec (mark_outbox_published o.id) r.world).0
        (exec (mark_outbox_published o.id) r.world).1
        (mark_outbox_published-Announced r.accepted o r.world (h.1 refl) h.0).ends

  relay_rows-Delivered :
      (os : List Outbox) (r : Relay)
      → Delivered r
      → Delivered (relay_rows subject_prefix uuid_string os r).1
  unfolding relay_rows
  relay_rows-Delivered [] r d = d
  relay_rows-Delivered (o ∷ os) r d =
      on (relay_row subject_prefix uuid_string o (publish subject_prefix uuid_string o r)).1
        (relay_row subject_prefix uuid_string o (publish subject_prefix uuid_string o r)).0
        (relay_row-Delivered o _ (published_keeps o r d)) (λ r1 d1. relay_rows-Delivered os r1 d1)
    where
      on :
          (r1 : Relay) (done : Bool)
          → Delivered r1
          → ((r2 : Relay)
              → Delivered r2
              → Delivered (relay_rows subject_prefix uuid_string os r2).1)
          → let x : Bool × Relay =
              if done then relay_rows subject_prefix uuid_string os r1 else (false, r1) in
            Delivered x.1
      on r1 true d1 rest = rest r1 d1
      on r1 false d1 rest = d1

  fetched-Delivered :
      (accepted : List Message) (x : Result (Answer (List Outbox))) (w : World)
      → Ends x w (λ _ w'. All (Announced accepted) w'.db.outbox) (λ _ _. ⊥)
      → Delivered (fetched subject_prefix uuid_string accepted (x, w)).1
  unfolding fetched
  fetched-Delivered accepted (ok (row os)) w d = relay_rows-Delivered os _ d
  fetched-Delivered accepted (ok no_rows) w d = d
  fetched-Delivered accepted (ok failed) w d = d
  fetched-Delivered accepted (err s) w d = absurd d

  pub drain-Delivered : (r : Relay) → Delivered r → Delivered (drain subject_prefix uuid_string r).1
  unfolding drain fetch_unpublished_outbox
  drain-Delivered r d =
      fetched-Delivered r.accepted (exec (fetch_unpublished_outbox batch) r.world).0
        (exec (fetch_unpublished_outbox batch) r.world).1
        (after-exec (fetch_unpublished_outbox batch) r.world
          (λ _ w'. All (Announced r.accepted) w'.db.outbox)
          (λ _ w' ran.
            subst (λ (x : Db). All (Announced r.accepted) x.outbox) (row-snd ran.answered) d)
          (λ w' _ m. subst (λ (x : Db). All (Announced r.accepted) x.outbox) (sym m.db) d)
          (λ w' m. subst (λ (x : Db). All (Announced r.accepted) x.outbox) (sym m.db) d)).ends

  -- Whatever calls of the database or the broker fail, and however often the relay ticks: if each
  -- row that is marked as published has had a message with its id accepted by the broker, that
  -- still holds afterwards.
  pub run-Delivered :
      (ticks : ℕ) (r : Relay) → Delivered r → Delivered (run subject_prefix uuid_string ticks r)
  unfolding run
  run-Delivered zero r d = d
  run-Delivered (suc ticks) r d = run-Delivered ticks _ (drain-Delivered r d)
