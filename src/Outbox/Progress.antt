-- ===== src/Outbox/Progress.antt =====
-- A drain that meets no failure leaves nothing unpublished.
use iam_go_auth.Base.{
  ℕ, String, Bool, true, false, ◌≡◌, refl, sym, subst, ◌∙◌, ◌⊎◌, inl, inr, List, [], ◌∷◌, ◌++◌, ◌≤◌,
  All, All-imp, select, sort_by, take, length, any-sort_by, length-sort_by, take_all,
  any-select_and, is_some, leb, arith, if◌then◌else◌,
}
use iam_go_auth.Db.Models.{Db, Outbox}
use iam_go_auth.Db.Query.{Answer, row, no_rows, failed}
use iam_go_auth.Db.Query.Laws.{row-fst, row-snd}
use iam_go_auth.Db.Log.{fetch_unpublished_outbox, mark_outbox_published}
use iam_go_auth.Rpc.{World, Result, ok, err, next_fault, exec}
use iam_go_auth.Rpc.Laws.{Ends, After}
use iam_go_auth.Rpc.Statements.{Calm, Calm-Ran, after-exec}
use iam_go_auth.Outbox.{
  Message, Relay, batch, message_of, publish, mark, relay_row, relay_rows, fetched, drain,
}
use iam_go_auth.Outbox.Delivery.{has_message, Announced, Delivered, drain-Delivered}
use iam_go_auth.Outbox.Waiting.{
  Waiting, Published, unpublished, each_listed, none_waits, still_waits,
}

abbrev IsRow : {A : Type 0} → Answer A → Type 0
IsRow (row _) = Unit
IsRow no_rows = ⊥
IsRow failed = ⊥

row_given : {A : Type 0} (x : Answer A) → IsRow x → ¬ ((x ≡ no_rows) ⊎ (x ≡ failed))
row_given x h (inl e) = subst IsRow e h
row_given x h (inr e) = subst IsRow e h

module _ (subject_prefix : String) (uuid_string : ℕ → String) where
  -- The rows that wait are those of the list, and nothing fails from here on.
  record Turn (os : List Outbox) (x : Bool × Relay) : Type 0 where
    going : x.0 ≡ true
    calm : Calm x.1.world
    waiting : All (Waiting os) x.1.world.db.outbox

  publish-Turn :
      (o : Outbox) (os : List Outbox) (r : Relay)
      → Calm r.world
      → All (Waiting os) r.world.db.outbox
      → Turn os (publish subject_prefix uuid_string o r)
  unfolding publish
  publish-Turn o os r c h = on r.world.faults c.no_faults
    where
      on :
          (fs : List Bool)
          → fs ≡ []
          → let x : Bool × Relay =
              if (next_fault fs).0
              then (
                false,
                record {
                  world = record r.world { faults = (next_fault fs).1 };
                  accepted = r.accepted;
                },
              )
              else (
                true,
                record {
                  world = record r.world { faults = (next_fault fs).1 };
                  accepted = r.accepted ++ message_of subject_prefix uuid_string o ∷ [];
                },
              ) in
            Turn os x
      on [] e = record {
        going = refl;
        calm = record { no_faults = refl; accepting = c.accepting };
        waiting = h;
      }
      on (f ∷ fs) e = absurd (clash e)
        where
          clash : {g : Bool} {gs : List Bool} → g ∷ gs ≡ [] → ⊥
          clash p = cc

  mark-Turn :
      (os : List Outbox) (accepted : List Message) (x : Result (Answer (Unit {0}))) (w : World)
      → Ends x w (λ a w'. IsRow a × Calm w' × All (Waiting os) w'.db.outbox) (λ _ _. ⊥)
      → Turn os (mark subject_prefix uuid_string accepted (x, w))
  unfolding mark
  mark-Turn os accepted (ok (row _)) w h = record { going = refl; calm = h.1; waiting = h.2 }
  mark-Turn os accepted (ok no_rows) w h = absurd h.0
  mark-Turn os accepted (ok failed) w h = absurd h.0
  mark-Turn os accepted (err s) w h = absurd h

  mark_outbox_published-Waiting :
      (o : Outbox) (os : List Outbox) (w : World)
      → Calm w
      → All (Waiting (o ∷ os)) w.db.outbox
      → After
          (exec (mark_outbox_published o.id))
          w
          (λ a w'. IsRow a × Calm w' × All (Waiting os) w'.db.outbox)
          (λ _ _. ⊥)
  unfolding mark_outbox_published
  mark_outbox_published-Waiting o os w c h =
      after-exec _ w _
        (λ _ w' ran. (
          tt,
          Calm-Ran ran c,
          subst (λ (x : Db). All (Waiting os) x.outbox) (row-snd ran.answered)
              (still_waits o os w.db.outbox w.now h),
        ))
        (λ w' _ m. absurd (row_given _ tt (m.cause c)))
        (λ w' m. absurd (row_given _ tt (m.cause c)))

  relay_row-Turn :
      (o : Outbox) (os : List Outbox) (x : Bool × Relay)
      → Turn (o ∷ os) x
      → Turn os (relay_row subject_prefix uuid_string o x)
  unfolding relay_row
  relay_row-Turn o os (false, r) t = absurd (clash t.going)
    where
      clash : ¬ (false ≡ true)
      clash p = cc
  relay_row-Turn o os (true, r) t =
      mark-Turn os r.accepted (exec (mark_outbox_published o.id) r.world).0
        (exec (mark_outbox_published o.id) r.world).1
        (mark_outbox_published-Waiting o os r.world t.calm t.waiting).ends

  relay_rows-Turn :
      (os : List Outbox) (r : Relay)
      → Calm r.world
      → All (Waiting os) r.world.db.outbox
      → Turn [] (relay_rows subject_prefix uuid_string os r)
  unfolding relay_rows
  relay_rows-Turn [] r c h = record { going = refl; calm = c; waiting = h }
  relay_rows-Turn (o ∷ os) r c h =
      on (relay_row subject_prefix uuid_string o (publish subject_prefix uuid_string o r))
        (relay_row-Turn o os _ (publish-Turn o (o ∷ os) r c h))
        (λ r1 c1 h1. relay_rows-Turn os r1 c1 h1)
    where
      on :
          (x : Bool × Relay)
          → Turn os x
          → ((r1 : Relay)
              → Calm r1.world
              → All (Waiting os) r1.world.db.outbox
              → Turn [] (relay_rows subject_prefix uuid_string os r1))
          → let y : Bool × Relay =
              if x.0 then relay_rows subject_prefix uuid_string os x.1 else (false, x.1) in
            Turn [] y
      on (true, r1) t rest = rest r1 t.calm t.waiting
      on (false, r1) t rest = absurd (clash t.going)
        where
          clash : ¬ (false ≡ true)
          clash p = cc

  fetched-Turn :
      (accepted : List Message) (x : Result (Answer (List Outbox))) (w : World)
      → Ends x w
          (λ a w'. elim a as (λ _. Type 0) [
            | row os ↦ Calm w' × All (Waiting os) w'.db.outbox
            | no_rows ↦ ⊥
            | failed ↦ ⊥
          ])
          (λ _ _. ⊥)
      → Turn [] (fetched subject_prefix uuid_string accepted (x, w))
  unfolding fetched
  fetched-Turn accepted (ok (row os)) w h =
      relay_rows-Turn os (record { world = w; accepted = accepted }) h.0 h.1
  fetched-Turn accepted (ok no_rows) w h = absurd h
  fetched-Turn accepted (ok failed) w h = absurd h
  fetched-Turn accepted (err s) w h = absurd h

  none_left_out :
      (xs : List Outbox)
      → length (select unpublished xs) ≤ batch
      → All
          (Waiting (
            take batch
              (sort_by (λ (a b : Outbox). leb a.created_at b.created_at) (select unpublished xs))))
          xs
  none_left_out xs few =
      subst (λ os. All (Waiting os) xs)
        (sym (take_all batch _ (subst (λ n. n ≤ batch) (sym (length-sort_by _ _)) few)))
        (All-imp _ _ xs
          (λ o l. elim l [
            | inl e ↦ inl e
            | inr e ↦ inr (any-sort_by _ _ _ ∙ any-select_and _ unpublished xs ∙ e)
          ])
          (each_listed xs))

  drain-Turn :
      (r : Relay)
      → Calm r.world
      → length (select unpublished r.world.db.outbox) ≤ batch
      → Turn [] (drain subject_prefix uuid_string r)
  unfolding drain fetch_unpublished_outbox
  drain-Turn r c few =
      fetched-Turn r.accepted (exec (fetch_unpublished_outbox batch) r.world).0
        (exec (fetch_unpublished_outbox batch) r.world).1
        (after-exec (fetch_unpublished_outbox batch) r.world _
          (λ os w' ran. (
            Calm-Ran ran c,
            subst (λ (x : Db). All (Waiting os) x.outbox) (row-snd ran.answered)
                (subst (λ l. All (Waiting l) r.world.db.outbox) (row-fst ran.answered)
                  (none_left_out r.world.db.outbox few)),
          ))
          (λ w' _ m. absurd (row_given _ tt (m.cause c)))
          (λ w' m. absurd (row_given _ tt (m.cause c)))).ends

  -- Where no call fails, at most 100 rows of the outbox are unpublished, and each row that is marked
  -- as published has had a message with its id accepted by the broker: one drain succeeds, and after
  -- it every row of the outbox is marked as published and has had such a message accepted.
  pub drain-Published :
      (r : Relay)
      → Calm r.world
      → length (select unpublished r.world.db.outbox) ≤ batch
      → Delivered subject_prefix uuid_string r
      → ((drain subject_prefix uuid_string r).0 ≡ true)
        × All
            (λ (o : Outbox).
              (is_some o.published_at ≡ true)
              × (has_message subject_prefix uuid_string o.id
                    (drain subject_prefix uuid_string r).1.accepted
                  ≡ true))
            (drain subject_prefix uuid_string r).1.world.db.outbox
  drain-Published r c few d =
      let t = drain-Turn r c few in
      (t.going, both _ (none_waits _ t.waiting) (drain-Delivered subject_prefix uuid_string r d))
    where
      both :
          (xs : List Outbox)
          → All Published xs
          → All
              (Announced subject_prefix uuid_string (drain subject_prefix uuid_string r).1.accepted)
              xs
          → All
              (λ (o : Outbox).
                (is_some o.published_at ≡ true)
                × (has_message subject_prefix uuid_string o.id
                      (drain subject_prefix uuid_string r).1.accepted
                    ≡ true))
              xs
      both [] p a = tt
      both (x ∷ xs) p a = ((p.0, sent p.0 a.0), both xs p.1 a.1)
        where
          sent : {b c : Bool} → b ≡ true → (b ≡ false) ⊎ (c ≡ true) → c ≡ true
          sent e (inl f) = ground arith
          sent e (inr g) = g
