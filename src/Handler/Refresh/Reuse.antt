-- ===== src/Handler/Refresh/Reuse.antt =====
-- What Refresh promises of a token that is active, in its grace, or stale.
use iam_go_auth.Base.{ℕ, String, true, false, ◌≡◌, ◌⊎◌, inl, inr, none, some, find, ltb, any}
use iam_go_auth.Db.Models.{RefreshToken}
use iam_go_auth.Db.Tokens.{has_hash}
use iam_go_auth.Rpc.{World}
use iam_go_auth.Rpc.Laws.{After, after-weaken}
use iam_go_auth.Rpc.Statements.{Calm}
use iam_go_auth.Handler.{AuthHandler, Identity, hash_token}
use iam_go_auth.Handler.Tokens.{TokenPair}
use iam_go_auth.Handler.Refresh.{in_grace, refresh}
use iam_go_auth.Handler.Refresh.Rotation.{
  live_of, added_table, Rotated, Replaced, Stale, same_row, not_active, not_in_grace,
  refresh-Outcome,
}

module _ (h : AuthHandler) (ctx : Identity) where
  -- The token that was presented, why it was accepted, and what the pair is bound to.
  pub record Refreshed (token : String) (w : World) (pair : TokenPair) (w' : World) : Type 0 where
    pub presented : RefreshToken
    pub found : find (has_hash (hash_token h token)) w.db.refresh_tokens ≡ some presented
    pub replaced : Replaced h ctx presented w pair
    pub admitted :
        (presented.revoked_at ≡ none)
          × (ltb presented.expires_at w.now ≡ false)
          × Rotated h ctx (hash_token h token) replaced.stored pair w w'
        ⊎ (at : ℕ) × (presented.revoked_at ≡ some at)
          × (in_grace w.now at presented ≡ true)
          × (w'.db.refresh_tokens ≡ added_table h ctx replaced.stored w)

  -- Whatever calls fail, a refresh that ends with a pair was shown a known token that is either
  -- active and not expired, or revoked by a rotation less than the grace ago. The access token is
  -- signed for the token's user, tenant and project, and exactly one row is added to the token table:
  -- the pair's refresh token, for the same user, tenant and project, active, and with the configured
  -- time to live. Nothing else of the table changes, but that the active rows with an active presented
  -- token's hash are marked as revoked now and replaced by the pair's, unless a call failed.
  pub refresh-Refreshed :
      (token : String) (w : World)
      → After (refresh h ctx token) w (Refreshed token w) (λ _ _. Unit {0})
  refresh-Refreshed token w =
      after-weaken _ w (refresh-Outcome h ctx token w)
        (λ pair w' o. record {
          presented = o.presented;
          found = o.found;
          replaced = o.replaced;
          admitted = o.admitted;
        })
        (λ _ _ _. tt)

  -- Where no call fails, a revoked token that is not within the grace of a rotation is never
  -- answered with a pair, and afterwards its user has no active refresh token at all.
  pub refresh-Stale :
      (token : String) (w : World) (t : RefreshToken)
      → Calm w
      → Stale h ctx token w t
      → After
          (refresh h ctx token)
          w
          (λ _ _. ⊥)
          (λ _ w'. any (live_of t.user_id) w'.db.refresh_tokens ≡ false)
  refresh-Stale token w t calm stale =
      after-weaken _ w (refresh-Outcome h ctx token w)
        (λ pair w' o. elim o.admitted [
          | inl x ↦ not_active h ctx (same_row h ctx o.found stale.0) x.0 stale.2
          | inr x ↦
              not_in_grace h ctx w.now (same_row h ctx o.found stale.0) x.1 stale.2 x.2 stale.3
        ])
        (λ _ w' revoked. revoked t stale calm)
