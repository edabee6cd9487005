-- ===== src/Auth/Ledger.antt =====
-- What modules/auth/token.service.ts promises, with no table: the standing of every token hash. A
-- token is live, spent (used or revoked), or was never issued.
pub mod Steps
pub mod Refines
pub mod Refresh
pub mod Runs
pub mod SingleUse
use ai_search_api.Base.{
  ℕ, ◌+◌, ◌*◌, String, ◌≡◌, Bool, true, false, ◌&&◌, Option, none, some, List, str_eq, ltb,
  if◌then◌else◌, first,
}
use ai_search_api.Base.Keys.{has_distinct_ids}
use ai_search_api.Auth.State.{Tenant, User, RefreshToken, State, Request, Platform, is_null}
use ai_search_api.Auth.Tokens.{has_hash}

pub data Standing : Type 0 where
  unknown : Standing
  live spent : String → ℕ → Standing

abbrev pub Ledger : Type 0
Ledger = String → Standing

abbrev pub spend : Standing → Standing
spend unknown = unknown
spend (live user expiry) = spent user expiry
spend (spent user expiry) = spent user expiry

abbrev pub spend_of : String → Standing → Standing
spend_of user unknown = unknown
spend_of user (live owner expiry) =
    if str_eq owner user then spent owner expiry else live owner expiry
spend_of user (spent owner expiry) = spent owner expiry

-- The token `h` is entered as live.
abbrev pub enter : String → String → ℕ → Ledger → Ledger
enter h user expiry l = λ k. if str_eq h k then live user expiry else l k

abbrev pub spend_at : String → Ledger → Ledger
spend_at h l = λ k. if str_eq h k then spend (l k) else l k

abbrev pub spend_all : String → Ledger → Ledger
spend_all user l = λ k. spend_of user (l k)

-- The refresh of a token at a time: whether it is accepted, and the ledger after it. `fresh` and
-- `expiry` are of the token that replaces it, `active` tells of a user that its account and tenant
-- are.
abbrev pub refresh_live : String → String → ℕ → Bool → String → Ledger → Bool × Ledger
refresh_live h fresh expiry active user l =
    if active then (true, enter fresh user expiry (spend_at h l)) else (false, l)

abbrev pub refresh_standing :
    ℕ → String → String → ℕ → (String → Bool) → Standing → Ledger → Bool × Ledger
refresh_standing now h fresh expiry active unknown l = (false, l)
refresh_standing now h fresh expiry active (live user until) l =
    if ltb until now then (false, l) else refresh_live h fresh expiry (active user) user l
refresh_standing now h fresh expiry active (spent user until) l =
    if ltb until now then (false, l) else (false, spend_all user l)

abbrev pub refresh_at : ℕ → String → String → ℕ → (String → Bool) → Ledger → Bool × Ledger
refresh_at now h fresh expiry active l = refresh_standing now h fresh expiry active (l h) l

-- The standing that a row of the table stands for.
abbrev pub standing_of : RefreshToken → Standing
standing_of t =
    if is_null t.revoked_at then live t.user_id t.expires_at else spent t.user_id t.expires_at

abbrev pub standing : Option RefreshToken → Standing
standing none = unknown
standing (some t) = standing_of t

abbrev pub ledger_of : List RefreshToken → Ledger
ledger_of rows = λ h. standing (first (has_hash h) rows)

-- No two rows share a hash or an id: both columns are unique.
pub record IsTidy (rows : List RefreshToken) : Type 0 where
  pub ids : has_distinct_ids (λ (t : RefreshToken). t.id) rows ≡ true
  pub hashes : has_distinct_ids (λ (t : RefreshToken). t.token_hash) rows ≡ true

-- The account of a user, and its tenant, exist and are not deleted.
abbrev pub with_tenant_of : User → Option Tenant → Option (User × Tenant)
with_tenant_of u none = none
with_tenant_of u (some n) = some (u, n)

abbrev pub with_tenant_in : List Tenant → Option User → Option (User × Tenant)
with_tenant_in tenants none = none
with_tenant_in tenants (some u) =
    with_tenant_of u (first (λ (n : Tenant). str_eq n.id u.tenant_id) tenants)

abbrev pub account_of : State → String → Option (User × Tenant)
account_of s user = with_tenant_in s.tenants (first (λ (u : User). str_eq u.id user) s.users)

abbrev pub is_active_pair : Option (User × Tenant) → Bool
is_active_pair none = false
is_active_pair (some (u, n)) = is_null u.deleted_at && is_null n.deleted_at

abbrev pub is_active_account : State → String → Bool
is_active_account s user = is_active_pair (account_of s user)

abbrev pub expiry_of : Platform → Request → ℕ
expiry_of p req = req.now + p.config.refresh_token_ttl_days * 24 * 60 * 60 * 1000
