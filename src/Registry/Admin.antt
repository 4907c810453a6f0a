-- ===== src/Registry/Admin.antt =====
-- `propose_admin`, `cancel_admin` and `execute_admin`.
use open_social_protocol.Prelude.{Option, none, some, [], ◌∷◌, not, leb}
use open_social_protocol.Chain.{Bytes, Sdk, Env, Result, ok, ◌>>=◌, ◌>>◌, require, add64}
use open_social_protocol.Chain.Util.{is_empty, value, require_address}
use open_social_protocol.Registry.State.{admin_proposed, admin_changed, State, emit}
use open_social_protocol.Registry.Checks.{load_config, require_admin}

module _ ⦃sdk : Sdk⦄ where
  open sdk use {equal}

  -- Registry.propose_admin
  unfoldable pub propose_admin : Env → Option Bytes → State → Result State
  propose_admin env new_admin s = do
    cfg ← require_admin env s
    a ← require_address new_admin "new_admin"
    require (not (equal a cfg.admin)) "new_admin must differ from the current admin"
    let effective_at = add64 env.now cfg.upgrade_delay_ms
    let cfg' = record cfg { pending_admin = some a; admin_transfer_effective_at = effective_at }
    ok (emit (admin_proposed a effective_at) (a ∷ cfg.admin ∷ []) (record s { config = some cfg' }))

  -- Registry.cancel_admin
  unfoldable pub cancel_admin : Env → State → Result State
  cancel_admin env s = do
    cfg ← require_admin env s
    require (not (is_empty cfg.pending_admin)) "no pending admin transfer"
    ok (record s {
      config = some (record cfg { pending_admin = none; admin_transfer_effective_at = 0 });
    })

  -- Registry.execute_admin
  unfoldable pub execute_admin : Env → State → Result State
  execute_admin env s = do
    cfg ← load_config s
    require (not (is_empty cfg.pending_admin)) "no pending admin transfer"
    require (leb cfg.admin_transfer_effective_at env.now) "admin transfer delay has not elapsed"
    let new_admin = value cfg.pending_admin
    let cfg' = record cfg {
      admin = new_admin;
      pending_admin = none;
      admin_transfer_effective_at = 0;
    }
    ok (
        emit (admin_changed cfg.admin new_admin env.now) (new_admin ∷ cfg.admin ∷ [])
          (record s { config = some cfg' }))
