-- ===== src/Config/Hidden/Registered.antt =====
-- The registrations of a project and of a service principal keep what the table hides.
use finna_app.Prelude.{
  codes, lower, is_infix, ◌++ₛ◌, subst, ℕ, ◌≡◌, refl, inl, inr, String, true, false, Option, none,
  some, arith, ◌==◌, eq_iff, Bool-cases,
}
use finna_app.Python.Value.{Value, null, str, obj, end, field, get?}
use finna_app.Python.Try.{ok}
use finna_app.Database.{Session, connected}
use finna_app.Database.Laws.{RollsBack}
use finna_app.Config.Encryption.{is_listed, looks_sensitive, Codecs, Keys, is_sensitive_field}
use finna_app.Config.Encryption.Laws.{sensitive-differs}
use finna_app.Config.Store.{Configs}
use finna_app.Config.Routes.{new_config}
use finna_app.Config.Cli.{
  gcp_config, azure_name, register_gcp, register_azure_service_account, azure_config, set_text,
}
use finna_app.Config.Hidden.{exists, List, get?-set_text, IsHidden, AllHidden}
use finna_app.Config.Hidden.Handlers.{sealed-AllHidden, answered-AllHidden}

project_id-clear : is_sensitive_field "project_id" ≡ false
unfolding is_sensitive_field is_listed looks_sensitive codes lower is_infix
project_id-clear = refl

tenant_id-clear : is_sensitive_field "tenant_id" ≡ false
unfolding is_sensitive_field is_listed looks_sensitive codes lower is_infix
tenant_id-clear = refl

client_id-clear : is_sensitive_field "client_id" ≡ false
unfolding is_sensitive_field is_listed looks_sensitive codes lower is_infix
client_id-clear = refl

auth_method-clear : is_sensitive_field "auth_method" ≡ false
unfolding is_sensitive_field is_listed looks_sensitive codes lower is_infix
auth_method-clear = refl

subscription_id-clear : is_sensitive_field "subscription_id" ≡ false
unfolding is_sensitive_field is_listed looks_sensitive codes lower is_infix
subscription_id-clear = refl

module _ (putconn : Session Configs → Session Configs) (pool : RollsBack Configs putconn)
    (keys : Keys) (env_key : Option String) (io : Codecs) (ids : List String) (k : String)
    (sensitive : is_sensitive_field k ≡ true) where
  pub returned-IsHidden :
      (provider : String) (w v : Value)
      → ok w ≡ ok v
      → IsHidden ids k provider w
      → IsHidden ids k provider v
  returned-IsHidden provider w v e p =
      let same : w ≡ v = cc in subst (IsHidden ids k provider) same p

  lone_project-IsHidden :
      (id project_id : String) → IsHidden ids k id (obj (field "project_id" (str project_id) end))
  unfolding get?
  lone_project-IsHidden id project_id = inl (
      ground (
        arith,
        eq_iff "project_id" k,
        eq_iff k "project_id",
        sensitive-differs "project_id" k project_id-clear sensitive,
      ))

  gcp_config-IsHidden :
      (id project_id : String) (content : Option String) (v : Value)
      → gcp_config keys env_key io putconn project_id content ≡ ok v
      → IsHidden ids k id v
  unfolding gcp_config
  gcp_config-IsHidden id project_id none v e =
      returned-IsHidden id _ v e (lone_project-IsHidden id project_id)
  gcp_config-IsHidden id project_id (some content) v e =
      let sealed =
        field "project_id" (str project_id) (field "key_file_content" (str content) end) in
      elim (Bool-cases (content == "")) [
        | inl h ↦
            returned-IsHidden id (obj (field "project_id" (str project_id) end)) v (ground arith)
              (lone_project-IsHidden id project_id)
        | inr h ↦
            sealed-AllHidden putconn pool keys env_key io ids k sensitive id sealed v (ground arith)
      ]

  pub register_gcp-AllHidden :
      (id project_id : String) (content : Option String) (now : ℕ) (rows : Configs)
      → AllHidden ids k rows
      → AllHidden ids k
          (register_gcp keys env_key io putconn id project_id content now
            (connected rows)).1.committed
  unfolding register_gcp
  register_gcp-AllHidden id project_id content now rows h =
      answered-AllHidden putconn pool keys env_key io ids k sensitive (id, project_id)
        (new_config id "gcp" ("GCP " ++ₛ project_id) "service_account" null now)
        (gcp_config keys env_key io putconn project_id content) rows h
        (gcp_config-IsHidden id project_id content)

  pub clear-differs : (j : String) → is_sensitive_field j ≡ false → (j == k) ≡ false
  clear-differs j h = ground (arith, eq_iff j k, eq_iff k j, sensitive-differs j k h sensitive)

  get?-azure_config :
      (tenant_id client_id : String) (client_secret subscription_id : Option String)
      → (k == "client_secret") ≡ false
      → get? (azure_config tenant_id client_id client_secret subscription_id) k ≡ none
  unfolding azure_config get?
  get?-azure_config tenant_id client_id client_secret subscription_id h = ground (
    arith,
    eq_iff "client_secret" k,
    eq_iff k "client_secret",
    get?-set_text k "subscription_id" subscription_id (
        set_text "client_secret" client_secret (
          field "tenant_id" (str tenant_id)
            (field "client_id" (str client_id) (field "auth_method" (str "service_account") end)))),
    get?-set_text k "client_secret" client_secret (
        field "tenant_id" (str tenant_id)
          (field "client_id" (str client_id) (field "auth_method" (str "service_account") end))),
    clear-differs "subscription_id" subscription_id-clear,
    clear-differs "tenant_id" tenant_id-clear,
    clear-differs "client_id" client_id-clear,
    clear-differs "auth_method" auth_method-clear,
  )

  azure_config-IsHidden :
      (id tenant_id client_id : String) (client_secret subscription_id : Option String)
      → exists (λ j. j == id) ids ≡ true
      → IsHidden ids k id (obj (azure_config tenant_id client_id client_secret subscription_id))
  azure_config-IsHidden id tenant_id client_id client_secret subscription_id registered =
      elim (Bool-cases (k == "client_secret")) [
        | inl h ↦ inr (registered, h)
        | inr h ↦ inl (get?-azure_config tenant_id client_id client_secret subscription_id h)
      ]

  pub register_azure-AllHidden :
      (id tenant_id client_id : String) (client_secret subscription_id : Option String) (now : ℕ)
      (rows : Configs)
      → exists (λ j. j == id) ids ≡ true
      → AllHidden ids k rows
      → AllHidden ids k
          (register_azure_service_account keys env_key io putconn id tenant_id client_id
            client_secret subscription_id now
            (connected rows)).1.committed
  unfolding register_azure_service_account
  register_azure-AllHidden id tenant_id client_id client_secret subscription_id now rows registered
        h =
      let config = obj (azure_config tenant_id client_id client_secret subscription_id) in
      answered-AllHidden putconn pool keys env_key io ids k sensitive id
        (new_config id "azure" (azure_name tenant_id) "service_account" config now) (ok config) rows
        h
        (λ (v : Value)
            (e : ok (obj (azure_config tenant_id client_id client_secret subscription_id)) ≡ ok v).
          returned-IsHidden id _ v e
            (azure_config-IsHidden id tenant_id client_id client_secret subscription_id registered))
