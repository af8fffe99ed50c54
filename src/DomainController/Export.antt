-- ===== src/DomainController/Export.antt =====
-- `exportCredentialsToSecret`.
pub mod Laws
use mailgun_operator.Base.{String, ◌<>◌, Option, none, some, [], nonempty_or, if◌then◌else◌}
use mailgun_operator.Base.Exec.{M, ◌>>=◌, return, gets, deref}
use mailgun_operator.Base.Dict.{Dict, insert}
use mailgun_operator.Api.Meta.{Key, Error, Res, ok, err, error_of, if_failed}
use mailgun_operator.Api.DomainTypes.{DomainSpec}
use mailgun_operator.External.{Secret}
use mailgun_operator.Controller.{request}
use mailgun_operator.DomainController.Run.{DomainReconciler, Run, secret_read, secret_written}

abbrev pub password_key : DomainSpec → String
password_key spec = nonempty_or spec.export_secret_password_key "smtp-password"

abbrev pub login_key : DomainSpec → String
login_key spec = nonempty_or spec.export_secret_login_key "smtp-login"

-- `if secret.Data == nil { secret.Data = map[string][]byte{} }`
abbrev pub contents_of : Option (Dict String) → Dict String
contents_of none = []
contents_of (some m) = m

-- The callback of `CreateOrUpdate`.
unfoldable pub write_credentials : DomainSpec → String → String → Secret → Secret
write_credentials spec login password secret = record secret {
  contents = some (
      insert (login_key spec) login
        (insert (password_key spec) password (contents_of secret.contents)));
}

-- The secret that is looked up, a new one if there is none, or the error.
abbrev pub found_or_new : Key → Res Secret → Res Secret
found_or_new key (ok secret) = ok secret
found_or_new key (err e) =
    if e.not_found
    then ok (record { key = key; contents = some [] })
    else err (record { not_found = e.not_found; text = "error getting secret: " <> e.text })

module _ {W Endpoint : Type 0} (r : DomainReconciler W Endpoint) where
  abbrev write_secret :
      Key → (Secret → Secret) → Res Secret → M (Run W Endpoint) (Option Error) (Option Error)
  write_secret key mutate found =
      if_failed found (λ e. return (some e))
        λ secret. do
          written ← request (secret_written key) (r.cluster.create_or_update_secret secret mutate)
          return (error_of written)

  unfoldable pub export_credentials_to_secret :
      String → String → M (Run W Endpoint) (Option Error) (Option Error)
  unfolding write_credentials
  export_credentials_to_secret login password = do
    spec ← gets (λ s. s.object.spec)
    namespace ← gets (λ s. s.object.meta.namespace)
    name ← deref spec.export_secret_name
    let key : Key = record { namespace = namespace; name = name }
    found ← request (secret_read key) (r.cluster.get_secret key)
    write_secret key (write_credentials spec login password) (found_or_new key found)
