-- ===== src/DomainController/ExternalDns.antt =====
-- `createExternalDNSEntity`.
use mailgun_operator.Base.{true, Option, none, ◌++◌}
use mailgun_operator.Base.Exec.{M, ◌>>=◌, ◌>>◌, return, gets}
use mailgun_operator.Api.Meta.{Error}
use mailgun_operator.Api.DomainTypes.{Domain}
use mailgun_operator.External.{DnsEndpoint}
use mailgun_operator.Controller.{request, on_object}
use mailgun_operator.DomainController.Run.{
  DomainReconciler, Run, endpoint_created, status_updated, set_status,
}
use mailgun_operator.DomainController.Records.{endpoints_for}
use mailgun_operator.DomainController.Create.{check, checked}

module _ {W Endpoint : Type 0} (r : DomainReconciler W Endpoint) where
  -- The entity for the object, with its name.
  unfoldable pub dns_entity : Domain → DnsEndpoint Endpoint
  dns_entity d = record {
    key = record { namespace = d.meta.namespace; name = d.meta.name };
    endpoints =
        endpoints_for r.cluster.new_endpoint d.spec.domain
          (d.status.receiving_dns_records ++ d.status.sending_dns_records)
          d.spec.external_dns_records;
  }

  unfoldable pub create_external_dns_entity : M (Run W Endpoint) (Option Error) (Option Error)
  create_external_dns_entity = do
    entity ← gets (λ s. dns_entity s.object)
    checked (← request (endpoint_created entity) (r.cluster.create_endpoint entity))
    set_status (λ status. record status { dns_entrypoint_created = true })
    e ← on_object status_updated r.client.status_update
    check e
    return none
