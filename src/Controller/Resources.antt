-- ===== src/Controller/Resources.antt =====
-- `ensureProxyResources`: the objects that the controller owns.
use sleepyservice.Prelude.{String, some, List, [], ◌∷◌, ◌<>◌, ℤ, pos}
use sleepyservice.Errors
use sleepyservice.Errors.{Result, ok}
use sleepyservice.Api.{SleepyService}
use sleepyservice.Exec.{Exec, modify, wrap_error, ◌>>◌}
use sleepyservice.Cluster.{
  Client, Ctx, call, ServiceAccount, Role, RoleBinding, Service, ProxyDeployment,
}
use sleepyservice.Controller.Ports.{build_proxy_container_ports, build_proxy_service_ports}
use sleepyservice.Controller.ProxyEnv.{build_proxy_env}
use sleepyservice.Controller.Backend.{ensure_backend_service}

-- The field `OperatorImage` of the reconciler, and `time.Duration.String`.
pub record Settings : Type 0 where
  pub operator_image : String
  pub show_duration : ℤ → String

abbrev pub deployment_name : SleepyService → String
deployment_name hs = hs.name <> "-wakeproxy"

abbrev proxy_labels : SleepyService → List (String × String)
proxy_labels hs =
    ("app.kubernetes.io/name", "wake-proxy")
    ∷ ("app.kubernetes.io/instance", hs.name)
    ∷ ("app.kubernetes.io/managed-by", "hibernating-service-controller")
    ∷ []

module _ {W : Type 0} (client : Client W) (settings : Settings) (hs : SleepyService) where
  unfoldable pub configure_deployment : ProxyDeployment → Result ProxyDeployment
  unfolding build_proxy_container_ports build_proxy_env
  configure_deployment d = Errors.◌>>=◌ (client.set_controller_reference hs d.meta) λ meta.
      ok (record {
        meta = meta;
        replicas = some (pos 1);
        match_labels = proxy_labels hs;
        template_labels = proxy_labels hs;
        service_account_name = hs.name;
        container_name = "proxy";
        image = settings.operator_image;
        image_pull_policy = "IfNotPresent";
        command = "/proxy" ∷ [];
        ports = build_proxy_container_ports hs;
        env = build_proxy_env settings.show_duration hs;
        requests = ("cpu", "10m") ∷ ("memory", "16Mi") ∷ [];
        limits = ("cpu", "100m") ∷ ("memory", "64Mi") ∷ [];
      })

  unfoldable pub ensure_proxy_deployment : Exec (Ctx W) (Unit {0})
  unfolding configure_deployment
  ensure_proxy_deployment = do
    call (client.create_or_update_deployment hs.namespace (deployment_name hs) configure_deployment)
    modify (λ c. record c {
      hs = record c.hs { status = record c.hs.status { proxy_deployment = deployment_name hs } };
    })

  unfoldable pub configure_service_account : ServiceAccount → Result ServiceAccount
  configure_service_account sa =
      Errors.◌>>=◌ (client.set_controller_reference hs sa.meta) λ meta. ok (record { meta = meta })

  unfoldable pub ensure_proxy_service_account : Exec (Ctx W) (Unit {0})
  unfolding configure_service_account
  ensure_proxy_service_account =
      call (client.create_or_update_service_account hs.namespace hs.name configure_service_account)

  unfoldable pub configure_role : Role → Result Role
  configure_role role = Errors.◌>>=◌ (client.set_controller_reference hs role.meta) λ meta.
      ok (record {
        meta = meta;
        rules =
            record {
              api_groups = "sleepy.atha.gr" ∷ [];
              resources = "sleepyservices" ∷ [];
              verbs = "get" ∷ "list" ∷ "watch" ∷ [];
            }
            ∷ record {
              api_groups = "sleepy.atha.gr" ∷ [];
              resources = "sleepyservices/status" ∷ [];
              verbs = "get" ∷ "update" ∷ "patch" ∷ [];
            }
            ∷ [];
      })

  unfoldable pub ensure_proxy_role : Exec (Ctx W) (Unit {0})
  unfolding configure_role
  ensure_proxy_role = call (client.create_or_update_role hs.namespace hs.name configure_role)

  unfoldable pub configure_role_binding : RoleBinding → Result RoleBinding
  configure_role_binding rb = Errors.◌>>=◌ (client.set_controller_reference hs rb.meta) λ meta.
      ok (record {
        meta = meta;
        role_ref = record {
          api_group = "rbac.authorization.k8s.io";
          kind = "Role";
          name = hs.name;
        };
        subjects =
            record { kind = "ServiceAccount"; name = hs.name; namespace = hs.namespace } ∷ [];
      })

  unfoldable pub ensure_proxy_role_binding : Exec (Ctx W) (Unit {0})
  unfolding configure_role_binding
  ensure_proxy_role_binding =
      call (client.create_or_update_role_binding hs.namespace hs.name configure_role_binding)

  -- The new spec has nothing but a selector and ports.
  unfoldable pub configure_proxy_service : Service → Result Service
  unfolding build_proxy_service_ports
  configure_proxy_service svc = Errors.◌>>=◌ (client.set_controller_reference hs svc.meta) λ meta.
      ok (record {
        meta = meta;
        selector =
            ("app.kubernetes.io/name", "wake-proxy") ∷ ("app.kubernetes.io/instance", hs.name) ∷ [];
        type = "";
        ports = build_proxy_service_ports hs;
        cluster_ip = "";
        external_ips = [];
        load_balancer_ip = "";
        session_affinity = "";
      })

  unfoldable pub ensure_proxy_service : Exec (Ctx W) (Unit {0})
  unfolding configure_proxy_service
  ensure_proxy_service =
      call (client.create_or_update_service hs.namespace hs.name configure_proxy_service)

  unfoldable pub ensure_proxy_resources : Exec (Ctx W) (Unit {0})
  ensure_proxy_resources = do
    wrap_error "failed to ensure proxy service account: " ensure_proxy_service_account
    wrap_error "failed to ensure proxy role: " ensure_proxy_role
    wrap_error "failed to ensure proxy role binding: " ensure_proxy_role_binding
    wrap_error "failed to ensure backend service: " (ensure_backend_service client hs)
    wrap_error "failed to ensure proxy deployment: " ensure_proxy_deployment
    wrap_error "failed to ensure proxy service: " ensure_proxy_service
