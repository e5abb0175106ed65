-- ===== src/Controller/Ports.antt =====
-- `buildBackendServicePorts`, `buildProxyContainerPorts` and `buildProxyServicePorts`.
use sleepyservice.Prelude.{
  String, true, false, ◌&&◌, none, some, List, [], ◌∷◌, map, if◌then◌else◌, ite, string_discrete, ℤ,
  pos, is_zero,
}
use sleepyservice.Api.{SleepyService, ServicePort, IntOrString}
use sleepyservice.Cluster.{ContainerPort}

-- The ports that the user gave; none if there is no backend service or its list is empty.
unfoldable pub given_ports : SleepyService → List ServicePort
given_ports hs = elim hs.spec.backend_service [ none ↦ [] | some backend ↦ backend.ports ]

-- `intstr.FromInt32`
abbrev pub from_int : ℤ → IntOrString
from_int n = record { int_val = n; str_val = "" }

abbrev pub protocol_or_tcp : String → String
protocol_or_tcp p = ite (string_discrete p "") "TCP" p

-- Port 80 if nothing is specified.
abbrev pub default_port : ServicePort
default_port = record {
  name = "http";
  protocol = "TCP";
  port = pos 80;
  target_port = from_int (pos 80);
  node_port = pos 0;
}

unfoldable pub backend_port : ServicePort → ServicePort
backend_port p = record {
  name = p.name;
  protocol = protocol_or_tcp p.protocol;
  port = p.port;
  target_port =
      if is_zero p.target_port.int_val && ite (string_discrete p.target_port.str_val "") true false
      then from_int p.port
      else p.target_port;
  node_port = p.node_port;
}

unfoldable pub container_port : ServicePort → ContainerPort
container_port p = record { name = p.name; container_port = p.port }

unfoldable pub proxy_port : ServicePort → ServicePort
proxy_port p = record {
  name = p.name;
  protocol = protocol_or_tcp p.protocol;
  port = p.port;
  target_port = from_int p.port;
  node_port = pos 0;
}

-- The loop over the given ports, or the default.
abbrev pub ports_or : {A : Type 0} → A → (ServicePort → A) → List ServicePort → List A
ports_or default f [] = default ∷ []
ports_or default f (p ∷ ps) = f p ∷ map f ps

unfoldable pub build_backend_service_ports : SleepyService → List ServicePort
unfolding given_ports backend_port
build_backend_service_ports hs = ports_or default_port backend_port (given_ports hs)

unfoldable pub build_proxy_container_ports : SleepyService → List ContainerPort
unfolding given_ports container_port
build_proxy_container_ports hs =
    ports_or (record { name = "http"; container_port = pos 80 }) container_port (given_ports hs)

unfoldable pub build_proxy_service_ports : SleepyService → List ServicePort
unfolding given_ports proxy_port
build_proxy_service_ports hs = ports_or default_port proxy_port (given_ports hs)
