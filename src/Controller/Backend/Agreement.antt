-- ===== src/Controller/Backend/Agreement.antt =====
-- What the backend Service, the proxy's Service, its container and its environment agree on.
use sleepyservice.Prelude.{
  ◌≡◌, refl, ap, String, Option, none, some, List, [], ◌∷◌, map, All, ℤ, pos, show_ℤ, if◌then◌else◌,
}
use sleepyservice.Errors.{text, ok, err}
use sleepyservice.Api.{
  SleepyService, ServicePort, Component, ComponentType, deployment, stateful_set, cnpg_cluster,
}
use sleepyservice.Cluster.{ContainerPort}
use sleepyservice.Controller.Ports.{
  from_int, default_port, backend_port, container_port, proxy_port, ports_or, given_ports,
  build_backend_service_ports, build_proxy_container_ports, build_proxy_service_ports,
}
use sleepyservice.Controller.Backend.{last_app, find_app_component, is_app}
use sleepyservice.Controller.ProxyEnv.{Found, note, find_components, port_texts}

-- The numbers under which the backend is reached.
abbrev pub port_numbers : List ServicePort → List ℤ
port_numbers [] = []
port_numbers (p ∷ ps) = p.port ∷ port_numbers ps

abbrev pub container_numbers : List ContainerPort → List ℤ
container_numbers [] = []
container_numbers (p ∷ ps) = p.container_port ∷ container_numbers ps

abbrev pub texts : List ℤ → List String
texts [] = []
texts (n ∷ ns) = show_ℤ n ∷ texts ns

-- A port of the proxy's Service leads to the port of the same number of its container.
abbrev pub IsDirect : ServicePort → Type 0
IsDirect p = p.target_port ≡ from_int p.port

-- The four lists that are made of the ports that the user gave.
record Agree (given : List ServicePort) : Type 0 where
  proxy :
      port_numbers (ports_or default_port proxy_port given)
      ≡ port_numbers (ports_or default_port backend_port given)
  container :
      container_numbers
        (ports_or (record { name = "http"; container_port = pos 80 }) container_port given)
      ≡ port_numbers (ports_or default_port backend_port given)
  env : port_texts given ≡ texts (port_numbers (ports_or default_port backend_port given))
  direct : All IsDirect (ports_or default_port proxy_port given)

proxy_numbers :
    (l : List ServicePort) → port_numbers (map proxy_port l) ≡ port_numbers (map backend_port l)
unfolding proxy_port backend_port
proxy_numbers [] = refl
proxy_numbers (p ∷ l) = ap (λ k. p.port ∷ k) (proxy_numbers l)

container_numbers_eq :
    (l : List ServicePort)
    → container_numbers (map container_port l) ≡ port_numbers (map backend_port l)
unfolding container_port backend_port
container_numbers_eq [] = refl
container_numbers_eq (p ∷ l) = ap (λ k. p.port ∷ k) (container_numbers_eq l)

port_texts_eq :
    (l : List ServicePort) → map (λ q. show_ℤ q.port) l ≡ texts (port_numbers (map backend_port l))
unfolding backend_port
port_texts_eq [] = refl
port_texts_eq (p ∷ l) = ap (λ k. show_ℤ p.port ∷ k) (port_texts_eq l)

IsDirect-All : (l : List ServicePort) → All IsDirect (map proxy_port l)
unfolding proxy_port
IsDirect-All [] = tt
IsDirect-All (p ∷ l) = (refl, IsDirect-All l)

given-Agree : (given : List ServicePort) → Agree given
unfolding proxy_port backend_port container_port show_ℤ
given-Agree [] = record { proxy = refl; container = refl; env = refl; direct = (refl, tt) }
given-Agree (p ∷ l) = record {
  proxy = ap (λ k. p.port ∷ k) (proxy_numbers l);
  container = ap (λ k. p.port ∷ k) (container_numbers_eq l);
  env = ap (λ k. show_ℤ p.port ∷ k) (port_texts_eq l);
  direct = (refl, IsDirect-All l);
}

-- The backend Service, the proxy's Service, the proxy's container and BACKEND_PORTS name the same
-- port numbers in the same order, and each port of the proxy's Service leads to the container's port
-- of the same number.
pub ports_agree :
    (hs : SleepyService)
    → (port_numbers (build_proxy_service_ports hs) ≡ port_numbers (build_backend_service_ports hs))
      × (container_numbers (build_proxy_container_ports hs)
          ≡ port_numbers (build_backend_service_ports hs))
      × (port_texts (given_ports hs) ≡ texts (port_numbers (build_backend_service_ports hs)))
      × All IsDirect (build_proxy_service_ports hs)
unfolding build_proxy_service_ports build_backend_service_ports build_proxy_container_ports
ports_agree hs = let a = given-Agree (given_ports hs) in (a.proxy, a.container, a.env, a.direct)

note-app :
    (c : Component) (t : ComponentType) (f : Found) (app : Option Component)
    → f.app ≡ app
    → (note c t f).app ≡ (if is_app t then some c else app)
unfolding note
note-app c deployment f app h = refl
note-app c stateful_set f app h = refl
note-app c cnpg_cluster f app h = h

find_components-last_app :
    (cs : List Component) (f : Found) (app : Option Component)
    → f.app ≡ app
    → (find_components cs f).app ≡ last_app cs app
unfolding find_components last_app
find_components-last_app [] f app h = h
find_components-last_app (c ∷ cs) f app h =
    find_components-last_app cs (note c c.type f) (if is_app c.type then some c else app)
      (note-app c c.type f app h)

-- `findAppComponent`, from which the backend Service takes its selector, and `buildProxyEnv`, from
-- which the proxy takes the backend's host, take the same component; the first fails exactly if the
-- second finds none.
pub find_app_component-find_components :
    (hs : SleepyService)
    → find_app_component hs
      ≡ elim (find_components hs.spec.components (record { app = none; cnpg = none })).app [
        | none ↦ err (text "no Deployment or StatefulSet component found")
        | some comp ↦ ok comp
      ]
unfolding find_app_component
find_app_component-find_components hs =
    rw (find_components-last_app hs.spec.components (record { app = none; cnpg = none }) none refl)
      refl
