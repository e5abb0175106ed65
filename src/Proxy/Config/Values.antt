-- ===== src/Proxy/Config/Values.antt =====
-- The values that the functions of `loadConfig` read from what was printed for them.
use mathlib.Core.Option
use sleepyservice.Prelude.{
  ◌≡◌, ◌≢◌, ◌<◌, refl, sym, ◌∙◌, ap, String, Bool, true, false, Option, none, some, List, [], ◌∷◌,
  if_neg, string_discrete, join, map, All, length, length-append, ◌++◌, codes, show_ℤ, ℤ, pos,
  negsuc, int32, wrap, arith, ◌<>◌,
}
use sleepyservice.Prelude.Text.Digits.{codes-append}
use sleepyservice.Errors.{text, ok, err}
use sleepyservice.Api.{SleepyService, ServicePort, Component}
use sleepyservice.Strconv.{split, trim_space, parse_signed, parse_int, parse_bool, fits}
use sleepyservice.Strconv.Signed.{show_ℤ-IsPlain, parse_signed-show_ℤ, parse_int-show_ℤ}
use sleepyservice.Strconv.Parts.{AllPlain, split-join, trim_space_plain}
use sleepyservice.Controller.Ports.{
  default_port, backend_port, ports_or, given_ports, build_backend_service_ports,
}
use sleepyservice.Controller.Backend.Agreement.{port_numbers, texts}
use sleepyservice.Controller.ProxyEnv.{
  find_components, build_proxy_env, backend_name, app_env, port_texts,
}
use sleepyservice.Proxy.Config.{
  Config, with_port, parse_ports, required, get_env, get_env_bool, get_env_int, get_env_duration,
}
use sleepyservice.Proxy.Config.Environment.{variables, show_replicas, show_debug, ref_name}

-- Of `time.Duration.String` and `time.ParseDuration`, on durations of 64 bits: what the one prints, the other reads back, and
-- the empty text is an error.
pub record IsDuration (show : ℤ → String) (parse : String → Option ℤ) : Type 0 where
  pub read_back : (d : ℤ) → fits 63 d ≡ true → parse (show d) ≡ some d
  pub not_empty : parse "" ≡ none

abbrev pub is_on : Option Bool → Bool
is_on (some true) = true
is_on _ = false

-- What the configuration of the proxy should be.
abbrev pub configured : SleepyService → Component → Option Component → Config
configured hs app cnpg = record {
  namespace = hs.namespace;
  sleepy_service_name = hs.name;
  deployment_name = app.ref.name;
  cnpg_cluster_name = ref_name cnpg;
  backend_host = backend_name hs app <> "." <> hs.namespace;
  backend_ports = port_numbers (build_backend_service_ports hs);
  desired_replicas = Option.get_or app.replicas (pos 1);
  wake_timeout = hs.spec.wake_timeout;
  idle_timeout = hs.spec.idle_timeout;
  debug_endpoints = is_on hs.spec.debug;
}

-- What is asked of a service: it has names, and its numbers are those of the API's
-- `int32` fields and of durations of 64 bits.
pub record IsConfigurable (hs : SleepyService) (app : Component) : Type 0 where
  pub namespace : hs.namespace ≢ ""
  pub name : hs.name ≢ ""
  pub ports : All (λ n. fits 31 n ≡ true) (port_numbers (build_backend_service_ports hs))
  pub replicas : fits 31 (Option.get_or app.replicas (pos 1)) ≡ true
  pub wake_timeout : fits 63 hs.spec.wake_timeout ≡ true
  pub idle_timeout : fits 63 hs.spec.idle_timeout ≡ true

pub int32-fits : (z : ℤ) → fits 31 z ≡ true → int32 z ≡ z
unfolding wrap
int32-fits (pos n) h = ground arith
int32-fits (negsuc n) h = ground arith

pub parse_signed-nil : parse_signed [] ≡ none
unfolding parse_signed
parse_signed-nil = refl

pub show_ℤ-ne : (z : ℤ) → show_ℤ z ≢ ""
show_ℤ-ne z e = cc (parse_signed-nil, parse_signed-show_ℤ z, ap parse_signed (ap codes e))

pub parse_ports-texts :
    (ns : List ℤ) → All (λ n. fits 31 n ≡ true) ns → parse_ports (map codes (texts ns)) ≡ ok ns
unfolding parse_ports
parse_ports-texts [] h = refl
parse_ports-texts (n ∷ ns) h =
    ap (λ p. with_port p (parse_ports (map codes (texts ns))))
      (ap (parse_int 31) (trim_space_plain (codes (show_ℤ n)) (show_ℤ-IsPlain n))
        ∙ parse_int-show_ℤ 31 n h.0)
    ∙ ap (λ r. with_port (some n) r) (parse_ports-texts ns h.1)

pub texts-AllPlain : (ns : List ℤ) → AllPlain (texts ns)
texts-AllPlain [] = tt
texts-AllPlain (n ∷ ns) = (show_ℤ-IsPlain n, texts-AllPlain ns)

pub split-texts :
    (n : ℤ) (ns : List ℤ)
    → split b',' (codes (join "," (texts (n ∷ ns)))) ≡ map codes (texts (n ∷ ns))
split-texts n ns = split-join (show_ℤ n) (texts ns) (texts-AllPlain (n ∷ ns))

-- `buildProxyEnv`, where it finds an application component, sets these variables.
pub build_proxy_env-variables :
    (show : ℤ → String) (hs : SleepyService) (app : Component) (cnpg : Option Component)
    → (find_components hs.spec.components (record { app = none; cnpg = none }))
      ≡ record { app = some app; cnpg = cnpg }
    → build_proxy_env show hs
      ≡ variables hs.namespace hs.name
          (show hs.spec.wake_timeout)
          (show hs.spec.idle_timeout)
          hs.spec.debug
          app.ref.name
          (backend_name hs app <> "." <> hs.namespace)
          (join "," (port_texts (given_ports hs)))
          app.replicas
          cnpg
unfolding build_proxy_env app_env
build_proxy_env-variables show hs app cnpg e = rw e refl

module _ (getenv : String → String) where
  pub get_env-set :
      (key default value : String)
      → getenv key ≡ value
      → value ≢ ""
      → get_env getenv key default ≡ value
  unfolding get_env
  get_env-set key default value e h = ground arith

  pub get_env-plain : (key value : String) → getenv key ≡ value → get_env getenv key "" ≡ value
  unfolding get_env
  get_env-plain key value e = ground arith

  pub get_env_bool-debug :
      (key : String) (debug : Option Bool)
      → getenv key ≡ show_debug debug
      → get_env_bool getenv key false ≡ is_on debug
  unfolding get_env_bool parse_bool string_discrete
  get_env_bool-debug key none e = rw e refl
  get_env_bool-debug key (some true) e = rw e refl
  get_env_bool-debug key (some false) e = rw e refl

  pub get_env_int-show :
      (key : String) (n : Option ℤ)
      → getenv key ≡ show_replicas n
      → fits 31 (Option.get_or n (pos 1)) ≡ true
      → get_env_int getenv key (pos 1) ≡ Option.get_or n (pos 1)
  unfolding get_env_int
  get_env_int-show key none e h = unfold string_discrete in rw e refl
  get_env_int-show key (some n) e h =
      rw (if_neg (string_discrete (getenv key) "") (λ k. show_ℤ-ne n (sym e ∙ k))) (
        ap (λ s. Option.get_or (parse_int 63 (codes s)) (pos 1)) e
        ∙ ap (λ o. Option.get_or o (pos 1)) (parse_int-show_ℤ 63 n (fits_wider n h)))
    where
      fits_wider : (n : ℤ) → fits 31 n ≡ true → fits 63 n ≡ true
      fits_wider (pos n) h = ground arith
      fits_wider (negsuc n) h = ground arith

  module _ (show : ℤ → String) (parse : String → Option ℤ) (durations : IsDuration show parse) where
    pub show-ne : (d : ℤ) → fits 63 d ≡ true → show d ≢ ""
    show-ne d h e = cc (durations.read_back d h, durations.not_empty, ap parse e)

    pub get_env_duration-show :
        (key : String) (default d : ℤ)
        → fits 63 d ≡ true
        → getenv key ≡ show d
        → get_env_duration getenv parse key default ≡ d
    unfolding get_env_duration
    get_env_duration-show key default d h e =
        rw (if_neg (string_discrete (getenv key) "") (λ k. show-ne d h (sym e ∙ k))) (
          ap (λ s. Option.get_or (parse s) default) e
          ∙ ap (λ o. Option.get_or o default) (durations.read_back d h))

pub host-ne : (a b : String) → a <> "." <> b ≢ ""
host-ne a b e = omega (
  arith,
  ap length e_codes,
  length-append (codes a) (codes ("." <> b)),
  ap length (codes-append "." b),
)
  where
    e_codes : codes a ++ codes ("." <> b) ≡ []
    e_codes = sym (codes-append a ("." <> b)) ∙ ap codes e

pub required_lem : (message value : String) → value ≢ "" → required message value ≡ ok tt
unfolding required
required_lem message value h = if_neg (string_discrete value "") h (err (text message)) (ok tt)

pub parsed_texts :
    (ns : List ℤ)
    → 0 < length ns
    → All (λ n. fits 31 n ≡ true) ns
    → parse_ports (split b',' (codes (join "," (texts ns)))) ≡ ok ns
parsed_texts [] some_port h = absurd (omega arith)
parsed_texts (n ∷ ns) some_port h = ap parse_ports (split-texts n ns) ∙ parse_ports-texts (n ∷ ns) h

pub unset_ports : parse_ports (split b',' (codes "")) ≡ err (text "Invalid port in BACKEND_PORTS")
unfolding parse_ports split trim_space parse_int parse_signed
unset_ports = refl

pub numbers_pos : (hs : SleepyService) → 0 < length (port_numbers (build_backend_service_ports hs))
unfolding build_backend_service_ports
numbers_pos hs = pos_of (given_ports hs)
  where
    pos_of :
        (l : List ServicePort) → 0 < length (port_numbers (ports_or default_port backend_port l))
    pos_of [] = omega arith
    pos_of (p ∷ l) = omega arith
