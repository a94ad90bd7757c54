-- ===== src/Authz/Services/Canonical.antt =====
-- What `service_for_command` returns is a canonical `domain.service`, and taking such a name apart
-- again at its dot gives back the two parts.
use Prim.Native.String.append
use openclaw_hass_node.Prelude.{
  get_or, String, ◌<>◌, ◌≡◌, refl, ap, true, Option, none, some, [], ◌==◌, contains, all_chars,
  arith, Bool-cases, Option-cases, inl, inr,
}
use openclaw_hass_node.Value.{Value, str, Fields, get}
use openclaw_hass_node.Authz.Services.{
  household_allowed_services, partition_dot, in_household_table, service_allowed, is_name_char,
  is_service_name, wrapper_service, name_part, join_parts, service_for_command,
}

-- A domain and a service, each a service name, joined by a dot.
pub record IsCanonical (service : String) : Type 0 where
  pub domain : String
  pub name : String
  pub domain_valid : is_service_name domain ≡ true
  pub name_valid : is_service_name name ≡ true
  pub joined : service ≡ domain <> "." <> name

pub partition_dot-join_chars :
    (domain name : String)
    → all_chars is_name_char domain ≡ true
    → partition_dot (domain <> "." <> name) ≡ (domain, name)
unfolding partition_dot
partition_dot-join_chars String.[] name h =
    rw (append.nil ("." <> name), append.cons) (rw append.nil)
partition_dot-join_chars (String.◌∷◌ c domain) name h =
    rw append.cons (ground (arith, partition_dot-join_chars domain name))

-- Splitting a joined name at its first dot gives back the domain and the service.
pub partition_dot-join :
    (domain name : String)
    → is_service_name domain ≡ true
    → partition_dot (domain <> "." <> name) ≡ (domain, name)
unfolding is_service_name
partition_dot-join domain name h = partition_dot-join_chars domain name (ground arith)

-- So the table is consulted at exactly the two parts.
pub service_allowed-join :
    (domain name : String)
    → is_service_name domain ≡ true
    → service_allowed (domain <> "." <> name)
      ≡ contains (get_or domain household_allowed_services []) name
unfolding service_allowed
service_allowed-join domain name h = ap in_household_table (partition_dot-join domain name h)

name_part-IsServiceName :
    (o : Option Value) (value : String) → name_part o ≡ some value → is_service_name value ≡ true
unfolding name_part
name_part-IsServiceName (some (str raw)) value h = ground arith
name_part-IsServiceName none value h = cc
name_part-IsServiceName (some v) value h = cc

join_parts-IsCanonical :
    (d n : Option String) (service : String)
    → ((value : String) → d ≡ some value → is_service_name value ≡ true)
    → ((value : String) → n ≡ some value → is_service_name value ≡ true)
    → join_parts d n ≡ some service
    → IsCanonical service
join_parts-IsCanonical (some domain) (some name) service hd hn h = record {
  domain = domain;
  name = name;
  domain_valid = hd domain refl;
  name_valid = hn name refl;
  joined = ground arith;
}
join_parts-IsCanonical (some domain) none service hd hn h = ground arith
join_parts-IsCanonical none n service hd hn h = ground arith

abbrev Light : String → String → Type 0
Light name service = service ≡ "light" <> "." <> name

Light-IsCanonical :
    (name service : String) → is_service_name name ≡ true → Light name service → IsCanonical service
unfolding is_service_name
Light-IsCanonical name service v h = record {
  domain = "light";
  name = name;
  domain_valid = refl;
  name_valid = v;
  joined = h;
}

wrapper_service-IsCanonical :
    (command service : String) → wrapper_service command ≡ some service → IsCanonical service
unfolding wrapper_service is_service_name
wrapper_service-IsCanonical command service h = elim (Bool-cases (command == "ha.light_turn_on")) [
  | inl e ↦ Light-IsCanonical "turn_on" service refl (ground arith)
  | inr e ↦ Light-IsCanonical "turn_off" service refl (ground arith)
]

-- Every service that a command is judged by is canonical.
pub service_for_command-IsCanonical :
    (command : String) (params : Fields) (service : String)
    → service_for_command command params ≡ some service
    → IsCanonical service
unfolding service_for_command
service_for_command-IsCanonical command params service h =
    elim (Option-cases (wrapper_service command)) [
      | inl e ↦
          join_parts-IsCanonical (name_part (get "domain" params))
            (name_part (get "service" params)) service
            (name_part-IsServiceName (get "domain" params))
            (name_part-IsServiceName (get "service" params)) (ground arith)
      | inr (w, e) ↦ wrapper_service-IsCanonical command service (ground arith)
    ]
