-- ===== src/Tests/Concrete.antt =====
-- Externals that meet the laws: list caches, conditions that are the name of a Boolean value of the
-- request.
use authzcache.Base.{◌≡◌, refl, ℕ, Bool, true, false, [], ◌∷◌, none, some, Text, text_eq, ◌==◌}
use authzcache.Base.Map.{Map, lookup}
use authzcache.Sdk.{Relation, AuthzRelation, Check, no_info, GoError, descope_error, other_error}
use authzcache.Cel.{CelEngine, Outcome, failed, boolean, RequestContext}
use authzcache.Direct.{CachedGrant, key}
use authzcache.Cache.{Externals, ExternalLaws, Settings, ProjectCache, new_project_authz_cache}
use authzcache.Base.Int.{pos}
use authzcache.Tests.ListLru.{list_lru, list_lru_laws, new_list}

unfoldable pub run_program : Text → Map Text Bool → Outcome
run_program p vars = elim (lookup p vars) [ none ↦ failed | some b ↦ boolean b ]

abbrev pub cel : CelEngine
cel = record {
  Context = Unit {0};
  Value = Bool;
  Typed = Bool;
  CheckedExpr = Text;
  Environment = Unit {0};
  Program = Text;
  new_env = some tt;
  unmarshal = λ s. some s;
  program = λ env s. some s;
  coerce = λ kind v. some v;
  context_eval = λ ctx timeout p vars. run_program p vars;
}

abbrev pub has_code : GoError → Text → Bool
has_code (descope_error e) code = e.code == code
has_code (other_error s) code = false

abbrev pub x : Externals
x = record { cel = cel; grants = list_lru CachedGrant; lookups = list_lru ℕ; is_error = has_code }

abbrev pub laws : ExternalLaws x
laws = record { grants = list_lru_laws CachedGrant; lookups = list_lru_laws ℕ }

abbrev pub settings : Settings
settings = record {
  direct_size = pos 3;
  indirect_size = pos 3;
  polling_interval_ms = 15_000;
  cooldown_window_minutes = 2;
  cel_timeout_ms = 1000;
  lookup_enabled = true;
  lookup_size = pos 4;
  lookup_ttl_seconds = 60;
  lookup_max_result = pos 10;
}

abbrev pub doc : Text
doc = b'd' ∷ []

abbrev pub folder : Text
folder = b'f' ∷ []

abbrev pub user : Text
user = b'u' ∷ []

abbrev pub group : Text
group = b'g' ∷ []

abbrev pub owner : Text
owner = b'o' ∷ []

abbrev pub viewer : Text
viewer = b'v' ∷ []

abbrev pub kind : Text
kind = b'k' ∷ []

abbrev pub relate : Text → Text → Text → Relation
relate resource relation target = record {
  resource = resource;
  resource_type = kind;
  relation = relation;
  target = target;
  target_type = kind;
}

-- a new project cache
abbrev pub fresh : ProjectCache x
fresh = record {
  schema = none;
  direct = record {
    cached = record { cap = 3; items = [] };
    resources = [];
    targets = [];
    components = [];
  };
  indirect = record { cap = 3; items = [] };
  compiled = [];
  loaded_version = [];
  cel_timeout = 1_000_000_000;
  lookup_cache = some (record { cap = 4; items = [] });
  entries = [];
  lookup_enabled = true;
  lookup_ttl = 60_000_000_000;
  lookup_max_result = pos 10;
  remote = record {
    last_poll_time = 5;
    polling_interval = 15_000_000_000;
    cooldown_window = 120_000_000_000;
    cooldown_timer = none;
  };
}

pub made : new_project_authz_cache x settings 5 ≡ some fresh
unfolding new_project_authz_cache new_list
made = refl

abbrev pub allow : CachedGrant
allow = record { allowed = true; cond = none }

abbrev pub owns : Relation
owns = relate doc owner user

-- a direct check by the backend
abbrev pub direct_check : Relation → Check
direct_check r = record { allowed = true; relation = r; info = record no_info { direct = true } }

-- a conditional one, on condition 7
abbrev pub conditional_check : Relation → Check
conditional_check r = record {
  allowed = true;
  relation = r;
  info = record no_info { direct = true; conditional = true; true_conditions = 7 ∷ [] };
}

-- A cache with condition 7, which is the Boolean `k` of the request, and a certificate on it.
abbrev pub conditional_cache : ProjectCache x
conditional_cache = record fresh {
  compiled =
      (7, record { name = kind; program = kind; params = record { name = kind; kind = kind } ∷ [] })
      ∷ [];
  direct = record fresh.direct {
    cached = record {
      cap = 3;
      items =
          (
            key owns,
            record {
              allowed = true;
              cond = some (record { true_conds = 7 ∷ []; false_conds = [] });
            },
          )
          ∷ [];
    };
  };
}

abbrev pub request : RequestContext cel
request = (kind, true) ∷ []

abbrev pub accessible : AuthzRelation
accessible = record {
  resource = doc;
  relation_definition = owner;
  namespace = kind;
  target = user;
  target_set_resource = [];
  target_set_relation_definition = [];
  target_set_relation_definition_namespace = [];
}
