-- ===== src/Tests/ServiceTests.antt =====
-- The service over a backend that allows everything and whose clock advances by one.
use authzcache.Base.{
  true, ℕ, suc, ◌≡◌, refl, ap, subst, List, [], ◌∷◌, map, none, some, arith, text_eq,
}
use authzcache.Base.Map.{lookup}
use authzcache.Sdk.{no_info, Relation, Check, other_error}
use authzcache.Cache.Checks.Gather.{answer}
use authzcache.Services.Backend.{replied, failed, error, Backend, BackendLaws, Session}
use authzcache.Services.Check.{check}
use authzcache.Services.Check.Merge.{Answered, sdk_reply, check-Answered}
use authzcache.Cache.Lookup.{
  get_who_can_access_cached, set_who_can_access_cached, get_what_can_target_access_cached,
  set_what_can_target_access_cached,
}
use authzcache.Services.Access.{
  candidate_relation, candidate_of_target, filter_candidates, who_can_access,
  what_can_target_access,
}
use authzcache.Services.Access.Listed.{Listed, who_can_access-Listed}
use authzcache.Services.Access.Listed.Relations.{what_can_target_access-Listed}
use authzcache.Services.Access.Filter.{Verified, filter_candidates-Verified}
use authzcache.Config.{Environment}
use authzcache.Remote.{RemoteSdk, new_descope_client_with_project_id, empty_project_id}
use authzcache.Services.Projects.Unknown.{unknown_project_refused}
use authzcache.Services.Projects.{
  check_method, who_can_access_method, what_can_target_access_method, create_fga_schema, Project,
  Service, create_fga_relations, delete_fga_relations, get_or_create_project_cache, load_project,
  create_project, store_project,
}
use authzcache.Services.Projects.Reuse.{project_reused}
use authzcache.Tests.ListLru.{new_list}
use authzcache.Cache.{new_project_authz_cache}
use authzcache.Services.Projects.Writes.{Settled, schema_save-Settled}
use authzcache.Tests.Concrete.{
  accessible, x, laws, settings, doc, user, group, owner, viewer, kind, relate, owns, fresh,
  direct_check, conditional_cache, request,
}

abbrev pub backend : Backend x
backend = record {
  World = ℕ;
  Client = Unit {0};
  project_id = λ ctx. kind;
  read_clock = λ w. (w, suc w);
  new_client = λ id w. (replied tt, w);
  check_with_context = λ client ctx rs request w. (replied (map direct_check rs), w);
  load_schema = λ client ctx w. (failed (other_error doc), w);
  save_schema = λ client ctx dsl w. (replied tt, w);
  create_relations = λ client ctx rs w. (replied tt, w);
  delete_relations = λ client ctx rs w. (replied tt, w);
  who_can_access = λ client ctx r d n w. (replied [], w);
  what_can_target_access = λ client ctx t w. (replied [], w);
}

about_all : (rs : List Relation) → map (λ (c : Check). c.relation) (map direct_check rs) ≡ rs
about_all [] = refl
about_all (r ∷ rs) = ap (◌∷◌ r) (about_all rs)

pub honest : BackendLaws x backend
honest = record {
  in_order = λ client ctx rs request w cs e.
      subst (λ cs. map (λ (c : Check). c.relation) cs ≡ rs) (replied-inj _ _ e) (about_all rs);
}
  where
    replied-inj : (a b : List Check) → replied a ≡ replied b → a ≡ b
    replied-inj a b e = ground arith

-- one relation is answered from the cache, the other by the backend
abbrev pub session : Session x backend
session = record { cache = conditional_cache; collector = some []; world = 1 }

abbrev pub hit : Check
hit = record { allowed = true; relation = owns; info = record no_info { conditional = true } }

check-Answered_example :
    Answered
      (answer laws tt request conditional_cache)
      (sdk_reply laws backend honest tt tt request 2)
      (relate doc viewer group ∷ owns ∷ [])
      (check backend tt tt (relate doc viewer group ∷ owns ∷ []) request session).0
check-Answered_example =
    check-Answered laws backend honest tt tt request (relate doc viewer group ∷ owns ∷ []) session

filter_candidates-Verified_example :
    Verified
      (answer laws tt request conditional_cache)
      (sdk_reply laws backend honest tt tt request 2)
      (candidate_relation doc owner kind)
      (user ∷ group ∷ [])
      (filter_candidates backend tt tt
        (candidate_relation doc owner kind)
        (user ∷ group ∷ [])
        request
        session).0
filter_candidates-Verified_example =
    filter_candidates-Verified laws backend honest tt tt (candidate_relation doc owner kind)
      (user ∷ group ∷ []) request session

abbrev pub project : Project backend
project = record { cache = fresh; client = tt }

abbrev pub service : Service backend
service = record {
  settings = settings;
  projects = (kind, project) ∷ [];
  collector = none;
  world = 1;
}

-- no project; the clock is where the settings of the tests start it
abbrev pub unused : Service backend
unused = record { settings = settings; projects = []; collector = none; world = 5 }

project_reused_example :
    get_or_create_project_cache backend tt (get_or_create_project_cache backend tt unused).1
    ≡ (replied project, (get_or_create_project_cache backend tt unused).1)
unfolding get_or_create_project_cache load_project create_project store_project lookup
    new_project_authz_cache new_list
project_reused_example = project_reused backend tt project unused refl

abbrev pub serving : Project backend
serving = record { cache = conditional_cache; client = tt }

abbrev pub serving_service : Service backend
serving_service = record {
  settings = settings;
  projects = (kind, serving) ∷ [];
  collector = none;
  world = 1;
}

schema_save-Settled_example :
    Settled laws backend kind serving owns
      (replied tt)
      (create_fga_schema backend tt doc serving_service)
unfolding lookup
schema_save-Settled_example =
    schema_save-Settled laws backend tt doc serving serving_service owns refl

-- the lookup cache has two targets and two relations
abbrev listing : Session x backend
listing = record session {
  cache =
      set_what_can_target_access_cached 1 user (accessible ∷ [])
        (set_who_can_access_cached 1 doc owner kind (user ∷ group ∷ []) conditional_cache);
}

who_can_access-Listed_example :
    Listed
      (answer laws tt request listing.cache)
      (sdk_reply laws backend honest tt tt request 3)
      (candidate_relation doc owner kind)
      (get_who_can_access_cached 1 doc owner kind listing.cache).0
      (replied [])
      (who_can_access backend tt tt doc owner kind request 0 listing).0
who_can_access-Listed_example =
    who_can_access-Listed laws backend honest tt tt request doc owner kind 0 listing

what_can_target_access-Listed_example :
    Listed
      (answer laws tt request listing.cache)
      (sdk_reply laws backend honest tt tt request 3)
      (candidate_of_target user)
      (get_what_can_target_access_cached 1 user listing.cache).0
      (replied [])
      (what_can_target_access backend tt tt user request 0 listing).0
what_can_target_access-Listed_example =
    what_can_target_access-Listed laws backend honest tt tt request user 0 listing

abbrev remote_sdk : RemoteSdk (Unit {0}) ℕ
remote_sdk = record {
  base_url = doc;
  raw_management_key = b'"' ∷ b'k' ∷ b'"' ∷ [];
  git_sha = doc;
  new_with_config = λ config w. (replied tt, w);
  set_list_conditions = λ on client. client;
  unknown_project = other_error;
}

abbrev plain_env : Environment
plain_env = record {
  int_or_provided = λ key default. default;
  bool_or_provided = λ key default. default;
}

-- the backend whose clients the program makes, for requests without a project
abbrev nameless : Backend x
nameless = record backend {
  project_id = λ ctx. [];
  new_client = new_descope_client_with_project_id plain_env remote_sdk;
}

abbrev nameless_service : Service nameless
nameless_service = record { settings = settings; projects = []; collector = none; world = 1 }

-- the same after one reading of the clock
abbrev read_once : Service nameless
read_once = record nameless_service { world = 2 }

unknown_project_refused_example :
    (create_fga_schema nameless tt doc nameless_service
      ≡ (error (other_error empty_project_id), nameless_service))
    × (create_fga_relations nameless tt (owns ∷ []) nameless_service
        ≡ (error (other_error empty_project_id), nameless_service))
    × (delete_fga_relations nameless tt (owns ∷ []) nameless_service
        ≡ (error (other_error empty_project_id), nameless_service))
    × (check_method nameless tt [] request nameless_service
        ≡ (error (other_error empty_project_id), read_once))
    × (who_can_access_method nameless tt doc owner kind request nameless_service
        ≡ (error (other_error empty_project_id), read_once))
    × (what_can_target_access_method nameless tt user request nameless_service
        ≡ (error (other_error empty_project_id), read_once))
unfolding lookup
unknown_project_refused_example =
    unknown_project_refused nameless plain_env remote_sdk (λ id w. refl) tt refl nameless_service
      refl doc doc owner kind user request owns []
