-- ===== src/Tests/RequestTests.antt =====
-- Requests one after the other, on the service of ServiceTests.
use authzcache.Base.{true, suc, ◌≡◌, refl, inl, List, [], ◌∷◌, some, text_eq}
use authzcache.Base.Map.{lookup, insert}
use authzcache.Direct.Key.{IsPlain-IsUnambiguous}
use authzcache.Cache.Checks.Gather.{answer, cached_grant}
use authzcache.Cache.Checks.{serve_grant, cert_matches, conditions_eval_to, evaluates_to}
use authzcache.Cel.{eval, bind_params}
use authzcache.Direct.{key}
use authzcache.Services.Check.Hits.{metered, hits_make_no_call}
use authzcache.Cache.Updates.Hits.{served}
use authzcache.Services.Check.Repeat.{plain_grant, asked_once}
use authzcache.Services.Backend.{ok, replied}
use authzcache.Services.Check.{check}
use authzcache.Services.Projects.{
  create_fga_schema, Project, saved_schema, saving, creating, added_at, after_write, with_project,
  run_body, Service, create_fga_relations, delete_fga_relations, get_or_create_project_cache,
  load_project, create_project, store_project,
}
use authzcache.Services.Projects.Requests.{Request, save, create, fire, serve, serve_all}
use authzcache.Services.Projects.Requests.Apart.{NoneFor, projects_apart}
use authzcache.Services.Projects.Requests.Written.{requests_then_write}
use authzcache.Cache.Schemas.{update_cache_with_schema}
use authzcache.Cache.Updates.{update_cache_with_added_relations}
use authzcache.Tests.ListLru.{new_list}
use authzcache.Cache.{new_project_authz_cache}
use authzcache.Services.Projects.Writes.{Settled}
use authzcache.Tests.Concrete.{
  run_program, laws, doc, group, viewer, kind, relate, owns, fresh, direct_check, request,
}
use authzcache.Tests.ServiceTests.{backend, session, hit, unused, serving, serving_service}

abbrev earlier : List (Request backend)
earlier = save tt doc ∷ create tt (relate doc viewer group ∷ []) ∷ []

abbrev by_then : Project backend
by_then = record {
  cache =
      update_cache_with_added_relations 6 (relate doc viewer group ∷ [])
        (update_cache_with_schema (some (saved_schema doc)) fresh);
  client = tt;
}

requests_then_write_example :
    Settled laws backend kind by_then owns (replied tt) (
      create_fga_relations backend tt
        (relate doc viewer group ∷ [])
        (serve_all backend earlier unused))
    × Settled laws backend kind by_then owns (replied tt) (
        delete_fga_relations backend tt
          (relate doc viewer group ∷ [])
          (serve_all backend earlier unused))
unfolding serve_all serve create_fga_schema create_fga_relations saving creating added_at
    after_write with_project run_body get_or_create_project_cache load_project create_project
    store_project lookup insert new_project_authz_cache new_list
requests_then_write_example =
    requests_then_write laws backend earlier unused tt by_then (relate doc viewer group ∷ []) owns
      refl refl
      (IsPlain-IsUnambiguous owns (record { resource = refl; target = refl; relation = refl }))
      (inl (inl refl))

-- a project that was served before, beside the one that the requests are for
abbrev two_projects : Service backend
two_projects = record serving_service { projects = (doc, serving) ∷ [] }

projects_apart_example :
    lookup doc (serve_all backend (fire kind 3 ∷ earlier) two_projects).projects
    ≡ lookup doc two_projects.projects
unfolding NoneFor
projects_apart_example =
    projects_apart backend doc (fire kind 3 ∷ earlier) two_projects (refl, (refl, (refl, tt)))

-- the cached relation twice
hits_make_no_call_example :
    ((check backend tt tt (owns ∷ owns ∷ []) request session).0 ≡ ok (hit ∷ hit ∷ []))
    × ((check backend tt tt (owns ∷ owns ∷ []) request session).1.world ≡ 3)
unfolding answer cached_grant serve_grant cert_matches conditions_eval_to evaluates_to eval
    bind_params run_program lookup insert key
hits_make_no_call_example =
    hits_make_no_call laws backend tt tt request (owns ∷ owns ∷ []) (hit ∷ hit ∷ []) session refl

asked_once_example :
    let asked = direct_check (relate doc viewer group) in
    let first = check backend tt tt (asked.relation ∷ []) request session in
    let second = check backend tt tt (asked.relation ∷ []) request first.1 in
    (first.0 ≡ ok (asked ∷ []))
    × (second.0 ≡ ok (served asked.relation true (plain_grant asked) ∷ []))
    × (second.1.world ≡ metered laws backend first.1.collector (suc first.1.world))
unfolding answer cached_grant lookup insert key
asked_once_example =
    asked_once laws backend tt tt request (direct_check (relate doc viewer group)) 2 session tt tt
      request (record { direct = refl; conditional = refl; fact_used = refl }) refl refl
